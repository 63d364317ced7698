-- ===== src/Ec/Console/Endings.antt =====
-- How `console_read` (chromium_ec/mod.rs) ends.
use framework_system.Base.{
  ℕ, zero, suc, ◌<◌, List, [], ◌∷◌, ◌++◌, length, All, Bool, ltb, ◌&&◌, if◌then◌else◌, none, ◌≡◌,
  refl, sym, ap, ◌∙◌, ok, err, true, some, arith,
}
use mathlib.Core.List.{append-nil, append_assoc}
use framework_system.EcBinary.Text.{is_utf8, from_utf8}
use framework_system.Ec.Status.{EcError, EcResult}
use framework_system.Ec.Driver.{Driver, send_request, send_command_extra, send_command_vec_extra}
use framework_system.Ec.Commands.{send, send_vec, command_code}
use framework_system.Ec.Requests.{ConsoleReadSubCommand, console_read_next, console_read_recent}
use framework_system.Ec.Console.{
  keep_ascii, console_text, some_text, read_console, console_loop, console_read,
}

-- An EC with some pieces of output left; when there are none, it reports an error. Behind a snapshot
-- of the console the first read has to be for the recent output (1), and the reads behind it for the
-- next output (0).
pub record Talker : Type 1 where
  pub driver : Driver
  pub left : driver.State → List (List ℕ)
  pub IsFresh : driver.State → Type 0
  pub IsStarted : driver.State → Type 0
  pub snapped : driver.State → driver.State
  pub after : driver.State → driver.State
  pub failure : EcError
  pub answers_snapshot : (s : driver.State) → driver.send_command 0x97 0 [] s ≡ (ok [], snapped s)
  pub snaps : (s : driver.State) → IsFresh (snapped s) × (left (snapped s) ≡ left s)
  pub answers_recent :
      (s : driver.State) (piece : List ℕ) (pieces : List (List ℕ))
      → IsFresh s
      → left s ≡ piece ∷ pieces
      → driver.send_command 0x98 1 (1 ∷ []) s ≡ (ok piece, after s)
  pub answers_next :
      (s : driver.State) (piece : List ℕ) (pieces : List (List ℕ))
      → IsStarted s
      → left s ≡ piece ∷ pieces
      → driver.send_command 0x98 1 (0 ∷ []) s ≡ (ok piece, after s)
  pub takes :
      (s : driver.State) (piece : List ℕ) (pieces : List (List ℕ))
      → left s ≡ piece ∷ pieces
      → IsStarted (after s) × (left (after s) ≡ pieces)
  pub ends_recent :
      (s : driver.State)
      → IsFresh s
      → left s ≡ []
      → driver.send_command 0x98 1 (1 ∷ []) s ≡ (err failure, s)
  pub ends_next :
      (s : driver.State)
      → IsStarted s
      → left s ≡ []
      → driver.send_command 0x98 1 (0 ∷ []) s ≡ (err failure, s)

-- The characters from 1 to 0x7F.
abbrev is_shown : ℕ → Bool
is_shown b = ltb 0 b && ltb b 0x80

abbrev pub ascii : List ℕ → List ℕ
ascii [] = []
ascii (b ∷ bs) = if is_shown b then b ∷ ascii bs else ascii bs

-- Those of some pieces of output.
abbrev pub shown : List (List ℕ) → List ℕ
shown [] = []
shown (piece ∷ pieces) = ascii piece ++ shown pieces

keep_ascii-ascii : (bytes : List ℕ) → keep_ascii bytes ≡ ascii bytes
unfolding keep_ascii
keep_ascii-ascii [] = refl
keep_ascii-ascii (b ∷ bs) = ground (arith, keep_ascii-ascii bs)

abbrev pub IsUtf8 : List ℕ → Type 0
IsUtf8 piece = is_utf8 piece ≡ true

console_text-utf8 : (piece : List ℕ) → IsUtf8 piece → console_text piece ≡ ok (ascii piece)
unfolding console_text from_utf8
console_text-utf8 piece h = rw (h, console_text, from_utf8) (ap ok (keep_ascii-ascii piece))

module _ (T : Talker) where
  -- Whether a read with the subcommand fits a state.
  abbrev Fits : ConsoleReadSubCommand → T.driver.State → Type 0
  Fits console_read_recent s = T.IsFresh s
  Fits console_read_next s = T.IsStarted s

  read_console-more :
      (sub : ConsoleReadSubCommand) (s : T.driver.State) (piece : List ℕ) (pieces : List (List ℕ))
      → Fits sub s
      → T.left s ≡ piece ∷ pieces
      → IsUtf8 piece
      → read_console T.driver sub s ≡ (ok (some (ascii piece)), T.after s)
  unfolding read_console send_vec send_command_vec_extra command_code
  read_console-more console_read_recent s piece pieces f e h =
      rw (T.answers_recent s piece pieces f e)
        (ap (λ (r : EcResult (List ℕ)). (some_text r, T.after s)) (console_text-utf8 piece h))
  read_console-more console_read_next s piece pieces f e h =
      rw (T.answers_next s piece pieces f e)
        (ap (λ (r : EcResult (List ℕ)). (some_text r, T.after s)) (console_text-utf8 piece h))

  read_console-ended :
      (sub : ConsoleReadSubCommand) (s : T.driver.State)
      → Fits sub s
      → T.left s ≡ []
      → read_console T.driver sub s ≡ (ok none, s)
  unfolding read_console send_vec send_command_vec_extra command_code
  read_console-ended console_read_recent s f e = rw (T.ends_recent s f e) refl
  read_console-ended console_read_next s f e = rw (T.ends_next s f e) refl

  console_loop-shown :
      (pieces : List (List ℕ)) (fuel : ℕ) (sub : ConsoleReadSubCommand) (console : List ℕ)
      (s : T.driver.State)
      → Fits sub s
      → T.left s ≡ pieces
      → All IsUtf8 pieces
      → length pieces < fuel
      → (console_loop T.driver fuel sub console s).0 ≡ ok (some (console ++ shown pieces))
  unfolding console_loop
  console_loop-shown pieces zero sub console s f e h k = absurd (omega arith)
  console_loop-shown [] (suc fuel) sub console s f e h k =
      rw (read_console-ended sub s f e) (ap (λ t. ok (some t)) (sym (append-nil console)))
  console_loop-shown (piece ∷ pieces) (suc fuel) sub console s f e h k =
      let (started, fewer) = T.takes s piece pieces e in
      let rest =
        console_loop-shown pieces fuel console_read_next (console ++ ascii piece) (T.after s)
          started fewer h.1 (omega arith) in
      rw (read_console-more sub s piece pieces f e h.0)
        (rest ∙ ap (λ t. ok (some t)) (append_assoc console (ascii piece) (shown pieces)))

  -- Over an EC that has some pieces of UTF-8 output left and then reports an error, and that wants a
  -- snapshot, one read of the recent output, and reads of the next output, `console_read` ends, with
  -- more fuel than there are pieces, and returns their characters from 1 to 0x7F in order.
  pub console_read-shown :
      (fuel : ℕ) (s : T.driver.State)
      → All IsUtf8 (T.left s)
      → length (T.left s) < fuel
      → (console_read T.driver fuel s).0 ≡ ok (some (shown (T.left s)))
  unfolding console_read send send_request send_command_extra send_command_vec_extra command_code
  console_read-shown fuel s h k =
      let (fresh, same) = T.snaps s in
      rw (T.answers_snapshot s)
        (console_loop-shown (T.left s) fuel console_read_recent [] (T.snapped s) fresh same h k)
