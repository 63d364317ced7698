-- ===== src/Ec/Console.antt =====
-- chromium_ec/mod.rs: reading the console of the EC.
pub mod Endings
use framework_system.Base.{
  ℕ, zero, suc, List, [], ◌∷◌, ◌++◌, Bool, true, false, ltb, ◌==◌, ◌&&◌, not, if◌then◌else◌, Option,
  none, some, ok, err, panic, unwrap,
}
use framework_system.EcBinary.Text.{from_utf8}
use framework_system.Ec.Status.{EcResult}
use framework_system.Ec.Driver.{Driver, Ec, bind, pure, map_result}
use framework_system.Ec.Commands.{send, send_vec}
use framework_system.Ec.Requests.{
  console_snapshot_request, console_read_request, ConsoleReadSubCommand, console_read_next,
  console_read_recent,
}

-- The two calls of `replace`: characters beyond ASCII and zeros are removed. All bytes of a character
-- beyond ASCII are 0x80 or more.
unfoldable pub keep_ascii : List ℕ → List ℕ
keep_ascii [] = []
keep_ascii (b ∷ bs) =
    let rest = keep_ascii bs in if ltb b 0x80 && not (b == 0) then b ∷ rest else rest

-- `str::from_utf8(&data).unwrap()`, and what is kept of it.
unfoldable pub console_text : List ℕ → EcResult (List ℕ)
unfolding keep_ascii
console_text bytes = elim (from_utf8 bytes) [ none ↦ panic | some utf8 ↦ ok (keep_ascii utf8) ]

abbrev pub some_text : EcResult (List ℕ) → EcResult (Option (List ℕ))
some_text (ok ascii) = ok (some ascii)
some_text (err e) = err e
some_text panic = panic

module _ (D : Driver) where
  -- One response, or `none` where the EC reports an error.
  unfoldable pub read_console : ConsoleReadSubCommand → Ec D (Option (List ℕ))
  read_console subcmd = map_result D text (send_vec D (console_read_request subcmd))
    where
      text : EcResult (List ℕ) → EcResult (Option (List ℕ))
      text (err e) = ok none
      text panic = panic
      text (ok bytes) = some_text (console_text bytes)

  -- The endless loop, on fuel: `none` if the fuel does not last until the EC reports an error.
  unfoldable pub console_loop : ℕ → ConsoleReadSubCommand → List ℕ → Ec D (Option (List ℕ))
  unfolding read_console
  console_loop zero subcmd console = pure D (ok none)
  console_loop (suc fuel) subcmd console =
      bind D (read_console subcmd)
        (next console λ ascii. console_loop fuel console_read_next (console ++ ascii))
    where
      next : List ℕ → (List ℕ → Ec D (Option (List ℕ))) → Option (List ℕ) → Ec D (Option (List ℕ))
      next console more none = pure D (ok (some console))
      next console more (some ascii) = more ascii

  unfoldable pub console_read : ℕ → Ec D (Option (List ℕ))
  unfolding console_loop
  console_read fuel =
      bind D (send D console_snapshot_request) λ _. console_loop fuel console_read_recent []

  unfoldable pub console_read_one : Ec D (List ℕ)
  unfolding console_text
  console_read_one = bind D (send D console_snapshot_request) λ _.
      bind D (send_vec D (console_read_request console_read_recent))
        λ bytes. pure D (console_text bytes)
