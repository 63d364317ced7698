-- ===== src/Ec/Board/Reach.antt =====
-- chromium_ec/portio.rs on Linux and a board without a MEC: the states that the calls of the driver
-- reach.
use framework_system.Base.{
  ℕ, ◌+◌, ◌≤◌, List, length, Bool, true, false, Option, none, some, ok, err, panic, ◌≡◌, refl,
  subst, sym, ◌∙◌, ◌⊎◌, inl, inr, arith,
}
use framework_system.Ec.Status.{EcResult}
use framework_system.Ec.Select.{ec_memmap_size}
use framework_system.Ec.Port
use framework_system.Ec.Mec
use framework_system.Ec.Board.{
  Host, Initialized, not_yet, succeeded, failed, init, linux_init, send_command, read_memory,
}
use framework_system.Ec.Board.Plain.{initialized, send_command-plain}
use framework_system.Ec.Board.Watched.{watched}
use framework_system.Ec.Board.Uses.{Ended, send_command-IsAllowed, transfer_read-MayUse}
use framework_system.Ec.Board.Permissions.{Ports, IsSound, plain_init, init-IsSound}

not_yet_differs : not_yet ≡ succeeded → ⊥
not_yet_differs e = cc

failed_differs : failed ≡ succeeded → ⊥
failed_differs e = cc

module _ (H : Host) (aligned : Bool) where
  abbrev Answer : Type 0
  Answer = EcResult (List ℕ) × (Initialized × Ports H)

  -- The calls in a build without overflow checks and debug assertions.
  abbrev pub plain_send : ℕ → ℕ → ℕ → List ℕ → Initialized × Ports H → Option Answer
  plain_send = send_command (watched H) true (ok false) aligned false

  abbrev pub plain_read : ℕ → ℕ → Initialized × Ports H → Answer
  plain_read = read_memory (watched H) true (ok false) aligned false

  abbrev pub IsFull : EcResult (List ℕ) → Type 0
  IsFull r = (bytes : List ℕ) × (r ≡ ok bytes) × (length bytes ≡ 256)

  kept_or_IsFull :
      (o : Option (EcResult (List ℕ) × Ports H)) (r : EcResult (List ℕ))
      (w' : Initialized × Ports H)
      → Ended H o
      → initialized (watched H) true aligned false o ≡ some (r, w')
      → IsSound H w' ⊎ IsFull r
  kept_or_IsFull none r w' h e = cc
  kept_or_IsFull (some (r1, s1)) r w' (inl (clean, has)) e =
      let same : (succeeded, s1) ≡ w' = cc in inl (subst (IsSound H) same (clean, λ q. has))
  kept_or_IsFull (some (r1, s1)) r w' (inr full) e =
      let same : r1 ≡ r = cc in inr (subst IsFull same full)

  kept :
      (r1 r : EcResult (List ℕ)) (w1 w' : Initialized × Ports H)
      → IsSound H w1
      → ◌≡◌ {A = Option Answer} (some (r1, w1)) (some (r, w'))
      → IsSound H w' ⊎ IsFull r
  kept r1 r w1 w' sound e = let same : w1 ≡ w' = cc in inl (subst (IsSound H) same sound)

  -- What `init` answered decides what a command does.
  send_started :
      (fuel command version : ℕ) (payload : List ℕ) (w w' : Initialized × Ports H)
      (r : EcResult (List ℕ)) (x : EcResult Bool × (Initialized × Ports H))
      → plain_init H w ≡ x
      → IsSound H x.1
      → (x.0 ≡ ok true → x.1.0 ≡ succeeded)
      → plain_send fuel command version payload w ≡ some (r, w')
      → IsSound H w' ⊎ IsFull r
  unfolding send_command init linux_init
  send_started fuel command version payload w w' r (ok true, (succeeded, s)) e sound started run =
      let sent = Port.send_command (watched H).ports.bytes false fuel command version payload s in
      kept_or_IsFull sent r w'
        (send_command-IsAllowed H fuel command version payload s (sound.0, sound.1 refl))
        (sym (send_command-plain (watched H) true aligned false fuel command version payload s)
          ∙ (rw e at run))
  send_started fuel command version payload w w' r (ok true, (not_yet, s)) e sound started run =
      absurd (not_yet_differs (started refl))
  send_started fuel command version payload w w' r (ok true, (failed, s)) e sound started run =
      absurd (failed_differs (started refl))
  send_started fuel command version payload w w' r (ok false, w1) e sound started run =
      kept _ r w1 w' sound (rw e at run)
  send_started fuel command version payload w w' r (err f, w1) e sound started run =
      kept _ r w1 w' sound (rw e at run)
  send_started fuel command version payload w w' r (panic, w1) e sound started run =
      kept _ r w1 w' sound (rw e at run)

  send-IsSound :
      (fuel command version : ℕ) (payload : List ℕ) (w w' : Initialized × Ports H)
      (r : EcResult (List ℕ))
      → IsSound H w
      → plain_send fuel command version payload w ≡ some (r, w')
      → IsSound H w' ⊎ IsFull r
  send-IsSound fuel command version payload w w' r sound run =
      let (still, started) = init-IsSound H w sound in
      send_started fuel command version payload w w' r (plain_init H w) refl still started run

  read_started :
      (offset size : ℕ) (w : Initialized × Ports H) (x : EcResult Bool × (Initialized × Ports H))
      → plain_init H w ≡ x
      → IsSound H x.1
      → (x.0 ≡ ok true → x.1.0 ≡ succeeded)
      → offset + size ≤ ec_memmap_size
      → IsSound H (plain_read offset size w).1
  unfolding read_memory Mec.read_memory
  read_started offset size w (ok true, (succeeded, s)) e (clean, has) started h =
      let (clean', has') =
        transfer_read-MayUse H 0xE00 offset size s
          (λ i l. inr (inr (inr (omega arith, omega arith)))) (clean, has refl) in
      rw (e) (clean', λ q. has')
  read_started offset size w (ok true, (not_yet, s)) e sound started h =
      absurd (not_yet_differs (started refl))
  read_started offset size w (ok true, (failed, s)) e sound started h =
      absurd (failed_differs (started refl))
  read_started offset size w (ok false, w1) e sound started h = rw (e) sound
  read_started offset size w (err f, w1) e sound started h = rw (e) sound
  read_started offset size w (panic, w1) e sound started h = rw (e) sound

  -- The calls: a read inside the memory map, and a command whose response has not 256 bytes.
  pub data Step (w w' : Initialized × Ports H) : Type 0 where
    reads :
        (offset size : ℕ)
        → offset + size ≤ ec_memmap_size
        → (plain_read offset size w).1 ≡ w'
        → Step w w'
    sends :
        (fuel command version : ℕ) (payload : List ℕ) (r : EcResult (List ℕ))
        → plain_send fuel command version payload w ≡ some (r, w')
        → ¬ IsFull r
        → Step w w'

  pub data Reach (start : Initialized × Ports H) : (Initialized × Ports H) → Type 0 where
    here : Reach start start
    next : {w w' : Initialized × Ports H} → Reach start w → Step w w' → Reach start w'

  Step-IsSound : {w w' : Initialized × Ports H} → Step w w' → IsSound H w → IsSound H w'
  Step-IsSound {w = w} (reads offset size h e) sound =
      let (still, started) = init-IsSound H w sound in
      subst (IsSound H) e (read_started offset size w (plain_init H w) refl still started h)
  Step-IsSound {w = w} {w' = w'} (sends fuel command version payload r run short) sound =
      elim (send-IsSound fuel command version payload w w' r sound run) [
        | inl still ↦ still
        | inr full ↦ absurd (short full)
      ]

  calls_keep : {w w' : Initialized × Ports H} → Reach w w' → IsSound H w → IsSound H w'
  calls_keep here sound = sound
  calls_keep (next run step) sound = Step-IsSound step (calls_keep run sound)

  -- On Linux, on a board without a MEC and in a build without overflow checks: in every state that
  -- calls of the driver reach from the start, with memory read inside the memory map and no response
  -- of 256 bytes, only ports were used for which the kernel had given the permission, and once `init`
  -- has noted its success, all ports that it needs are permitted.
  pub Reach-IsSound :
      {w : Initialized × Ports H} (s : Ports H)
      → s.clean ≡ true
      → Reach (not_yet, s) w
      → IsSound H w
  Reach-IsSound s clean run = calls_keep run (clean, λ e. absurd (not_yet_differs e))
