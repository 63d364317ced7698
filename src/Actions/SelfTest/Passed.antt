-- ===== src/Actions/SelfTest/Passed.antt =====
-- commandline/mod.rs: what it says of a machine that `selftest` passes.
use framework_system.Base.{
  ℕ, List, [], ◌∷◌, take, drop, length, subst, ap, Bool, true, ◌≡◌, some, Maybe, ok, err, arith,
  index, ◌==◌, ◌>>=◌, not, ◌||◌, if◌then◌else◌, Option-cases, inl, inr,
}
use framework_system.Ccgx.Device.{Platform}
use framework_system.Power.Readings.{Mapped}
use framework_system.Ec.Status.{EcResult}
use framework_system.Ec.Control.{check_mem_magic, version_info, flash_version, dump_mem_region}
use framework_system.Ec.Flash.{flash_notify, access_spi}
use framework_system.Ec.SelfTest.{must_read_flash, test_ec_flash_read}
use framework_system.Ec.SelfTest.Verdicts.{bind-ok, known_start, test_ec_flash_read-known}
use framework_system.Actions.Act.{
  Machine, World, return, ask, ignored, platform_of_machine, mec_of_machine,
}
use framework_system.Actions.Act.Inversion.{and_then-ok, ask-ok, ask_state, return-ok}
use framework_system.Actions.SelfTest.{must, must_print, test_ec, selftest}

magic_bytes :
    (ec_id : List ℕ)
    → Path
        (Maybe (Unit {0}))
        (if not (length ec_id == 2)
          then err tt
          else (index {E = Unit {0}} ec_id 0 >>= λ id0. index ec_id 1 >>= λ id1.
              if not (id0 == b'E') || not (id1 == b'C') then err tt else ok tt))
        (ok tt)
    → ec_id ≡ b'E' ∷ b'C' ∷ []
unfolding index
magic_bytes [] h = ground arith
magic_bytes (a ∷ []) h = ground arith
magic_bytes (a ∷ b ∷ []) h = ground arith
magic_bytes (a ∷ b ∷ c ∷ ec_id) h = ground arith

must-ok : (r : Maybe (Unit {0})) → must r ≡ ok tt → r ≡ ok tt
must-ok r h = ground arith

must_print-ok : (r : EcResult (Unit {0})) → must_print r ≡ ok tt → r ≡ ok tt
must_print-ok r h = ground arith

module _ (M : Mapped) (x : Machine) where
  check_mem_magic-mapped :
      (s : M.driver.State)
      → (check_mem_magic M.driver s).0 ≡ ok tt
      → take 2 (drop 0x20 M.memory) ≡ b'E' ∷ b'C' ∷ []
  unfolding check_mem_magic
  check_mem_magic-mapped s h =
      magic_bytes _ (rw (M.reads s 0x20 2 (omega (arith, M.size)), check_mem_magic) at h)

  -- The state in which `selftest` reads the flash: behind the calls in front of that, from a state on.
  abbrev pub before_flash : M.driver.State → M.driver.State
  before_flash s =
      let s1 = (dump_mem_region M.driver s).1 in
      let s2 = (check_mem_magic M.driver s1).1 in
      let s3 = (version_info M.driver s2).1 in
      let s4 = (flash_version M.driver s3).1 in (flash_notify M.driver access_spi s4).1

  -- The first 128 bytes of the flash are read in that state, and start as those of a known image do.
  abbrev pub HasKnownFlash : M.driver.State → Type 0
  HasKnownFlash s =
      (row : List ℕ) × ((must_read_flash M.driver 0 0x80 (before_flash s)).0 ≡ ok row)
      × (known_start (take 4 row) ≡ true)

  abbrev KnownBehind : M.driver.State → Type 0
  KnownBehind s =
      (row : List ℕ) × ((must_read_flash M.driver 0 0x80 (flash_notify M.driver access_spi s).1).0
        ≡ ok row)
      × (known_start (take 4 row) ≡ true)

  test_ec_flash_read-KnownBehind :
      (has_mec : Bool) (s : M.driver.State)
      → (test_ec_flash_read M.driver has_mec s).0 ≡ ok tt
      → KnownBehind s
  unfolding test_ec_flash_read
  test_ec_flash_read-KnownBehind has_mec s passed =
      let D = M.driver in
      let s0 = (flash_notify D access_spi s).1 in
      let (a0, e0, p0) = bind-ok D (flash_notify D access_spi) _ tt s passed in
      let (row, e1, p1) = bind-ok D (must_read_flash D 0 0x80) _ tt s0 p0 in
      (row, e1, test_ec_flash_read-known D has_mec row s e1 passed)

  behind_calls :
      {A : Type 0} {s s1 s2 s3 s4 s5 : A} (f g h k : A → A)
      → f s ≡ s1
      → g s1 ≡ s2
      → h s2 ≡ s3
      → k s3 ≡ s4
      → s4 ≡ s5
      → s5 ≡ k (h (g (f s)))
  behind_calls f g h k e1 e2 e3 e4 e5 = cc

  test_ec-passed :
      (w w' : World M.driver)
      → test_ec M.driver x w ≡ some (ok tt, w')
      → (take 2 (drop 0x20 M.memory) ≡ b'E' ∷ b'C' ∷ []) × HasKnownFlash w.0
  unfolding test_ec
  test_ec-passed w w' e =
      let D = M.driver in
      let (a1, w1, e1, p1) = and_then-ok D (ask D ignored (dump_mem_region D)) _ w e in
      let (a2, w2, e2, p2) = and_then-ok D (ask D must (check_mem_magic D)) _ w1 p1 in
      let (a3, w3, e3, p3) = and_then-ok D (ask D must_print (version_info D)) _ w2 p2 in
      let (a4, w4, e4, p4) = and_then-ok D (ask D must (flash_version D)) _ w3 p3 in
      let (has_mec, w5, e5, p5) = and_then-ok D (return D (mec_of_machine x)) _ w4 p4 in
      let (a6, w6, e6, p6) =
        and_then-ok D (ask D must_print (test_ec_flash_read D has_mec)) _ w5 p5 in
      let s1 = ask_state D ignored (dump_mem_region D) w e1 in
      let s2 = ask_state D must (check_mem_magic D) w1 e2 in
      let s3 = ask_state D must_print (version_info D) w2 e3 in
      let s4 = ask_state D must (flash_version D) w3 e4 in
      let (answer, s5) = return-ok D (mec_of_machine x) w4 e5 in
      let behind =
        behind_calls (λ s. (dump_mem_region D s).1) (λ s. (check_mem_magic D s).1)
          (λ s. (version_info D s).1) (λ s. (flash_version D s).1) s1 s2 s3 s4 (ap (λ w. w.0) s5) in
      (
        check_mem_magic-mapped w1.0 (must-ok _ (ask-ok D must (check_mem_magic D) w1 e2)),
        subst KnownBehind behind (
            test_ec_flash_read-KnownBehind has_mec w5.0
              (must_print-ok _ (ask-ok D must_print (test_ec_flash_read D has_mec) w5 e6))),
      )

  -- Over an EC with a memory map that reading does not change, `selftest` only succeeds if the
  -- platform is known, the map has the bytes "EC" at 0x20, and the read of the first 128 bytes of the
  -- flash, in the state behind the calls that come before it, gives bytes that start as those of a
  -- legacy or of a Zephyr image do.
  pub selftest-passed :
      (w w' : World M.driver)
      → selftest M.driver x w ≡ some (ok tt, w')
      → ((platform : Platform) × (platform_of_machine x ≡ some platform))
        × (take 2 (drop 0x20 M.memory) ≡ b'E' ∷ b'C' ∷ [])
        × HasKnownFlash w.0
  unfolding selftest
  selftest-passed w w' e = elim (Option-cases (platform_of_machine x)) [
    | inl unknown ↦ absurd (cc (rw (unknown, selftest) at e))
    | inr (platform, is) ↦
        let (a, w1, ec_passed, rest) =
          and_then-ok M.driver (test_ec M.driver x) _ w (rw (is, selftest) at e) in
        let (magic, known) = test_ec-passed w w1 ec_passed in ((platform, is), magic, known)
  ]
