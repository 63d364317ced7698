-- ===== src/Ec/SelfTest.antt =====
-- chromium_ec/mod.rs: `test_ec_flash_read`, which looks for known bytes in the flash. A verdict is the
-- last error so far.
pub mod Verdicts
use Prim.Native.String.{String}
use framework_system.Base.{
  ℕ, List, [], ◌∷◌, take, Bool, true, false, not, ◌&&◌, ◌==◌, if◌then◌else◌, Option, none, some,
  Result, ok, err, panic, ◌>>=◌, slice, slice_from,
}
use framework_system.Util.{same_bytes}
use framework_system.Ec.Status.{EcError, device_error, EcResult}
use framework_system.Ec.Driver.{Driver, Ec, bind, pure, map_result}
use framework_system.Ec.Flash.{access_spi, access_spi_done, flash_notify, read_ec_flash}

abbrev pub Verdict : Type 0
Verdict = Option EcError

abbrev pub mec_flash_flags : ℕ
mec_flash_flags = 0x80000

abbrev pub npc_flash_flags : ℕ
npc_flash_flags = 0x7F000

abbrev pub flash_program_offset : ℕ
flash_program_offset = 0x1000

abbrev pub legacy_start : List ℕ
legacy_start = 0x10 ∷ 0x00 ∷ 0x00 ∷ 0xF7 ∷ []

abbrev pub zephyr_start : List ℕ
zephyr_start = 0x5E ∷ 0x4D ∷ 0x3B ∷ 0x2A ∷ []

abbrev pub program_magic : List ℕ
program_magic = 0x50 ∷ 0x48 ∷ 0x43 ∷ 0x4D ∷ []

abbrev pub flash_flags_magic : List ℕ
flash_flags_magic = 0xA3 ∷ 0xF1 ∷ 0x00 ∷ 0x00 ∷ []

abbrev pub flash_flags_ver : List ℕ
flash_flags_ver = 0x01 ∷ 0x00 ∷ 0x00 ∷ 0x00 ∷ []

-- `data.iter().all(|x| *x == byte)`
abbrev pub all_are : ℕ → List ℕ → Bool
all_are byte [] = true
all_are byte (x ∷ xs) = x == byte && all_are byte xs

-- A test that fails replaces the verdict.
abbrev pub fails_if : Bool → String → List ℕ → Verdict → Verdict
fails_if failed message numbers res = if failed then some (device_error message numbers) else res

unfoldable pub check_first_row : List ℕ → Verdict → EcResult Verdict
check_first_row row res = slice row 0 8 >>= λ _. slice row 0 4 >>= λ start.
    slice_from row 4 >>= λ rest. slice row 0x20 0x40 >>= λ middle. ok (
      fails_if (not (all_are 0xFF rest) && not (all_are 0x00 middle)) "INVALID end" [] (
        fails_if (not (same_bytes start legacy_start) && not (same_bytes start zephyr_start))
          "INVALID start" [] res))

unfoldable pub check_rw_row : List ℕ → Verdict → EcResult Verdict
check_rw_row row res = slice row 0 8 >>= λ _. ok (fails_if (all_are 0xFF row) "RW Erased" [] res)

unfoldable pub check_program : List ℕ → Verdict → EcResult Verdict
check_program row res = slice row 0 4 >>= λ start.
    ok (fails_if (not (same_bytes start program_magic)) "INVALID: {:02X?}" (take 3 row) res)

-- The version is only looked at behind the magic bytes; unknown flags are printed, and no error.
unfoldable pub check_flags : List ℕ → Verdict → EcResult Verdict
check_flags row res = slice row 0 4 >>= λ start.
    (if same_bytes start flash_flags_magic
      then (slice row 8 12 >>= λ version. ok (same_bytes version flash_flags_ver))
      else ok false)
    >>= λ valid.
        if valid
        then ok res
        else if all_are 0xFF row
        then ok (some (device_error "Erased flash flags" []))
        else (slice row 0 12 >>= λ _. ok res)

abbrev pub outcome : Verdict → EcResult (Unit {0})
outcome none = ok tt
outcome (some e) = err e

module _ (D : Driver) where
  -- `read_ec_flash(...).unwrap()`
  unfoldable pub must_read_flash : ℕ → ℕ → Ec D (List ℕ)
  must_read_flash offset size = map_result D no_error (read_ec_flash D offset size)
    where
      no_error : EcResult (List ℕ) → EcResult (List ℕ)
      no_error (ok row) = ok row
      no_error (err e) = panic
      no_error panic = panic

  unfoldable pub test_program : Bool → Verdict → Ec D Verdict
  test_program false res = pure D (ok res)
  test_program true res =
      bind D (must_read_flash flash_program_offset 16) λ row. pure D (check_program row res)

  unfoldable pub test_ec_flash_read : Bool → Ec D (Unit {0})
  test_ec_flash_read has_mec = bind D (flash_notify D access_spi) λ _.
      bind D (must_read_flash 0 0x80) λ first_row.
        bind D (pure D (check_first_row first_row none)) λ res1.
          bind D (must_read_flash 0x40000 0x80) λ rw_row.
            bind D (pure D (check_rw_row rw_row res1)) λ res2.
              bind D (test_program has_mec res2) λ res3.
                bind D (must_read_flash (if has_mec then mec_flash_flags else npc_flash_flags) 0x80)
                  λ flags.
                    bind D (pure D (check_flags flags res3))
                      λ res4. bind D (flash_notify D access_spi_done) λ _. pure D (outcome res4)
