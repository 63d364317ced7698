-- ===== src/Uefi.antt =====
-- framework_lib/src/uefi/fs.rs: files of the UEFI shell, and the checksum in uefi/mod.rs.
pub mod Files
pub mod Checksum
use framework_system.Base.{
  ℕ, ◌+◌, ◌%◌, ◌^◌, List, [], ◌∷◌, ◌++◌, length, replicate, Bool, ◌==◌, ◌||◌, ◌&&◌, not, ltb,
  if◌then◌else◌, Option, none, some, Maybe, Result, ok, err, panic, ◌>>=◌, assert,
}
use framework_system.Base.Calls.{Call, pure, ◌≫=◌, map_result}

-- The UEFI firmware with its shell. A call that fails is `none`.
pub record Firmware : Type 1 where
  pub State : Type 0
  pub Handle : Type 0
  -- `find_shell_handle`: it panics without a handle buffer, and gives `None` for an empty one. The
  -- value is the version of the shell.
  pub find_shell : State → Maybe (ℕ × ℕ)
  -- `ok none` is a shell that opens the file without a handle for it.
  pub open_file_by_name : List ℕ → ℕ → State → Maybe (Option Handle) × State
  pub get_file_size : Handle → State → Maybe ℕ × State
  -- What stands in the buffer behind the call.
  pub read_file : Handle → List ℕ → State → Maybe (List ℕ) × State
  pub write_file : Handle → List ℕ → State → Maybe (Unit {0}) × State
  pub close_file : Handle → State → Maybe (Unit {0}) × State

-- `FileOpenMode`, of the uefi crate
pub record FileOpenMode : Type 0 where
  pub read : ℕ
  pub write : ℕ
  pub create : ℕ

-- Each character is cut to 16 bits, and a zero ends the text.
unfoldable pub wstr : List ℕ → List ℕ
wstr [] = 0 ∷ []
wstr (c ∷ cs) = (c % 2 ^ 16) ∷ wstr cs

-- `unwrap` on the result of a call.
abbrev pub unwrap_status : {A : Type 0} → Maybe A → Maybe A
unwrap_status (ok a) = ok a
unwrap_status (err e) = panic
unwrap_status panic = panic

-- A result without a handle is an error, too.
abbrev pub some_handle : {A : Type 0} → Maybe (Option A) → Maybe A
some_handle (ok none) = err tt
some_handle (ok (some handle)) = ok handle
some_handle (err e) = err tt
some_handle panic = panic

module _ (W : Firmware) (mode : FileOpenMode) (debug : Bool) where
  abbrev pub Io : Type 0 → Type 0
  Io A = Call W.State (Unit {0}) A

  -- The shell, and its version in a build with debug assertions.
  unfoldable pub shell : Io (Unit {0})
  shell s =
      (W.find_shell s >>= λ version. assert (not debug || (version.0 == 2 && version.1 == 2)), s)

  abbrev pub must : {A : Type 0} → Io A → Io A
  must m = map_result unwrap_status m

  abbrev pub open_as : ℕ → List ℕ → Io W.Handle
  open_as flags path = shell ≫= λ _. map_result some_handle (W.open_file_by_name (wstr path) flags)

  -- The handle is closed at the end only: an error in front of it is a panic.
  unfoldable pub shell_read_file : List ℕ → Io (List ℕ)
  unfolding wstr
  shell_read_file path = open_as mode.read path ≫= λ handle.
      must (W.get_file_size handle) ≫= λ file_size.
      must (W.read_file handle (replicate file_size 0)) ≫= λ buffer.
      must (W.close_file handle) ≫= λ _. pure (ok buffer)

  -- Any failure in front of the writing is `LOAD_ERROR`.
  unfoldable pub shell_write_file : List ℕ → List ℕ → Io (Unit {0})
  unfolding wstr
  shell_write_file path bytes = open_as (mode.read + mode.write + mode.create) path ≫= λ handle.
      must (W.write_file handle bytes) ≫= λ _. must (W.close_file handle)

-- The structure of SMBIOS, as far as `checksum_valid` looks at it.
pub record Smbios : Type 0 where
  pub anchor : List ℕ
  pub checksum : ℕ
  pub length : ℕ
  pub major_version : ℕ
  pub minor_version : ℕ
  pub max_structure_size : ℕ
  pub revision : ℕ
  pub formatted : List ℕ

-- An addition of bytes in a build with or without overflow checks.
abbrev pub add_u8 : Bool → ℕ → ℕ → Maybe ℕ
add_u8 debug a b =
    if ltb (a + b) (2 ^ 8) then ok (a + b) else if debug then panic else ok ((a + b) % 2 ^ 8)

-- `iter().sum::<u8>()`, from a first value on.
unfoldable pub sum_u8 : Bool → ℕ → List ℕ → Maybe ℕ
sum_u8 debug sum [] = ok sum
sum_u8 debug sum (b ∷ bs) = add_u8 debug sum b >>= λ next. sum_u8 debug next bs

-- The single numbers that are added, each as a byte.
abbrev pub single_bytes : Smbios → List ℕ
single_bytes t =
    t.checksum
    ∷ t.length
    ∷ t.major_version
    ∷ t.minor_version
    ∷ (t.max_structure_size % 2 ^ 8)
    ∷ t.revision
    ∷ []

-- `Smbios::checksum_valid`
unfoldable pub checksum_valid : Bool → Smbios → Maybe Bool
unfolding sum_u8
checksum_valid debug t = do
  anchor_sum ← sum_u8 debug 0 t.anchor
  sum ← sum_u8 debug anchor_sum (single_bytes t)
  formatted_sum ← sum_u8 debug 0 t.formatted
  total ← add_u8 debug sum formatted_sum
  ok (total == 0)
