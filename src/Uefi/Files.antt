-- ===== src/Uefi/Files.antt =====
-- uefi/fs.rs over a shell with files.
use framework_system.Base.{
  ℕ, ◌+◌, List, [], ◌++◌, length, replicate, length-replicate, drop, Bool, ◌≡◌, refl, Option, none,
  some, ok, err, Bool-cases, inl, inr,
}
use framework_system.Base.Calls.{◌≫=◌}
use framework_system.Uefi.{Firmware, FileOpenMode, wstr, shell, shell_read_file, shell_write_file}

abbrev pub old_bytes : Option (List ℕ) → List ℕ
old_bytes none = []
old_bytes (some bytes) = bytes

-- A shell with files, by their names in 16-bit characters. Opening for writing makes a file that is
-- not there, and writing starts at the front and leaves what is behind it, as the shell's `WriteFile`
-- does.
pub record Shell : Type 1 where
  pub firmware : Firmware
  pub mode : FileOpenMode
  pub contents : firmware.State → List ℕ → Option (List ℕ)
  pub handle : List ℕ → firmware.Handle
  -- The state with the file open, and with bytes written to it.
  pub opened : List ℕ → firmware.State → firmware.State
  pub stored : List ℕ → List ℕ → firmware.State → firmware.State
  pub finds : (s : firmware.State) → firmware.find_shell s ≡ ok (2, 2)
  pub opens :
      (s : firmware.State) (name bytes : List ℕ)
      → contents s name ≡ some bytes
      → firmware.open_file_by_name name mode.read s ≡ (ok (some (handle name)), opened name s)
  pub misses :
      (s : firmware.State) (name : List ℕ)
      → contents s name ≡ none
      → firmware.open_file_by_name name mode.read s ≡ (err tt, s)
  pub makes :
      (s : firmware.State) (name : List ℕ)
      → firmware.open_file_by_name name (mode.read + mode.write + mode.create) s
        ≡ (ok (some (handle name)), opened name s)
  pub sizes :
      (s : firmware.State) (name bytes : List ℕ)
      → contents s name ≡ some bytes
      → firmware.get_file_size (handle name) (opened name s) ≡ (ok (length bytes), opened name s)
  pub fills :
      (s : firmware.State) (name bytes buffer : List ℕ)
      → contents s name ≡ some bytes
      → length buffer ≡ length bytes
      → firmware.read_file (handle name) buffer (opened name s) ≡ (ok bytes, opened name s)
  pub writes :
      (s : firmware.State) (name bytes : List ℕ)
      → firmware.write_file (handle name) bytes (opened name s)
        ≡ (ok tt, opened name (stored name bytes s))
  pub closes :
      (s : firmware.State) (name : List ℕ)
      → firmware.close_file (handle name) (opened name s) ≡ (ok tt, s)
  pub keeps :
      (s : firmware.State) (name bytes : List ℕ)
      → contents (stored name bytes s) name
        ≡ some (bytes ++ drop (length bytes) (old_bytes (contents s name)))

module _ (S : Shell) (debug : Bool) where
  shell-finds : (s : S.firmware.State) → shell S.firmware S.mode debug s ≡ (ok tt, s)
  unfolding shell
  shell-finds s = elim (Bool-cases debug) [
    | inl is ↦ rw (is, S.finds s) refl
    | inr is ↦ rw (is, S.finds s) refl
  ]

  read_there :
      (path bytes : List ℕ) (s : S.firmware.State)
      → S.contents s (wstr path) ≡ some bytes
      → shell_read_file S.firmware S.mode debug path s ≡ (ok bytes, s)
  unfolding shell_read_file
  read_there path bytes s there =
      let name = wstr path in
      rw
        (
          shell-finds s,
          S.opens s name bytes there,
          S.sizes s name bytes there,
          S.fills s name bytes (replicate (length bytes) 0) there
              (length-replicate (length bytes) 0),
          S.closes s name,
        )
        refl

  write_there :
      (path bytes : List ℕ) (s : S.firmware.State)
      → shell_write_file S.firmware S.mode debug path bytes s
        ≡ (ok tt, S.stored (wstr path) bytes s)
  unfolding shell_write_file
  write_there path bytes s =
      let name = wstr path in
      rw
        (
          shell-finds s,
          S.makes s name,
          S.writes s name bytes,
          S.closes (S.stored name bytes s) name,
        )
        refl

  -- Over a shell with files, in builds with and without debug assertions, `shell_read_file` behind
  -- `shell_write_file` gives the bytes that were written, followed by what a longer file had behind
  -- them before.
  pub shell_read_file-shell_write_file :
      (path bytes : List ℕ) (s : S.firmware.State)
      → (shell_write_file S.firmware S.mode debug path bytes ≫= λ _.
            shell_read_file S.firmware S.mode debug path)
          s
        ≡ (
          ok (bytes ++ drop (length bytes) (old_bytes (S.contents s (wstr path)))),
          S.stored (wstr path) bytes s,
        )
  shell_read_file-shell_write_file path bytes s =
      let name = wstr path in
      rw (write_there path bytes s)
        (read_there path _ (S.stored name bytes s) (S.keeps s name bytes))

  -- A file that is not there is `None`, and the state is what it was.
  pub shell_read_file-missing :
      (path : List ℕ) (s : S.firmware.State)
      → S.contents s (wstr path) ≡ none
      → shell_read_file S.firmware S.mode debug path s ≡ (err tt, s)
  unfolding shell_read_file
  shell_read_file-missing path s missing = rw (shell-finds s, S.misses s (wstr path) missing) refl
