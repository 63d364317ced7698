-- ===== src/Ccgx/Binary/Rows.antt =====
-- `read_256_bytes` on each of its three branches.
use framework_system.Base.{ℕ, ◌+◌, ◌*◌, ◌≤◌, ◌<◌, ◌≡◌, ok, err, arith, List, length, take, drop}
use framework_system.Base.{le→leb, lt→not_leb, slice_in_range}
use framework_system.Ccgx.Binary.{read_256_bytes}

module _ (file : List ℕ) (row row_size : ℕ) where
  pub read_256_bytes-large :
      row * row_size + 0x100 ≤ length file
      → read_256_bytes file row row_size ≡ ok (take 0x100 (drop (row * row_size) file))
  unfolding read_256_bytes
  read_256_bytes-large h = rw (le→leb _ _ h) (slice_in_range file (row * row_size) 0x100 h)

  -- Near the end of the file only half as much is read.
  pub read_256_bytes-small :
      row * row_size + 0x80 ≤ length file
      → length file < row * row_size + 0x100
      → read_256_bytes file row row_size ≡ ok (take 0x80 (drop (row * row_size) file))
  unfolding read_256_bytes
  read_256_bytes-small h k =
      rw (lt→not_leb _ _ k, le→leb _ _ h) (slice_in_range file (row * row_size) 0x80 h)

  pub read_256_bytes-none :
      length file < row * row_size + 0x80 → read_256_bytes file row row_size ≡ err tt
  unfolding read_256_bytes
  read_256_bytes-none h =
      rw (lt→not_leb (row * row_size + 0x100) (length file) (omega arith), lt→not_leb _ _ h)
