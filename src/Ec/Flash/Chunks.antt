-- ===== src/Ec/Flash/Chunks.antt =====
-- `write_ec_flash` (chromium_ec/mod.rs) over an EC that accepts every write: which writes it gets.
use framework_system.Base.{
  ℕ, zero, suc, ◌+◌, ◌-◌, ◌*◌, ◌/◌, ◌≤◌, ◌<◌, ◌^◌, min, List, [], ◌∷◌, ◌++◌, length, take, drop,
  ◌≡◌, refl, sym, ap, ◌∙◌, arith, ok, le→leb, slice_in_range, length-take-drop, drop-drop,
  take-append-drop-take,
}
use mathlib.Core.List.{append-nil, append_assoc}
use framework_system.Bytes.{to_le}
use framework_system.Ec.Driver.{
  Driver, Ec, send_command_extra, send_command_vec_extra, send_request, flash_info_command,
  flash_write_command,
}
use framework_system.Ec.Flash.{write_ec_flash_chunk, write_chunks, write_ec_flash}

-- An EC that answers the two commands of a write: `writes` are the writes it got so far, each with
-- its address.
pub record Flash : Type 1 where
  pub driver : Driver
  pub info : List ℕ
  pub writes : driver.State → List (ℕ × List ℕ)
  pub written : ℕ → List ℕ → driver.State → driver.State
  pub info_size : length info ≡ 24
  pub answers_info :
      (s : driver.State) → driver.send_command flash_info_command 1 [] s ≡ (ok info, s)
  pub answers_write :
      (s : driver.State) (offset : ℕ) (bytes : List ℕ)
      → offset < 2 ^ 32
      → driver.send_command flash_write_command 0
          ((to_le 4 offset ++ to_le 4 (length bytes)) ++ bytes)
          s
        ≡ (ok [], written offset bytes s)
  pub logs :
      (s : driver.State) (offset : ℕ) (bytes : List ℕ)
      → writes (written offset bytes s) ≡ writes s ++ ((offset, bytes) ∷ [])

-- The first `n` pieces of 128 bytes, each with its address.
abbrev pub pieces : ℕ → ℕ → List ℕ → List (ℕ × List ℕ)
pieces zero addr xs = []
pieces (suc n) addr xs = (addr, take 128 xs) ∷ pieces n (addr + 128) (drop 128 xs)

-- What an EC got from a write: the call ended well, and these writes were added.
abbrev pub Wrote :
    (F : Flash) → F.driver.State → List (ℕ × List ℕ) → Ec F.driver (Unit {0}) → Type 0
Wrote F s log call = ((call s).0 ≡ ok tt) × (F.writes (call s).1 ≡ F.writes s ++ log)

module _ (F : Flash) where
  write_chunk :
      (s : F.driver.State) (offset : ℕ) (chunk : List ℕ)
      → offset < 2 ^ 32
      → length chunk ≤ 0x80
      → write_ec_flash_chunk F.driver offset chunk s ≡ (ok tt, F.written offset chunk s)
  unfolding write_ec_flash_chunk send_command_extra send_command_vec_extra
  write_chunk s offset chunk word h =
      rw (le→leb (length chunk) 0x80 h, F.answers_write s offset chunk word) refl

  write_chunks-Wrote :
      (left chunk_no addr : ℕ) (image : List ℕ) (s : F.driver.State)
      → addr + length image ≤ 2 ^ 32
      → (chunk_no + left) * 128 ≤ length image
      → Wrote F s
          (pieces left (addr + chunk_no * 128) (drop (chunk_no * 128) image))
          (write_chunks F.driver left chunk_no addr image)
  unfolding write_chunks
  write_chunks-Wrote zero chunk_no addr image s words h = (refl, sym (append-nil (F.writes s)))
  write_chunks-Wrote (suc left) chunk_no addr image s words h =
      let offset = chunk_no * 128 in
      let chunk = take 128 (drop offset image) in
      let whole : min 128 (length image - offset) ≡ 128 = omega arith in
      let next : (chunk_no + 1) * 128 ≡ offset + 128 = omega arith in
      let place : addr + offset + 128 ≡ addr + (offset + 128) = omega arith in
      let small : length chunk ≤ 0x80 =
        omega (arith, length-take-drop image offset 128 (omega arith)) in
      let rest =
        write_chunks-Wrote left (chunk_no + 1) addr image (F.written (addr + offset) chunk s) words
          (omega arith) in
      let ended = rw next at rest in
      let log = pieces left (addr + (offset + 128)) (drop (offset + 128) image) in
      rw
        (
          whole,
          slice_in_range image offset 128 (omega arith),
          write_chunk s (addr + offset) chunk (omega arith) small,
          place,
          drop-drop 128 offset image,
        )
        (
          ended.0,
          ended.1
              ∙ ap (λ (t : List (ℕ × List ℕ)). t ++ log) (F.logs s (addr + offset) chunk)
              ∙ append_assoc (F.writes s) ((addr + offset, chunk) ∷ []) log,
        )

-- The bytes of some writes, one after the other.
abbrev pub bytes_of : List (ℕ × List ℕ) → List ℕ
bytes_of [] = []
bytes_of ((addr, bytes) ∷ log) = bytes ++ bytes_of log

bytes_of-pieces : (n addr : ℕ) (xs : List ℕ) → bytes_of (pieces n addr xs) ≡ take (n * 128) xs
bytes_of-pieces zero addr xs = refl
bytes_of-pieces (suc n) addr xs =
    let e : suc n * 128 ≡ 128 + n * 128 = omega arith in
    ap (λ (t : List ℕ). take 128 xs ++ t) (bytes_of-pieces n (addr + 128) (drop 128 xs))
    ∙ take-append-drop-take 128 (n * 128) xs
    ∙ ap (λ (t : ℕ). take t xs) (sym e)

module _ (F : Flash) where
  -- On an EC that accepts the writes, and for an image that ends at or below 2^32,
  -- `write_ec_flash` ends well after writing consecutive pieces of 128 bytes from the given address
  -- on. Together they are the image up to the last multiple of 128 bytes.
  pub write_ec_flash-Wrote :
      (addr : ℕ) (image : List ℕ) (s : F.driver.State)
      → addr + length image ≤ 2 ^ 32
      → Wrote F s (pieces (length image / 128) addr image) (write_ec_flash F.driver addr image)
        × (bytes_of (pieces (length image / 128) addr image)
            ≡ take (length image / 128 * 128) image)
  unfolding write_ec_flash send_request send_command_extra send_command_vec_extra
  write_ec_flash-Wrote addr image s words =
      let start : addr + 0 * 128 ≡ addr = omega arith in
      let none : 0 * 128 ≡ 0 = omega arith in
      let all = write_chunks-Wrote F (length image / 128) 0 addr image s words (omega arith) in
      (rw (F.answers_info s, F.info_size) (rw start at all), bytes_of-pieces _ addr image)
