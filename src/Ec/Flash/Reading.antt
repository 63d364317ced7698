-- ===== src/Ec/Flash/Reading.antt =====
-- `read_ec_flash` (chromium_ec/mod.rs) over an EC whose flash can be read.
use framework_system.Base.{
  ℕ, zero, suc, ◌+◌, ◌-◌, ◌*◌, ◌/◌, ◌≤◌, min, List, [], ◌++◌, length, take, drop, ◌≡◌, refl, sym,
  ap, ◌∙◌, arith, ok, leb, Bool-cases, inl, inr, if◌then◌else◌, slice_prefix, drop-drop,
  take-append-drop-take,
}
use mathlib.Core.List.{append-nil, append_assoc}
use framework_system.Bytes.{to_le}
use framework_system.Ec.Driver.{Driver, send_command_vec_extra, flash_read_command}
use framework_system.Ec.Flash.{read_ec_flash_chunk, read_chunks, read_ec_flash}

-- An EC with a flash that reading does not change. An answer may have more bytes than were asked
-- for.
pub record Readable : Type 1 where
  pub driver : Driver
  pub memory : List ℕ
  pub answer : ℕ → ℕ → driver.State → List ℕ
  pub after : ℕ → ℕ → driver.State → driver.State
  pub answers :
      (s : driver.State) (offset n : ℕ)
      → offset + n ≤ length memory
      → driver.send_command flash_read_command 0 ((to_le 4 offset ++ to_le 4 n) ++ []) s
        ≡ (ok (answer offset n s), after offset n s)
  pub long_enough :
      (s : driver.State) (offset n : ℕ)
      → offset + n ≤ length memory
      → n ≤ length (answer offset n s)
  pub correct :
      (s : driver.State) (offset n : ℕ)
      → offset + n ≤ length memory
      → take n (answer offset n s) ≡ take n (drop offset memory)

-- How many bytes are read: beyond 128, the whole pieces of 128.
abbrev pub read_size : ℕ → ℕ
read_size size = if leb size 0x80 then size else size / 128 * 128

module _ (F : Readable) where
  read_chunk :
      (s : F.driver.State) (offset n : ℕ)
      → offset + n ≤ length F.memory
      → read_ec_flash_chunk F.driver offset n s
        ≡ (ok (take n (drop offset F.memory)), F.after offset n s)
  unfolding read_ec_flash_chunk send_command_vec_extra
  read_chunk s offset n h =
      rw
        (
          F.answers s offset n h,
          slice_prefix (F.answer offset n s) n (F.long_enough s offset n h),
          F.correct s offset n h,
        )
        refl

  read_chunks-pieces :
      (left chunk_no offset size : ℕ) (bin : List ℕ) (s : F.driver.State)
      → (chunk_no + left) * 128 ≤ size
      → offset + size ≤ length F.memory
      → (read_chunks F.driver left chunk_no 128 offset size bin s).0
        ≡ ok (bin ++ take (left * 128) (drop (offset + chunk_no * 128) F.memory))
  unfolding read_chunks
  read_chunks-pieces zero chunk_no offset size bin s h k = ap ok (sym (append-nil bin))
  read_chunks-pieces (suc left) chunk_no offset size bin s h k =
      let at = offset + chunk_no * 128 in
      let whole : min 128 (size - chunk_no * 128) ≡ 128 = omega arith in
      let next : offset + (chunk_no + 1) * 128 ≡ at + 128 = omega arith in
      let count : suc left * 128 ≡ 128 + left * 128 = omega arith in
      let piece = take 128 (drop at F.memory) in
      let rest =
        read_chunks-pieces left (chunk_no + 1) offset size (bin ++ piece) (F.after at 128 s)
          (omega arith) k in
      let tail = take (left * 128) (drop (offset + (chunk_no + 1) * 128) F.memory) in
      let joined : piece ++ tail ≡ take (suc left * 128) (drop at F.memory) =
        rw (next, sym (drop-drop 128 at F.memory), count)
          (take-append-drop-take 128 (left * 128) (drop at F.memory)) in
      rw (whole, read_chunk s at 128 (omega arith))
        (rest ∙ ap ok (append_assoc bin piece tail ∙ ap (λ (t : List ℕ). bin ++ t) joined))

  read_chunks-single :
      (offset size : ℕ) (s : F.driver.State)
      → offset + size ≤ length F.memory
      → (read_chunks F.driver 1 0 size offset size [] s).0 ≡ ok (take size (drop offset F.memory))
  unfolding read_chunks
  read_chunks-single offset size s k =
      let start : offset + 0 * size ≡ offset = omega arith in
      let whole : min size (size - 0 * size) ≡ size = omega arith in
      rw (start, whole, read_chunk s offset size k) refl

  -- Over an EC whose flash can be read, `read_ec_flash` returns the bytes of the flash from the
  -- offset on: all that were asked for if these are at most 128, and otherwise the bytes up to the
  -- last multiple of 128.
  pub read_ec_flash-Readable :
      (offset size : ℕ) (s : F.driver.State)
      → offset + size ≤ length F.memory
      → (read_ec_flash F.driver offset size s).0 ≡ ok (take (read_size size) (drop offset F.memory))
  unfolding read_ec_flash
  read_ec_flash-Readable offset size s k = elim (Bool-cases (leb size 0x80)) [
    | inl small ↦ rw small (read_chunks-single offset size s k)
    | inr large ↦
        let start : offset + 0 * 128 ≡ offset = omega arith in
        let all = read_chunks-pieces (size / 128) 0 offset size [] s (omega arith) k in
        rw large (rw start at all)
  ]
