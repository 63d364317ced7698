-- ===== src/Ec/Mec/Reading.antt =====
-- What `transfer_read` (chromium_ec/portio_mec.rs) returns from the memory of an EC.
use framework_system.Base.{
  ℕ, zero, suc, ◌+◌, ◌-◌, ◌*◌, ◌/◌, ◌%◌, ◌^◌, ◌<◌, ◌≤◌, min, List, [], ◌∷◌, ◌++◌, length, Bool, ltb,
  ◌≡◌, refl, ap, ◌∙◌, ap₂, subst, ok, arith, lt→ltb, ltb→lt, Bool-cases, ◌⊎◌, inl, inr,
}
use framework_system.Base.Calls.{pure, ◌≫=◌}
use framework_system.Bytes.{to_le}
use framework_system.Ec.Mec.{
  MecPort, select, read_bytes, read_start, read_longs, read_middle, read_end, transfer_read,
  next_word,
}
use framework_system.Ec.Mec.Spans.{
  span, span-append, length-span, span-four, add_u16-small, few, whole_word,
}
use framework_system.Ec.Mec.Masks.{aligned_mask, long_mask, byte_mask, word_mask}

-- An EC with a memory that reading does not change. The address register selects a word of 4 bytes,
-- for accesses of a byte, or for accesses of 16 bits that go on to the next word.
pub record Memory : Type 1 where
  pub port : MecPort
  pub at : ℕ → ℕ
  pub ByteAt : ℕ → port.bytes.State → Type 0
  pub LongAt : ℕ → port.bytes.State → Type 0
  pub selects_byte :
      (word : ℕ) (s : port.bytes.State) → ByteAt word (port.write_u16 0x802 (4 * word) s)
  pub selects_long :
      (word : ℕ) (s : port.bytes.State) → LongAt word (port.write_u16 0x802 (4 * word + 3) s)
  pub reads_byte :
      (word i : ℕ) (s : port.bytes.State)
      → i < 4
      → ByteAt word s
      → ((port.bytes.read (0x804 + i) s).0 ≡ at (4 * word + i))
        × ByteAt word (port.bytes.read (0x804 + i) s).1
  pub reads_low :
      (word : ℕ) (s : port.bytes.State)
      → LongAt word s
      → (to_le 2 (port.read_u16 0x804 s).0 ≡ at (4 * word) ∷ at (4 * word + 1) ∷ [])
        × LongAt word (port.read_u16 0x804 s).1
  pub reads_high :
      (word : ℕ) (s : port.bytes.State)
      → LongAt word s
      → (to_le 2 (port.read_u16 0x806 s).0 ≡ at (4 * word + 2) ∷ at (4 * word + 3) ∷ [])
        × LongAt (word + 1) (port.read_u16 0x806 s).1

module _ (M : Memory) (aligned debug : Bool) where
  read_bytes-span :
      (word i n : ℕ) (s : M.port.bytes.State)
      → i + n ≤ 4
      → M.ByteAt word s
      → (read_bytes M.port aligned debug i n s).0 ≡ ok (span M.at (4 * word + i) n)
  unfolding read_bytes
  read_bytes-span word i zero s h b = refl
  read_bytes-span word i (suc n) s h b =
      let first = M.reads_byte word i s (omega arith) b in
      let rest =
        read_bytes-span word (i + 1) n (M.port.bytes.read (0x804 + i) s).1 (omega arith) first.1 in
      rw (rest, first.0) (ap (λ c. ok (M.at (4 * word + i) ∷ span M.at c n)) (omega arith))

  read_end-span :
      (word n : ℕ) (s : M.port.bytes.State)
      → n < 4
      → word < 16384
      → (read_end M.port aligned debug (4 * word) n s).0 ≡ ok (span M.at (4 * word) n)
  unfolding read_end select
  read_end-span word zero s h w = refl
  read_end-span word (suc n) s h w =
      rw (lt→ltb 0 (suc n) (omega arith), aligned_mask word w, byte_mask word w)
        (read_bytes-span word 0 (suc n) (M.port.write_u16 0x802 (4 * word) s) (omega arith)
            (M.selects_byte word s)
          ∙ ap (λ c. ok (span M.at c (suc n))) (omega arith))

  read_longs-span :
      (n word : ℕ) (s : M.port.bytes.State)
      → M.LongAt word s
      → word + n < 16384
      → (read_longs M.port aligned debug n (4 * word) s).0
        ≡ ok (span M.at (4 * word) (4 * n), 4 * (word + n))
  unfolding read_longs
  read_longs-span zero word s l h = ap (λ a. ok ([], 4 * a)) (omega arith)
  read_longs-span (suc n) word s l h =
      let low = M.reads_low word s l in
      let high = M.reads_high word (M.port.read_u16 0x804 s).1 low.1 in
      let next : 4 * word + 4 ≡ 4 * (word + 1) = omega arith in
      let after = (M.port.read_u16 0x806 (M.port.read_u16 0x804 s).1).1 in
      let rest = read_longs-span n (word + 1) after high.1 (omega arith) in
      rw (add_u16-small debug (4 * word) 4 (omega arith), next, rest, low.0, high.0)
        (ap₂ (λ xs a. ok (xs, a)) (span-four M.at word n) (omega arith))

  read_middle-span :
      (word n : ℕ) (s : M.port.bytes.State)
      → 4 * word + n < 2 ^ 16
      → (read_middle M.port aligned debug (4 * word) n s).0
        ≡ ok (span M.at (4 * word) (4 * (n / 4)), 4 * (word + n / 4))
  unfolding read_middle select
  read_middle-span word n s h = elim (Bool-cases (ltb 3 n)) [
    | inl e ↦
        rw (e, aligned_mask word (omega arith), long_mask word (omega arith))
          (read_longs-span (n / 4) word (M.port.write_u16 0x802 (4 * word + 3) s)
            (M.selects_long word s) (omega arith))
    | inr e ↦
        let none_left : n / 4 ≡ 0 = omega (arith, few n e) in
        rw (e, none_left) (ap (λ a. ok ([], a)) (omega arith))
  ]

  -- From an aligned address on, where the start is done.
  read_rest :
      (start : List ℕ) (word n : ℕ) (s : M.port.bytes.State)
      → 4 * word + n < 2 ^ 16
      → ((read_middle M.port aligned debug (4 * word) n ≫= λ middle.
            read_end M.port aligned debug middle.1 (n - length middle.0) ≫= λ last.
            pure (ok (start ++ (middle.0 ++ last))))
          s).0
        ≡ ok (start ++ span M.at (4 * word) n)
  read_rest start word n s h =
      let longs = 4 * (n / 4) in
      let middle = read_middle-span word n s h in
      let after = (read_middle M.port aligned debug (4 * word) n s).1 in
      let last = read_end-span (word + n / 4) (n - longs) after (omega arith) (omega arith) in
      let joined : 4 * (word + n / 4) ≡ 4 * word + longs = omega arith in
      let whole : longs + (n - longs) ≡ n = omega arith in
      rw (middle, length-span M.at (4 * word) longs, last, joined)
        (ap (λ xs. ok (start ++ xs))
          (span-append M.at (4 * word) longs (n - longs) ∙ ap (span M.at (4 * word)) whole))

  -- From an aligned address on, all bytes are read in their places.
  transfer_read_aligned :
      (word n : ℕ) (s : M.port.bytes.State)
      → 4 * word + n < 2 ^ 16
      → (transfer_read M.port aligned debug (4 * word) n s).0 ≡ ok (span M.at (4 * word) n)
  unfolding transfer_read read_start
  transfer_read_aligned word n s h =
      let at_start : (4 * word) % 4 ≡ 0 = omega arith in
      let all : n - 0 ≡ n = omega arith in rw (at_start, all) (read_rest [] word n s h)

  -- From an address inside a word on, the start is read up to the size or the end of the word, and
  -- the rest from the next word on.
  transfer_read_unaligned :
      (address n : ℕ) (s : M.port.bytes.State)
      → 0 < address % 4
      → address + n + 4 < 2 ^ 16
      → (transfer_read M.port aligned debug address n s).0
        ≡ ok (
            span M.at address (min 4 n - address % 4)
            ++ span M.at (4 * (address / 4 + 1)) (n - (min 4 n - address % 4)))
  unfolding transfer_read read_start select next_word
  transfer_read_unaligned address n s u h =
      let word = address / 4 in
      let k = min 4 n - address % 4 in
      let selected = M.port.write_u16 0x802 (4 * word) s in
      let place : 4 * word + address % 4 ≡ address = omega arith in
      let next : (address + 4) / 4 ≡ word + 1 = omega arith in
      let first : (read_bytes M.port aligned debug (address % 4) k selected).0
          ≡ ok (span M.at address k) =
        read_bytes-span word (address % 4) k selected (omega arith) (M.selects_byte word s)
        ∙ ap (λ a. ok (span M.at a k)) place in
      let after = (read_bytes M.port aligned debug (address % 4) k selected).1 in
      rw
        (
          lt→ltb 0 (address % 4) u,
          word_mask address (omega arith),
          byte_mask word (omega arith),
          first,
          add_u16-small debug address 4 (omega arith),
          word_mask (address + 4) (omega arith),
          next,
          length-span M.at address k,
        )
        (read_rest (span M.at address k) (word + 1) (n - k) after (omega arith))

  -- An address at the start of a word, or a size of at least 4 bytes, gives the bytes of the memory
  -- from the address on, in builds with and without overflow checks, if the range ends 4 bytes below
  -- the end of the 16-bit addresses.
  pub transfer_read-span :
      (address n : ℕ) (s : M.port.bytes.State)
      → (address % 4 ≡ 0) ⊎ (4 ≤ n)
      → address + n + 4 < 2 ^ 16
      → (transfer_read M.port aligned debug address n s).0 ≡ ok (span M.at address n)
  transfer_read-span address n s fits h = elim (Bool-cases (ltb 0 (address % 4))) [
    | inr e ↦
        let place : 4 * (address / 4) ≡ address = omega (arith, whole_word address e) in
        subst (λ a. (transfer_read M.port aligned debug a n s).0 ≡ ok (span M.at a n)) place
          (transfer_read_aligned (address / 4) n s (omega arith))
    | inl e ↦
        let inside = ltb→lt 0 (address % 4) e in
        let k : min 4 n - address % 4 ≡ 4 - address % 4 = omega arith in
        let next : 4 * (address / 4 + 1) ≡ address + (4 - address % 4) = omega arith in
        let whole : 4 - address % 4 + (n - (4 - address % 4)) ≡ n = omega arith in
        transfer_read_unaligned address n s inside h
        ∙ rw (k, next)
            (ap ok (
              span-append M.at address (4 - address % 4) (n - (4 - address % 4))
              ∙ ap (span M.at address) whole))
  ]

  -- Of fewer than 4 bytes from an address inside a word on, only the first ones are read from there.
  -- The last ones, as many as the address lies behind the start of its word, or all of them if there
  -- are fewer, are read from the start of the next word, also where all bytes that are asked for lie
  -- in the first word. The range ends 4 bytes below the end of the 16-bit addresses.
  pub transfer_read_skips :
      (address n : ℕ) (s : M.port.bytes.State)
      → 0 < address % 4
      → n < 4
      → address + n + 4 < 2 ^ 16
      → (transfer_read M.port aligned debug address n s).0
        ≡ ok (
            span M.at address (n - address % 4)
            ++ span M.at (4 * (address / 4 + 1)) (min n (address % 4)))
  transfer_read_skips address n s u few_bytes h =
      let k : min 4 n - address % 4 ≡ n - address % 4 = omega arith in
      let rest : n - (n - address % 4) ≡ min n (address % 4) = omega arith in
      transfer_read_unaligned address n s u h ∙ rw (k, rest) refl
