-- ===== src/Ec/Mec/Writing.antt =====
-- What `transfer_write` (chromium_ec/portio_mec.rs) writes to the memory of an EC.
use framework_system.Base.{
  ℕ, zero, suc, ◌+◌, ◌-◌, ◌*◌, ◌/◌, ◌^◌, ◌<◌, ◌≤◌, List, [], ◌∷◌, ◌++◌, length, take, drop, Bool,
  true, ltb, ◌≡◌, refl, sym, ap, ◌∙◌, ok, arith, lt→ltb, Bool-cases, inl, inr, length-append,
  length-drop, length-take, take-append-drop,
}
use mathlib.Core.List.{append-nil, append_assoc}
use framework_system.Bytes.{to_le, from_le, to_le-from_le, IsBytes}
use framework_system.Ec.Mec.{
  MecPort, select, write_start, write_longs, write_end, write_middle, write_last, transfer_write,
}
use framework_system.Ec.Mec.Spans.{add_u16-small, few}
use framework_system.Ec.Mec.Masks.{aligned_mask, byte_mask}

-- An EC that takes down the bytes that come from address 0 on. The address register selects a word
-- of 4 bytes, as for reading; what is written there counts if it goes on behind the last byte.
pub record Sink : Type 1 where
  pub port : MecPort
  pub written : port.bytes.State → List ℕ
  pub ByteAt : ℕ → port.bytes.State → Type 0
  pub LongAt : ℕ → port.bytes.State → Type 0
  pub selects_byte :
      (word : ℕ) (s : port.bytes.State)
      → ByteAt word (port.write_u16 0x802 (4 * word) s)
        × (written (port.write_u16 0x802 (4 * word) s) ≡ written s)
  pub selects_long :
      (word : ℕ) (s : port.bytes.State)
      → LongAt word (port.write_u16 0x802 (4 * word + 3) s)
        × (written (port.write_u16 0x802 (4 * word + 3) s) ≡ written s)
  pub writes_byte :
      (word i x : ℕ) (s : port.bytes.State)
      → i < 4
      → ByteAt word s
      → length (written s) ≡ 4 * word + i
      → ByteAt word (port.bytes.write (0x804 + i) x s)
        × (written (port.bytes.write (0x804 + i) x s) ≡ written s ++ (x ∷ []))
  pub writes_low :
      (word x : ℕ) (s : port.bytes.State)
      → LongAt word s
      → length (written s) ≡ 4 * word
      → LongAt word (port.write_u16 0x804 x s)
        × (written (port.write_u16 0x804 x s) ≡ written s ++ to_le 2 x)
  pub writes_high :
      (word x : ℕ) (s : port.bytes.State)
      → LongAt word s
      → length (written s) ≡ 4 * word + 2
      → LongAt (word + 1) (port.write_u16 0x806 x s)
        × (written (port.write_u16 0x806 x s) ≡ written s ++ to_le 2 x)

word_bytes : (a b : ℕ) → IsBytes (a ∷ b ∷ []) → to_le 2 (from_le (a ∷ b ∷ [])) ≡ a ∷ b ∷ []
word_bytes a b h = to_le-from_le (a ∷ b ∷ []) h

module _ (K : Sink) (debug : Bool) where
  write_end-appends :
      (word i : ℕ) (xs : List ℕ) (s : K.port.bytes.State)
      → i + length xs ≤ 4
      → K.ByteAt word s
      → length (K.written s) ≡ 4 * word + i
      → ((write_end K.port true debug i xs s).0 ≡ ok tt)
        × (K.written (write_end K.port true debug i xs s).1 ≡ K.written s ++ xs)
  unfolding write_end
  write_end-appends word i [] s h b e = (refl, sym (append-nil (K.written s)))
  write_end-appends word i (x ∷ xs) s h b e =
      let first = K.writes_byte word i x s (omega arith) b e in
      let longer = ap length first.1 ∙ length-append (K.written s) (x ∷ []) in
      let rest =
        write_end-appends word (i + 1) xs (K.port.bytes.write (0x804 + i) x s) (omega arith) first.0
          (omega (arith, longer)) in
      (
        rest.0,
        rest.1 ∙ ap (λ (t : List ℕ). t ++ xs) first.1 ∙ append_assoc (K.written s) (x ∷ []) xs,
      )

  write_longs-appends :
      (n word : ℕ) (buffer : List ℕ) (s : K.port.bytes.State)
      → K.LongAt word s
      → length (K.written s) ≡ 4 * word
      → 4 * n ≤ length buffer
      → IsBytes buffer
      → word + n < 16384
      → ((write_longs K.port true debug n buffer (4 * word) s).0
          ≡ ok (drop (4 * n) buffer, 4 * (word + n)))
        × (K.written (write_longs K.port true debug n buffer (4 * word) s).1
            ≡ K.written s ++ take (4 * n) buffer)
  unfolding write_longs
  write_longs-appends zero word buffer s l e h hb w =
      (ap (λ a. ok (buffer, 4 * a)) (omega arith), sym (append-nil (K.written s)))
  write_longs-appends (suc n) word [] s l e h hb w = absurd (omega arith)
  write_longs-appends (suc n) word (a ∷ []) s l e h hb w = absurd (omega arith)
  write_longs-appends (suc n) word (a ∷ b ∷ []) s l e h hb w = absurd (omega arith)
  write_longs-appends (suc n) word (a ∷ b ∷ c ∷ []) s l e h hb w = absurd (omega arith)
  write_longs-appends (suc n) word (a ∷ b ∷ c ∷ d ∷ buffer) s l e h
        (ha, (hb, (hc, (hd, rest_bytes)))) w =
      let low = K.writes_low word (from_le (a ∷ b ∷ [])) s l e in
      let low_bytes = low.1 ∙ ap (λ t. K.written s ++ t) (word_bytes a b (ha, (hb, tt))) in
      let s1 = K.port.write_u16 0x804 (from_le (a ∷ b ∷ [])) s in
      let longer = ap length low_bytes ∙ length-append (K.written s) (a ∷ b ∷ []) in
      let high = K.writes_high word (from_le (c ∷ d ∷ [])) s1 low.0 (omega (arith, longer)) in
      let high_bytes = high.1 ∙ ap (λ t. K.written s1 ++ t) (word_bytes c d (hc, (hd, tt))) in
      let s2 = K.port.write_u16 0x806 (from_le (c ∷ d ∷ [])) s1 in
      let longest = ap length high_bytes ∙ length-append (K.written s1) (c ∷ d ∷ []) in
      let next : 4 * word + 4 ≡ 4 * (word + 1) = omega arith in
      let count : 4 * suc n ≡ suc (suc (suc (suc (4 * n)))) = omega arith in
      let rest =
        write_longs-appends n (word + 1) buffer s2 high.0 (omega (arith, longer, longest))
          (omega arith) rest_bytes (omega arith) in
      let places : word + 1 + n ≡ word + suc n = omega arith in
      let tail = take (4 * n) buffer in
      rw (add_u16-small debug (4 * word) 4 (omega arith), next, count)
        (
          rest.0 ∙ ap (λ k. ok (drop (4 * n) buffer, 4 * k)) places,
          rest.1
              ∙ ap (λ (t : List ℕ). t ++ tail) high_bytes
              ∙ append_assoc (K.written s1) (c ∷ d ∷ []) tail
              ∙ ap (λ (t : List ℕ). t ++ (c ∷ d ∷ tail)) low_bytes
              ∙ append_assoc (K.written s) (a ∷ b ∷ []) (c ∷ d ∷ tail),
        )

  tail_appends :
      (word : ℕ) (xs : List ℕ) (s : K.port.bytes.State)
      → length xs < 4
      → word < 16384
      → length (K.written s) ≡ 4 * word
      → ((write_last K.port true debug xs (4 * word) s).0 ≡ ok tt)
        × (K.written (write_last K.port true debug xs (4 * word) s).1 ≡ K.written s ++ xs)
  unfolding write_last select
  tail_appends word [] s h w e = (refl, sym (append-nil (K.written s)))
  tail_appends word (x ∷ xs) s h w e =
      let selected = K.selects_byte word s in
      let done =
        write_end-appends word 0 (x ∷ xs) (K.port.write_u16 0x802 (4 * word) s) (omega arith)
          selected.0 (omega (arith, ap length selected.1)) in
      rw (lt→ltb 0 (length (x ∷ xs)) (omega arith), aligned_mask word w, byte_mask word w)
        (done.0, done.1 ∙ ap (λ (t : List ℕ). t ++ (x ∷ xs)) selected.1)

  longs_append :
      (buffer : List ℕ) (s : K.port.bytes.State)
      → K.written s ≡ []
      → length buffer < 2 ^ 16 - 4
      → IsBytes buffer
      → ((write_middle K.port true debug buffer 0 s).0
          ≡ ok (drop (4 * (length buffer / 4)) buffer, 4 * (length buffer / 4)))
        × (K.written (write_middle K.port true debug buffer 0 s).1
            ≡ take (4 * (length buffer / 4)) buffer)
  unfolding write_middle select
  longs_append buffer s e h hb = elim (Bool-cases (ltb 3 (length buffer))) [
    | inl many ↦
        let selected = K.selects_long 0 s in
        let longs = length buffer / 4 in
        let none_yet = selected.1 ∙ e in
        let done =
          write_longs-appends longs 0 buffer (K.port.write_u16 0x802 3 s) selected.0
            (ap length none_yet) (omega arith) hb (omega arith) in
        let places : 4 * (0 + longs) ≡ 4 * longs = omega arith in
        rw many (
          done.0 ∙ ap (λ a. ok (drop (4 * longs) buffer, a)) places,
          done.1 ∙ ap (λ (t : List ℕ). t ++ take (4 * longs) buffer) none_yet,
        )
    | inr some_bytes ↦
        let none_left : length buffer / 4 ≡ 0 = omega (arith, few (length buffer) some_bytes) in
        rw (some_bytes, none_left) (refl, e)
  ]

  -- An EC that takes down what comes from address 0 on, and has nothing yet, gets the bytes of the
  -- buffer in order, and `transfer_write` ends well, in builds with and without overflow checks, if
  -- the buffer lies at an even address and has fewer than 2^16 - 4 bytes.
  pub transfer_write-written :
      (buffer : List ℕ) (s : K.port.bytes.State)
      → K.written s ≡ []
      → length buffer < 2 ^ 16 - 4
      → IsBytes buffer
      → ((transfer_write K.port true debug buffer s).0 ≡ ok tt)
        × (K.written (transfer_write K.port true debug buffer s).1 ≡ buffer)
  unfolding transfer_write write_start
  transfer_write-written buffer s e h hb =
      let longs = 4 * (length buffer / 4) in
      let middle = longs_append buffer s e h hb in
      let after = (write_middle K.port true debug buffer 0 s).1 in
      let sent = ap length middle.1 ∙ length-take longs buffer in
      let last =
        tail_appends (length buffer / 4) (drop longs buffer) after
          (omega (arith, length-drop longs buffer)) (omega arith) (omega (arith, sent)) in
      rw (lt→ltb (length buffer) (2 ^ 16) (omega arith), middle.0)
        (
          last.0,
          last.1
              ∙ ap (λ (t : List ℕ). t ++ drop longs buffer) middle.1
              ∙ take-append-drop longs buffer,
        )
