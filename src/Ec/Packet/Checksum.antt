-- ===== src/Ec/Packet/Checksum.antt =====
-- Every packet that `pack_request` builds adds up to 0.
use mathlib.Core.List.{foldl, append-nil, append_assoc}
use framework_system.Base.{
  ℕ, zero, suc, ◌^◌, ◌+◌, ◌-◌, ◌%◌, ◌≤◌, ◌<◌, ◌≡◌, refl, ap, sym, ◌∙◌, arith, min,
}
use framework_system.Base.{
  List, [], ◌∷◌, ◌++◌, length, take, drop, replicate, length-append, ok, le→leb,
}
use framework_system.Base.{
  take-append, drop-append, length-take, length-drop, length-replicate, slice, slice_prefix,
  drop-drop,
}
use framework_system.Bytes.{to_le, field, from_le}
use framework_system.Ec.Packet.{
  EcHostRequest, request_bytes, wrapping_add, checksum_fold, checksum_buffer, copy_at, fill,
  pack_into, pack_request,
}

-- The plain sum, which does not wrap.
unfoldable pub sum : List ℕ → ℕ
sum [] = 0
sum (x ∷ xs) = x + sum xs

foldl-sum : (xs : List ℕ) (acc : ℕ) → acc < 256 → foldl wrapping_add acc xs ≡ (acc + sum xs) % 256
unfolding sum wrapping_add
foldl-sum [] acc h = omega arith
foldl-sum (x ∷ xs) acc h = foldl-sum xs ((acc + x) % 256) (omega arith) ∙ omega arith

pub checksum_fold-eq-sum : (xs : List ℕ) → checksum_fold xs ≡ sum xs % 256
unfolding checksum_fold
checksum_fold-eq-sum xs = foldl-sum xs 0 (omega arith) ∙ ap (λ (t : ℕ). t % 256) (omega arith)

sum-append : (xs ys : List ℕ) → sum (xs ++ ys) ≡ sum xs + sum ys
unfolding sum
sum-append [] ys = omega arith
sum-append (x ∷ xs) ys = omega (arith, sum-append xs ys)

-- The checksum cancels the sum of the bytes.
checksum_buffer-cancels : (xs : List ℕ) → (sum xs + checksum_buffer xs) % 256 ≡ 0
unfolding checksum_buffer
checksum_buffer-cancels xs = omega (arith, foldl-sum xs 0 (omega arith))

length-request_bytes : (r : EcHostRequest) → length (request_bytes r) ≡ 8
unfolding request_bytes to_le
length-request_bytes r = omega arith

-- A write of `src` behind a prefix.
copy_at-append :
    (pre src rest : List ℕ)
    → length src ≤ length rest
    → copy_at {E = Unit {0}} (pre ++ rest) (length pre) src
      ≡ ok (pre ++ (src ++ drop (length src) rest))
unfolding copy_at
copy_at-append pre src rest h =
    rw
      (
        le→leb (length pre + length src) (length (pre ++ rest))
            (omega (arith, length-append pre rest)),
        take-append pre rest,
        sym (drop-drop (length src) (length pre) (pre ++ rest)),
        drop-append pre rest,
      )
      refl

slice-append :
    (pre rest : List ℕ) (n : ℕ) → length pre ≡ n → slice {E = Unit {0}} (pre ++ rest) 0 n ≡ ok pre
slice-append pre rest n e = rw (← e) (
    slice_prefix (pre ++ rest) (length pre) (omega (arith, length-append pre rest))
    ∙ ap ok (take-append pre rest))

module _ (buffer h : List ℕ) (e : length h ≡ 8) where
  first_copy : 8 ≤ length buffer → copy_at {E = Unit {0}} buffer 0 h ≡ ok (h ++ drop 8 buffer)
  first_copy fits = let copied = copy_at-append [] h buffer (omega (arith, e)) in rw e at copied

  second_copy :
      (t : List ℕ)
      → 8 + length t ≤ length buffer
      → copy_at {E = Unit {0}} (h ++ drop 8 buffer) 8 t
        ≡ ok ((h ++ t) ++ drop (length t) (drop 8 buffer))
  second_copy t fits =
      let copied = copy_at-append h t (drop 8 buffer) (omega (arith, length-drop 8 buffer)) in
      let at_8 = rw e at copied in at_8 ∙ ap ok (sym (append_assoc h t _))

  copies_length :
      (t : List ℕ)
      → 8 + length t ≤ length buffer
      → length ((h ++ t) ++ drop (length t) (drop 8 buffer)) ≡ length buffer
  copies_length t fits = omega (
    arith,
    e,
    length-append (h ++ t) (drop (length t) (drop 8 buffer)),
    length-append h t,
    length-drop (length t) (drop 8 buffer),
    length-drop 8 buffer,
  )

  -- Both copies: the header, and the first `n` bytes of the payload.
  fill_lem :
      (payload : List ℕ) (n : ℕ)
      → 8 + n ≤ length buffer
      → n ≤ length payload
      → let t = take n payload in
        let out = (h ++ t) ++ drop (length t) (drop 8 buffer) in
        (fill {E = Unit {0}} buffer h payload n ≡ ok out) × (length out ≡ length buffer)
  unfolding fill
  fill_lem [] zero fits enough =
      (rw (first_copy (omega arith), append-nil h) refl, copies_length [] fits)
  fill_lem [] (suc n) fits enough = absurd (omega arith)
  fill_lem (x ∷ xs) n fits enough =
      let t = take n (x ∷ xs) in
      let size : length t ≡ n = omega (arith, length-take n (x ∷ xs)) in
      (rw (first_copy (omega arith)) (second_copy t (omega arith)), copies_length t (omega arith))

-- The packet: the header with its checksum, and as much of the payload as fits.
packet : ℕ → EcHostRequest → List ℕ → List ℕ
packet total r payload =
    let t = take (min (total - 8) (length payload)) payload in
    request_bytes (record r { checksum = checksum_buffer (request_bytes r ++ t) }) ++ t

pack_into_lem :
    (buffer : List ℕ) (r : EcHostRequest) (payload : List ℕ)
    → 8 ≤ length buffer
    → pack_into {E = Unit {0}} buffer r payload ≡ ok (packet (length buffer) r payload)
unfolding pack_into packet
pack_into_lem buffer r payload h =
    let n = min (length buffer - 8) (length payload) in
    let t = take n payload in
    let size : length t ≡ n = omega (arith, length-take n payload) in
    let h1 = request_bytes r in
    let one = fill_lem buffer h1 (length-request_bytes r) payload n (omega arith) (omega arith) in
    let out = (h1 ++ t) ++ drop (length t) (drop 8 buffer) in
    let r2 = record r { checksum = checksum_buffer (h1 ++ t) } in
    let h2 = request_bytes r2 in
    let two =
      fill_lem out h2 (length-request_bytes r2) payload n (omega (arith, one.1)) (omega arith) in
    rw
      (
        le→leb (8 + n) (length buffer) (omega arith),
        one.0,
        slice-append (h1 ++ t) (drop (length t) (drop 8 buffer)) (8 + n)
            (omega (arith, length-append h1 t, length-request_bytes r)),
        two.0,
      )
      (slice-append (h2 ++ t) _ (8 + n)
        (omega (arith, length-append h2 t, length-request_bytes r2)))

-- What `pack_request` promises: the packet is the header with the request's fields, then the
-- payload, as far as it fits, and its bytes add up to 0 modulo 256.
pub record IsPacket (r : EcHostRequest) (payload p : List ℕ) : Type 0 where
  pub sums_to_zero : checksum_fold p ≡ 0
  pub size : length p ≡ 8 + min 248 (length payload)
  pub body : drop 8 p ≡ take 248 payload
  pub version : field p 0 1 ≡ r.struct_version
  pub command : field p 2 2 ≡ r.command
  pub command_version : field p 4 1 ≡ r.command_version
  pub reserved : field p 5 1 ≡ r.reserved
  pub data_len : field p 6 2 ≡ r.data_len
  pub checksum : field p 1 1 < 256

take-min : (n : ℕ) (xs : List ℕ) → take (min n (length xs)) xs ≡ take n xs
take-min zero xs = ap (λ (k : ℕ). take k xs) (min_zero (length xs))
  where
    min_zero : (k : ℕ) → min 0 k ≡ 0
    min_zero k = omega arith
take-min (suc n) [] = let e : min (suc n) 0 ≡ 0 = omega arith in rw e refl
take-min (suc n) (x ∷ xs) =
    let e : min (suc n) (suc (length xs)) ≡ suc (min n (length xs)) = omega arith in
    rw e (ap (λ (t : List ℕ). x ∷ t) (take-min n xs))

packet-sums_to_zero :
    (r : EcHostRequest) (payload : List ℕ)
    → r.checksum ≡ 0
    → checksum_fold (packet 256 r payload) ≡ 0
unfolding packet
packet-sums_to_zero r payload zeroed =
    let t = take (min 248 (length payload)) payload in
    let cs = checksum_buffer (request_bytes r ++ t) in
    checksum_fold-eq-sum _
    ∙ omega (
      arith,
      sum-append (request_bytes r) t,
      sum-append (request_bytes (record r { checksum = cs })) t,
      checksum_buffer-cancels (request_bytes r ++ t),
      sum-checksum r cs,
    )
  where
    sum-checksum :
        (r : EcHostRequest) (cs : ℕ)
        → sum (request_bytes (record r { checksum = cs })) + r.checksum ≡ sum (request_bytes r) + cs
    sum-checksum r cs = unfold request_bytes sum in omega arith

-- For every request with fields in range and a zero checksum, and every payload, `pack_request`
-- succeeds with a packet whose bytes add up to 0 mod 256, which carries each of the other fields of
-- the request in its place, with the reserved byte, and the first 248 bytes of the payload.
pub pack_request-IsPacket :
    (r : EcHostRequest) (payload : List ℕ)
    → r.checksum ≡ 0
    → r.struct_version < 256
    → r.command < 2 ^ 16
    → r.command_version < 256
    → r.reserved < 256
    → r.data_len < 2 ^ 16
    → (p : List ℕ) × (pack_request {E = Unit {0}} r payload ≡ ok p) × IsPacket r payload p
unfolding pack_request
pack_request-IsPacket r payload zeroed hv hc hcv hr hd = (
  packet 256 r payload,
  pack_into_lem (replicate 256 0) r payload (rw (length-replicate {A = ℕ} 256 0) (omega arith))
      ∙ ap (λ (n : ℕ). ok (packet n r payload)) (length-replicate {A = ℕ} 256 0),
  record {
    sums_to_zero = packet-sums_to_zero r payload zeroed;
    size =
        unfold packet request_bytes to_le in
        omega (arith, length-take (min 248 (length payload)) payload);
    body = unfold packet request_bytes to_le in take-min 248 payload;
    version = unfold packet request_bytes to_le field from_le in omega arith;
    command = unfold packet request_bytes to_le field from_le in omega arith;
    command_version = unfold packet request_bytes to_le field from_le in omega arith;
    reserved = unfold packet request_bytes to_le field from_le in omega arith;
    data_len = unfold packet request_bytes to_le field from_le in omega arith;
    checksum = unfold packet request_bytes to_le field from_le in omega arith;
  },
)
