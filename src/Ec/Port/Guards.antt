-- ===== src/Ec/Port/Guards.antt =====
-- What the guards on a response let through.
use framework_system.Base.{
  ℕ, zero, suc, ◌+◌, ◌≤◌, ◌≡◌, ◌≢◌, refl, ap, arith, List, [], ◌∷◌, length, Bool, ok, err, panic,
  lt→ltb, inl, inr, ◌⊎◌, ◌∙◌, sym, Returns, Result, ◌==◌,
}
use framework_system.Bytes.{field}
use framework_system.Ec.Status.{EcError, EcResult}
use framework_system.Ec.Packet.{checksum_buffers}
use framework_system.Ec.Port.{
  Port, EcHostResponse, host_data, host_args, response_len, unpack_response_header, check_status,
  check_header, transfer_read, read_body, receive, checked, debug_assert,
}

check_status-ok : (code : ℕ) {u : Unit {0}} → check_status code ≡ ok u → code ≡ 0
unfolding check_status
check_status-ok code h = ground arith

check_status-Returns : (code : ℕ) → Returns (check_status code)
unfolding check_status
check_status-Returns code = ground arith

returned_cases :
    {E : Type 0} (r : Result E (Unit {0})) → Returns r → (r ≡ ok tt) ⊎ ((e : E) × (r ≡ err e))
returned_cases (ok tt) h = inl refl
returned_cases (err e) h = inr (e, refl)
returned_cases panic h = absurd h

check_status_fails : (code : ℕ) → code ≢ 0 → (e : EcError) × (check_status code ≡ err e)
check_status_fails code h = elim (returned_cases (check_status code) (check_status-Returns code)) [
  | inl passed ↦ absurd (h (check_status-ok code passed))
  | inr found ↦ found
]

pub check_header-ok :
    (h : EcHostResponse) {u : Unit {0}}
    → check_header h ≡ ok u
    → (h.result ≡ 0) × (h.struct_version ≡ 3) × (h.reserved ≡ 0) × (h.data_len ≤ 0x100)
unfolding check_header
check_header-ok h e = ground arith

module _ (P : Port) where
  checked-ok :
      {A : Type 0} {b : List ℕ} (r : EcResult A) (s : P.State)
      (next : A → P.State → EcResult (List ℕ) × P.State)
      → (checked P r s next).0 ≡ ok b
      → (a : A) × (r ≡ ok a) × ((next a s).0 ≡ ok b)
  checked-ok (ok a) s next h = (a, refl, h)
  checked-ok (err e) s next h = cc
  checked-ok panic s next h = cc

  pub length-transfer_read :
      (port address size : ℕ) (s : P.State) → length (transfer_read P port address size s).0 ≡ size
  unfolding transfer_read
  length-transfer_read port address zero s = refl
  length-transfer_read port address (suc size) s =
      ap suc (length-transfer_read port (address + 1) size _)

  length-of : (xs ys : List ℕ) → ◌≡◌ {A = EcResult (List ℕ)} (ok xs) (ok ys) → length ys ≡ length xs
  length-of xs ys h = let same : xs ≡ ys = cc in ap length (sym same)

  read_body-length :
      (debug : Bool) (header : List ℕ) (n : ℕ) (s : P.State) {b : List ℕ}
      → (read_body P debug header n s).0 ≡ ok b
      → length b ≡ n
  unfolding read_body
  read_body-length debug header zero s h = length-of [] _ h
  read_body-length debug header (suc n) s h =
      let bytes = (transfer_read P host_args response_len (suc n) s).0 in
      let (a, q, last) =
        checked-ok (debug_assert debug (checksum_buffers (header ∷ bytes ∷ []) == 0))
          (transfer_read P host_args response_len (suc n) s).1 (λ _ s2. (ok bytes, s2))
          (rw (lt→ltb 0 (suc n) (omega arith)) at h) in
      length-of bytes _ last ∙ length-transfer_read host_args response_len (suc n) s

  -- The header that a state shows behind its status byte.
  abbrev pub header_of : P.State → List ℕ
  header_of s = (transfer_read P host_args 0 response_len (P.read host_data s).1).0

  -- An accepted response has the status 0 and a header of version 3 with the reserved field 0, and
  -- its data has the length of the header, which is 256 at most.
  pub receive-ok :
      (debug : Bool) (s : P.State) (bytes : List ℕ)
      → (receive P debug s).0 ≡ ok bytes
      → ((P.read host_data s).0 ≡ 0)
        × (field (header_of s) 0 1 ≡ 3)
        × (field (header_of s) 6 2 ≡ 0)
        × (length bytes ≡ field (header_of s) 4 2)
        × (length bytes ≤ 0x100)
  unfolding receive unpack_response_header
  receive-ok debug s bytes h =
      let (u, status, rest) = checked-ok (check_status (P.read host_data s).0) _ _ h in
      let (v, guards, body) =
        checked-ok (check_header (unpack_response_header (header_of s))) _ _ rest in
      let g = check_header-ok (unpack_response_header (header_of s)) guards in
      let n = read_body-length debug _ _ _ body in
      (check_status-ok _ status, g.1, g.2, n, omega (arith, n, g.3))

  -- An EC that reports a failure gives an error, and the response is not read.
  receive_refused :
      (debug : Bool) (s : P.State)
      → (P.read host_data s).0 ≢ 0
      → (e : EcError) × (receive P debug s ≡ (err e, (P.read host_data s).1))
  unfolding receive
  receive_refused debug s h =
      let (e, fails) = check_status_fails (P.read host_data s).0 h in (e, rw fails refl)
