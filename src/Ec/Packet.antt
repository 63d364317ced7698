-- ===== src/Ec/Packet.antt =====
-- chromium_ec/portio.rs: the version 3 packets of the host command interface.
pub mod Checksum
use mathlib.Core.List.{foldl}
use framework_system.Base.{
  ℕ, ◌+◌, ◌-◌, ◌%◌, ◌≤◌, min, List, [], ◌∷◌, ◌++◌, length, take, drop, replicate, map,
}
use framework_system.Base.{
  Result, ok, err, panic, ◌>>=◌, ◌>>◌, assert, slice, leb, Bool, true, false, if◌then◌else◌,
}
use framework_system.Bytes.{to_le, field}

abbrev pub ec_host_request_version : ℕ
ec_host_request_version = 3

-- The size of the packet buffer.
abbrev pub ec_lpc_host_packet_size : ℕ
ec_lpc_host_packet_size = 0x100

-- The packed request header of 8 bytes.
pub record EcHostRequest : Type 0 where
  pub struct_version : ℕ
  pub checksum : ℕ
  pub command : ℕ
  pub command_version : ℕ
  pub reserved : ℕ
  pub data_len : ℕ

abbrev pub request_len : ℕ
request_len = 8

-- The bytes of the struct, as `any_as_u8_slice` reads them.
unfoldable pub request_bytes : EcHostRequest → List ℕ
request_bytes r =
    r.struct_version
    ∷ r.checksum
    ∷ (to_le 2 r.command ++ (r.command_version ∷ r.reserved ∷ to_le 2 r.data_len))

unfoldable pub wrapping_add : ℕ → ℕ → ℕ
wrapping_add a b = (a + b) % 256

unfoldable pub wrapping_neg : ℕ → ℕ
wrapping_neg a = (256 - a) % 256

unfoldable pub checksum_fold : List ℕ → ℕ
unfolding wrapping_add
checksum_fold numbers = foldl wrapping_add 0 numbers

unfoldable pub checksum_buffers : List (List ℕ) → ℕ
unfolding checksum_fold wrapping_neg
checksum_buffers buffers = wrapping_neg (foldl wrapping_add 0 (map checksum_fold buffers))

unfoldable pub checksum_buffer : List ℕ → ℕ
unfolding checksum_fold wrapping_neg
checksum_buffer buffer = wrapping_neg (foldl wrapping_add 0 buffer)

-- `buffer[at..at + src.len()].copy_from_slice(src)`
unfoldable pub copy_at {ℓ} : {E : Type ℓ} → List ℕ → ℕ → List ℕ → Result E (List ℕ)
copy_at buffer at src =
    if leb (at + length src) (length buffer)
    then ok (take at buffer ++ (src ++ drop (at + length src) buffer))
    else panic

-- Both copies that `pack_request` makes into its buffer.
unfoldable pub fill {ℓ} : {E : Type ℓ} → List ℕ → List ℕ → List ℕ → ℕ → Result E (List ℕ)
fill buffer r_bytes payload max_transfer = do
  with_header ← copy_at buffer 0 r_bytes
  elim payload [
    | [] ↦ ok with_header
    | bytes ↦ copy_at with_header request_len (take max_transfer bytes)
  ]

-- `pack_request` over its buffer of zeroes.
unfoldable pub pack_into {ℓ} : {E : Type ℓ} → List ℕ → EcHostRequest → List ℕ → Result E (List ℕ)
pack_into buffer request payload = do
  let total = length buffer
  let max_transfer = min (total - request_len) (length payload)
  let checksum_size = request_len + max_transfer
  assert (leb checksum_size total)
  first ← fill buffer (request_bytes request) payload max_transfer
  summed ← slice first 0 checksum_size
  second ←
      fill first (request_bytes (record request { checksum = checksum_buffer summed })) payload
        max_transfer
  slice second 0 checksum_size

unfoldable pub pack_request {ℓ} : {E : Type ℓ} → EcHostRequest → List ℕ → Result E (List ℕ)
unfolding pack_into fill copy_at request_bytes checksum_buffer
pack_request request payload = pack_into (replicate ec_lpc_host_packet_size 0) request payload
