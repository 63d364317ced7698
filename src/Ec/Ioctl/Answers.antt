-- ===== src/Ec/Ioctl/Answers.antt =====
-- What the driver of the Linux kernel (chromium_ec/cros_ec.rs) makes of the answers of the kernel.
use framework_system.Base.{
  ℕ, ◌≤◌, ◌<◌, min, List, take, length, length-take, Bool, false, replicate, ◌++◌, ◌-◌, true, leb,
  leb→le, ==_iff, Bool-cases, inl, inr, Option, none, some, ok, err, panic, slice, ◌≡◌, refl, arith,
  >>=-ok,
}
use framework_system.Ec.Status.{EcError, unknown_response_code}
use framework_system.Ec.Port.{status_from}
use framework_system.Ec.Ioctl.{
  Kernel, CrosEcCommandV2, check_result, decode_answer, make_command, send_command, init,
}

-- The struct that goes to the kernel.
abbrev pub request : ℕ → ℕ → List ℕ → CrosEcCommandV2
request command command_version payload = record {
  version = command_version;
  command = command;
  outsize = length payload;
  insize = 256;
  result = 0xFF;
  buffer = payload ++ replicate (256 - length payload) 0;
}

make_command-fits :
    (command command_version : ℕ) (payload : List ℕ)
    → length payload ≤ 256
    → make_command command command_version payload ≡ ok (request command command_version payload)
unfolding make_command
make_command-fits command command_version payload h =
    let size : min 256 (length payload) ≡ length payload = omega arith in
    rw (size, (==_iff (length payload) (length payload)).1 refl) refl

make_command-long :
    (command command_version : ℕ) (payload : List ℕ)
    → 256 < length payload
    → make_command command command_version payload ≡ panic
unfolding make_command
make_command-long command command_version payload h = ground arith

pub check_result-ok : (code : ℕ) → check_result code ≡ ok tt → code ≡ 0
unfolding check_result status_from
check_result-ok code e = ground arith

pub slice_prefix-ok : (xs ys : List ℕ) (n : ℕ) → slice {E = EcError} xs 0 n ≡ ok ys → ys ≡ take n xs
unfolding slice
slice_prefix-ok xs ys n e = ground arith

slice_prefix-size : (xs ys : List ℕ) (n : ℕ) → slice {E = EcError} xs 0 n ≡ ok ys → length ys ≡ n
unfolding slice
slice_prefix-size xs ys n e = ground (arith, length-take n xs)

decode_answer-ok :
    (result : Option ℕ) (cmd : CrosEcCommandV2) (bytes : List ℕ)
    → decode_answer (result, cmd) ≡ ok bytes
    → (n : ℕ) × (result ≡ some n)
      × (cmd.result ≡ 0)
      × (bytes ≡ take n cmd.buffer)
      × (length bytes ≡ n)
unfolding decode_answer
decode_answer-ok none cmd bytes e =
    let (done, checked, rest) = >>=-ok (check_result cmd.result) _ e in cc
decode_answer-ok (some n) cmd bytes e =
    let (done, checked, rest) = >>=-ok (check_result cmd.result) _ e in
    (
      n,
      refl,
      check_result-ok cmd.result checked,
      slice_prefix-ok cmd.buffer bytes n rest,
      slice_prefix-size cmd.buffer bytes n rest,
    )

module _ (K : Kernel) where
  -- The state of the kernel in which a command is sent: an open file is used, and the device is
  -- opened otherwise.
  abbrev pub state_for : Bool × K.State → K.State
  state_for (true, s) = s
  state_for (false, s) = (K.open_device s).1

  -- The answer in a state, and the bytes that are returned from it.
  abbrev pub IsAccepted : ℕ → ℕ → List ℕ → List ℕ → K.State → Type 0
  IsAccepted command command_version payload bytes s =
      (n : ℕ) × (length payload ≤ 256)
      × ((K.cros_ec_cmd (request command command_version payload) s).0.0 ≡ some n)
      × ((K.cros_ec_cmd (request command command_version payload) s).0.1.result ≡ 0)
      × (bytes ≡ take n (K.cros_ec_cmd (request command command_version payload) s).0.1.buffer)
      × (length bytes ≡ n)

  send_opened :
      (command command_version : ℕ) (payload bytes : List ℕ) (s : K.State)
      → (send_command K command command_version payload (true, s)).0 ≡ ok bytes
      → IsAccepted command command_version payload bytes s
  unfolding send_command init
  send_opened command command_version payload bytes s e =
      elim (Bool-cases (leb (length payload) 256)) [
        | inl small ↦
            let fits = leb→le (length payload) 256 small in
            let answer = (K.cros_ec_cmd (request command command_version payload) s).0 in
            let accepted = rw (make_command-fits command command_version payload fits) at e in
            let (n, returned, success, prefix, size) =
              decode_answer-ok answer.0 answer.1 bytes accepted in
            (n, fits, returned, success, prefix, size)
        | inr large ↦
            let e' = rw (make_command-long command command_version payload (ground arith)) at e in
            cc
      ]

  -- Without a file there is no answer.
  send_closed :
      (command command_version : ℕ) (payload bytes : List ℕ) (s : K.State)
      → (K.open_device s).0 ≡ false
      → (send_command K command command_version payload (false, s)).0 ≡ ok bytes
      → ⊥
  unfolding send_command init
  send_closed command command_version payload bytes s closed e =
      elim (Bool-cases (leb (length payload) 256)) [
        | inl small ↦
            let fits = leb→le (length payload) 256 small in
            let e' = rw (closed, make_command-fits command command_version payload fits) at e in cc
        | inr large ↦
            let e' =
              rw (closed, make_command-long command command_version payload (ground arith)) at e in
            cc
      ]

  -- The data of an answer is accepted only if the command fits 256 bytes, and the kernel reports
  -- success both for the call and for the command, whether the device was open before or not. It is as
  -- long as the kernel says, and stands at the start of the buffer.
  pub send_command-IsAccepted :
      (command command_version : ℕ) (payload bytes : List ℕ) (w : Bool × K.State)
      → (send_command K command command_version payload w).0 ≡ ok bytes
      → IsAccepted command command_version payload bytes (state_for w)
  unfolding send_command init
  send_command-IsAccepted command command_version payload bytes (true, s) e =
      send_opened command command_version payload bytes s e
  send_command-IsAccepted command command_version payload bytes (false, s) e =
      elim (Bool-cases (K.open_device s).0) [
        | inl opened ↦
            send_opened command command_version payload bytes (K.open_device s).1 (rw opened at e)
        | inr closed ↦ absurd (send_closed command command_version payload bytes s closed e)
      ]

  -- If the call fails and leaves the struct as it is, the error is the unknown response code 0xFF that
  -- the struct was made with, and not that of the call, for every command that fits 256 bytes.
  pub send_command_masks :
      (command command_version : ℕ) (payload : List ℕ) (s s' : K.State)
      → length payload ≤ 256
      → ((cmd : CrosEcCommandV2) → K.cros_ec_cmd cmd s ≡ ((none, cmd), s'))
      → send_command K command command_version payload (true, s)
        ≡ (err (unknown_response_code 0xFF), (true, s'))
  unfolding send_command init decode_answer check_result status_from
  send_command_masks command command_version payload s s' h fails =
      rw
        (
          make_command-fits command command_version payload h,
          fails (request command command_version payload),
        )
        refl
