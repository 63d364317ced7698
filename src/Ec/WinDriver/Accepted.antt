-- ===== src/Ec/WinDriver/Accepted.antt =====
-- chromium_ec/windows.rs: which answers of the system are handed on.
use framework_system.Base.{
  ℕ, ◌-◌, ◌≤◌, ◌<◌, min, List, ◌++◌, length, replicate, take, leb, true, ◌≡◌, refl, some, ok, panic,
  >>=-ok, arith, Bool-cases, Option-cases, inl, inr, leb→le, le→not_ltb,
}
use framework_system.Ec.Ioctl.{check_result}
use framework_system.Ec.Ioctl.Answers.{check_result-ok, slice_prefix-ok}
use framework_system.Ec.WinDriver.{
  CrosEcCommand, System, make_command, decode_answer, init, send_command, ioctl_crosec_xcmd,
}

-- The struct that is sent for a payload that fits.
abbrev pub win_request : ℕ → ℕ → List ℕ → CrosEcCommand
win_request command command_version payload = record {
  version = command_version;
  command = command;
  outsize = length payload;
  insize = 0xF8;
  result = 0xFF;
  buffer = payload ++ replicate (256 - length payload) 0;
}

make_command_windows-fits :
    (command command_version : ℕ) (payload : List ℕ)
    → length payload ≤ 256
    → make_command command command_version payload
      ≡ ok (win_request command command_version payload)
unfolding make_command
make_command_windows-fits command command_version payload h =
    rw (le→not_ltb 256 (length payload) h) refl

make_command_windows-long :
    (command command_version : ℕ) (payload : List ℕ)
    → 256 < length payload
    → make_command command command_version payload ≡ panic
unfolding make_command
make_command_windows-long command command_version payload h = ground arith

decode_answer-accepted :
    (returned : ℕ) (cmd : CrosEcCommand) (bytes : List ℕ)
    → decode_answer (returned, cmd) ≡ ok bytes
    → (cmd.result ≡ 0) × (bytes ≡ take (min returned 256) cmd.buffer)
unfolding decode_answer
decode_answer-accepted returned cmd bytes e =
    let (done, checked, rest) = >>=-ok (check_result cmd.result) _ e in
    (check_result-ok cmd.result checked, slice_prefix-ok cmd.buffer bytes _ rest)

module _ (W : System) where
  -- The driver for Windows hands on an answer only if the command fits 256 bytes, `DeviceIoControl`
  -- succeeds and the EC reports success; it is the start of the buffer, as many bytes as the system
  -- says it returned, but at most 256.
  pub send_command_windows-accepted :
      (command command_version : ℕ) (payload bytes : List ℕ) (s : W.State)
      → (send_command W command command_version payload (true, s)).0 ≡ ok bytes
      → (returned : ℕ) × (answer : CrosEcCommand) × (length payload ≤ 256)
        × ((W.send_cmd ioctl_crosec_xcmd (win_request command command_version payload) s).0
            ≡ some (returned, answer))
        × (answer.result ≡ 0)
        × (bytes ≡ take (min returned 256) answer.buffer)
  unfolding send_command init
  send_command_windows-accepted command command_version payload bytes s e =
      elim (Bool-cases (leb (length payload) 256)) [
        | inl small ↦
            let fits = leb→le (length payload) 256 small in
            let sent =
              W.send_cmd ioctl_crosec_xcmd (win_request command command_version payload) s in
            let e' = rw (make_command_windows-fits command command_version payload fits) at e in
            elim (Option-cases sent.0) [
              | inl failed ↦ absurd (cc (rw failed at e'))
              | inr (answer, is) ↦
                  let (success, prefix) =
                    decode_answer-accepted answer.0 answer.1 bytes (rw is at e') in
                  (answer.0, answer.1, fits, is, success, prefix)
            ]
        | inr large ↦
            let e' =
              rw (make_command_windows-long command command_version payload (ground arith)) at e in
            cc
      ]
