-- ===== src/Tests/Drivers.antt =====
-- A kernel that answers, and one that refuses.
use framework_system.Base.{
  ℕ, suc, ◌≤◌, List, [], ◌∷◌, length, replicate, take, true, ◌≡◌, refl, none, some, ok, err, arith,
  slice,
}
use framework_system.Ec.Status.{unknown_response_code}
use framework_system.Ec.Ioctl.{
  Kernel, check_result, decode_answer, make_command, init, send_command,
}
use framework_system.Ec.Ioctl.Answers.{request, send_command-IsAccepted, send_command_masks}

-- Two bytes come back, and the state counts the calls.
abbrev answering : Kernel
answering = record {
  State = ℕ;
  open_device = λ s. (true, s);
  cros_ec_mem = λ offset n s. (some (replicate n 0), s);
  cros_ec_cmd =
      λ cmd s. ((some 2, record cmd { result = 0; buffer = 7 ∷ 8 ∷ replicate 254 0 }), suc s);
}

abbrev refusing : Kernel
refusing = record answering { cros_ec_cmd = λ cmd s. ((none, cmd), suc s) }

abbrev payload : List ℕ
payload = 1 ∷ []

abbrev bytes : List ℕ
bytes = 7 ∷ 8 ∷ []

accepted : (send_command answering 2 0 payload (true, 0)).0 ≡ ok bytes
unfolding send_command init make_command decode_answer check_result slice
accepted = refl

send_command-IsAccepted_example :
    (n : ℕ) × (length payload ≤ 256)
    × ((answering.cros_ec_cmd (request 2 0 payload) 0).0.0 ≡ some n)
    × ((answering.cros_ec_cmd (request 2 0 payload) 0).0.1.result ≡ 0)
    × (bytes ≡ take n (answering.cros_ec_cmd (request 2 0 payload) 0).0.1.buffer)
    × (length bytes ≡ n)
send_command-IsAccepted_example =
    send_command-IsAccepted answering 2 0 payload bytes (true, 0) accepted

send_command_masks_example :
    send_command refusing 2 0 payload (true, 0) ≡ (err (unknown_response_code 0xFF), (true, 1))
send_command_masks_example = send_command_masks refusing 2 0 payload 0 1 (omega arith) (λ cmd. refl)
