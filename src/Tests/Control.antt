-- ===== src/Tests/Control.antt =====
-- An EC with a register for each setting, and one that writes to its console.
use framework_system.Base.{
  ℕ, ◌+◌, ◌<◌, ◌≤◌, ◌⊎◌, ◌^◌, List, [], ◌∷◌, ◌++◌, length, ◌≡◌, refl, ap, ok, err, ◌==◌,
  if◌then◌else◌, true, false, Option, some, none, arith,
}
use framework_system.Bytes.{to_le, field, from_le}
use framework_system.EcBinary.{Captures}
use framework_system.EcBinary.Text.{is_utf8}
use framework_system.Cli.Options.{CrosEcDriverType, portio, cros_ec, windows}
use framework_system.Ec.Status.{EcError, EcResult, device_error, response, invalid_version}
use framework_system.Ec.Driver.{
  Driver, bind, send_request, send_command_extra, send_command_vec_extra,
}
use framework_system.Ec.Commands.{send}
use framework_system.Ec.Requests.{get_cmd_versions_v1_request}
use framework_system.Ec.Settings.{set_keyboard_backlight, get_keyboard_backlight}
use framework_system.Ec.Settings.Limits.{LimitKeeper}
use framework_system.Actions.Settings.{handle_charge_limit}
use framework_system.Actions.Settings.ChargeLimit.{handle_charge_limit-kept}
use framework_system.Ec.Settings.Backlight.{
  DutyKeeper, get_keyboard_backlight-set_keyboard_backlight,
}
use framework_system.Ec.Console.{console_read}
use framework_system.Ec.Console.Endings.{Talker, console_read-shown}
use framework_system.Ec.Flash.{EcFlashType, reflash}
use framework_system.Ec.Select.{Backend, cros_ec_with, read_memory}
use framework_system.Ec.Select.Guards.{reflash-elsewhere, read_memory-guarded}

-- The answers of an EC that keeps the charge limit: its state is the maximum and the minimum.
abbrev answer_limit : List ℕ → ℕ × ℕ → EcResult (List ℕ) × (ℕ × ℕ)
answer_limit (mode ∷ max ∷ min ∷ []) s =
    if mode == 2 then (ok [], (max, min)) else (ok (s.0 ∷ s.1 ∷ []), s)
answer_limit _ s = (err (device_error "bad request" []), s)

abbrev limits : LimitKeeper
limits = record {
  driver = record {
    State = ℕ × ℕ;
    send_command = λ command version payload s. answer_limit payload s;
    read_memory = λ offset length s. (err tt, s);
  };
  maximum = λ s. s.0;
  minimum = λ s. s.1;
  stored = λ max min s. (max, min);
  answers_set = λ s max min. refl;
  answers_get = λ s. refl;
  keeps_maximum = λ s max min. refl;
  keeps_minimum = λ s max min. refl;
}

-- The limits were 40 and 80.
handle_charge_limit-kept_example :
    (25 ≤ 60)
      × (60 ≤ 100)
      × (handle_charge_limit limits.driver (some 60) (80, 40) ≡ (ok (40, 60), (60, 40)))
    ⊎ (60 < 25 ⊎ 100 < 60)
      × ((e : EcError) × (handle_charge_limit limits.driver (some 60) (80, 40) ≡ (err e, (80, 40))))
handle_charge_limit-kept_example = handle_charge_limit-kept limits 60 (80, 40)

-- An EC that keeps a duty.
abbrev keeper : Driver
keeper = record {
  State = ℕ;
  send_command = λ command version payload s.
      if command == 0x25 then (ok [], field payload 0 2) else (ok (to_le 2 s), s);
  read_memory = λ offset length s. (err tt, s);
}

sets :
    (s d : ℕ)
    → d < 2 ^ 16
    → keeper.send_command 0x25 0 ((to_le 2 d ++ (1 ∷ 0 ∷ [])) ++ []) s ≡ (ok [], d)
unfolding to_le field from_le
sets s d h = ap (λ (t : ℕ). (ok [], t)) (omega arith)

abbrev duties : DutyKeeper
duties = record {
  driver = keeper;
  duty = λ s. s;
  stored = λ d s. d;
  answers_set = sets;
  answers_get = λ s. refl;
  keeps = λ s d. refl;
}

get_keyboard_backlight-set_keyboard_backlight_example :
    (bind keeper (set_keyboard_backlight keeper true 55) (λ _. get_keyboard_backlight keeper) 0).0
    ≡ ok 55
get_keyboard_backlight-set_keyboard_backlight_example =
    get_keyboard_backlight-set_keyboard_backlight duties true 55 0 (omega arith)

-- An EC with some output: its state is what it waits for (1 is a read of the recent output, and 2 one
-- of the next output), and what is left. Any other read gives zeros.
abbrev next_piece : ℕ → List (List ℕ) → EcResult (List ℕ) × (ℕ × List (List ℕ))
next_piece waits [] = (err (response invalid_version), (waits, []))
next_piece waits (bytes ∷ rest) = (ok bytes, (2, rest))

abbrev answer_console : ℕ → List ℕ → ℕ × List (List ℕ) → EcResult (List ℕ) × (ℕ × List (List ℕ))
answer_console command (subcmd ∷ []) (waits, left) =
    if subcmd + waits == 2 then next_piece waits left else (ok (0 ∷ []), (waits, left))
answer_console command _ (waits, left) = (ok [], (1, left))

abbrev talker : Driver
talker = record {
  State = ℕ × List (List ℕ);
  send_command = λ command version payload s. answer_console command payload s;
  read_memory = λ offset length s. (err tt, s);
}

abbrev rest_of : List (List ℕ) → List (List ℕ)
rest_of [] = []
rest_of (bytes ∷ rest) = rest

abbrev console : Talker
console = record {
  driver = talker;
  left = λ s. s.1;
  IsFresh = λ s. s.0 ≡ 1;
  IsStarted = λ s. s.0 ≡ 2;
  snapped = λ s. (1, s.1);
  after = λ s. (2, rest_of s.1);
  failure = response invalid_version;
  answers_snapshot = λ s. refl;
  snaps = λ s. (refl, refl);
  answers_recent = λ s piece pieces f e. rw (f, e) refl;
  answers_next = λ s piece pieces f e. rw (f, e) refl;
  takes = λ s piece pieces e. (refl, rw e refl);
  ends_recent = λ s f e. rw (f, e) refl;
  ends_next = λ s f e. rw (f, e) refl;
}

-- `ok`, a zero and `!`.
abbrev output : List (List ℕ)
output = (b'o' ∷ b'k' ∷ 0 ∷ []) ∷ (b'!' ∷ []) ∷ []

console_read-shown_example :
    (console_read talker 3 (0, output)).0 ≡ ok (some (b'o' ∷ b'k' ∷ b'!' ∷ []))
unfolding is_utf8
console_read-shown_example =
    console_read-shown console 3 (0, output) (refl, (refl, tt)) (omega arith)

-- Drivers that count the calls.
abbrev counting : CrosEcDriverType → Option (Backend ℕ)
counting portio = some (record {
  read = λ offset length s. (ok [], s + 1);
  send = λ command version payload s. (ok [], s + 1);
})
counting cros_ec = none
counting windows = none

abbrev no_groups : Captures
no_groups text = none

foreign_machine_kept :
    (reflash (cros_ec_with true false counting portio) no_groups [] EcFlashType.rw 7).1 ≡ 7
foreign_machine_kept = reflash-elsewhere true counting portio no_groups [] EcFlashType.rw 7

read_magic : (read_memory true true counting portio 0x20 2 0).0 ≡ ok []
unfolding read_memory
read_magic = refl

read_memory-guarded_example : (true ≡ true) × (0x20 + 2 ≤ 0xFF)
read_memory-guarded_example = read_memory-guarded true counting portio 0x20 2 [] 0 read_magic

-- An EC that answers version 0 of the request only, for the command 0x01.
abbrev old : Driver
old = record {
  State = Unit {0};
  send_command = λ command version payload s.
      if version == 0
      then (ok (to_le 4 (if length payload == 1 then 1 else 0)), s)
      else (err (response invalid_version), s);
  read_memory = λ offset length s. (err tt, s);
}

refused :
    (c : ℕ) → send old (get_cmd_versions_v1_request c) tt ≡ (err (response invalid_version), tt)
unfolding send send_request send_command_extra send_command_vec_extra
refused c = refl
