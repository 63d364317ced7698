-- ===== src/Hid/Writes.antt =====
-- What a card gets from `flash_firmware_image` (ccgx/hid.rs), if it accepts everything.
use framework_system.Base.{
  ℕ, zero, suc, ◌+◌, ◌*◌, ◌/◌, ◌%◌, ◌^◌, ◌≤◌, List, [], ◌∷◌, ◌++◌, length, take, drop, replicate,
  ◌≡◌, refl, sym, ap, ◌∙◌, ok, arith, slice_in_range, slice, length-take-drop, length-drop,
  length-take,
}
use mathlib.Core.List.{append-nil, append_assoc}
use framework_system.Base.Calls.{Call, pure, ◌≫=◌, expect}
use framework_system.Bytes.{to_le}
use framework_system.Hid.{
  HidApi, HidFirmwareInfo, decode_fw_info, flashing_mode, get_fw_info, send_command, command_report,
  cmd_flash, cmd_0x04, cmd_jump, param_code, reset,
}
use framework_system.Hid.Flashing.{row_report, write_row, write_rows, flash_firmware_image}

-- An open card that accepts every report, with the reports it got so far.
pub record Card : Type 1 where
  pub api : HidApi
  pub device : api.HidDevice
  pub reports : api.State → List (List ℕ)
  pub wrote : List ℕ → api.State → api.State
  pub count : List ℕ → ℕ
  pub description : List ℕ
  pub info : HidFirmwareInfo
  pub accepts :
      (s : api.State) (report : List ℕ)
      → api.write device report s ≡ (ok (count report), wrote report s)
  pub logs :
      (s : api.State) (report : List ℕ) → reports (wrote report s) ≡ reports s ++ (report ∷ [])
  pub describes :
      (s : api.State)
      → api.get_feature_report device (0xE0 ∷ replicate 63 0) s ≡ (ok description, s)
  pub is_info : decode_fw_info description ≡ ok info

-- The report of one row, and those of `n` rows from the first one of some bytes on.
abbrev pub row_bytes : ℕ → List ℕ → List ℕ
row_bytes row_no row = (0xE2 ∷ 0x46 ∷ []) ++ to_le 2 (row_no % 2 ^ 16) ++ row

abbrev pub rows_of : ℕ → ℕ → List ℕ → List (List ℕ)
rows_of zero row_no xs = []
rows_of (suc n) row_no xs = row_bytes row_no (take 128 xs) ∷ rows_of n (row_no + 1) (drop 128 xs)

row_report-whole :
    (row_no : ℕ) (row : List ℕ)
    → length row ≡ 128
    → row_report row_no row ≡ ok (row_bytes row_no row)
unfolding row_report
row_report-whole row_no row h = rw h refl

module _ (C : Card) where
  write_row-whole :
      (row_no : ℕ) (row : List ℕ) (s : C.api.State)
      → length row ≡ 128
      → write_row C.api C.device row_no row s
        ≡ (ok (C.count (row_bytes row_no row)), C.wrote (row_bytes row_no row) s)
  unfolding write_row
  write_row-whole row_no row s h =
      rw (row_report-whole row_no row h, C.accepts s (row_bytes row_no row)) refl

  -- A call that ended well, and added these reports.
  abbrev pub Wrote : C.api.State → List (List ℕ) → Call C.api.State (Unit {0}) (Unit {0}) → Type 0
  Wrote s log call = ((call s).0 ≡ ok tt) × (C.reports (call s).1 ≡ C.reports s ++ log)

  write_rows-Wrote :
      (left row_no : ℕ) (xs : List ℕ) (s : C.api.State)
      → length xs ≡ left * 128
      → Wrote s (rows_of left row_no xs) (write_rows C.api C.device left row_no xs)
  unfolding write_rows
  write_rows-Wrote zero row_no xs s h = (refl, sym (append-nil (C.reports s)))
  write_rows-Wrote (suc left) row_no xs s h =
      let row = take 128 xs in
      let whole : length row ≡ 128 = omega (arith, length-take 128 xs) in
      let report = row_bytes row_no row in
      let rest =
        write_rows-Wrote left (row_no + 1) (drop 128 xs) (C.wrote report s)
          (omega (arith, length-drop 128 xs)) in
      rw (whole, write_row-whole row_no row s whole)
        (
          rest.0,
          rest.1
              ∙ ap (λ (t : List (List ℕ)). t ++ rows_of left (row_no + 1) (drop 128 xs))
                  (C.logs s report)
              ∙ append_assoc (C.reports s) (report ∷ []) (rows_of left (row_no + 1) (drop 128 xs)),
        )

  get_fw_info-info :
      (s : C.api.State)
      → get_fw_info C.api C.device s ≡ (ok C.info, C.wrote (command_report cmd_flash 0x50) s)
  unfolding get_fw_info flashing_mode send_command
  get_fw_info-info s =
      rw (C.describes s, C.accepts s (command_report cmd_flash 0x50), C.is_info) refl

  -- One call behind another.
  Wrote-then :
      (s : C.api.State) (log rest : List (List ℕ))
      (first second : Call C.api.State (Unit {0}) (Unit {0}))
      → Wrote s log first
      → ((s' : C.api.State) → Wrote s' rest second)
      → Wrote s (log ++ rest) (first ≫= λ _. second)
  Wrote-then s log rest first second (ended, logged) next =
      let after = (first s).1 in
      rw ended (
        (next after).0,
        (next after).1
            ∙ ap (λ (t : List (List ℕ)). t ++ rest) logged
            ∙ append_assoc (C.reports s) log rest,
      )

  -- The metadata row, the command that switches the image, and the reset.
  abbrev pub closing_reports : ℕ → List ℕ → ℕ → List (List ℕ)
  closing_reports metadata_row metadata image_no =
      row_bytes metadata_row metadata
      ∷ command_report cmd_0x04 image_no
      ∷ command_report cmd_jump 0x52
      ∷ []

  abbrev closing : ℕ → List ℕ → ℕ → Call C.api.State (Unit {0}) (Unit {0})
  closing metadata_row metadata image_no =
      expect (write_row C.api C.device metadata_row metadata) ≫= λ _.
      expect (send_command C.api C.device cmd_0x04 image_no) ≫= λ _.
      expect (send_command C.api C.device cmd_jump (param_code reset)) ≫= λ _. pure (ok tt)

  closing-Wrote :
      (metadata_row : ℕ) (metadata : List ℕ) (image_no : ℕ) (s : C.api.State)
      → length metadata ≡ 128
      → Wrote s
          (closing_reports metadata_row metadata image_no)
          (closing metadata_row metadata image_no)
  unfolding send_command
  closing-Wrote metadata_row metadata image_no s h =
      let m = row_bytes metadata_row metadata in
      let switch = command_report cmd_0x04 image_no in
      let jump = command_report cmd_jump 0x52 in
      let s1 = C.wrote m s in
      let s2 = C.wrote switch s1 in
      rw (write_row-whole metadata_row metadata s h, C.accepts s1 switch, C.accepts s2 jump)
        (
          refl,
          C.logs s2 jump
              ∙ ap (λ t. t ++ (jump ∷ []))
                  (C.logs s1 switch ∙ ap (λ t. t ++ (switch ∷ [])) (C.logs s m))
              ∙ append_assoc (C.reports s ++ (m ∷ [])) (switch ∷ []) (jump ∷ [])
              ∙ append_assoc (C.reports s) (m ∷ []) (switch ∷ jump ∷ []),
        )

  -- The rows of a file, from a row on.
  abbrev pub rows_in : List ℕ → ℕ → ℕ → List ℕ
  rows_in fw_binary row n = take (n * 128) (drop (row * 128) fw_binary)

  length-rows_in :
      (fw_binary : List ℕ) (row n : ℕ)
      → (row + n) * 128 ≤ length fw_binary
      → length (rows_in fw_binary row n) ≡ n * 128
  length-rows_in fw_binary row n h = length-take-drop fw_binary (row * 128) (n * 128) (omega arith)

  slice-rows_in :
      (fw_binary : List ℕ) (row n : ℕ)
      → (row + n) * 128 ≤ length fw_binary
      → slice {E = Unit {0}} fw_binary (row * 128) ((row + n) * 128) ≡ ok (rows_in fw_binary row n)
  slice-rows_in fw_binary row n h =
      let end : (row + n) * 128 ≡ row * 128 + n * 128 = omega arith in
      rw (end) (slice_in_range fw_binary (row * 128) (n * 128) (omega arith))

  -- What is sent behind a report comes behind it in the list of reports.
  logged-behind :
      (report : List ℕ) (rest sent : List (List ℕ)) (s : C.api.State)
      → sent ≡ C.reports (C.wrote report s) ++ rest
      → sent ≡ C.reports s ++ ((report ∷ []) ++ rest)
  logged-behind report rest sent s logged =
      logged ∙ ap (λ t. t ++ rest) (C.logs s report) ∙ append_assoc (C.reports s) (report ∷ []) rest

  -- On a card that accepts every report, and for rows that lie in the file, `flash_firmware_image`
  -- ends well after sending, in this order: the command that enters flashing mode, the rows one by
  -- one with their numbers, the metadata row, the command for the image, and the reset.
  pub flash_firmware_image-Wrote :
      (fw_binary : List ℕ) (start_row metadata_row rows image_no : ℕ) (s : C.api.State)
      → (start_row + rows) * 128 ≤ length fw_binary
      → (metadata_row + 1) * 128 ≤ length fw_binary
      → Wrote s
          ((command_report cmd_flash 0x50 ∷ [])
            ++ rows_of rows start_row (rows_in fw_binary start_row rows)
            ++ closing_reports metadata_row (rows_in fw_binary metadata_row 1) image_no)
          (flash_firmware_image C.api C.device fw_binary start_row metadata_row rows image_no)
  unfolding flash_firmware_image
  flash_firmware_image-Wrote fw_binary start_row metadata_row rows image_no s h k =
      let slice_rows = rows_in fw_binary start_row rows in
      let metadata = rows_in fw_binary metadata_row 1 in
      let size = length-rows_in fw_binary start_row rows h in
      let chunks : (rows * 128 + 127) / 128 ≡ rows = omega arith in
      let enter = command_report cmd_flash 0x50 in
      let s1 = C.wrote enter s in
      let closing_log = closing_reports metadata_row metadata image_no in
      let (ended, logged) =
        Wrote-then s1 (rows_of rows start_row slice_rows) closing_log
          (write_rows C.api C.device rows start_row slice_rows)
          (closing metadata_row metadata image_no)
          (write_rows-Wrote rows start_row slice_rows s1 size)
          (λ s'.
            closing-Wrote metadata_row metadata image_no s'
              (length-rows_in fw_binary metadata_row 1 k)) in
      rw
        (
          slice-rows_in fw_binary start_row rows h,
          slice-rows_in fw_binary metadata_row 1 k,
          get_fw_info-info s,
          size,
          chunks,
        )
        (ended, logged-behind enter (rows_of rows start_row slice_rows ++ closing_log) _ s logged)
