-- ===== src/Ec/Flash.antt =====
-- chromium_ec/mod.rs: reading, writing and erasing the flash of the EC, and `reflash`.
pub mod Safety
pub mod Chunks
pub mod Reading
use framework_system.Base.{
  ℕ, zero, suc, ◌+◌, ◌-◌, ◌*◌, ◌/◌, ◌%◌, min, List, [], ◌∷◌, ◌++◌, length, take, drop,
}
use framework_system.Base.{
  Result, ok, err, panic, assert, slice, leb, Bool, true, false, ◌||◌, if◌then◌else◌,
}
use framework_system.Bytes.{to_le}
use framework_system.EcBinary.{Captures, ImageVersionData, read_ec_version}
use framework_system.Ec.Status.{EcResult, device_error}
use framework_system.Ec.Driver.{
  Driver, Ec, bind, pure, send_command_extra, send_command_vec_extra, send_request,
  flash_info_command, flash_read_command, flash_write_command, flash_erase_command,
  flash_notified_command,
}

pub data EcFlashType : Type 0 where
  full ro rw : EcFlashType

pub data MecFlashNotify : Type 0 where
  access_spi firmware_start firmware_done access_spi_done flash_pd : MecFlashNotify

abbrev pub notify_code : MecFlashNotify → ℕ
notify_code access_spi = 0x00
notify_code firmware_start = 0x01
notify_code firmware_done = 0x02
notify_code access_spi_done = 0x03
notify_code flash_pd = 0x16

abbrev pub flash_base : ℕ
flash_base = 0x0

abbrev pub flash_rw_base : ℕ
flash_rw_base = 0x40000

abbrev pub flash_rw_size : ℕ
flash_rw_size = 0x39000

abbrev pub ec_flash_size : ℕ
ec_flash_size = 512 * 1024

abbrev pub chunk_size : ℕ
chunk_size = 0x80

module _ (D : Driver) where
  unfoldable pub flash_notify : MecFlashNotify → Ec D (Unit {0})
  flash_notify flag =
      bind D (send_request D flash_notified_command 0 0 (notify_code flag ∷ [])) λ _. pure D (ok tt)

  unfoldable pub write_ec_flash_chunk : ℕ → List ℕ → Ec D (Unit {0})
  write_ec_flash_chunk offset chunk = bind D (pure D (assert (leb (length chunk) 0x80))) λ _.
      bind D
        (send_command_extra D flash_write_command 0 0 (to_le 4 offset ++ to_le 4 (length chunk))
          chunk)
        λ _. pure D (ok tt)

  -- The rounds of the loop that are left, and the number of the next chunk.
  unfoldable pub write_chunks : ℕ → ℕ → ℕ → List ℕ → Ec D (Unit {0})
  write_chunks zero chunk_no addr image = pure D (ok tt)
  write_chunks (suc left) chunk_no addr image =
      let offset = chunk_no * chunk_size in
      let cur_chunk_size = min chunk_size (length image - chunk_no * chunk_size) in
      bind D (pure D (slice image offset (offset + cur_chunk_size))) λ chunk.
        bind D (write_ec_flash_chunk (addr + offset) chunk)
          λ _. write_chunks left (chunk_no + 1) addr image

  unfoldable pub write_ec_flash : ℕ → List ℕ → Ec D (Unit {0})
  write_ec_flash addr image =
      bind D (send_request D flash_info_command 1 24 [])
        λ info. write_chunks (length image / chunk_size) 0 addr image

  unfoldable pub erase_ec_flash : ℕ → ℕ → Ec D (Unit {0})
  erase_ec_flash offset size =
      bind D (send_request D flash_erase_command 0 0 (to_le 4 offset ++ to_le 4 size))
        λ _. pure D (ok tt)

  unfoldable pub read_ec_flash_chunk : ℕ → ℕ → Ec D (List ℕ)
  read_ec_flash_chunk offset size =
      bind D (send_command_vec_extra D flash_read_command 0 (to_le 4 offset ++ to_le 4 size) [])
        λ bytes. pure D (slice bytes 0 size)

  -- A chunk that cannot be read is left out.
  abbrev catch : Ec D (List ℕ) → Ec D (List ℕ)
  catch m s = handle (m s)
    where
      handle : EcResult (List ℕ) × D.State → EcResult (List ℕ) × D.State
      handle (ok chunk, s') = (ok chunk, s')
      handle (err e, s') = (ok [], s')
      handle (panic, s') = (panic, s')

  unfoldable pub read_chunks : ℕ → ℕ → ℕ → ℕ → ℕ → List ℕ → Ec D (List ℕ)
  read_chunks zero chunk_no chunk offset size flash_bin = pure D (ok flash_bin)
  read_chunks (suc left) chunk_no chunk offset size flash_bin =
      bind D
        (catch
          (read_ec_flash_chunk (offset + chunk_no * chunk) (min chunk (size - chunk_no * chunk))))
        λ bytes. read_chunks left (chunk_no + 1) chunk offset size (flash_bin ++ bytes)

  unfoldable pub read_ec_flash : ℕ → ℕ → Ec D (List ℕ)
  read_ec_flash offset size =
      if leb size 0x80
      then read_chunks 1 0 size offset size []
      else read_chunks (size / 0x80) 0 0x80 offset size []

  unfoldable pub get_entire_ec_flash : Ec D (List ℕ)
  get_entire_ec_flash = bind D (flash_notify access_spi) λ _.
      bind D (read_ec_flash 0 ec_flash_size)
        λ flash_bin. bind D (flash_notify access_spi_done) λ _. pure D (ok flash_bin)

  module _ (captures : Captures) where
    -- The image must hold a version of the given half; `None` is turned into an error.
    unfoldable pub check_version : List ℕ → Bool → EcResult (Unit {0})
    check_version image is_ro = elim (read_ec_version captures image is_ro) [
      | ok version ↦ ok tt
      | err _ ↦ err (
          device_error
            (if is_ro
              then "File does not contain valid EC RO firmware"
              else "File does not contain valid EW RO firmware")
            [])
      | panic ↦ panic
    ]

    -- The part of `reflash` behind the checks, for the RW half. What is read back is only compared
    -- for a message.
    unfoldable pub flash_rw_half : List ℕ → Ec D (Unit {0})
    flash_rw_half image = bind D (flash_notify access_spi) λ _.
        bind D (flash_notify firmware_start) λ _.
          bind D (pure D (slice image flash_rw_base (flash_rw_base + flash_rw_size))) λ rw_data.
            bind D (erase_ec_flash (flash_base + flash_rw_base) flash_rw_size) λ _.
              bind D (write_ec_flash (flash_base + flash_rw_base) rw_data) λ _.
                bind D (read_ec_flash (flash_base + flash_rw_base) flash_rw_size) λ flash_rw_data.
                  bind D (flash_notify access_spi_done)
                    λ _. bind D (flash_notify firmware_done) λ _. pure D (ok tt)

    -- Flashing the RO half is disabled: `Full` and `Ro` end behind the checks.
    unfoldable pub reflash : List ℕ → EcFlashType → Ec D (Unit {0})
    reflash image full =
        bind D (pure D (check_version image true))
          λ _. bind D (pure D (check_version image false)) λ _. pure D (ok tt)
    reflash image ro = bind D (pure D (check_version image true)) λ _. pure D (ok tt)
    reflash image rw = bind D (pure D (check_version image false)) λ _. flash_rw_half image
