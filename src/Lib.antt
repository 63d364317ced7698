-- ===== src/Lib.antt =====
-- Framework's system tool: the library framework_lib with its drivers, parsers and command line,
-- and the procedural macro crate guid_macros.
--
-- The command line (commandline/) turns arguments into a `Cli`, and its `run_with_args` runs the
-- one action that the options choose, over a driver for the EC, with the parts below. Firmware
-- files are parsed by ec_binary.rs (EC images), ccgx/binary.rs (PD controller images) and
-- capsule.rs (UEFI capsules). Live hardware is reached through the EC: chromium_ec/mod.rs builds
-- requests, chromium_ec/command.rs frames them, and a driver sends them; the port I/O driver
-- (chromium_ec/portio.rs) packs them and checks the responses, and the drivers for Linux and
-- Windows (chromium_ec/cros_ec.rs and windows.rs) hand them to the kernel. power.rs decodes the
-- memory map of the EC. The PD controllers (ccgx/device.rs) are read over I2C through the EC, and
-- the expansion cards (ccgx/hid.rs) are flashed over USB. smbios.rs decides which platform the
-- program runs on, and util.rs keeps a platform that was set by hand. GUIDs (guid.rs) name the
-- firmware resources, which esrt/mod.rs lists, and csme.rs reads the state of the management
-- engine. capsule_content.rs finds the images inside a capsule, audio_card.rs asks an audio card
-- for its version, and uefi/ reads and writes files in the UEFI shell.
--
-- Which file models which part (paths below framework_lib/src unless they start at the root):
--   Base, Bytes     lists over the native numbers, results with errors and panics, calls on a state
--                   (`Call`), and the little- and big-endian conversions of the integer types
--   Text            the texts of the standard library: `split`, `trim`, decimal numbers
--   Util            util.rs: `find_sequence`, `assert_win_len`
--   Guid            guid.rs, and guid_macros/src/lib.rs at the root: `Guid`, `from_values`,
--                   `from_bytes`, `to_bytes`, `display` (fmt), `parse_guid`, `guid`
--   Ccgx.Versions   ccgx/mod.rs: the version words, and ccgx/device.rs: the firmware mode
--   Ccgx.Device     ccgx/device.rs: `i2c_read`, `ccgx_read` and the version queries
--   Ccgx.Metadata   ccgx/mod.rs: the metadata rows and their three parsers
--   Ccgx.Binary     ccgx/binary.rs: `read_256_bytes`, `read_metadata`, `read_version`,
--                   `read_versions`
--   EcBinary        ec_binary.rs: `read_ec_version` and what it calls
--   Capsule         capsule.rs: the headers and `dump_winux_image`
--   Ec.Status       chromium_ec/mod.rs: errors and response codes
--   Ec.Packet       chromium_ec/portio.rs: `pack_request` and the checksums
--   Ec.Port         chromium_ec/portio.rs: `send_command`, `wait_for_ready`, the transfers, over a
--                   parameter for the ports
--   Ec.Mec          chromium_ec/portio_mec.rs: `transfer_write`, `transfer_read`, over a parameter for
--                   the ports, and chromium_ec/portio.rs: `read_memory`
--   Ec.Board        chromium_ec/portio.rs as a whole: `init`, and the calls of the driver on boards
--                   with and without a MEC, over a parameter for the ports and the kernel
--   Ec.Driver       chromium_ec/mod.rs: the trait `CrosEcDriver` as an interface, and
--                   chromium_ec/command.rs: the framing of requests
--   Ec.Commands     chromium_ec/command.rs: the command numbers, and the sending of a request
--   Ec.Requests     chromium_ec/commands.rs: the requests and the types of their responses, those of
--                   every EC in Generic and those of Framework's EC in Framework
--   Ec.Select       chromium_ec/mod.rs: `CrosEc` as a driver: the choice of a driver and the guards
--   Ec.Control      chromium_ec/mod.rs: versions, privacy, intrusion, deck, jumps, reboots, GPIO
--   Ec.Settings     chromium_ec/mod.rs: charge limits, fingerprint LED, keyboard backlight
--   Ec.Console      chromium_ec/mod.rs: `console_read`, `console_read_one`
--   Ec.Features     chromium_ec/mod.rs: `get_features`
--   Ec.Flash        chromium_ec/mod.rs: reading, writing, erasing the flash, and `reflash`
--   Ec.SelfTest     chromium_ec/mod.rs: `test_ec_flash_read`
--   Ec.Deck         chromium_ec/input_deck.rs
--   Power           power.rs: the memory map, and in Power.Ports the ports and PD versions
--   Hid             ccgx/hid.rs: the reports and the search, in Hid.Flashing the writing of an image,
--                   and in Hid.Update `flash_firmware`
--   Audio           audio_card.rs, over a parameter for the rusb crate
--   Uefi            uefi/fs.rs, over a parameter for the shell, and uefi/mod.rs: `checksum_valid`
--   Esrt            esrt/mod.rs: names and kinds, and in Esrt.Table the two readers of the table
--   Csme            csme.rs
--   Smbios          smbios.rs, util.rs: `Config`, and chromium_ec/mod.rs: `has_mec`
--   Capsule.Content capsule_content.rs: the versions and images inside a capsule
--   Ec.Ioctl        chromium_ec/cros_ec.rs, over a parameter for the kernel
--   Ec.WinDriver    chromium_ec/windows.rs, over a parameter for the system
--   Cli             commandline/mod.rs: the options, commandline/uefi.rs: the parser, and in Cli.Clap
--                   commandline/clap_std.rs: `parse`
--   Actions         commandline/mod.rs: what the options do. Actions.Choose has the conditions of
--                   `run_with_args`, Actions.Perform the bodies of its branches, and Actions.Run the
--                   function; the others have the functions that the branches call. Actions.Show and
--                   Actions.Compare have the printed versions and `get_pd_controller_versions` of
--                   ccgx/mod.rs, and Actions.Versions `print_fw_info` of ccgx/device.rs
--   Tests           runs on concrete inputs
--
-- How code is rendered. Bytes and characters of ASCII texts are native numbers, buffers are lists.
-- A call returns `ok`, `err` (an `Err`, or a `None`), or `panic`; slices and indexes out of range
-- panic, as in Rust. A read of a packed struct from a buffer is a list of `field`s at their
-- offsets; where the code reads a whole struct without a check of its own, a buffer that is too
-- short is a panic of the model. A driver is a record with a state, and a call that reaches it
-- gives a result and the next state. Integers keep their wrap-around where the code wraps
-- (`wrapping_add`, `wrapping_neg`, casts); where a build with debug assertions or overflow checks
-- panics and a release build does not, the Boolean `debug` says which build it is. The platform
-- cache and the configuration, which are global in the code, are the state `Globals`. Logging and
-- printing are left out, except where the lines are the result.
--
-- Bounds and fuel. All recursion is structural. The loops over chunks count the rounds that are
-- left, and the parser of arguments recurs on the arguments. Four loops run on fuel. The loop of
-- `ccgx_read` has enough with the number of bytes to read, if every response has the data that was
-- asked for. Three loops are endless in the code: `wait_for_ready` ends with any fuel above the
-- number of times that the EC is busy, `console_read` with any fuel above the number of pieces of
-- output, and the loop that asks an audio card for its version with any fuel above the number of
-- further requests that the card needs. `wait_to_reappear` counts the 20 tries of the code, and a
-- number of 32 bits is printed with 10 rounds for its digits.
--
-- An action of the tool (`Act`) has the state of the driver and the files that were written; `none`
-- stands for a loop that has not ended with the fuel of the machine. What the build and the machine
-- are outside the EC is the record `Machine`.
--
-- Not modelled: the regex crate (the parameter `Captures`), the port accesses and the permissions
-- for them (the parameters `Port`, `MecPort` and `Host`), the calls of the operating systems (the
-- parameters `Kernel` and `System`), the drivers behind the choice of `CrosEc` (the parameter
-- `drivers`), the hidapi crate (the interface of Hid), the clap crate, the smbios crate and the
-- lookups of its tables (their strings are data), the files of sysfs (data as well), `to_uppercase`
-- (a field of `Machine`), the ESRT lookups of Windows and FreeBSD, the rusb crate (`Usb`), the UEFI
-- firmware (`Firmware`), its break key and its tables, and all printing. An update of the cards on
-- USB is modelled in Hid.Update; for the dispatcher its result is a field of `Machine`.
pub mod Actions
pub mod Base
pub mod Bytes
pub mod Guid
pub mod Ccgx
pub mod EcBinary
pub mod Capsule
pub mod Ec
pub mod Power
pub mod Uefi
pub mod Audio
pub mod Util
pub mod Text
pub mod Hid
pub mod Esrt
pub mod Csme
pub mod Smbios
pub mod Cli
pub mod Tests
