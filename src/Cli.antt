-- ===== src/Cli.antt =====
-- framework_lib/src/commandline: the options of the tool, and the argument parser of the UEFI build
-- (commandline/uefi.rs).
pub mod Options
pub mod Numbers
pub mod Values
pub mod Parse
pub mod Clap
