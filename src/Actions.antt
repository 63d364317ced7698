-- ===== src/Actions.antt =====
-- framework_lib/src/commandline/mod.rs: what the options of the tool do.
pub mod Act
pub mod Settings
pub mod Show
pub mod Compare
pub mod Images
pub mod SelfTest
pub mod Versions
pub mod Choose
pub mod Perform
pub mod Run
pub mod Codes
