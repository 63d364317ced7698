-- ===== src/Ec.antt =====
-- framework_lib/src/chromium_ec: the protocol of the embedded controller (EC).
pub mod Status
pub mod Packet
pub mod Deck
pub mod Driver
pub mod Board
pub mod Commands
pub mod Requests
pub mod Control
pub mod Settings
pub mod Console
pub mod Features
pub mod Select
pub mod Flash
pub mod Port
pub mod Mec
pub mod Ioctl
pub mod WinDriver
pub mod SelfTest
