-- ===== src/Tests.antt =====
-- Runs on concrete inputs, and the theorems at inputs where their hypotheses hold.
mod Guid
mod Ccgx
mod Ec
mod Capsule
mod Device
mod Flash
mod Reading
mod Control
mod Power
mod Cards
mod Tables
mod Machine
mod SelfTest
mod Mec
mod Images
mod Cli
mod Port
mod Actions
mod Runs
mod Drivers
mod Devices
mod Board
