-- ===== src/Examples.antt =====
-- Small concrete inputs, and the theorems of the library applied to them.
pub mod Data
mod Ciphers
mod Entries
mod Reads
mod Sessions
mod Sites
mod Ascii
mod Updates
mod Refreshes
mod Pins
mod Creates
mod Restores
mod Unlocks
