-- ===== src/Tests.antt =====
-- The theorems at concrete inputs, and runs of the definitions.
pub mod Samples
mod Decoding
mod Songs
mod Services
mod Files
pub mod Disks
mod Legacy
mod Web
mod Threads
mod Whole
