-- ===== src/Tests.antt =====
-- Runs of the models at concrete inputs: sample values in place of `double`, meters and messages.
pub mod Samples
mod Bytes
mod Meters
mod Engines
mod Modules
mod Services
