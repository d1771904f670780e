-- ===== src/Tests.antt =====
-- A host on which the whole program runs, and the theorems at concrete inputs.
pub mod Toy
pub mod Client
pub mod LongRun
pub mod Sizes
pub mod Panics
pub mod Measured
pub mod Field3
pub mod Artifacts
pub mod Demo
pub mod Sends
pub mod Submission
pub mod History
pub mod Formats
pub mod Proofs
