-- ===== src/Plonk.antt =====
-- program/src/plonk.rs: the BN254 PLONK verifier.
pub mod Vk
pub mod Backend
pub mod Encoding
pub mod Points
pub mod RoundTrip
pub mod Accept
pub mod Statement
pub mod Group
pub mod Proof
pub mod Transcript
pub mod Verify
pub mod Total
pub mod Refusal
pub mod Fields
pub mod Lagrange
pub mod Parse
pub mod Curve
pub mod Terms
pub mod Sides
pub mod Pairing
