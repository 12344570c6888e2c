-- ===== src/Crypto.antt =====
-- crypto.rs: digests, keys and signatures, and the calls of sodiumoxide.
pub mod HashDigest
pub mod PublicKey
pub mod SecretKey
pub mod Signature
pub mod Sign
pub mod Value
pub mod Order
pub mod Sizes
