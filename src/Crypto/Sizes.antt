-- ===== src/Crypto/Sizes.antt =====
-- The lengths that `from_slice` of crypto.rs checks.
use ironcoin.Base.{◌≡◌, Bytes, arith, length, nat_beq_iff}
use ironcoin.Base.Run.{ok}
use ironcoin.Crypto.HashDigest
use ironcoin.Crypto.HashDigest.{HashDigest}
use ironcoin.External.{Sodium}

module _ ⦃sodium : Sodium⦄ where
  -- A digest of the right length is decoded from its bytes.
  pub from_slice-bytes :
      (h : HashDigest) → length h.bytes ≡ sodium.hash_bytes → HashDigest.from_slice h.bytes ≡ ok h
  unfolding HashDigest.from_slice
  from_slice-bytes h sized = ground (arith, nat_beq_iff (length h.bytes) sodium.hash_bytes)

  -- A digest that is decoded has the right length, and the bytes that it is decoded from.
  pub decoded-sized :
      (bytes : Bytes) (h : HashDigest)
      → HashDigest.from_slice bytes ≡ ok h
      → (length h.bytes ≡ sodium.hash_bytes) × (h.bytes ≡ bytes)
  unfolding HashDigest.from_slice
  decoded-sized bytes h e = ground (arith, nat_beq_iff (length bytes) sodium.hash_bytes)
