-- ===== src/Crypto/PublicKey.antt =====
-- `PublicKey` of crypto.rs: an array of bytes.
use ironcoin.Base.{
  ◌≡◌, ◌↔◌, Bool, true, not, Bytes, PartialEq, ◌==◌, nat_eq, list_beq, list_beq_iff, list_eq,
  length, arith, if◌then◌else◌,
}
use ironcoin.Base.Run.{Run, ok, err, IroncError}
use ironcoin.External.{Sodium}

pub record PublicKey : Type 0 where
  pub bytes : Bytes

module _ ⦃sodium : Sodium⦄ where
  unfoldable pub from_slice : Bytes → Run PublicKey
  from_slice bytes =
      if not (length bytes == sodium.public_key_bytes)
      then err (IroncError.invalid_length (length bytes) sodium.public_key_bytes)
      else ok (record { bytes = bytes })

-- `PartialEq`, derived.
unfoldable pub public_key_beq : PublicKey → PublicKey → Bool
unfolding list_beq
public_key_beq a b = a.bytes == b.bytes

pub public_key_beq_iff : (a b : PublicKey) → (public_key_beq a b ≡ true) ↔ (a ≡ b)
unfolding public_key_beq
public_key_beq_iff a b = ground (arith, list_beq_iff a.bytes b.bytes)

instance abbrev pub public_key_eq : PartialEq PublicKey
public_key_eq = record { equal = public_key_beq; equal_iff = public_key_beq_iff }
