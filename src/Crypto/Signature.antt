-- ===== src/Crypto/Signature.antt =====
-- `Signature` of crypto.rs: an array of bytes.
use ironcoin.Base.{not, Bytes, ◌==◌, nat_eq, list_eq, length, if◌then◌else◌}
use ironcoin.Base.Run.{Run, ok, err, IroncError}
use ironcoin.External.{Sodium}

pub record Signature : Type 0 where
  pub bytes : Bytes

module _ ⦃sodium : Sodium⦄ where
  unfoldable pub from_slice : Bytes → Run Signature
  from_slice bytes =
      if not (length bytes == sodium.signature_bytes)
      then err (IroncError.invalid_length (length bytes) sodium.signature_bytes)
      else ok (record { bytes = bytes })
