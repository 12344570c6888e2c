-- ===== src/Crypto/Sign.antt =====
-- The signing functions of crypto.rs, on bytes and on messages.
use ironcoin.Base.{Bytes, if◌then◌else◌}
use ironcoin.Base.Run.{Run, ok, err, unwrap, ◌>>=◌, IroncError}
use ironcoin.External.{Sodium, Codec}
use ironcoin.Crypto.HashDigest
use ironcoin.Crypto.HashDigest.{HashDigest}
use ironcoin.Crypto.PublicKey.{PublicKey}
use ironcoin.Crypto.SecretKey.{SecretKey}
use ironcoin.Crypto.Signature.{Signature}

module _ ⦃sodium : Sodium⦄ where
  unfoldable pub sign : SecretKey → Bytes → Signature
  sign secret_key message = record { bytes = sodium.sign_detached message secret_key.bytes }

  unfoldable pub verify_signature : PublicKey → Bytes → Signature → Run (Unit {0})
  verify_signature public_key message signature =
      if sodium.verify_detached signature.bytes message public_key.bytes
      then ok tt
      else err IroncError.invalid_signature

  module _ {M : Type 0} (codec : Codec M) where
    unfoldable pub hash_message : M → Run HashDigest
    unfolding HashDigest.hash
    hash_message message = do
      bytes ← unwrap (codec.write_to_bytes message)
      ok (HashDigest.hash bytes)

    unfoldable pub sign_message : SecretKey → M → Run Signature
    unfolding sign
    sign_message secret_key message = do
      bytes ← unwrap (codec.write_to_bytes message)
      ok (sign secret_key bytes)

    unfoldable pub verify_signed_message : PublicKey → M → Signature → Run (Unit {0})
    unfolding verify_signature
    verify_signed_message public_key message signature = do
      bytes ← unwrap (codec.write_to_bytes message)
      verify_signature public_key bytes signature
