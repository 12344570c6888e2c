-- ===== src/External.antt =====
-- What the code takes from third parties: the sodiumoxide constants and functions that crypto.rs
-- calls, the codec that protobuf generates for a message, and base64. Nothing here is defined:
-- the records are parameters, and the laws that a theorem needs are hypotheses of it.
use ironcoin.Base.{ℕ, ◌≤◌, ◌≡◌, ◌≢◌, Bool, Bytes, All, length}
use ironcoin.Base.Run.{Run, ok}

pub record Sodium : Type 0 where
  pub hash_bytes : ℕ
  pub public_key_bytes : ℕ
  pub secret_key_bytes : ℕ
  pub signature_bytes : ℕ
  pub sha512 : Bytes → Bytes
  pub sign_detached : Bytes → Bytes → Bytes
  pub verify_detached : Bytes → Bytes → Bytes → Bool

-- The documented sizes of the digests and signatures that the library returns.
pub record HasSizes (sodium : Sodium) : Type 0 where
  pub digest_room : 8 ≤ sodium.hash_bytes
  pub length-sha512 : (message : Bytes) → length (sodium.sha512 message) ≡ sodium.hash_bytes
  pub length-sign :
      (message key : Bytes) → length (sodium.sign_detached message key) ≡ sodium.signature_bytes

-- `write_to_bytes` and `parse_from_bytes` of one message type.
pub record Codec (M : Type 0) : Type 0 where
  pub write_to_bytes : M → Run Bytes
  pub parse_from_bytes : Bytes → Run M

-- What is written is read back: the contract of a codec.
pub record IsFaithful {M : Type 0} (codec : Codec M) : Type 0 where
  pub encode : M → Bytes
  pub write-eq : (m : M) → codec.write_to_bytes m ≡ ok (encode m)
  pub parse-encode : (m : M) → codec.parse_from_bytes (encode m) ≡ ok m

-- `to_base64(STANDARD)` and `from_base64`, on the bytes of the text.
pub record Base64 : Type 0 where
  pub to_base64 : Bytes → Bytes
  pub from_base64 : Bytes → Run Bytes

-- A text of base64 is read back, and holds no colon, which is not in its alphabet.
pub record IsBase64 (base64 : Base64) : Type 0 where
  pub from_base64-to_base64 :
      (bytes : Bytes) → base64.from_base64 (base64.to_base64 bytes) ≡ ok bytes
  pub plain : (bytes : Bytes) → All (λ c. c ≢ b':') (base64.to_base64 bytes)
