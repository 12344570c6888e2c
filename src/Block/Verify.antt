-- ===== src/Block/Verify.antt =====
-- What a block that `verify` of block.rs accepts satisfies, and how its hash is made.
use ironcoin.Base.{
  ◌≡◌, refl, ◌∙◌, ap, Bool, true, false, some, List, [], ◌∷◌, Bytes, All, arith, nat_eq,
}
use ironcoin.Base.Run.{Run, ok, err, panic, for_all, guard, unwrap, >>=-ok, IroncError}
use ironcoin.Block.{
  compute_hash, decode_hash, decode_previous, get_block, verify, verify_block_signature,
  verify_hash,
}
use ironcoin.Crypto.HashDigest
use ironcoin.Crypto.HashDigest.{HashDigest, digest_beq, digest_beq_iff}
use ironcoin.Crypto.PublicKey
use ironcoin.Crypto.PublicKey.{PublicKey}
use ironcoin.Crypto.Signature
use ironcoin.Crypto.Signature.{Signature}
use ironcoin.Crypto.Sign.{hash_message, verify_signed_message, verify_signature}
use ironcoin.Crypto.Sizes.{from_slice-bytes}
use ironcoin.External.{HasSizes, Sodium}
use ironcoin.Message.Codecs.{Codecs}
use ironcoin.Message.Ledger.{HashedBlock, SignedBlock, get_bytes, get_inner_block, get_signed_block}
use ironcoin.Tx.{verify_signatures}

-- A loop that ends well did so at every element.
pub for_all-All :
    {A : Type 0} (f : A → Run (Unit {0})) (xs : List A)
    → for_all f xs ≡ ok tt
    → All (λ x. f x ≡ ok tt) xs
unfolding for_all
for_all-All f [] e = tt
for_all-All f (x ∷ xs) e =
    let (u, first, rest) = >>=-ok (f x) (λ _. for_all f xs) e in (first, for_all-All f xs rest)

guard-true : (b : Bool) (e : IroncError) → guard b e ≡ ok tt → b ≡ true
guard-true true e h = refl
guard-true false e h = cc

unwrap-ok : {A : Type 0} (r : Run A) (a : A) → unwrap r ≡ ok a → r ≡ ok a
unwrap-ok (ok b) a e = e
unwrap-ok (err c) a e = cc
unwrap-ok (panic p) a e = cc

module _ ⦃sodium : Sodium⦄ ⦃codecs : Codecs⦄ where
  -- The stored hash is the digest of the signed block, and the parent's is a digest.
  pub record IsHashed (block : HashedBlock) : Type 0 where
    pub hash : HashDigest
    pub previous : HashDigest
    pub decoded : decode_hash block ≡ ok hash
    pub decoded_previous : decode_previous block ≡ ok previous
    pub computed : hash_message codecs.signed_block (get_signed_block block) ≡ ok hash

  -- The staker's key signs the written block.
  pub record IsSigned (signed_block : SignedBlock) : Type 0 where
    pub public_key : PublicKey
    pub signature : Signature
    pub written : Bytes
    pub decoded_key :
        PublicKey.from_slice (get_bytes (get_inner_block signed_block).staker_pk) ≡ ok public_key
    pub decoded_signature : Signature.from_slice (get_bytes signed_block.signature) ≡ ok signature
    pub write-eq : codecs.block.write_to_bytes (get_inner_block signed_block) ≡ ok written
    pub signs : sodium.verify_detached signature.bytes written public_key.bytes ≡ true

  pub verify_hash-IsHashed : (block : HashedBlock) → verify_hash block ≡ ok tt → IsHashed block
  unfolding verify_hash decode_hash
  verify_hash-IsHashed block e =
      let (h, e₁, rest₁) = >>=-ok (HashDigest.from_slice (get_bytes block.hash)) _ e in
      let (p, e₂, rest₂) = >>=-ok (decode_previous block) _ rest₁ in
      let (c, e₃, rest₃) =
        >>=-ok (hash_message codecs.signed_block (get_signed_block block)) _ rest₂ in
      let same = (digest_beq_iff c h).0 (guard-true (digest_beq c h) _ rest₃) in
      record {
        hash = h;
        previous = p;
        decoded = e₁;
        decoded_previous = e₂;
        computed = e₃ ∙ ap (λ (i : HashDigest). ok i) same;
      }

  pub verify_block_signature-IsSigned :
      (signed_block : SignedBlock)
      → verify_block_signature signed_block ≡ ok tt
      → IsSigned signed_block
  unfolding verify_block_signature verify_signed_message verify_signature
  verify_block_signature-IsSigned signed_block e =
      let (pk, e₁, rest₁) =
        >>=-ok (PublicKey.from_slice (get_bytes (get_inner_block signed_block).staker_pk)) _ e in
      let (sign, e₂, rest₂) =
        >>=-ok (Signature.from_slice (get_bytes signed_block.signature)) _ rest₁ in
      let (w, e₃, rest₃) =
        >>=-ok (unwrap (codecs.block.write_to_bytes (get_inner_block signed_block))) _ rest₂ in
      record {
        public_key = pk;
        signature = sign;
        written = w;
        decoded_key = e₁;
        decoded_signature = e₂;
        write-eq = unwrap-ok (codecs.block.write_to_bytes (get_inner_block signed_block)) w e₃;
        signs = ground arith;
      }

  pub record IsVerified (block : HashedBlock) : Type 0 where
    pub hashed : IsHashed block
    pub signed : IsSigned (get_signed_block block)
    pub transactions : All (λ tx. verify_signatures tx ≡ ok tt) (get_block block).transactions

  -- A block that `verify` accepts carries the digest of its signed block as its hash and a digest
  -- as its parent's, the staker's key signs the block, and the signatures of every
  -- transaction in it are accepted.
  pub verify-IsVerified : (block : HashedBlock) → verify block ≡ ok tt → IsVerified block
  unfolding verify
  verify-IsVerified block e =
      let (u, e₁, rest₁) = >>=-ok (verify_hash block) _ e in
      let (v, e₂, rest₂) = >>=-ok (verify_block_signature (get_signed_block block)) _ rest₁ in
      record {
        hashed = verify_hash-IsHashed block e₁;
        signed = verify_block_signature-IsSigned (get_signed_block block) e₂;
        transactions = for_all-All verify_signatures (get_block block).transactions rest₂;
      }

  -- A block whose hash is computed passes the hash check, when its parent's hash decodes and the
  -- digests of the library have their documented length. The signed block stays.
  pub compute_hash-verify_hash :
      (sizes : HasSizes sodium) (block : HashedBlock) (previous : HashDigest) (written : Bytes)
      → decode_previous block ≡ ok previous
      → codecs.signed_block.write_to_bytes (get_signed_block block) ≡ ok written
      → (h : HashDigest) × (hashed : HashedBlock) × (compute_hash block ≡ ok (h, hashed))
        × (decode_hash hashed ≡ ok h)
        × (get_signed_block hashed ≡ get_signed_block block)
        × (verify_hash hashed ≡ ok tt)
  unfolding compute_hash verify_hash hash_message HashDigest.hash decode_hash decode_previous
      get_block
  compute_hash-verify_hash sizes block previous written link write =
      let h : HashDigest = record { bytes = sodium.sha512 written } in
      (
        h,
        record block { hash = some h.bytes },
        rw write,
        from_slice-bytes h (sizes.length-sha512 written),
        refl,
        rw (
          from_slice-bytes h (sizes.length-sha512 written),
          link,
          write,
          (digest_beq_iff h h).1 refl,
        ),
      )
