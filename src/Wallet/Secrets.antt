-- ===== src/Wallet/Secrets.antt =====
-- The key pairs of wallet.rs that can sign.
use mathlib.Core.List.{append-nil}
use ironcoin.Base.{
  ◌≡◌, ◌≢◌, refl, sym, ◌∙◌, true, false, [], ◌∷◌, Bytes, All, length, inl, inr, nat_eq, nat_beq_iff,
  nat_beq_ne, keep-append,
}
use ironcoin.Base.Run.{ok, Run-cases}
use ironcoin.Crypto.PublicKey.{PublicKey}
use ironcoin.Crypto.SecretKey.{SecretKey}
use ironcoin.Crypto.SecretKey
use ironcoin.External.{Sodium}
use ironcoin.Wallet.{
  Wallet, add_keypair, add_public_key, decode_secret_key, drop_keypairs_no_secret, is_ok,
}

module _ ⦃sodium : Sodium⦄ where
  sized-is_ok :
      (bytes : Bytes)
      → length bytes ≡ sodium.secret_key_bytes
      → is_ok (SecretKey.from_slice bytes) ≡ true
  unfolding SecretKey.from_slice
  sized-is_ok bytes sized = rw ((nat_beq_iff (length bytes) sodium.secret_key_bytes).1 sized) refl

  empty-is_ok : sodium.secret_key_bytes ≢ 0 → is_ok (SecretKey.from_slice []) ≡ false
  unfolding SecretKey.from_slice
  empty-is_ok some_bytes = rw (nat_beq_ne 0 sodium.secret_key_bytes (λ e. some_bytes (sym e))) refl

  -- The key pairs that stay.
  drop_keypairs_no_secret-decodes :
      (wallet : Wallet)
      → All
          (λ kp. (sk : SecretKey) × (decode_secret_key kp ≡ ok sk))
          (drop_keypairs_no_secret wallet)
  unfolding drop_keypairs_no_secret
  drop_keypairs_no_secret-decodes [] = tt
  drop_keypairs_no_secret-decodes (kp ∷ wallet) = elim (Run-cases (decode_secret_key kp)) [
    | inl (sk, e) ↦ rw e ((sk, e), drop_keypairs_no_secret-decodes wallet)
    | inr (inl c, e) ↦ rw e (drop_keypairs_no_secret-decodes wallet)
    | inr (inr c, e) ↦ rw e (drop_keypairs_no_secret-decodes wallet)
  ]

  -- `drop_keypairs_no_secret` keeps the key pairs whose secret key decodes: one that is added with a
  -- secret key of the right length stays behind the others, and one that is added by its public key
  -- alone goes. Every key pair that is left decodes.
  pub drop_keypairs_no_secret_lem :
      (wallet : Wallet) (name : Bytes) (public_key : PublicKey) (secret_key : SecretKey)
      → length secret_key.bytes ≡ sodium.secret_key_bytes
      → sodium.secret_key_bytes ≢ 0
      → (drop_keypairs_no_secret (add_keypair name public_key secret_key wallet)
          ≡ add_keypair name public_key secret_key (drop_keypairs_no_secret wallet))
        × (drop_keypairs_no_secret (add_public_key name public_key wallet)
            ≡ drop_keypairs_no_secret wallet)
        × All
            (λ kp. (sk : SecretKey) × (decode_secret_key kp ≡ ok sk))
            (drop_keypairs_no_secret wallet)
  unfolding drop_keypairs_no_secret add_keypair add_public_key decode_secret_key
  drop_keypairs_no_secret_lem wallet name public_key secret_key sized some_bytes = (
    keep-append _ wallet _ ∙ rw (sized-is_ok secret_key.bytes sized) refl,
    keep-append _ wallet _ ∙ rw (empty-is_ok some_bytes) (append-nil _),
    drop_keypairs_no_secret-decodes wallet,
  )
