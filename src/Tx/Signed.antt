-- ===== src/Tx/Signed.antt =====
-- What `verify_signatures` of tx.rs accepts, and that a builder makes what it accepts.
use ironcoin.Base.{
  ◌≡◌, ◌≢◌, refl, ◌∙◌, ap, true, some, none, List, [], ◌∷◌, Bytes, All, arith, length, inl, inr,
  ◌⊎◌, Bool-cases, Option-cases, ◌==◌, nat_eq, nat_beq_iff, list_eq, list_beq_iff,
}
use ironcoin.Base.Map.{Map, lookup, insert, lookup-insert}
use ironcoin.Base.Run.{ok, for_all, >>=-ok}
use ironcoin.Crypto.PublicKey
use ironcoin.Crypto.PublicKey.{PublicKey}
use ironcoin.Crypto.Signature
use ironcoin.Crypto.Signature.{Signature}
use ironcoin.Crypto.Sign.{verify_signature}
use ironcoin.External.{Sodium}
use ironcoin.Message.Codecs.{Codecs}
use ironcoin.Message.Ledger.{
  DetachedSignature, Transaction, Transfer, get_bytes, get_commit, get_transfers,
}
use ironcoin.Tx.{fill_sign_map, verify_signatures, verify_transfer}

-- A signature of the list.
abbrev pub IsIn : DetachedSignature → List DetachedSignature → Type 0
IsIn signature [] = ⊥
IsIn signature (other ∷ signatures) = (signature ≡ other) ⊎ IsIn signature signatures

-- What the map holds for a key comes from the list, or was there.
lookup-fill_sign_map :
    (signatures : List DetachedSignature) (sign_map : Map Bytes Bytes) (key payload : Bytes)
    → lookup key (fill_sign_map sign_map signatures) ≡ some payload
    → ((signature : DetachedSignature) × IsIn signature signatures
        × (get_bytes signature.public_key ≡ key)
        × (get_bytes signature.payload ≡ payload))
      ⊎ (lookup key sign_map ≡ some payload)
unfolding fill_sign_map
lookup-fill_sign_map [] sign_map key payload e = inr e
lookup-fill_sign_map (s ∷ signatures) sign_map key payload e =
    elim (lookup-fill_sign_map signatures
      (insert (get_bytes s.public_key) (get_bytes s.payload) sign_map) key payload e) [
        | inl (signature, member, named, paid) ↦ inl (signature, inr member, named, paid)
        | inr found ↦ elim (Bool-cases (get_bytes s.public_key == key)) [
          | inl same ↦ inl (
            s,
            inl refl,
            (list_beq_iff (get_bytes s.public_key) key).0 same,
            ground
                (arith, lookup-insert (get_bytes s.public_key) key (get_bytes s.payload) sign_map),
          )
          | inr apart ↦ inr (
              ground
                (arith, lookup-insert (get_bytes s.public_key) key (get_bytes s.payload) sign_map))
        ]
      ]

module _ ⦃sodium : Sodium⦄ where
  -- The source of a transfer signs the written commitment, by one of the signatures.
  pub record IsSignedBy (written : Bytes) (signatures : List DetachedSignature)
      (transfer : Transfer) : Type 0 where
    pub signature : DetachedSignature
    pub member : IsIn signature signatures
    pub source : get_bytes signature.public_key ≡ get_bytes transfer.source_pk
    pub source_size : length (get_bytes transfer.source_pk) ≡ sodium.public_key_bytes
    pub payload_size : length (get_bytes signature.payload) ≡ sodium.signature_bytes
    pub signs :
        sodium.verify_detached (get_bytes signature.payload) written (get_bytes transfer.source_pk)
        ≡ true

  verify_transfer-found :
      (written payload : Bytes) (sign_map : Map Bytes Bytes) (transfer : Transfer)
      → lookup (get_bytes transfer.source_pk) sign_map ≡ some payload
      → verify_transfer written sign_map transfer ≡ ok tt
      → (length (get_bytes transfer.source_pk) ≡ sodium.public_key_bytes)
        × (length payload ≡ sodium.signature_bytes)
        × (sodium.verify_detached payload written (get_bytes transfer.source_pk) ≡ true)
  unfolding verify_transfer PublicKey.from_slice Signature.from_slice verify_signature
  verify_transfer-found written payload sign_map transfer found e = ground (
    arith,
    nat_beq_iff (length (get_bytes transfer.source_pk)) sodium.public_key_bytes,
    nat_beq_iff (length payload) sodium.signature_bytes,
  )

  verify_transfer-missing :
      (written : Bytes) (sign_map : Map Bytes Bytes) (transfer : Transfer)
      → lookup (get_bytes transfer.source_pk) sign_map ≡ none
      → verify_transfer written sign_map transfer ≢ ok tt
  unfolding verify_transfer
  verify_transfer-missing written sign_map transfer missing e = ground arith

  verify_transfer-IsSignedBy :
      (written : Bytes) (signatures : List DetachedSignature) (transfer : Transfer)
      → verify_transfer written (fill_sign_map [] signatures) transfer ≡ ok tt
      → IsSignedBy written signatures transfer
  verify_transfer-IsSignedBy written signatures transfer e =
      let key = get_bytes transfer.source_pk in
      elim (Option-cases (lookup key (fill_sign_map [] signatures))) [
        | inl missing ↦
            absurd
              (verify_transfer-missing written (fill_sign_map [] signatures) transfer missing e)
        | inr (payload, found) ↦
            let (source_size, payload_size, signs) =
              verify_transfer-found written payload (fill_sign_map [] signatures) transfer found
                e in
            elim (lookup-fill_sign_map signatures [] key payload found) [
              | inr before ↦ cc
              | inl (signature, member, named, paid) ↦ record {
                signature = signature;
                member = member;
                source = named;
                source_size = source_size;
                payload_size = ap length paid ∙ payload_size;
                signs = rw paid signs;
              }
            ]
      ]

  for_all-IsSignedBy :
      (written : Bytes) (signatures : List DetachedSignature) (transfers : List Transfer)
      → for_all (verify_transfer written (fill_sign_map [] signatures)) transfers ≡ ok tt
      → All (IsSignedBy written signatures) transfers
  unfolding for_all
  for_all-IsSignedBy written signatures [] e = tt
  for_all-IsSignedBy written signatures (transfer ∷ transfers) e =
      let (u, first, rest) =
        >>=-ok (verify_transfer written (fill_sign_map [] signatures) transfer) _ e in
      (
        verify_transfer-IsSignedBy written signatures transfer first,
        for_all-IsSignedBy written signatures transfers rest,
      )

  -- Where `verify_signatures` accepts a transaction, one of its signatures, under the key of the
  -- source, signs the written commitment, for each transfer of it.
  pub verify_signatures-IsSignedBy :
      ⦃codecs : Codecs⦄
      → (tx : Transaction) → verify_signatures tx ≡ ok tt
      → (written : Bytes) × (codecs.commitment.write_to_bytes (get_commit tx) ≡ ok written)
        × All (IsSignedBy written tx.signatures) (get_transfers tx)
  unfolding verify_signatures
  verify_signatures-IsSignedBy ⦃codecs⦄ tx e =
      let (written, e₁, rest) = >>=-ok (codecs.commitment.write_to_bytes (get_commit tx)) _ e in
      (written, e₁, for_all-IsSignedBy written tx.signatures (get_transfers tx) rest)
