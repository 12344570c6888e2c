-- ===== src/Tx/Built.antt =====
-- What `build` of tx.rs makes of a builder whose keys fit its transfers.
use ironcoin.Base.{
  ◌≡◌, refl, sym, ◌∙◌, ap, subst, true, some, List, [], ◌∷◌, Bytes, All, arith, length, inl, inr,
  Bool-cases, ◌==◌, nat_eq, nat_beq_iff, list_eq, list_beq_iff,
}
use ironcoin.Base.Map.{Map, lookup, insert, lookup-insert}
use ironcoin.Base.Run.{ok, for_all}
use ironcoin.Balance.Transfer.{from_slice-eq}
use ironcoin.Crypto.PublicKey
use ironcoin.Crypto.PublicKey.{PublicKey}
use ironcoin.Crypto.SecretKey.{SecretKey}
use ironcoin.Crypto.Signature
use ironcoin.Crypto.Signature.{Signature}
use ironcoin.Crypto.Sign.{sign, verify_signature}
use ironcoin.External.{HasSizes, Sodium}
use ironcoin.Message.Codecs.{Codecs}
use ironcoin.Message.Ledger.{DetachedSignature, Transaction, Transfer, get_bytes}
use ironcoin.Tx
use ironcoin.Tx.{
  TransactionBuilder, fill_sign_map, sign_transfers, verify_signatures, verify_transfer,
}

module _ ⦃sodium : Sodium⦄ where
  -- A key pair: what the secret key signs the public key accepts.
  pub record IsPair (sk : SecretKey) (pk : PublicKey) : Type 0 where
    pub sized : length pk.bytes ≡ sodium.public_key_bytes
    pub accepts :
        (message : Bytes)
        → sodium.verify_detached (sodium.sign_detached message sk.bytes) message pk.bytes ≡ true

  -- Each transfer has the secret key of its source.
  pub record IsKeyOf (transfer : Transfer) (sk : SecretKey) : Type 0 where
    pub source : PublicKey
    pub named : get_bytes transfer.source_pk ≡ source.bytes
    pub pair : IsPair sk source

  abbrev pub HasKeys : List Transfer → List SecretKey → Type 0
  HasKeys [] [] = Unit
  HasKeys [] (_ ∷ _) = ⊥
  HasKeys (_ ∷ _) [] = ⊥
  HasKeys (transfer ∷ transfers) (sk ∷ keys) = IsKeyOf transfer sk × HasKeys transfers keys

  -- What a map of signatures holds is accepted by the key that it is held for.
  IsAccepted : Bytes → Map Bytes Bytes → Type 0
  IsAccepted written sign_map =
      (key payload : Bytes)
      → lookup key sign_map ≡ some payload
      → (length payload ≡ sodium.signature_bytes)
        × (sodium.verify_detached payload written key ≡ true)

  abbrev Covers : Map Bytes Bytes → Bytes → Type 0
  Covers sign_map key = (payload : Bytes) × (lookup key sign_map ≡ some payload)

  insert-Covers :
      (sign_map : Map Bytes Bytes) (key other payload : Bytes)
      → Covers sign_map other
      → Covers (insert key payload sign_map) other
  insert-Covers sign_map key other payload (old, e) = elim (Bool-cases (key == other)) [
    | inl same ↦ (payload, lookup-insert key other payload sign_map ∙ rw same)
    | inr apart ↦ (old, lookup-insert key other payload sign_map ∙ rw apart e)
  ]

  module _ (sizes : HasSizes sodium) (written : Bytes) where
    sign_one : (transfer : Transfer) (sk : SecretKey) (k : IsKeyOf transfer sk) → DetachedSignature
    sign_one transfer sk k = record {
      public_key = some k.source.bytes;
      payload = some (sodium.sign_detached written sk.bytes);
    }

    insert-IsAccepted :
        (sign_map : Map Bytes Bytes) (transfer : Transfer) (sk : SecretKey)
        (k : IsKeyOf transfer sk)
        → IsAccepted written sign_map
        → IsAccepted written
            (insert k.source.bytes (sodium.sign_detached written sk.bytes) sign_map)
    unfolding IsAccepted
    insert-IsAccepted sign_map transfer sk k accepted key payload e =
        elim (Bool-cases (k.source.bytes == key)) [
          | inl same ↦
              let here = (list_beq_iff k.source.bytes key).0 same in
              let paid : sodium.sign_detached written sk.bytes ≡ payload = ground (
                arith,
                lookup-insert k.source.bytes key (sodium.sign_detached written sk.bytes) sign_map,
              ) in
              (
                ap length (sym paid) ∙ sizes.length-sign written sk.bytes,
                subst (λ (p : Bytes). sodium.verify_detached p written key ≡ true) paid
                    (subst
                      (λ (q : Bytes).
                        sodium.verify_detached (sodium.sign_detached written sk.bytes) written q
                        ≡ true)
                      here (k.pair.accepts written)),
              )
          | inr apart ↦ accepted key payload (
              ground (
                arith,
                lookup-insert k.source.bytes key (sodium.sign_detached written sk.bytes) sign_map,
              ))
        ]

    -- The signatures that are made, and the map that they fill.
    sign_transfers_lem :
        (transfers : List Transfer) (keys : List SecretKey)
        → HasKeys transfers keys
        → (signatures : List DetachedSignature) × (sign_transfers written transfers keys
            ≡ ok signatures)
          × ((sign_map : Map Bytes Bytes)
              → IsAccepted written sign_map
              → IsAccepted written (fill_sign_map sign_map signatures)
                × All
                    (λ t. Covers (fill_sign_map sign_map signatures) (get_bytes t.source_pk))
                    transfers
                × ((key : Bytes)
                    → Covers sign_map key
                    → Covers (fill_sign_map sign_map signatures) key))
    unfolding sign_transfers sign verify_signature fill_sign_map
    sign_transfers_lem [] [] h = ([], refl, λ sign_map accepted. (accepted, tt, λ key c. c))
    sign_transfers_lem [] (_ ∷ _) h = absurd h
    sign_transfers_lem (_ ∷ _) [] h = absurd h
    sign_transfers_lem (transfer ∷ transfers) (sk ∷ keys) (k, h) =
        let (rest, e, fills) = sign_transfers_lem transfers keys h in
        let payload = sodium.sign_detached written sk.bytes in
        (
          record { public_key = some k.source.bytes; payload = some payload } ∷ rest,
          rw (
            from_slice-eq (get_bytes transfer.source_pk) k.source k.named k.pair.sized,
            k.pair.accepts written,
            e,
          ),
          λ sign_map accepted.
              let next = insert k.source.bytes payload sign_map in
              let (accepted', covers, keeps) =
                fills next (insert-IsAccepted sign_map transfer sk k accepted) in
              let here : Covers next (get_bytes transfer.source_pk) =
                subst (λ (q : Bytes). Covers next q) (sym k.named)
                  (
                    payload,
                    lookup-insert k.source.bytes k.source.bytes payload sign_map
                        ∙ rw ((list_beq_iff k.source.bytes k.source.bytes).1 refl),
                  ) in
              (
                accepted',
                (keeps (get_bytes transfer.source_pk) here, covers),
                λ key c. keeps key (insert-Covers sign_map k.source.bytes key payload c),
              ),
        )

    verify_transfer-Covers :
        (sign_map : Map Bytes Bytes) (transfer : Transfer)
        → length (get_bytes transfer.source_pk) ≡ sodium.public_key_bytes
        → IsAccepted written sign_map
        → Covers sign_map (get_bytes transfer.source_pk)
        → verify_transfer written sign_map transfer ≡ ok tt
    unfolding verify_transfer PublicKey.from_slice Signature.from_slice verify_signature IsAccepted
    verify_transfer-Covers sign_map transfer sized accepted (payload, e) =
        let (payload_size, signs) = accepted (get_bytes transfer.source_pk) payload e in
        rw (
          e,
          verify_transfer,
          (nat_beq_iff (length (get_bytes transfer.source_pk)) sodium.public_key_bytes).1 sized,
          (nat_beq_iff (length payload) sodium.signature_bytes).1 payload_size,
          signs,
        )

    for_all-Covers :
        (sign_map : Map Bytes Bytes) (transfers : List Transfer) (keys : List SecretKey)
        → HasKeys transfers keys
        → IsAccepted written sign_map
        → All (λ t. Covers sign_map (get_bytes t.source_pk)) transfers
        → for_all (verify_transfer written sign_map) transfers ≡ ok tt
    unfolding for_all
    for_all-Covers sign_map [] [] h accepted c = refl
    for_all-Covers sign_map [] (_ ∷ _) h accepted c = absurd h
    for_all-Covers sign_map (_ ∷ _) [] h accepted c = absurd h
    for_all-Covers sign_map (transfer ∷ transfers) (sk ∷ keys) (k, h) accepted (first, rest) =
        rw
          (verify_transfer-Covers sign_map transfer (ap length k.named ∙ k.pair.sized) accepted
            first)
          (for_all-Covers sign_map transfers keys h accepted rest)

  -- A builder in which each transfer has the secret key of its source builds: the transaction
  -- carries its commitment, and `verify_signatures` accepts it.
  pub build-verify_signatures :
      ⦃codecs : Codecs⦄
      → (sizes : HasSizes sodium) (builder : TransactionBuilder) (written : Bytes)
      → codecs.commitment.write_to_bytes builder.commit ≡ ok written
      → HasKeys builder.commit.transfers builder.transfer_secret_keys
      → (tx : Transaction) × (Tx.build builder ≡ ok tx)
        × (tx.commit ≡ some builder.commit)
        × (verify_signatures tx ≡ ok tt)
  unfolding Tx.build verify_signatures IsAccepted
  build-verify_signatures sizes builder written write keys =
      let (signatures, e, fills) =
        sign_transfers_lem sizes written builder.commit.transfers builder.transfer_secret_keys
          keys in
      let (accepted, covers, keeps) = fills [] (λ key payload found. cc found) in
      let verified =
        for_all-Covers sizes written (fill_sign_map [] signatures) builder.commit.transfers
          builder.transfer_secret_keys keys accepted covers in
      (
        record { signatures = signatures; commit = some builder.commit },
        rw (write, e, verified),
        refl,
        rw (write, verified),
      )
