-- ===== src/Main/Paid.antt =====
-- Transfers on the command line of main.rs that are described as it asks for them.
use ironcoin.Base.{
  ℕ, ◌^◌, ◌<◌, ◌≡◌, refl, sym, ◌∙◌, ap, some, List, [], ◌∷◌, ◌++◌, Bytes, All, map, Option, get_or,
}
use mathlib.Core.List.{append_assoc, append-nil}
use ironcoin.Base.Run.{ok, unwrap, expect}
use ironcoin.Crypto.PublicKey.{PublicKey}
use ironcoin.Crypto.SecretKey.{SecretKey}
use ironcoin.External.{Base64, HasSizes, IsFaithful, Sodium}
use ironcoin.Main.{split}
use ironcoin.Main.Payments.{add_payment, build_payments, choose_keys, parse_payment, parse_payments}
use ironcoin.Main.Texts.{
  NoColon, amount_text, amount_text-NoColon, parse_number-amount_text, split-one, split-part,
}
use ironcoin.Message.Codecs.{Codecs}
use ironcoin.Message.Ledger.{
  Transaction, Transfer, WalletKeypair, get_transfers, Commitment, empty_commitment,
}
use ironcoin.Tx
use ironcoin.Tx.{TransactionBuilder, verify_signatures}
use ironcoin.Tx.Built.{HasKeys, IsKeyOf, IsPair, build-verify_signatures}
use ironcoin.Wallet.{Wallet, decode_public_key, decode_secret_key, search_keys}

-- A transfer as it is asked for: what its addresses are searched by, and the keys that are meant.
pub record Payment : Type 0 where
  pub source : Bytes
  pub destination : Bytes
  pub amount : ℕ
  pub op_number : ℕ
  pub source_sk : SecretKey
  pub source_pk : PublicKey
  pub destination_pk : PublicKey

-- `SOURCE:DESTINATION:AMOUNT:OP_NUM`
abbrev pub payment_text : Payment → Bytes
payment_text p =
    p.source
    ++ b':' ∷ (p.destination ++ b':' ∷ (amount_text p.amount ++ b':' ∷ amount_text p.op_number))

abbrev pub transfer_of : Payment → Transfer
transfer_of p = record {
  op_index = some p.op_number;
  tokens = some p.amount;
  source_pk = some p.source_pk.bytes;
  destination_pk = some p.destination_pk.bytes;
}

module _ ⦃sodium : Sodium⦄ where
  -- Each search finds one key pair of the wallet, with the keys that are meant, and the numbers fit
  -- their types.
  pub record IsPayable ⦃base64 : Base64⦄ (wallet : Wallet) (p : Payment) : Type 0 where
    pub source_plain : NoColon p.source
    pub destination_plain : NoColon p.destination
    pub amount_small : p.amount < 2 ^ 64
    pub op_small : p.op_number < 2 ^ 32
    pub from : WalletKeypair
    pub to : WalletKeypair
    pub found_source : search_keys p.source wallet ≡ from ∷ []
    pub found_destination : search_keys p.destination wallet ≡ to ∷ []
    pub secret : decode_secret_key from ≡ ok p.source_sk
    pub public : decode_public_key from ≡ ok p.source_pk
    pub receiver : decode_public_key to ≡ ok p.destination_pk
    pub pair : IsPair p.source_sk p.source_pk

  HasKeys-append :
      (transfers : List Transfer) (keys : List SecretKey) (transfer : Transfer) (sk : SecretKey)
      → HasKeys transfers keys
      → IsKeyOf transfer sk
      → HasKeys (transfers ++ transfer ∷ []) (keys ++ sk ∷ [])
  HasKeys-append [] [] transfer sk h key = (key, tt)
  HasKeys-append [] (_ ∷ _) transfer sk h key = elim h [ ]
  HasKeys-append (_ ∷ _) [] transfer sk h key = elim h [ ]
  HasKeys-append (t ∷ transfers) (k ∷ keys) transfer sk (first, h) key =
      (first, HasKeys-append transfers keys transfer sk h key)

  -- The builder after a payment.
  abbrev paid : Payment → TransactionBuilder → TransactionBuilder
  paid p tx_builder =
      Tx.set_bounty p.source_sk p.source_pk 1
        (Tx.add_transfer p.source_sk p.source_pk p.destination_pk p.amount p.op_number tx_builder)

  paid-HasKeys :
      (p : Payment) (tx_builder : TransactionBuilder)
      → IsPair p.source_sk p.source_pk
      → HasKeys tx_builder.commit.transfers tx_builder.transfer_secret_keys
      → HasKeys (paid p tx_builder).commit.transfers (paid p tx_builder).transfer_secret_keys
  unfolding Tx.set_bounty Tx.add_transfer
  paid-HasKeys p tx_builder pair keys =
      HasKeys-append tx_builder.commit.transfers tx_builder.transfer_secret_keys (transfer_of p)
        p.source_sk keys (record { source = p.source_pk; named = refl; pair = pair })

  module _ ⦃base64 : Base64⦄ (wallet : Wallet) where
    payment_text-split :
        (p : Payment)
        → IsPayable wallet p
        → split (payment_text p)
          ≡ p.source ∷ p.destination ∷ amount_text p.amount ∷ amount_text p.op_number ∷ []
    payment_text-split p i =
        rw
          (
            split-part p.source
                (p.destination ++ b':' ∷ (amount_text p.amount ++ b':' ∷ amount_text p.op_number))
                i.source_plain,
            split-part p.destination (amount_text p.amount ++ b':' ∷ amount_text p.op_number)
                i.destination_plain,
            split-part (amount_text p.amount) (amount_text p.op_number)
                (amount_text-NoColon p.amount),
            split-one (amount_text p.op_number) (amount_text-NoColon p.op_number),
          )
          refl

    parse_payment-paid :
        (p : Payment) (tx_builder : TransactionBuilder)
        → IsPayable wallet p
        → parse_payment wallet tx_builder (split (payment_text p)) ≡ ok (paid p tx_builder)
    unfolding parse_payment choose_keys add_payment
    parse_payment-paid p tx_builder i =
        rw
          (
            payment_text-split p i,
            parse_payment,
            parse_number-amount_text (2 ^ 64) p.amount i.amount_small,
            expect,
            parse_number-amount_text (2 ^ 32) p.op_number i.op_small,
            i.found_source,
            i.found_destination,
            choose_keys,
            i.secret,
            unwrap,
            i.public,
            i.receiver,
          )
          refl

    -- The loop: the transfers follow those of the builder, and each has its key.
    record IsPaid (payments : List Payment) (tx_builder after : TransactionBuilder) : Type 0 where
      transfers : after.commit.transfers ≡ tx_builder.commit.transfers ++ map transfer_of payments
      keys : HasKeys after.commit.transfers after.transfer_secret_keys

    parse_payments-IsPaid :
        (payments : List Payment) (tx_builder : TransactionBuilder)
        → All (IsPayable wallet) payments
        → HasKeys tx_builder.commit.transfers tx_builder.transfer_secret_keys
        → (after : TransactionBuilder) × (parse_payments wallet tx_builder
              (map payment_text payments)
            ≡ ok after)
          × IsPaid payments tx_builder after
    unfolding parse_payments Tx.set_bounty Tx.add_transfer
    parse_payments-IsPaid [] tx_builder h keys =
        (tx_builder, refl, record { transfers = sym (append-nil _); keys = keys })
    parse_payments-IsPaid (p ∷ payments) tx_builder (i, h) keys =
        let (after, e, rest) =
          parse_payments-IsPaid payments (paid p tx_builder) h
            (paid-HasKeys p tx_builder i.pair keys) in
        (
          after,
          rw (parse_payment-paid p tx_builder i) e,
          record {
            transfers =
                rest.transfers
                ∙ append_assoc tx_builder.commit.transfers (transfer_of p ∷ [])
                    (map transfer_of payments);
            keys = rest.keys;
          },
        )

    module _ ⦃codecs : Codecs⦄ where
      -- Transfers on the command line that are written as it asks for them, with addresses of which
      -- each names one key pair of the wallet and numbers that fit their types: the transaction that
      -- is built has just these transfers, in their order, and `verify_signatures` accepts it.
      pub build_payments-verify_signatures :
          (sizes : HasSizes sodium) (commitments : IsFaithful codecs.commitment)
          (payments : List Payment)
          → All (IsPayable wallet) payments
          → (tx : Transaction) × (build_payments wallet (map payment_text payments) ≡ ok tx)
            × (get_transfers tx ≡ map transfer_of payments)
            × (verify_signatures tx ≡ ok tt)
      unfolding build_payments Tx.new
      build_payments-verify_signatures sizes commitments payments h =
          let (tx_builder, e, paid) = parse_payments-IsPaid payments Tx.new h tt in
          let (tx, built, commit, verified) =
            build-verify_signatures sizes tx_builder (commitments.encode tx_builder.commit)
              (commitments.write-eq tx_builder.commit) paid.keys in
          (
            tx,
            rw (e, built, unwrap) refl,
            ap (λ (c : Option Commitment). (get_or c empty_commitment).transfers) commit
                ∙ paid.transfers,
            verified,
          )
