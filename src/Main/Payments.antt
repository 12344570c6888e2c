-- ===== src/Main/Payments.antt =====
-- The transfers of the option `t` in main.rs: the transaction that they make with the keys of a
-- wallet, and how it is sent to the peers. Where main prints a message and returns, the answer is an
-- error; where it unwraps, a panic.
use ironcoin.Base.{ℕ, ◌^◌, some, List, [], ◌∷◌, Bytes}
use ironcoin.Base.Action
use ironcoin.Base.Action.{Action, for_each, lift, raise}
use ironcoin.Base.Run.{Run, ok, err, panic, unwrap, expect, ◌>>=◌, IroncError, Panic}
use ironcoin.External.{Base64, Sodium}
use ironcoin.Main.{parse_number, split}
use ironcoin.Message.Codecs.{Codecs}
use ironcoin.Message.Ledger.{Transaction, WalletKeypair}
use ironcoin.Service.Client
use ironcoin.Service.Client.{Connection}
use ironcoin.Tx
use ironcoin.Tx.{TransactionBuilder}
use ironcoin.Wallet.{Wallet, decode_public_key, decode_secret_key, search_keys}

-- One key pair for the source and one for the destination.
unfoldable pub choose_keys :
    Bytes → Bytes → List WalletKeypair → List WalletKeypair → Run (WalletKeypair × WalletKeypair)
choose_keys source destination [] destination_keys = err (IroncError.unknown_source source)
choose_keys source destination (_ ∷ _) [] = err (IroncError.unknown_destination destination)
choose_keys source destination (from ∷ []) (to ∷ []) = ok (from, to)
choose_keys source destination (_ ∷ _) (_ ∷ _) = err (IroncError.ambiguous_address source)

module _ ⦃sodium : Sodium⦄ where
  -- The keys of a transfer are decoded, and the builder gets the transfer and its bounty.
  unfoldable pub add_payment :
      WalletKeypair × WalletKeypair → ℕ → ℕ → TransactionBuilder → Run TransactionBuilder
  unfolding decode_secret_key decode_public_key Tx.add_transfer Tx.set_bounty
  add_payment (from, to) amount op_number tx_builder = do
    source_sk ← unwrap (decode_secret_key from)
    source_pk ← unwrap (decode_public_key from)
    destination_pk ← unwrap (decode_public_key to)
    ok (
        Tx.set_bounty source_sk source_pk 1
          (Tx.add_transfer source_sk source_pk destination_pk amount op_number tx_builder))

  module _ ⦃base64 : Base64⦄ where
    -- One transfer, split into its parts.
    unfoldable pub parse_payment : Wallet → TransactionBuilder → List Bytes → Run TransactionBuilder
    unfolding parse_number search_keys choose_keys add_payment
    parse_payment wallet tx_builder (source ∷ destination ∷ amount_part ∷ op_part ∷ []) = do
      amount ← expect (parse_number (2 ^ 64) amount_part) Panic.unwrapped_none
      op_number ← expect (parse_number (2 ^ 32) op_part) Panic.unwrapped_none
      keys ←
          choose_keys source destination (search_keys source wallet)
            (search_keys destination wallet)
      add_payment keys amount op_number tx_builder
    parse_payment wallet tx_builder _ = err IroncError.not_a_payment

    -- The loop over the transfers.
    unfoldable pub parse_payments :
        Wallet → TransactionBuilder → List Bytes → Run TransactionBuilder
    unfolding split parse_payment
    parse_payments wallet tx_builder [] = ok tx_builder
    parse_payments wallet tx_builder (transfer_str ∷ transfer_strs) =
        parse_payment wallet tx_builder (split transfer_str)
        >>= (λ tx_builder'. parse_payments wallet tx_builder' transfer_strs)

    module _ ⦃codecs : Codecs⦄ where
      unfoldable pub build_payments : Wallet → List Bytes → Run Transaction
      unfolding parse_payments Tx.new Tx.build
      build_payments wallet transfer_strs =
          parse_payments wallet Tx.new transfer_strs
          >>= (λ tx_builder. unwrap (Tx.build tx_builder))

module _ {World : Type 0} (connect : Bytes → Action World (Connection World))
    ⦃codecs : Codecs⦄ where
  -- The transaction goes to each of the peers; `ok()` drops the error that `unwrap` would print.
  unfoldable pub send_to_peer : Transaction → Bytes → Action World (Unit {0})
  unfolding Client.pub_transaction
  send_to_peer transaction peer world =
      Action.and_then (let (client, world') = connect peer world in (unwrap client, world'))
        (λ client world'.
          let (response, world'') =
            Client.pub_transaction client (record { transaction = some transaction }) world' in
          (
            elim response [ ok _ ↦ ok tt | err _ ↦ panic Panic.unwrapped_none | panic p ↦ panic p ],
            world'',
          ))

  unfoldable pub send_to_peers : Transaction → List Bytes → Action World (Unit {0})
  unfolding for_each send_to_peer
  send_to_peers transaction [] = raise IroncError.no_peers
  send_to_peers transaction (peer ∷ peers) = for_each (send_to_peer transaction) (peer ∷ peers)

  module _ ⦃sodium : Sodium⦄ ⦃base64 : Base64⦄ where
    -- The option `t`.
    unfoldable pub pay : Wallet → List Bytes → List Bytes → Action World (Unit {0})
    unfolding build_payments send_to_peers
    pay wallet transfer_strs peers =
        Action.◌>>=◌ (lift (build_payments wallet transfer_strs))
          (λ transaction. send_to_peers transaction peers)
