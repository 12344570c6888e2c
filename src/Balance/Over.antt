-- ===== src/Balance/Over.antt =====
-- `add_transfer` and `apply_block` of balance.rs on any input: whatever they answer, the snapshot
-- stays one over the same ledger and the same start.
use ironcoin.Base.{
  ◌≡◌, refl, List, [], ◌∷◌, Bytes, arith, length, nat_beq_iff, inl, inr, ◌⊎◌, ◌==◌, nat_eq,
  Bool-cases,
}
use native.Mathlib.Decide.{dec_le, ℕ_discrete}
use ironcoin.Base.Run.{Run, ok, err, panic, IroncError}
use ironcoin.Base.Action.{Action, for_each}
use ironcoin.Balance.{LedgerReader}
use ironcoin.Balance.Ledger.{Becomes-IsOver, IsOver}
use ironcoin.Balance.Snapshot.{LedgerSnapshot, add_transfer, apply_block, apply_transaction}
use ironcoin.Balance.Transfer.{
  IsTransfer, add_transfer-accepted, add_transfer-overdraft, add_transfer-wrong_op,
}
use ironcoin.Balance.View.{Accounts, Reads, after_cache}
use ironcoin.Crypto.PublicKey
use ironcoin.Crypto.PublicKey.{PublicKey}
use ironcoin.External.{Sodium}
use ironcoin.Message.Ledger.{
  HashedBlock, Transaction, Transfer, get_bytes, get_inner_block, get_num, get_signed_block,
  get_transfers,
}

-- An address is decoded or refused.
from_slice-cases :
    ⦃sodium : Sodium⦄
    → (bytes : Bytes)
    → ((pk : PublicKey) × (PublicKey.from_slice bytes ≡ ok pk)
        × (bytes ≡ pk.bytes)
        × (length pk.bytes ≡ sodium.public_key_bytes))
      ⊎ ((e : IroncError) × (PublicKey.from_slice bytes ≡ err e))
unfolding PublicKey.from_slice
from_slice-cases ⦃sodium⦄ bytes = elim (Bool-cases (length bytes == sodium.public_key_bytes)) [
  | inl fits ↦ inl (record { bytes = bytes }, rw fits, refl, (nat_beq_iff _ _).0 fits)
  | inr other ↦ inr (IroncError.invalid_length (length bytes) sodium.public_key_bytes, rw other)
]

module _ {L : Type 0} (reader : LedgerReader L) (f : Accounts) (under : L) (base : Accounts)
    ⦃sodium : Sodium⦄ (reads : Reads reader under f) where
  -- The step ends in a snapshot over the same ledger, whatever it answers.
  abbrev pub Stays : Action (LedgerSnapshot L) (Unit {0}) → LedgerSnapshot L → Type 0
  Stays step s =
      (s' : LedgerSnapshot L) × (r : Run (Unit {0})) × (step s ≡ (r, s'))
      × IsOver reader f under base s'

  named-Stays :
      (transfer : Transfer) (source destination : PublicKey) (s : LedgerSnapshot L)
      → IsTransfer transfer source destination
      → IsOver reader f under base s
      → Stays (add_transfer reader transfer) s
  named-Stays transfer source destination s named over =
      let store : Reads reader s.store f = λ q. rw over.store (reads q) in
      let g = after_cache f s.cache in
      elim (dec_le (get_num transfer.tokens) (get_num (g source).tokens)) [
        | no short ↦
            let (s', e, b) =
              add_transfer-overdraft reader f transfer source destination named s store
                (omega arith) in
            (s', _, e, Becomes-IsOver reader f under base s s' _ b over)
        | yes funds ↦ elim (ℕ_discrete (get_num transfer.op_index) (get_num (g source).op_index)) [
          | yes op ↦
              let (s', e, b) =
                add_transfer-accepted reader f transfer source destination named s store funds op in
              (s', _, e, Becomes-IsOver reader f under base s s' _ b over)
          | no op ↦
              let (s', e, b) =
                add_transfer-wrong_op reader f transfer source destination named s store funds op in
              (s', _, e, Becomes-IsOver reader f under base s s' _ b over)
        ]
      ]

  pub add_transfer-Stays :
      (transfer : Transfer) (s : LedgerSnapshot L)
      → IsOver reader f under base s
      → Stays (add_transfer reader transfer) s
  unfolding add_transfer
  add_transfer-Stays transfer s over = elim (from_slice-cases (get_bytes transfer.source_pk)) [
    | inr (c, e) ↦ (s, err c, rw e, over)
    | inl (source, e, same, sized) ↦ elim (from_slice-cases (get_bytes transfer.destination_pk)) [
      | inr (c, e') ↦ (s, err c, rw (e, e'), over)
      | inl (destination, e', same', sized') ↦
          named-Stays transfer source destination s
            (record {
              source_pk = same;
              destination_pk = same';
              source_size = sized;
              destination_size = sized';
            })
            over
    ]
  ]

  for_each-Stays :
      {A : Type 0} (step : A → Action (LedgerSnapshot L) (Unit {0}))
      → ((a : A) (s : LedgerSnapshot L) → IsOver reader f under base s → Stays (step a) s)
      → (xs : List A) (s : LedgerSnapshot L) → IsOver reader f under base s
      → Stays (for_each step xs) s
  unfolding for_each
  for_each-Stays step stays [] s over = (s, ok tt, refl, over)
  for_each-Stays step stays (x ∷ xs) s over =
      let (s₁, r, e, over₁) = stays x s over in
      let (s₂, r₂, e₂, over₂) = for_each-Stays step stays xs s₁ over₁ in
      elim r as (λ r. step x s ≡ (r, s₁) → Stays (for_each step (x ∷ xs)) s) [
        | ok u ↦ λ e. (s₂, r₂, rw e e₂, over₂)
        | err c ↦ λ e. (s₁, err c, rw e, over₁)
        | panic p ↦ λ e. (s₁, panic p, rw e, over₁)
      ]
        e

  pub apply_transaction-Stays :
      (tx : Transaction) (s : LedgerSnapshot L)
      → IsOver reader f under base s
      → Stays (apply_transaction reader tx) s
  unfolding apply_transaction
  apply_transaction-Stays tx =
      for_each-Stays (add_transfer reader) add_transfer-Stays (get_transfers tx)

  pub apply_block-Stays :
      (block : HashedBlock) (s : LedgerSnapshot L)
      → IsOver reader f under base s
      → Stays (apply_block reader block) s
  unfolding apply_block
  apply_block-Stays block =
      for_each-Stays (apply_transaction reader) apply_transaction-Stays
        (get_inner_block (get_signed_block block)).transactions
