-- ===== src/Balance/Supply.antt =====
-- No transfer between two addresses makes or loses tokens: the supply under balance.rs.
use native.Mathlib.Decide.{dec_le, ℕ_discrete}
use ironcoin.Base.{
  ℕ, ◌+◌, ◌^◌, ◌≤◌, ◌<◌, ◌≡◌, ◌≢◌, refl, ◌∙◌, List, [], ◌∷◌, All, Bool, true, false, ◌==◌, ◌||◌,
  arith,
}
use ironcoin.Base.Run.{Run, ok, err, panic}
use ironcoin.Base.Action.{Action, for_each}
use ironcoin.Balance.{LedgerReader}
use ironcoin.Balance.Ledger.{IsOver, Becomes-IsOver}
use ironcoin.Balance.Snapshot.{LedgerSnapshot, add_transfer, apply_block, apply_transaction}
use ironcoin.Balance.Transfer.{
  IsTransfer, add_transfer-accepted, add_transfer-overdraft, add_transfer-wrong_op, credit, debit,
  transferred,
}
use ironcoin.Balance.View.{Accounts, Reads, after_cache, update}
use ironcoin.Crypto.PublicKey.{PublicKey, public_key_eq, public_key_beq_iff}
use ironcoin.External.{Sodium}
use ironcoin.Message.Ledger.{
  Balance, HashedBlock, Transaction, Transfer, get_inner_block, get_num, get_signed_block,
  get_transfers,
}

-- The tokens of a list of addresses.
abbrev pub total : Accounts → List PublicKey → ℕ
total g [] = 0
total g (q ∷ keys) = get_num (g q).tokens + total g keys

abbrev pub contains : PublicKey → List PublicKey → Bool
contains a [] = false
contains a (q ∷ keys) = a == q || contains a keys

abbrev pub IsDistinct : List PublicKey → Type 0
IsDistinct [] = Unit
IsDistinct (q ∷ keys) = (contains q keys ≡ false) × IsDistinct keys

total-congr :
    (g g' : Accounts) (keys : List PublicKey)
    → ((q : PublicKey) → g' q ≡ g q)
    → total g' keys ≡ total g keys
total-congr g g' [] h = refl
total-congr g g' (q ∷ keys) h = ground (arith, h q, total-congr g g' keys h)

total-update_other :
    (g : Accounts) (a : PublicKey) (b : Balance) (keys : List PublicKey)
    → contains a keys ≡ false
    → total (update g a b) keys ≡ total g keys
total-update_other g a b [] h = refl
total-update_other g a b (q ∷ keys) h = ground (arith, total-update_other g a b keys)

total-update :
    (g : Accounts) (a : PublicKey) (b : Balance) (keys : List PublicKey)
    → IsDistinct keys
    → contains a keys ≡ true
    → total (update g a b) keys + get_num (g a).tokens ≡ total g keys + get_num b.tokens
total-update g a b [] d h = cc
total-update g a b (q ∷ keys) d h =
    ground
      (arith, public_key_beq_iff a q, total-update_other g a b keys, total-update g a b keys d.1)

total-ge :
    (g : Accounts) (a : PublicKey) (keys : List PublicKey)
    → contains a keys ≡ true
    → get_num (g a).tokens ≤ total g keys
total-ge g a [] h = cc
total-ge g a (q ∷ keys) h = ground (arith, public_key_beq_iff a q, total-ge g a keys)

total-transferred :
    (tokens : ℕ) (source destination : PublicKey) (g : Accounts) (keys : List PublicKey)
    → IsDistinct keys
    → contains source keys ≡ true
    → contains destination keys ≡ true
    → source ≢ destination
    → tokens ≤ get_num (g source).tokens
    → total g keys < 2 ^ 64
    → total (transferred tokens source destination g) keys ≡ total g keys
total-transferred tokens source destination g keys d hs hd apart funds bound =
    let g₁ = update g source (debit tokens (g source)) in
    let unread : (source == destination) ≡ false =
      ground (arith, public_key_beq_iff source destination) in
    let kept : g₁ destination ≡ g destination = rw unread in
    ground (
      arith,
      total-update g source (debit tokens (g source)) keys d hs,
      total-update g₁ destination (credit tokens (g destination)) keys d hd,
      total-ge g₁ destination keys hd,
    )

-- A transfer between two of the addresses.
pub record IsSpend ⦃sodium : Sodium⦄ (keys : List PublicKey) (transfer : Transfer) : Type 0 where
  pub source : PublicKey
  pub destination : PublicKey
  pub named : IsTransfer transfer source destination
  pub apart : source ≢ destination
  pub source_known : contains source keys ≡ true
  pub destination_known : contains destination keys ≡ true

module _ {L : Type 0} (reader : LedgerReader L) (f : Accounts) (under : L) (base : Accounts)
    ⦃sodium : Sodium⦄ (reads : Reads reader under f) (keys : List PublicKey)
    (distinct : IsDistinct keys) where
  -- The tokens that a snapshot shows.
  abbrev pub supply : LedgerSnapshot L → ℕ
  supply s = total (after_cache f s.cache) keys

  -- A step that keeps the supply, whether or not it is accepted.
  abbrev pub Conserves : Action (LedgerSnapshot L) (Unit {0}) → LedgerSnapshot L → Type 0
  Conserves action s =
      (s' : LedgerSnapshot L) × (r : Run (Unit {0})) × (action s ≡ (r, s'))
      × IsOver reader f under base s'
      × (supply s' ≡ supply s)

  -- One transfer between two of the addresses keeps their tokens, accepted or refused.
  pub add_transfer-Conserves :
      (transfer : Transfer) (s : LedgerSnapshot L)
      → IsSpend keys transfer
      → IsOver reader f under base s
      → supply s < 2 ^ 64
      → Conserves (add_transfer reader transfer) s
  add_transfer-Conserves transfer s spend over bound =
      let source = spend.source in
      let destination = spend.destination in
      let store : Reads reader s.store f = λ q. rw over.store (reads q) in
      let g = after_cache f s.cache in
      let tokens = get_num transfer.tokens in
      elim (dec_le tokens (get_num (g source).tokens)) [
        | no short ↦
            let (s', e, b) =
              add_transfer-overdraft reader f transfer source destination spend.named s store
                (omega arith) in
            (
              s',
              _,
              e,
              Becomes-IsOver reader f under base s s' _ b over,
              total-congr g _ keys b.after,
            )
        | yes funds ↦ elim (ℕ_discrete (get_num transfer.op_index) (get_num (g source).op_index)) [
          | yes op ↦
              let (s', e, b) =
                add_transfer-accepted reader f transfer source destination spend.named s store funds
                  op in
              (
                s',
                _,
                e,
                Becomes-IsOver reader f under base s s' _ b over,
                total-congr (transferred tokens source destination g) _ keys b.after
                    ∙ total-transferred tokens source destination g keys distinct spend.source_known
                        spend.destination_known spend.apart funds bound,
              )
          | no op ↦
              let (s', e, b) =
                add_transfer-wrong_op reader f transfer source destination spend.named s store funds
                  op in
              (
                s',
                _,
                e,
                Becomes-IsOver reader f under base s s' _ b over,
                total-congr g _ keys b.after,
              )
        ]
      ]

  -- A loop of steps that each conserve.
  for_each-Conserves :
      {A : Type 0} (P : A → Type 0) (step : A → Action (LedgerSnapshot L) (Unit {0}))
      → ((a : A) (s : LedgerSnapshot L)
          → P a
          → IsOver reader f under base s
          → supply s < 2 ^ 64
          → Conserves (step a) s)
      → (xs : List A) (s : LedgerSnapshot L) → All P xs
      → IsOver reader f under base s
      → supply s < 2 ^ 64
      → Conserves (for_each step xs) s
  unfolding for_each
  for_each-Conserves P step keeps [] s h over bound = (s, ok tt, refl, over, refl)
  for_each-Conserves P step keeps (x ∷ xs) s h over bound =
      let (s₁, r, e, over₁, same) = keeps x s h.0 over bound in
      let (s₂, r₂, e₂, over₂, same₂) =
        for_each-Conserves P step keeps xs s₁ h.1 over₁ (omega arith) in
      elim r as (λ r. step x s ≡ (r, s₁) → Conserves (for_each step (x ∷ xs)) s) [
        | ok u ↦ λ e. (s₂, r₂, rw e e₂, over₂, same₂ ∙ same)
        | err c ↦ λ e. (s₁, err c, rw e, over₁, same)
        | panic p ↦ λ e. (s₁, panic p, rw e, over₁, same)
      ]
        e

  -- A transaction whose transfers are between two of the addresses each keeps their tokens,
  -- also where a transfer in the middle is refused.
  pub apply_transaction-Conserves :
      (tx : Transaction) (s : LedgerSnapshot L)
      → All (IsSpend keys) (get_transfers tx)
      → IsOver reader f under base s
      → supply s < 2 ^ 64
      → Conserves (apply_transaction reader tx) s
  unfolding apply_transaction
  apply_transaction-Conserves tx =
      for_each-Conserves (IsSpend keys) (add_transfer reader) add_transfer-Conserves
        (get_transfers tx)

  -- A block whose transfers are each between two different addresses of a list keeps the tokens of
  -- the list together, where these are below 2^64, also if a transfer in the middle is refused.
  pub apply_block-Conserves :
      (block : HashedBlock) (s : LedgerSnapshot L)
      → All
          (λ tx. All (IsSpend keys) (get_transfers tx))
          (get_inner_block (get_signed_block block)).transactions
      → IsOver reader f under base s
      → supply s < 2 ^ 64
      → Conserves (apply_block reader block) s
  unfolding apply_block
  apply_block-Conserves block =
      for_each-Conserves (λ tx. All (IsSpend keys) (get_transfers tx)) (apply_transaction reader)
        apply_transaction-Conserves (get_inner_block (get_signed_block block)).transactions
