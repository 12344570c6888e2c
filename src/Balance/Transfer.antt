-- ===== src/Balance/Transfer.antt =====
-- What `add_transfer` of balance.rs does to the balances that a snapshot shows.
use native.Mathlib.Decide.{dec_le, ℕ_discrete}
use ironcoin.Base.{
  ℕ, ◌+◌, ◌-◌, ◌%◌, ◌^◌, ◌≤◌, ◌<◌, ◌≡◌, ◌≢◌, ◌∙◌, ap, some, ◌==◌, arith, length, if◌then◌else◌, leb,
  le→leb, lt→not_leb, nat_beq_ne, nat_eq, nat_beq_iff, Bytes,
}
use ironcoin.Base.Run.{Run, ok, err, IroncError}
use ironcoin.Balance.{LedgerReader}
use ironcoin.Balance.Snapshot.{LedgerSnapshot, add_transfer, move_tokens}
use ironcoin.Balance.View.{
  Accounts, Becomes, Reads, after_cache, get_balance_lem, set_balance_lem, update,
}
use ironcoin.Crypto.PublicKey
use ironcoin.Crypto.PublicKey.{PublicKey, public_key_eq, public_key_beq_iff}
use ironcoin.External.{Sodium}
use ironcoin.Message.Ledger.{Balance, Transfer, get_bytes, get_num}

-- The source after a transfer of this many tokens.
abbrev pub debit : ℕ → Balance → Balance
debit tokens source = record {
  tokens = some (get_num source.tokens - tokens);
  op_index = some ((get_num source.op_index + 1) % 2 ^ 32);
}

-- The destination after it; the sum wraps around.
abbrev pub credit : ℕ → Balance → Balance
credit tokens destination = record destination {
  tokens = some ((get_num destination.tokens + tokens) % 2 ^ 64);
}

-- The accounts after a transfer that is accepted: both balances were read before either write.
abbrev pub transferred : ℕ → PublicKey → PublicKey → Accounts → Accounts
transferred tokens source destination g =
    update (update g source (debit tokens (g source))) destination (credit tokens (g destination))

module _ ⦃sodium : Sodium⦄ where
  -- The addresses that a transfer names.
  pub record IsTransfer (transfer : Transfer) (source destination : PublicKey) : Type 0 where
    pub source_pk : get_bytes transfer.source_pk ≡ source.bytes
    pub destination_pk : get_bytes transfer.destination_pk ≡ destination.bytes
    pub source_size : length source.bytes ≡ sodium.public_key_bytes
    pub destination_size : length destination.bytes ≡ sodium.public_key_bytes

  pub from_slice-eq :
      (bytes : Bytes) (pk : PublicKey)
      → bytes ≡ pk.bytes
      → length pk.bytes ≡ sodium.public_key_bytes
      → PublicKey.from_slice bytes ≡ ok pk
  unfolding PublicKey.from_slice
  from_slice-eq bytes pk e size = ground (arith, nat_beq_iff (length bytes) sodium.public_key_bytes)

module _ {L : Type 0} (reader : LedgerReader L) (f : Accounts) ⦃sodium : Sodium⦄
    (transfer : Transfer) (source destination : PublicKey)
    (named : IsTransfer transfer source destination) (s : LedgerSnapshot L)
    (store : Reads reader s.store f) where
  -- The state in which both balances are read.
  read_both :
      (s' : LedgerSnapshot L) × (add_transfer reader transfer s
        ≡ move_tokens reader transfer source destination
            (after_cache f s.cache source)
            (after_cache f s.cache destination)
            s')
      × Becomes reader f s s' (after_cache f s.cache)
  unfolding add_transfer
  read_both =
      let (s₁, e₁, b₁) = get_balance_lem reader f source s store named.source_size in
      let (s₂, e₂, b₂) =
        get_balance_lem reader f destination s₁ (λ q. rw b₁.store (store q))
          named.destination_size in
      (
        s₂,
        rw
            (
              from_slice-eq (get_bytes transfer.source_pk) source named.source_pk named.source_size,
              from_slice-eq (get_bytes transfer.destination_pk) destination named.destination_pk
                  named.destination_size,
              e₁,
              e₂,
            )
            (ap
              (λ (b : Balance).
                move_tokens reader transfer source destination (after_cache f s.cache source) b s₂)
              (b₁.after destination)),
        record {
          store = b₂.store ∙ b₁.store;
          after = λ q. b₂.after q ∙ b₁.after q;
          before = λ q. b₂.before q ∙ b₁.before q;
          cache = λ h. b₂.cache (b₁.cache h);
        },
      )

  -- An accepted transfer moves its tokens and counts the operation of its source.
  pub add_transfer-accepted :
      get_num transfer.tokens ≤ get_num (after_cache f s.cache source).tokens
      → get_num transfer.op_index ≡ get_num (after_cache f s.cache source).op_index
      → (s' : LedgerSnapshot L) × (add_transfer reader transfer s ≡ (ok tt, s'))
        × Becomes reader f s s'
            (transferred (get_num transfer.tokens) source destination (after_cache f s.cache))
  unfolding move_tokens
  add_transfer-accepted funds op =
      let g = after_cache f s.cache in
      let (s₀, e₀, b₀) = read_both in
      let (s₁, e₁, b₁) =
        set_balance_lem reader f source s₀ (λ q. rw b₀.store (store q)) named.source_size
          (debit (get_num transfer.tokens) (g source)) in
      let (s₂, e₂, b₂) =
        set_balance_lem reader f destination s₁ (λ q. rw (b₁.store ∙ b₀.store) (store q))
          named.destination_size (credit (get_num transfer.tokens) (g destination)) in
      (
        s₂,
        e₀ ∙ rw (le→leb _ _ funds, (nat_beq_iff _ _).1 op, e₁, e₂),
        record {
          store = b₂.store ∙ b₁.store ∙ b₀.store;
          after = λ q. ground (arith, b₂.after q, b₁.after q, b₀.after q);
          before = λ q. b₂.before q ∙ b₁.before q ∙ b₀.before q;
          cache = λ h. b₂.cache (b₁.cache (b₀.cache h));
        },
      )

  -- A transfer of more than the source holds is refused, and the balances stay.
  pub add_transfer-overdraft :
      get_num (after_cache f s.cache source).tokens < get_num transfer.tokens
      → (s' : LedgerSnapshot L) × (add_transfer reader transfer s ≡ (
        err (
            IroncError.not_enough_funds
              (get_num (after_cache f s.cache source).tokens)
              (get_num transfer.tokens)
              source.bytes
              destination.bytes),
        s',
      ))
        × Becomes reader f s s' (after_cache f s.cache)
  unfolding move_tokens
  add_transfer-overdraft short =
      let (s₀, e₀, b₀) = read_both in (s₀, e₀ ∙ rw (lt→not_leb _ _ short), b₀)

  -- A covered transfer with another operation number than the source's is refused, and the
  -- balances stay.
  pub add_transfer-wrong_op :
      get_num transfer.tokens ≤ get_num (after_cache f s.cache source).tokens
      → get_num transfer.op_index ≢ get_num (after_cache f s.cache source).op_index
      → (s' : LedgerSnapshot L) × (add_transfer reader transfer s ≡ (
        err (
            IroncError.wrong_op_number source.bytes
              (get_num transfer.op_index)
              (get_num (after_cache f s.cache source).op_index)),
        s',
      ))
        × Becomes reader f s s' (after_cache f s.cache)
  unfolding move_tokens
  add_transfer-wrong_op funds op =
      let (s₀, e₀, b₀) = read_both in (s₀, e₀ ∙ rw (le→leb _ _ funds, nat_beq_ne _ _ op), b₀)

-- What a transfer answers, and the accounts after it, on the accounts before it.
abbrev pub expected : Transfer → PublicKey → PublicKey → Accounts → Run (Unit {0}) × Accounts
expected transfer source destination g =
    let tokens = get_num transfer.tokens in
    if leb tokens (get_num (g source).tokens)
    then if get_num transfer.op_index == get_num (g source).op_index
      then (ok tt, transferred tokens source destination g)
      else (
        err (
            IroncError.wrong_op_number source.bytes (get_num transfer.op_index)
              (get_num (g source).op_index)),
        g,
      )
    else (
      err (
          IroncError.not_enough_funds (get_num (g source).tokens) tokens source.bytes
            destination.bytes),
      g,
    )

-- `add_transfer` on a snapshot answers as expected on the accounts that the snapshot shows, on every
-- branch, and the snapshot then shows the accounts expected: a transfer that is not covered, or has
-- another operation number than its source, is refused and changes no balance.
pub add_transfer-expected :
    {L : Type 0} (reader : LedgerReader L) (f : Accounts) ⦃sodium : Sodium⦄ (transfer : Transfer)
    (source destination : PublicKey)
    → IsTransfer transfer source destination
    → (s : LedgerSnapshot L) → Reads reader s.store f
    → let (r, g) = expected transfer source destination (after_cache f s.cache) in
      (s' : LedgerSnapshot L) × (add_transfer reader transfer s ≡ (r, s')) × Becomes reader f s s' g
add_transfer-expected reader f transfer source destination named s store =
    let g = after_cache f s.cache in
    elim (dec_le (get_num transfer.tokens) (get_num (g source).tokens)) [
      | no short ↦
          rw (lt→not_leb (get_num transfer.tokens) (get_num (g source).tokens) (omega arith)) (
            add_transfer-overdraft reader f transfer source destination named s store (omega arith))
      | yes funds ↦ elim (ℕ_discrete (get_num transfer.op_index) (get_num (g source).op_index)) [
        | yes op ↦
            rw (le→leb _ _ funds, (nat_beq_iff _ _).1 op)
              (add_transfer-accepted reader f transfer source destination named s store funds op)
        | no op ↦
            rw (le→leb _ _ funds, nat_beq_ne _ _ op)
              (add_transfer-wrong_op reader f transfer source destination named s store funds op)
      ]
    ]
