-- ===== src/Blocktree/Laws.antt =====
-- The reads and writes of the block tree in blocktree.rs over a store that does not fail.
use ironcoin.Base.{
  ◌≡◌, ◌≢◌, refl, subst, sym, ◌∙◌, ap, Option, some, Bytes, ◌==◌, list_eq, nat_eq, list_beq_iff,
  if◌then◌else◌, arith, inl, inr, Bool-cases,
}
use ironcoin.Base.Run.{Run, ok, err, panic}
use ironcoin.Balance.Ledger.{IsLedger}
use ironcoin.Balance.View.{Accounts, Reads}
use ironcoin.Blocktree.Keys.{
  blocktree_ledger, blocktree_reader, format_balance_key, format_block_key, genesis_field,
  get_balance, head_field, set_balance,
}
use ironcoin.Crypto.HashDigest.{HashDigest}
use ironcoin.Crypto.PublicKey.{PublicKey, public_key_eq, public_key_beq_iff}
use ironcoin.External.{Base64, IsFaithful, Sodium}
use ironcoin.Message.Codecs.{Codecs}
use ironcoin.Message.Ledger.{Balance, empty_balance}
use ironcoin.Store.{KeyValueStore, get_message}
use ironcoin.Store.Laws.{IsStore, get_message-set_message}

-- What the tree relies on: a store that does not fail, codecs that read back what they write, and
-- base64 texts that tell the bytes apart.
pub record HasLaws {S : Type 0} (kv : KeyValueStore S) ⦃base64 : Base64⦄ ⦃codecs : Codecs⦄
    : Type 0 where
  pub store : IsStore kv
  pub balance : IsFaithful codecs.balance
  pub block_with_diff : IsFaithful codecs.block_with_diff
  pub base64_injective : (a b : Bytes) → base64.to_base64 a ≡ base64.to_base64 b → a ≡ b

module _ {S : Type 0} (kv : KeyValueStore S) ⦃sodium : Sodium⦄ ⦃base64 : Base64⦄
    ⦃codecs : Codecs⦄ where
  -- The balances in the store, and that each of them can be read.
  pub balances : S → Accounts
  balances s q = elim (get_balance kv s q) [
    | ok b ↦ b
    | err _ ↦ empty_balance
    | panic _ ↦ empty_balance
  ]

  abbrev pub HasBalances : S → Type 0
  HasBalances s = (q : PublicKey) → (b : Balance) × (get_balance kv s q ≡ ok b)

  pub balances-eq : (s : S) → HasBalances s → Reads (blocktree_reader kv) s (balances s)
  unfolding balances
  balances-eq s h q = let (b, e) = h q in rw (e, balances)

  pub balances-ok :
      (s : S) (q : PublicKey) (b : Balance) → get_balance kv s q ≡ ok b → balances s q ≡ b
  unfolding balances
  balances-ok s q b e = rw (e, balances)

  pub balances_congr :
      (s s' : S) (q : PublicKey)
      → get_balance kv s' q ≡ get_balance kv s q
      → balances s' q ≡ balances s q
  unfolding balances
  balances_congr s s' q e = rw (e, balances)

  module _ (laws : HasLaws kv) where
    abbrev pub at_key : S → Bytes → Option Bytes
    at_key = laws.store.at_key

    balance_key_injective : (a b : PublicKey) → format_balance_key a ≡ format_balance_key b → a ≡ b
    unfolding format_balance_key
    balance_key_injective a b e = ground (arith, laws.base64_injective a.bytes b.bytes)

    -- The balance that is read depends on the key of the address only.
    pub get_balance_congr :
        (s s' : S) (q : PublicKey)
        → at_key s' (format_balance_key q) ≡ at_key s (format_balance_key q)
        → get_balance kv s' q ≡ get_balance kv s q
    unfolding get_balance get_message
    get_balance_congr s s' q e =
        rw (
          laws.store.get-eq s (format_balance_key q),
          laws.store.get-eq s' (format_balance_key q),
          e,
        )

    -- A key that is no balance's.
    abbrev pub IsTreeKey : Bytes → Type 0
    IsTreeKey key = (q : PublicKey) → format_balance_key q ≢ key

    pub block_key-IsTreeKey : (h : HashDigest) → IsTreeKey (format_block_key h)
    unfolding format_balance_key format_block_key
    block_key-IsTreeKey h q = ground arith

    pub head_field-IsTreeKey : IsTreeKey head_field
    unfolding format_balance_key
    head_field-IsTreeKey q = ground arith

    pub genesis_field-IsTreeKey : IsTreeKey genesis_field
    unfolding format_balance_key
    genesis_field-IsTreeKey q = ground arith

    -- The blocks, the head and the genesis are those of another state.
    abbrev pub SameTree : S → S → Type 0
    SameTree s₀ s = (key : Bytes) → IsTreeKey key → at_key s key ≡ at_key s₀ key

    -- The balances of the tree can be read, over the blocks of another state.
    pub record IsAccounting (s₀ s : S) : Type 0 where
      pub readable : HasBalances s
      pub tree : SameTree s₀ s

    get_balance-written :
        (s : S) (q : PublicKey) (b : Balance)
        → get_message kv codecs.balance s (format_balance_key q) ≡ ok (some b)
        → get_balance kv s q ≡ ok b
    unfolding get_balance
    get_balance-written s q b e = rw e

    -- A write at another key.
    pub other_key :
        (a b : Bytes) (v : Bytes) (s s' : S)
        → a ≢ b
        → at_key s' b ≡ (if a == b then some v else at_key s b)
        → at_key s' b ≡ at_key s b
    other_key a b v s s' apart e = ground (arith, list_beq_iff a b)

    set_balance_lem :
        (address : PublicKey) (balance : Balance) (s : S)
        → (s' : S) × (set_balance kv address balance s ≡ (ok tt, s'))
          × ((q : PublicKey)
              → get_balance kv s' q ≡ (if address == q then ok balance else get_balance kv s q))
          × SameTree s s'
    unfolding set_balance
    set_balance_lem address balance s =
        let (s', e, reads, at) =
          get_message-set_message laws.store laws.balance (format_balance_key address) balance s in
        (
          s',
          e,
          λ q. elim (Bool-cases (address == q)) [
            | inl same ↦
                let here : address ≡ q = (public_key_beq_iff address q).0 same in
                rw same (
                  subst (λ (a : PublicKey). get_balance kv s' a ≡ ok balance) here
                    (get_balance-written s' address balance reads))
            | inr apart ↦ rw apart (
                get_balance_congr s s' q (
                  other_key (format_balance_key address) (format_balance_key q) _ s s'
                    (λ e. cc (
                      sym apart
                      ∙ (public_key_beq_iff address q).1 (balance_key_injective address q e)))
                    (at (format_balance_key q))))
          ],
          λ key other. other_key (format_balance_key address) key _ s s' (other address) (at key),
        )

    written-readable :
        (address : PublicKey) (balance : Balance) (s s' : S)
        → HasBalances s
        → ((q : PublicKey)
            → get_balance kv s' q ≡ (if address == q then ok balance else get_balance kv s q))
        → HasBalances s'
    written-readable address balance s s' h reads q = elim (Bool-cases (address == q)) [
      | inl same ↦ (balance, rw (reads q) (rw same))
      | inr apart ↦ let (b, e) = h q in (b, rw (reads q) (rw apart e))
    ]

    -- The tree is a ledger: a write changes one balance, and no block.
    pub blocktree-IsLedger : (s₀ : S) → IsLedger (blocktree_ledger kv) (IsAccounting s₀) balances
    unfolding balances
    blocktree-IsLedger s₀ = record {
      read = λ address s sized acc. (
        s,
        ap (λ (r : Run Balance). (r, s)) (balances-eq s acc.readable address),
        acc,
        λ q. refl,
      );
      write = λ address balance s sized acc.
          let (s', e, reads, same) = set_balance_lem address balance s in
          (
            s',
            e,
            record {
              readable = λ q. written-readable address balance s s' acc.readable reads q;
              tree = λ key other. same key other ∙ acc.tree key other;
            },
            λ q. ground (arith, reads q),
          );
    }
