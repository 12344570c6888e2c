-- ===== src/Blocktree/Given.antt =====
-- `make_genesis_block_diff` of blocktree.rs: which balances its patches lead to.
use ironcoin.Base.{
  ℕ, ◌+◌, ◌%◌, ◌^◌, ◌≡◌, refl, sym, ◌∙◌, subst, none, some, List, [], ◌∷◌, Bytes, length, arith,
  inl, inr, ◌⊎◌, Bool-cases, Option-cases, ◌==◌, list_eq, nat_eq, nat_beq_iff,
}
use ironcoin.Base.Map.{Map, lookup, insert, lookup-insert}
use ironcoin.Base.Run.{ok, >>=-ok}
use ironcoin.Base.Action.{for_each}
use ironcoin.Balance.Ledger.{IsLedger, apply_patch-matching}
use ironcoin.Balance.{LedgerMutator, apply_patch}
use ironcoin.Balance.View.{Accounts}
use ironcoin.Blocktree.Genesis.{add_tokens, collect_tokens, genesis_patches}
use ironcoin.Crypto.PublicKey
use ironcoin.Crypto.PublicKey.{PublicKey, public_key_eq, public_key_beq_iff}
use ironcoin.External.{Sodium}
use ironcoin.Message.Ledger.{Transfer, get_bytes, get_num, new_balance, new_patch}

-- The balances that a genesis gives out.
abbrev pub given : Map PublicKey ℕ → Accounts
given cache q = elim (lookup q cache) [
  | some tokens ↦ new_balance tokens 0
  | none ↦ new_balance 0 0
]

module _ ⦃sodium : Sodium⦄ where
  -- Addresses of the right length, each once.
  abbrev pub IsGiven : Map PublicKey ℕ → Type 0
  IsGiven [] = Unit
  IsGiven ((address, tokens) ∷ cache) =
      (length address.bytes ≡ sodium.public_key_bytes)
      × (lookup address cache ≡ none)
      × IsGiven cache

  insert-IsGiven :
      (address : PublicKey) (tokens : ℕ) (cache : Map PublicKey ℕ)
      → length address.bytes ≡ sodium.public_key_bytes
      → IsGiven cache
      → IsGiven (insert address tokens cache)
  insert-IsGiven address tokens [] sized h = (sized, refl, tt)
  insert-IsGiven address tokens ((other, old) ∷ cache) sized h = ground (
    arith,
    public_key_beq_iff other address,
    public_key_beq_iff address other,
    lookup-insert address other tokens cache,
    insert-IsGiven address tokens cache sized,
  )

  decoded_key-sized :
      (bytes : Bytes) (pk : PublicKey)
      → PublicKey.from_slice bytes ≡ ok pk
      → length pk.bytes ≡ sodium.public_key_bytes
  unfolding PublicKey.from_slice
  decoded_key-sized bytes pk e = ground (arith, nat_beq_iff (length bytes) sodium.public_key_bytes)

  add_tokens-IsGiven :
      (address : PublicKey) (tokens : ℕ) (cache : Map PublicKey ℕ)
      → length address.bytes ≡ sodium.public_key_bytes
      → IsGiven cache
      → IsGiven (add_tokens address tokens cache)
  unfolding add_tokens
  add_tokens-IsGiven address tokens cache sized h = elim (Option-cases (lookup address cache)) [
    | inl new ↦
        let same : add_tokens address tokens cache ≡ insert address tokens cache =
          rw (new, add_tokens) in
        subst IsGiven (sym same) (insert-IsGiven address tokens cache sized h)
    | inr (old, e) ↦
        let sum = (old + tokens) % 2 ^ 64 in
        let same : add_tokens address tokens cache ≡ insert address sum cache =
          rw (e, add_tokens) in
        subst IsGiven (sym same) (insert-IsGiven address sum cache sized h)
  ]

  pub collect_tokens-IsGiven :
      (transfers : List Transfer) (cache result : Map PublicKey ℕ)
      → IsGiven cache
      → collect_tokens cache transfers ≡ ok result
      → IsGiven result
  unfolding collect_tokens
  collect_tokens-IsGiven [] cache result h e = subst IsGiven (ground arith) h
  collect_tokens-IsGiven (transfer ∷ transfers) cache result h e =
      let (pk, e₁, rest) = >>=-ok (PublicKey.from_slice (get_bytes transfer.destination_pk)) _ e in
      collect_tokens-IsGiven transfers (add_tokens pk (get_num transfer.tokens) cache) result
        (add_tokens-IsGiven pk (get_num transfer.tokens) cache
          (decoded_key-sized (get_bytes transfer.destination_pk) pk e₁) h)
        rest

  module _ {L : Type 0} {ledger : LedgerMutator L} {Inv : L → Type 0} {view : L → Accounts}
      (laws : IsLedger ledger Inv view) where
    -- The patches of a genesis, on a ledger where its addresses hold nothing.
    pub genesis_patches-given :
        (cache : Map PublicKey ℕ) (l : L)
        → IsGiven cache
        → Inv l
        → ((q : PublicKey) → (lookup q cache ≡ none) ⊎ (view l q ≡ new_balance 0 0))
        → (l' : L) × (for_each (apply_patch ledger) (genesis_patches cache) l ≡ (ok tt, l'))
          × Inv l'
          × ((q : PublicKey)
              → view l' q
                ≡ elim (lookup q cache) [ some tokens ↦ new_balance tokens 0 | none ↦ view l q ])
    unfolding genesis_patches for_each
    genesis_patches-given [] l h inv blank = (l, refl, inv, λ q. refl)
    genesis_patches-given ((address, tokens) ∷ cache) l h inv blank =
        let known = (public_key_beq_iff address address).1 refl in
        let first : view l address ≡ new_balance 0 0 = elim (blank address) [
          | inl new ↦ absurd (ground arith)
          | inr empty ↦ empty
        ] in
        let (l₁, e₁, inv₁, writes) =
          apply_patch-matching laws address
            (new_patch address.bytes (new_balance 0 0) (new_balance tokens 0)) l
            (record { named = refl; sized = h.0 }) inv first in
        let (l', e, inv', shows) = genesis_patches-given cache l₁ h.2 inv₁ (λ q.
          elim (Bool-cases (address == q)) [
            | inl same ↦ inl (
                subst (λ (k : PublicKey). lookup k cache ≡ none)
                  ((public_key_beq_iff address q).0 same) h.1)
            | inr apart ↦ elim (blank q) [
              | inl new ↦ inl (ground arith)
              | inr empty ↦ inr (writes q ∙ rw apart empty)
            ]
          ]) in
        (l', rw e₁ e, inv', λ q. ground (arith, shows q, writes q, public_key_beq_iff address q))
