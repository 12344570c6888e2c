-- ===== src/Balance/View.antt =====
-- What a snapshot of balance.rs shows: the balances after its patches, and those before them.
use ironcoin.Base.{
  ◌≡◌, refl, none, some, [], ◌∷◌, ◌==◌, arith, length, if◌then◌else◌, inl, inr, Option-cases,
}
use ironcoin.Base.Map.{Map, lookup, insert, lookup-insert}
use ironcoin.Base.Run.{ok}
use ironcoin.Base.Action.{and_then}
use ironcoin.Balance.{LedgerReader}
use ironcoin.Balance.Snapshot.{LedgerSnapshot, cache_patch, get_balance, set_balance}
use ironcoin.Crypto.PublicKey.{PublicKey, public_key_eq, public_key_beq_iff}
use ironcoin.External.{Sodium}
use ironcoin.Message.Ledger.{Balance, BalancePatch, get_after, get_before, new_patch}

-- The balance of every address.
abbrev pub Accounts : Type 0
Accounts = PublicKey → Balance

abbrev pub update : Accounts → PublicKey → Balance → Accounts
update g address balance q = if address == q then balance else g q

-- The ledger under a snapshot answers every read, with these balances.
abbrev pub Reads : {L : Type 0} → LedgerReader L → L → Accounts → Type 0
Reads reader store f = (q : PublicKey) → reader.get_balance store q ≡ ok (f q)

-- What the snapshot shows over the balances `f`, and what it was before its patches.
abbrev pub after_cache : Accounts → Map PublicKey BalancePatch → Accounts
after_cache f cache q = elim (lookup q cache) [ some patch ↦ get_after patch | none ↦ f q ]

abbrev pub before_cache : Accounts → Map PublicKey BalancePatch → Accounts
before_cache f cache q = elim (lookup q cache) [ some patch ↦ get_before patch | none ↦ f q ]

pub after_cache-congr :
    (g g' : Accounts) (cache : Map PublicKey BalancePatch) (q : PublicKey)
    → g q ≡ g' q
    → after_cache g cache q ≡ after_cache g' cache q
after_cache-congr g g' cache q e = ground arith

module _ (f : Accounts) (address q : PublicKey) (patch : BalancePatch)
    (cache : Map PublicKey BalancePatch) where
  pub after-insert :
      after_cache f (insert address patch cache) q
      ≡ (if address == q then get_after patch else after_cache f cache q)
  after-insert = rw (lookup-insert address q patch cache, after_cache) (ground arith)

  pub before-insert :
      before_cache f (insert address patch cache) q
      ≡ (if address == q then get_before patch else before_cache f cache q)
  before-insert = rw (lookup-insert address q patch cache, before_cache) (ground arith)

module _ ⦃sodium : Sodium⦄ where
  -- Each patch of the cache is for its key, and no key is there twice.
  abbrev pub IsCache : Map PublicKey BalancePatch → Type 0
  IsCache [] = Unit
  IsCache ((address, patch) ∷ cache) =
      (patch.public_key ≡ some address.bytes)
      × (length address.bytes ≡ sodium.public_key_bytes)
      × (lookup address cache ≡ none)
      × IsCache cache

  pub insert-IsCache :
      (address : PublicKey) (patch : BalancePatch) (cache : Map PublicKey BalancePatch)
      → patch.public_key ≡ some address.bytes
      → length address.bytes ≡ sodium.public_key_bytes
      → IsCache cache
      → IsCache (insert address patch cache)
  insert-IsCache address patch [] named sized h = (named, sized, refl, tt)
  insert-IsCache address patch ((other, old) ∷ cache) named sized h = ground (
    arith,
    public_key_beq_iff other address,
    public_key_beq_iff address other,
    lookup-insert address other patch cache,
    insert-IsCache address patch cache named sized,
  )

  pub lookup-IsCache :
      (address : PublicKey) {patch : BalancePatch} (cache : Map PublicKey BalancePatch)
      → IsCache cache
      → lookup address cache ≡ some patch
      → patch.public_key ≡ some address.bytes
  lookup-IsCache address {patch} [] h e = cc
  lookup-IsCache address {patch} ((other, old) ∷ cache) h e =
      ground (arith, public_key_beq_iff other address, lookup-IsCache address {patch = patch} cache)

module _ {L : Type 0} (reader : LedgerReader L) (f : Accounts) ⦃sodium : Sodium⦄ where
  -- What a step does to a snapshot: it shows `g` now, over the same ledger and the same start.
  pub record Becomes (s s' : LedgerSnapshot L) (g : Accounts) : Type 0 where
    pub store : s'.store ≡ s.store
    pub after : (q : PublicKey) → after_cache f s'.cache q ≡ g q
    pub before : (q : PublicKey) → before_cache f s'.cache q ≡ before_cache f s.cache q
    pub cache : IsCache s.cache → IsCache s'.cache

  module _ (address : PublicKey) (s : LedgerSnapshot L) (store : Reads reader s.store f)
      (sized : length address.bytes ≡ sodium.public_key_bytes) where
    pub get_balance_lem :
        (s' : LedgerSnapshot L) × (get_balance reader address s
          ≡ (ok (after_cache f s.cache address), s'))
        × Becomes s s' (after_cache f s.cache)
    unfolding get_balance cache_patch
    get_balance_lem = elim (Option-cases (lookup address s.cache)) [
      | inr (patch, e) ↦ (
        s,
        rw (e, and_then, after_cache),
        record { store = refl; after = λ q. refl; before = λ q. refl; cache = λ h. h },
      )
      | inl e ↦
          let fresh = new_patch address.bytes (f address) (f address) in
          (
            record s { cache = insert address fresh s.cache },
            rw (e, and_then, store address, after_cache),
            record {
              store = refl;
              after = λ q.
                  ground
                    (arith, after-insert f address q fresh s.cache, public_key_beq_iff address q);
              before = λ q.
                  ground
                    (arith, before-insert f address q fresh s.cache, public_key_beq_iff address q);
              cache = insert-IsCache address fresh s.cache refl sized;
            },
          )
    ]

    -- A write shows at its address, and nowhere else.
    pub set_balance_lem :
        (balance : Balance)
        → (s' : LedgerSnapshot L) × (set_balance reader address balance s ≡ (ok tt, s'))
          × Becomes s s' (update (after_cache f s.cache) address balance)
    unfolding set_balance cache_patch
    set_balance_lem balance = elim (Option-cases (lookup address s.cache)) [
      | inr (patch, e) ↦
          let changed : BalancePatch = record patch { after = some balance } in
          (
            record s { cache = insert address changed s.cache },
            rw (e, and_then),
            record {
              store = refl;
              after = λ q. after-insert f address q changed s.cache;
              before = λ q.
                  ground (
                    arith,
                    before-insert f address q changed s.cache,
                    public_key_beq_iff address q,
                  );
              cache = λ h.
                  insert-IsCache address changed s.cache (lookup-IsCache address s.cache h e) sized
                    h;
            },
          )
      | inl e ↦
          let fresh = new_patch address.bytes (f address) balance in
          (
            record s { cache = insert address fresh s.cache },
            rw (e, and_then, store address),
            record {
              store = refl;
              after = λ q. after-insert f address q fresh s.cache;
              before = λ q.
                  ground
                    (arith, before-insert f address q fresh s.cache, public_key_beq_iff address q);
              cache = insert-IsCache address fresh s.cache refl sized;
            },
          )
    ]
