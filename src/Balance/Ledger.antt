-- ===== src/Balance/Ledger.antt =====
-- The contract of the traits `LedgerReader` and `LedgerWriter` of balance.rs, what `apply_patch`
-- does over it, and that a snapshot keeps it.
use ironcoin.Base.{◌≡◌, ◌≢◌, ◌∙◌, some, false, ◌==◌, arith, length}
use ironcoin.Base.Run.{ok, err, IroncError}
use ironcoin.Balance.{LedgerMutator, LedgerReader, apply_patch}
use ironcoin.Balance.Snapshot.{LedgerSnapshot, snapshot_ledger}
use ironcoin.Balance.Transfer.{from_slice-eq}
use ironcoin.Balance.View.{
  Accounts, IsCache, Reads, after_cache, before_cache, get_balance_lem, set_balance_lem, update,
  Becomes,
}
use ironcoin.Crypto.PublicKey.{PublicKey, public_key_eq}
use ironcoin.External.{Sodium}
use ironcoin.Message.Ledger.{
  Balance, BalancePatch, balance_eq, balance_beq_iff, get_after, get_before, get_bytes, get_num,
}

module _ ⦃sodium : Sodium⦄ where
  abbrev pub IsSized : PublicKey → Type 0
  IsSized address = length address.bytes ≡ sodium.public_key_bytes

  -- The states of the ledger that satisfy `Inv` hold the balances `view`: a read returns one and
  -- changes none, and a write changes the one.
  pub record IsLedger {L : Type 0} (ledger : LedgerMutator L) (Inv : L → Type 0)
      (view : L → Accounts) : Type 0 where
    pub read :
        (address : PublicKey) (l : L)
        → IsSized address
        → Inv l
        → (l' : L) × (ledger.get_balance address l ≡ (ok (view l address), l'))
          × Inv l'
          × ((q : PublicKey) → view l' q ≡ view l q)
    pub write :
        (address : PublicKey) (balance : Balance) (l : L)
        → IsSized address
        → Inv l
        → (l' : L) × (ledger.set_balance address balance l ≡ (ok tt, l'))
          × Inv l'
          × ((q : PublicKey) → view l' q ≡ update (view l) address balance q)

  pub record IsPatch (address : PublicKey) (patch : BalancePatch) : Type 0 where
    pub named : patch.public_key ≡ some address.bytes
    pub sized : IsSized address

  module _ {L : Type 0} {ledger : LedgerMutator L} {Inv : L → Type 0} {view : L → Accounts}
      (laws : IsLedger ledger Inv view) (address : PublicKey) (patch : BalancePatch) (l : L)
      (patches : IsPatch address patch) (inv : Inv l) where
    -- A patch whose balance before is the ledger's is applied.
    pub apply_patch-matching :
        view l address ≡ get_before patch
        → (l' : L) × (apply_patch ledger patch l ≡ (ok tt, l'))
          × Inv l'
          × ((q : PublicKey) → view l' q ≡ update (view l) address (get_after patch) q)
    unfolding apply_patch
    apply_patch-matching same =
        let (l₁, e₁, inv₁, keeps) = laws.read address l patches.sized inv in
        let (l₂, e₂, inv₂, writes) = laws.write address (get_after patch) l₁ patches.sized inv₁ in
        (
          l₂,
          rw (
            from_slice-eq (get_bytes patch.public_key) address (rw patches.named) patches.sized,
            e₁,
            (balance_beq_iff (view l address) (get_before patch)).1 same,
            e₂,
          ),
          inv₂,
          λ q. ground (arith, writes q, keeps q),
        )

    -- Any other patch is refused, and the balances stay.
    pub apply_patch-mismatch :
        view l address ≢ get_before patch
        → (l' : L) × (apply_patch ledger patch l ≡ (
          err (
              IroncError.patch_mismatch
                (get_num (view l address).tokens)
                (get_num (view l address).op_index)
                (get_num (get_before patch).tokens)
                (get_num (get_before patch).op_index)),
          l',
        ))
          × Inv l'
          × ((q : PublicKey) → view l' q ≡ view l q)
    unfolding apply_patch
    apply_patch-mismatch differs =
        let (l₁, e₁, inv₁, keeps) = laws.read address l patches.sized inv in
        let unequal : (view l address == get_before patch) ≡ false =
          ground (arith, balance_beq_iff (view l address) (get_before patch)) in
        (
          l₁,
          rw (
            from_slice-eq (get_bytes patch.public_key) address (rw patches.named) patches.sized,
            e₁,
            unequal,
          ),
          inv₁,
          keeps,
        )

  module _ {L : Type 0} (reader : LedgerReader L) (f : Accounts) (under : L) (base : Accounts) where
    -- A snapshot over one ledger, whose patches start from the balances `base`.
    pub record IsOver (s : LedgerSnapshot L) : Type 0 where
      pub store : s.store ≡ under
      pub cache : IsCache s.cache
      pub before : (q : PublicKey) → before_cache f s.cache q ≡ base q

    pub Becomes-IsOver :
        (s s' : LedgerSnapshot L) (g : Accounts) → Becomes reader f s s' g → IsOver s → IsOver s'
    Becomes-IsOver s s' g b over = record {
      store = b.store ∙ over.store;
      cache = b.cache over.cache;
      before = λ q. b.before q ∙ over.before q;
    }

    -- A snapshot over a ledger that answers every read is a ledger again: reads change no balance
    -- that it shows, a write changes the one, and the ledger below and the start of the patches
    -- stay.
    pub snapshot-IsLedger :
        Reads reader under f → IsLedger (snapshot_ledger reader) IsOver (λ s. after_cache f s.cache)
    snapshot-IsLedger reads = record {
      read = λ address s sized over.
          let (s', e, b) =
            get_balance_lem reader f address s (λ q. rw over.store (reads q)) sized in
          (s', e, Becomes-IsOver s s' _ b over, b.after);
      write = λ address balance s sized over.
          let (s', e, b) =
            set_balance_lem reader f address s (λ q. rw over.store (reads q)) sized balance in
          (s', e, Becomes-IsOver s s' _ b over, b.after);
    }
