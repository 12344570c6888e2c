-- ===== src/Balance/Spend.antt =====
-- What an accepted transfer means for the two addresses, which the code lets be the same.
use ironcoin.Base.{◌≤◌, ◌≡◌, ◌≢◌, ==_refl, arith}
use ironcoin.Base.Run.{ok}
use ironcoin.Balance.{LedgerReader}
use ironcoin.Balance.Snapshot.{LedgerSnapshot, add_transfer}
use ironcoin.Balance.Transfer.{IsTransfer, add_transfer-accepted, credit, debit}
use ironcoin.Balance.View.{Accounts, Reads, after_cache}
use ironcoin.Crypto.PublicKey.{PublicKey, public_key_eq, public_key_beq_iff}
use ironcoin.External.{Sodium}
use ironcoin.Message.Ledger.{Transfer, get_num}

module _ {L : Type 0} (reader : LedgerReader L) (f : Accounts) ⦃sodium : Sodium⦄
    (transfer : Transfer) (source destination : PublicKey)
    (named : IsTransfer transfer source destination) (s : LedgerSnapshot L)
    (store : Reads reader s.store f)
    (funds : get_num transfer.tokens ≤ get_num (after_cache f s.cache source).tokens)
    (op : get_num transfer.op_index ≡ get_num (after_cache f s.cache source).op_index) where
  -- A covered transfer with the right operation number, between two addresses, is accepted. The
  -- source loses the tokens and counts an operation, the destination gains the tokens modulo 2^64
  -- and keeps its count, and no third address changes.
  pub add_transfer_moves :
      source ≢ destination
      → let tokens = get_num transfer.tokens in
        let before = after_cache f s.cache in
        (s' : LedgerSnapshot L) × (add_transfer reader transfer s ≡ (ok tt, s'))
        × (after_cache f s'.cache source ≡ debit tokens (before source))
        × (after_cache f s'.cache destination ≡ credit tokens (before destination))
        × ((q : PublicKey) → source ≢ q → destination ≢ q → after_cache f s'.cache q ≡ before q)
  add_transfer_moves apart =
      let (s', e, b) =
        add_transfer-accepted reader f transfer source destination named s store funds op in
      (
        s',
        e,
        ground (arith, b.after source, ==_refl source, public_key_beq_iff destination source),
        ground (arith, b.after destination, ==_refl destination),
        λ q h k.
            ground
              (arith, b.after q, public_key_beq_iff source q, public_key_beq_iff destination q),
      )

  -- A covered transfer from an address to itself is accepted too, and mints: the address gains the
  -- tokens, modulo 2^64, and its operation count stays, so that the same transfer may be repeated.
  pub add_transfer_self_mints :
      source ≡ destination
      → (s' : LedgerSnapshot L) × (add_transfer reader transfer s ≡ (ok tt, s'))
        × (after_cache f s'.cache source
            ≡ credit (get_num transfer.tokens) (after_cache f s.cache source))
        × ((after_cache f s'.cache source).op_index ≡ (after_cache f s.cache source).op_index)
  add_transfer_self_mints same =
      let (s', e, b) =
        add_transfer-accepted reader f transfer source destination named s store funds op in
      let minted : after_cache f s'.cache source
          ≡ credit (get_num transfer.tokens) (after_cache f s.cache source) =
        ground (arith, b.after source, public_key_beq_iff destination source) in
      (s', e, minted, rw minted)
