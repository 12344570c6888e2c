-- ===== src/Balance.antt =====
-- balance.rs: balance patches, the traits of a ledger, and how a patch is applied to one.
pub mod Snapshot
pub mod View
pub mod Transfer
pub mod Spend
pub mod Ledger
pub mod Over
pub mod Patches
pub mod Revert
pub mod Supply
use ironcoin.Base.{Bool, true, not, ◌==◌}
use ironcoin.Base.Run.{Run, IroncError}
use ironcoin.Base.Action.{Action, raise, lift, pure, ◌>>=◌, ◌>>◌}
use ironcoin.Base.{if◌then◌else◌}
use ironcoin.Crypto.PublicKey
use ironcoin.Crypto.PublicKey.{PublicKey}
use ironcoin.External.{Sodium}
use ironcoin.Message.Ledger.{
  Balance, BalancePatch, get_before, get_after, get_bytes, get_num, new_patch, balance_eq,
}

unfoldable pub reverse : BalancePatch → BalancePatch
reverse patch = new_patch (get_bytes patch.public_key) (get_after patch) (get_before patch)

-- `LedgerReader` of a ledger that a read does not change.
pub record LedgerReader (L : Type 0) : Type 0 where
  pub get_balance : L → PublicKey → Run Balance

-- `LedgerReader + LedgerWriter`. A read returns the state too, since a snapshot caches it.
pub record LedgerMutator (L : Type 0) : Type 0 where
  pub get_balance : PublicKey → Action L Balance
  pub set_balance : PublicKey → Balance → Action L (Unit {0})

module _ ⦃sodium : Sodium⦄ where
  unfoldable pub decode_public_key : BalancePatch → Run PublicKey
  unfolding PublicKey.from_slice
  decode_public_key patch = PublicKey.from_slice (get_bytes patch.public_key)

  module _ {L : Type 0} (ledger : LedgerMutator L) where
    unfoldable pub apply_patch : BalancePatch → Action L (Unit {0})
    unfolding PublicKey.from_slice
    apply_patch patch = do
      public_key ← lift (PublicKey.from_slice (get_bytes patch.public_key))
      before_balance ← ledger.get_balance public_key
      if not (before_balance == get_before patch)
          then raise (
              IroncError.patch_mismatch (get_num before_balance.tokens)
                (get_num before_balance.op_index) (get_num (get_before patch).tokens)
                (get_num (get_before patch).op_index))
          else ledger.set_balance public_key (get_after patch)
