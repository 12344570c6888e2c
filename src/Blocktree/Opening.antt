-- ===== src/Blocktree/Opening.antt =====
-- `new` of blocktree.rs on an empty store.
use ironcoin.Base.{◌≡◌, some, List, [], ◌∷◌, All, subst}
use ironcoin.Base.Run.{ok}
use ironcoin.Balance.View.{Accounts}
use ironcoin.Block.{decode_hash, get_block, verify}
use ironcoin.Blocktree.Genesis.{genesis_patches}
use ironcoin.Blocktree.Granted.{IsGrant, collect_tokens-granted, granted}
use ironcoin.Blocktree.Laws.{HasLaws}
use ironcoin.Blocktree.Planting.{IsEmpty, IsOnly, opened-IsTree}
use ironcoin.Blocktree.Store
use ironcoin.Blocktree.Tree.{IsTree}
use ironcoin.Crypto.HashDigest.{HashDigest}
use ironcoin.External.{Base64, Sodium}
use ironcoin.Message.Codecs.{Codecs}
use ironcoin.Message.Ledger.{BalancePatch, HashedBlock, Transaction, get_transfers}
use ironcoin.Store.{KeyValueStore}

module _ {S : Type 0} (kv : KeyValueStore S) ⦃sodium : Sodium⦄ ⦃base64 : Base64⦄
    ⦃codecs : Codecs⦄ where
  -- `new` on an empty store, with a verified genesis block of one transaction whose transfers are to
  -- addresses of the right length and of amounts that are `u64`s, sets up a well-formed tree of that
  -- block and no other. Each address has the sum of all the transfers to it, modulo 2^64, and has
  -- made no operation.
  pub new-IsTree :
      (laws : HasLaws kv) (s : S) (block : HashedBlock) (h : HashDigest) (tx : Transaction)
      → IsEmpty kv laws s
      → verify block ≡ ok tt
      → decode_hash block ≡ ok h
      → (get_block block).transactions ≡ tx ∷ []
      → All IsGrant (get_transfers tx)
      → (s' : S) × (patches : List BalancePatch) × (Store.new kv (some block) s ≡ (ok tt, s'))
        × IsTree kv s' h h (λ _. granted (get_transfers tx))
        × IsOnly kv laws s' h (record { hashed_block = some block; diff = patches })
  new-IsTree laws s block h tx empty verified named single grants =
      let (cache, collected, same) = collect_tokens-granted (get_transfers tx) grants in
      let (s', e, tree, only) =
        opened-IsTree kv laws s block h tx cache empty verified named single collected in
      (
        s',
        genesis_patches cache,
        e,
        subst (λ (g : Accounts). IsTree kv s' h h (λ _. g)) same tree,
        only,
      )
