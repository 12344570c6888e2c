-- ===== src/Blocktree/Tree.antt =====
-- When the store of blocktree.rs is a well-formed tree: each block but the genesis stands one above
-- its parent, its diff leads from the balances at the parent to those at the block, and the
-- balances in the store are those at the head.
use ironcoin.Base.{◌+◌, ◌≤◌, ◌≡◌, ◌≢◌, some, List}
use ironcoin.Base.Map.{Map}
use ironcoin.Base.Run.{ok}
use ironcoin.Balance.Patches.{StartsAt}
use ironcoin.Balance.Snapshot.{changed_patches}
use ironcoin.Balance.View.{Accounts, IsCache, after_cache}
use ironcoin.Block.{decode_diff_hash, decode_diff_previous, get_diff_height}
use ironcoin.Blocktree.Keys.{get_block_diff, get_genesis_hash, get_head_hash}
use ironcoin.Blocktree.Laws.{HasBalances, balances}
use ironcoin.Crypto.HashDigest.{HashDigest}
use ironcoin.Crypto.PublicKey.{PublicKey}
use ironcoin.External.{Base64, Sodium}
use ironcoin.Message.Codecs.{Codecs}
use ironcoin.Message.Ledger.{BalancePatch, BlockWithDiff}
use ironcoin.Store.{KeyValueStore}

-- The balances at each block.
abbrev pub States : Type 0
States = HashDigest → Accounts

module _ ⦃sodium : Sodium⦄ where
  -- A diff that leads from some balances to others: the patches of a cache, in its order.
  pub record Leads (diff : List BalancePatch) (g g' : Accounts) : Type 0 where
    pub cache : Map PublicKey BalancePatch
    pub patches : diff ≡ changed_patches cache
    pub keys : IsCache cache
    pub starts : StartsAt g cache
    pub ends : (q : PublicKey) → g' q ≡ after_cache g cache q

  module _ {S : Type 0} (kv : KeyValueStore S) ⦃base64 : Base64⦄ ⦃codecs : Codecs⦄ where
    abbrev pub IsStored : S → HashDigest → BlockWithDiff → Type 0
    IsStored s h d = get_block_diff kv h s ≡ ok (some d)

    pub record HasParent (s : S) (state : States) (h : HashDigest) (d : BlockWithDiff)
        : Type 0 where
      pub parent : HashDigest
      pub parent_diff : BlockWithDiff
      pub previous : decode_diff_previous d ≡ ok parent
      pub stored : IsStored s parent parent_diff
      pub height : get_diff_height d ≡ get_diff_height parent_diff + 1
      pub leads : Leads d.diff (state parent) (state h)

    -- The blocks alone.
    pub record HasBlocks (s : S) (genesis : HashDigest) (state : States) : Type 0 where
      pub genesis_hash : get_genesis_hash kv s ≡ ok genesis
      pub genesis_diff : BlockWithDiff
      pub genesis_stored : IsStored s genesis genesis_diff
      pub hashes : (h : HashDigest) (d : BlockWithDiff) → IsStored s h d → decode_diff_hash d ≡ ok h
      pub parents :
          (h : HashDigest) (d : BlockWithDiff)
          → IsStored s h d
          → h ≢ genesis
          → HasParent s state h d
      pub lowest :
          (h : HashDigest) (d : BlockWithDiff)
          → IsStored s h d
          → get_diff_height genesis_diff ≤ get_diff_height d

    -- The whole tree, with its head.
    pub record IsTree (s : S) (genesis head : HashDigest) (state : States) : Type 0 where
      pub blocks : HasBlocks s genesis state
      pub head_hash : get_head_hash kv s ≡ ok head
      pub head_diff : BlockWithDiff
      pub head_stored : IsStored s head head_diff
      pub readable : HasBalances kv s
      pub at_head : (q : PublicKey) → balances kv s q ≡ state head q
