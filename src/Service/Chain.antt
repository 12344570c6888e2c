-- ===== src/Service/Chain.antt =====
-- The answers of service.rs over a well-formed tree: `get_blocktree` and `get_blocks`.
use ironcoin.Message.Rpc.{BlocktreeStatus}
use ironcoin.Base.{
  ℕ, zero, suc, ◌≤◌, ◌<◌, min, ◌≡◌, ◌≢◌, refl, sym, ◌∙◌, ap, false, some, List, [], ◌∷◌, Bytes,
  arith, ltb, lt→ltb, none, inl, inr, ◌⊎◌, if◌then◌else◌,
}
use native.Mathlib.Decide.{dec_lt}
use ironcoin.Base.Run.{ok}
use ironcoin.Block.{decode_diff_hash, decode_diff_previous, decode_hash, get_diff_height}
use ironcoin.Blocktree.Keys
use ironcoin.Blocktree.Keys.{get_block_diff, get_head, get_head_hash}
use ironcoin.Blocktree.Tree.{IsStored, IsTree, States}
use ironcoin.Crypto.HashDigest.{HashDigest}
use ironcoin.Crypto.Sizes.{decoded-sized}
use ironcoin.External.{Base64, Sodium}
use ironcoin.Message.Codecs.{Codecs}
use ironcoin.Message.Ledger.{BlockWithDiff, get_bytes, get_hashed_block}
use ironcoin.Service.Answers.{collect_ancestors, get_blocktree}
use ironcoin.Store.{KeyValueStore}

module _ {S : Type 0} (kv : KeyValueStore S) ⦃sodium : Sodium⦄ ⦃base64 : Base64⦄ ⦃codecs : Codecs⦄
    (s : S) (genesis head : HashDigest) (state : States)
    (tree : IsTree kv s genesis head state) where
  -- The hashes of blocks of which each is the parent of the next, after a first one.
  abbrev pub IsLine : HashDigest → List Bytes → Type 0
  IsLine h [] = h ≡ head
  IsLine h (hash_bytes ∷ rest) =
      (next : HashDigest) × (d : BlockWithDiff) × IsStored kv s next d
      × (hash_bytes ≡ next.bytes)
      × (decode_diff_previous d ≡ ok h)
      × IsLine next rest

  stored_hash :
      (h : HashDigest) (d : BlockWithDiff)
      → IsStored kv s h d
      → get_bytes (get_hashed_block d).hash ≡ h.bytes
  unfolding decode_diff_hash decode_hash
  stored_hash h d stored =
      sym (decoded-sized (get_bytes (get_hashed_block d).hash) h (tree.blocks.hashes h d stored)).1

  -- A line of ancestors that starts at a height.
  pub record IsAncestry (start : ℕ) (ancestors : List Bytes) : Type 0 where
    pub oldest : HashDigest
    pub oldest_diff : BlockWithDiff
    pub stored : IsStored kv s oldest oldest_diff
    pub height : get_diff_height oldest_diff ≡ start
    pub rest : List Bytes
    pub split : ancestors ≡ oldest.bytes ∷ rest
    pub line : IsLine oldest rest

  module _ (from_zero : get_diff_height tree.blocks.genesis_diff ≡ 0) where
    not_lowest :
        (h : HashDigest) (d : BlockWithDiff)
        → IsStored kv s h d
        → 0 < get_diff_height d
        → h ≢ genesis
    not_lowest h d stored high e =
        let same : ok (some d) ≡ ok (some tree.blocks.genesis_diff) =
          sym stored
          ∙ ap (λ (k : HashDigest). get_block_diff kv k s) e
          ∙ tree.blocks.genesis_stored in
        let equal : d ≡ tree.blocks.genesis_diff = cc same in
        absurd (omega (arith, ap get_diff_height equal))

    -- The loop goes back along the parents until the height is reached.
    collect_ancestors-IsAncestry :
        (fuel start : ℕ) (h : HashDigest) (d : BlockWithDiff) (rest : List Bytes)
        → IsStored kv s h d
        → IsLine h rest
        → start ≤ get_diff_height d
        → get_diff_height d < fuel
        → (ancestors : List Bytes) × (collect_ancestors kv fuel start
              (get_hashed_block d)
              (h.bytes ∷ rest)
              s
            ≡ ok ancestors)
          × IsAncestry start ancestors
    unfolding collect_ancestors Keys.get_block get_diff_height decode_diff_previous
    collect_ancestors-IsAncestry zero start h d rest stored line low enough = absurd (omega arith)
    collect_ancestors-IsAncestry (suc fuel) start h d rest stored line low enough =
        elim (dec_lt start (get_diff_height d)) [
          | yes more ↦
              let p = tree.blocks.parents h d stored (not_lowest h d stored (omega arith)) in
              let (ancestors, e, i) =
                collect_ancestors-IsAncestry fuel start p.parent p.parent_diff (h.bytes ∷ rest)
                  p.stored (h, d, stored, refl, p.previous, line) (omega (arith, p.height))
                  (omega (arith, p.height)) in
              (
                ancestors,
                rw
                    (
                      lt→ltb start (get_diff_height d) more,
                      collect_ancestors,
                      p.previous,
                      p.stored,
                      stored_hash p.parent p.parent_diff p.stored,
                    )
                    e,
                i,
              )
          | no reached ↦
              let stop : ltb start (get_diff_height d) ≡ false = ground arith in
              (
                h.bytes ∷ rest,
                rw (stop, collect_ancestors),
                record {
                  oldest = h;
                  oldest_diff = d;
                  stored = stored;
                  height = omega arith;
                  rest = rest;
                  split = refl;
                  line = line;
                },
              )
        ]

    -- The blocks that the answer lists, for a start height.
    abbrev pub Lists : ℕ → List Bytes → Type 0
    Lists start ancestors =
        ((start ≤ get_diff_height tree.head_diff) × IsAncestry start ancestors)
        ⊎ ((get_diff_height tree.head_diff < start) × (ancestors ≡ []))

    collected-Lists :
        (start : ℕ)
        → (ancestors : List Bytes) × ((if ltb (get_diff_height tree.head_diff) start
              then ok []
              else collect_ancestors kv
                  (suc (get_diff_height tree.head_diff))
                  start
                  (get_hashed_block tree.head_diff)
                  (head.bytes ∷ [])
                  s)
            ≡ ok ancestors)
          × Lists start ancestors
    collected-Lists start = elim (dec_lt (get_diff_height tree.head_diff) start) [
      | yes above ↦
          ([], rw (lt→ltb (get_diff_height tree.head_diff) start above) refl, inr (above, refl))
      | no within ↦
          let below : ltb (get_diff_height tree.head_diff) start ≡ false = ground arith in
          let (ancestors, e, i) =
            collect_ancestors-IsAncestry (suc (get_diff_height tree.head_diff)) start head
              tree.head_diff [] tree.head_stored refl (omega arith) (omega arith) in
          (ancestors, rw below e, inl (omega arith, i))
    ]

    -- `get_blocktree` on a well-formed tree whose genesis has height 0 answers OK, for every start
    -- height, with the head, its height, and the start height, or the head's where that is lower.
    -- Where the start height is not above the head's, it lists the hashes of the blocks from that
    -- height to the head, of which each is the parent of the next; where it is above, none. The loop
    -- ends.
    pub get_blocktree-IsAncestry :
        (start : ℕ)
        → (ancestors : List Bytes) × (get_blocktree kv (record { start_height = some start }) s
            ≡ ok (record {
              status = BlocktreeStatus.ok;
              description = none;
              head = some head.bytes;
              head_height = some (get_diff_height tree.head_diff);
              start_height = some (min start (get_diff_height tree.head_diff));
              ancestors = ancestors;
            }))
          × Lists start ancestors
    unfolding get_blocktree get_head Keys.get_block get_diff_height
    get_blocktree-IsAncestry start =
        let (ancestors, e, listed) = collected-Lists start in
        (
          ancestors,
          rw (
            tree.head_hash,
            tree.head_stored,
            stored_hash head tree.head_diff tree.head_stored,
            e,
          ),
          listed,
        )
