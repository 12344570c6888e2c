-- ===== src/Service/Fetch.antt =====
-- Which blocks service.rs sends to a peer, and which it asks a peer for.
use ironcoin.Base.{
  ℕ, ◌<◌, ◌≡◌, sym, ◌∙◌, Bool, true, false, not, Option, some, none, List, [], ◌∷◌, ◌++◌, map,
  Bytes, All, keep, length, lt→not_leb, inl, inr, Option-cases,
}
use mathlib.Core.List.{append-nil, append_assoc}
use ironcoin.Base.Run.{ok}
use ironcoin.Block.{get_height}
use ironcoin.Blocktree.Keys.{get_block, get_head}
use ironcoin.Crypto.HashDigest
use ironcoin.Crypto.HashDigest.{HashDigest}
use ironcoin.Crypto.Sizes.{from_slice-bytes}
use ironcoin.External.{Base64, Sodium}
use ironcoin.Message.Codecs.{Codecs}
use ironcoin.Message.Ledger.{HashedBlock, get_num}
use ironcoin.Message.Rpc.{BlocksStatus, GetBlocktreeResponse}
use ironcoin.Service.Answers.{collect_blocks, get_blocks}
use ironcoin.Service.Sync.{ask_blocks, find_missing, on_peer_blocktree_update}
use ironcoin.Store.{KeyValueStore}

module _ {S : Type 0} (kv : KeyValueStore S) ⦃sodium : Sodium⦄ ⦃base64 : Base64⦄ ⦃codecs : Codecs⦄
    (s : S) where
  -- A digest with the block that is stored for it.
  pub record IsBlock (entry : HashDigest × HashedBlock) : Type 0 where
    pub sized : length entry.0.bytes ≡ sodium.hash_bytes
    pub stored : get_block kv entry.0 s ≡ ok (some entry.1)

  collect_blocks-stored :
      (entries : List (HashDigest × HashedBlock)) (found : List HashedBlock)
      → All IsBlock entries
      → collect_blocks kv s found (map (λ entry. entry.0.bytes) entries)
        ≡ ok (record {
          status = BlocksStatus.ok;
          description = none;
          blocks = found ++ map (λ entry. entry.1) entries;
        })
  unfolding collect_blocks
  collect_blocks-stored [] found h = rw (append-nil found)
  collect_blocks-stored ((hash, block) ∷ entries) found (first, rest) =
      rw (from_slice-bytes hash first.sized, collect_blocks, first.stored)
        (collect_blocks-stored entries (found ++ block ∷ []) rest
          ∙ rw (append_assoc found (block ∷ []) (map (λ entry. entry.1) entries)))

  -- `get_blocks` for the hashes of stored blocks answers with those blocks, in the order of the
  -- request.
  pub get_blocks-stored :
      (entries : List (HashDigest × HashedBlock))
      → All IsBlock entries
      → get_blocks kv (record { blocks = map (λ entry. entry.0.bytes) entries }) s
        ≡ ok (record {
          status = BlocksStatus.ok;
          description = none;
          blocks = map (λ entry. entry.1) entries;
        })
  unfolding get_blocks
  get_blocks-stored entries h = collect_blocks-stored entries [] h

  module _ (known : Bytes → Bool) where
    -- A hash of the right length, which the tree has a block for where it is known.
    pub record IsAnswered (hash_bytes : Bytes) : Type 0 where
      pub digest : HashDigest
      pub decoded : HashDigest.from_slice hash_bytes ≡ ok digest
      pub block : Option HashedBlock
      pub read : get_block kv digest s ≡ ok block
      pub found : elim block [ some _ ↦ true | none ↦ false ] ≡ known hash_bytes

    find_missing-keep :
        (start : ℕ) (missing hashes : List Bytes)
        → All IsAnswered hashes
        → find_missing kv s start false missing hashes
          ≡ ok (some (ask_blocks (missing ++ keep (λ b. not (known b)) hashes)))
    unfolding find_missing
    find_missing-keep start missing [] h = rw (append-nil missing)
    find_missing-keep start missing (hash_bytes ∷ hashes) (first, rest) =
        elim (Option-cases first.block) [
          | inl lost ↦
              let unknown : known hash_bytes ≡ false = sym first.found ∙ rw lost in
              rw (first.decoded, find_missing, first.read, lost, unknown)
                (find_missing-keep start (missing ++ hash_bytes ∷ []) hashes rest
                  ∙ rw (append_assoc missing (hash_bytes ∷ []) (keep (λ b. not (known b)) hashes)))
          | inr (block, there) ↦
              let present : known hash_bytes ≡ true = sym first.found ∙ rw there in
              rw (first.decoded, find_missing, first.read, there, present)
                (find_missing-keep start missing hashes rest)
        ]

    -- On the block tree of a peer that is higher than the head, where the oldest of its hashes is
    -- known, `on_peer_blocktree_update` asks for exactly the blocks that are not known, in the
    -- order of the peer.
    pub on_peer_blocktree_update-keep :
        (head : HashedBlock) (response : GetBlocktreeResponse) (oldest : Bytes)
        (hashes : List Bytes)
        → get_head kv s ≡ ok head
        → get_height head < get_num response.head_height
        → response.ancestors ≡ oldest ∷ hashes
        → known oldest ≡ true
        → All IsAnswered (oldest ∷ hashes)
        → on_peer_blocktree_update kv response s
          ≡ ok (some (ask_blocks (keep (λ b. not (known b)) (oldest ∷ hashes))))
    unfolding on_peer_blocktree_update find_missing
    on_peer_blocktree_update-keep head response oldest hashes at_head higher split old
          (first, rest) =
        elim (Option-cases first.block) [
          | inl lost ↦ let unknown : known oldest ≡ false = sym first.found ∙ rw lost in cc
          | inr (block, there) ↦
              rw
                (
                  at_head,
                  lt→not_leb _ _ higher,
                  split,
                  first.decoded,
                  find_missing,
                  first.read,
                  there,
                  old,
                )
                (find_missing-keep (get_num response.start_height) [] hashes rest)
        ]
