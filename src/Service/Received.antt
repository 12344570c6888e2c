-- ===== src/Service/Received.antt =====
-- `on_received_peer_blocks` of service.rs in a well-formed tree: blocks that a peer sends.
use ironcoin.Base.{
  ℕ, ◌≤◌, ◌≡◌, ◌⊎◌, refl, sym, ◌∙◌, ap, subst, none, List, [], ◌∷◌, All, length, arith, inl, inr,
  Option,
}
use ironcoin.Base.Run.{Run, ok, refuse, IroncError, Panic}
use ironcoin.Base.Action.{and_then-refuse, and_then, lift, pure, ◌>>=◌, ◌>>◌}
use ironcoin.Block.{decode_diff_hash, decode_hash, get_diff_height, get_height}
use ironcoin.Blocktree.Insertion.{stored_unique}
use ironcoin.Blocktree.Keys.{get_block, get_head}
use ironcoin.Blocktree.Laws.{HasLaws}
use ironcoin.Blocktree.Moves.{set_head-IsTree}
use ironcoin.Blocktree.Reach.{Continues, Reaches, Reaches-Continues, Step, Reaches-then}
use ironcoin.Blocktree.Store.{set_head}
use ironcoin.Blocktree.Tree.{IsTree, States}
use ironcoin.Crypto.HashDigest.{HashDigest}
use ironcoin.External.{Base64, Sodium}
use ironcoin.Message.Codecs.{Codecs}
use ironcoin.Message.Ledger.{HashedBlock, get_hashed_block}
use ironcoin.Message.Rpc.{GetBlocksResponse, RpcRequest}
use ironcoin.Service.Sync.{on_received_peer_blocks}
use ironcoin.Store.{KeyValueStore}
use ironcoin.Service.Incoming.{AreNew, HasBlock, HasBlock-Continues, HasRoomFor}
use ironcoin.Service.Inserted.{Arrived, HasRun, insert_blocks-HasRun}

module _ {S : Type 0} (kv : KeyValueStore S) ⦃sodium : Sodium⦄ ⦃base64 : Base64⦄
    ⦃codecs : Codecs⦄ where
  module _ (laws : HasLaws kv) where
    head-HasBlock :
        (s : S) (genesis head : HashDigest) (state : States) (tree : IsTree kv s genesis head state)
        → HasBlock kv s (get_hashed_block tree.head_diff)
    unfolding get_diff_height decode_diff_hash
    head-HasBlock s genesis head state tree = record {
      hash = head;
      named = tree.blocks.hashes head tree.head_diff tree.head_stored;
      diff = tree.head_diff;
      stored = tree.head_stored;
      height = refl;
    }

    pub get_head-eq :
        (s : S) (genesis head : HashDigest) (state : States) (tree : IsTree kv s genesis head state)
        → get_head kv s ≡ ok (get_hashed_block tree.head_diff)
    unfolding get_head get_block
    get_head-eq s genesis head state tree = rw (tree.head_hash, tree.head_stored) refl

    -- The tree after blocks that were all accepted: it has them, and no block of them is higher
    -- than its head.
    pub record IsCaughtUp (s : S) (genesis : HashDigest) (blocks : List HashedBlock) : Type 0 where
      pub head : HashDigest
      pub states : States
      pub tree : IsTree kv s genesis head states
      pub arrived :
          All
            (λ block. HasBlock kv s block × (get_height block ≤ get_diff_height tree.head_diff))
            blocks

    -- How a synchronisation ends: the tree goes on, and where the call succeeds it is caught up with
    -- the blocks and no lower than before.
    abbrev pub Ends :
        (s : S) (genesis head : HashDigest) (state : States)
        → IsTree kv s genesis head state
        → List HashedBlock
        → Run (Option RpcRequest) × S
        → Type 0
    Ends s genesis head state tree blocks (r, s') =
        Continues kv s genesis state s'
        × (((r ≡ ok none)
              × (caught_up : IsCaughtUp s' genesis blocks) × (get_diff_height tree.head_diff
                  ≤ get_diff_height caught_up.tree.head_diff))
            ⊎ ((c : IroncError ⊎ Panic) × (r ≡ refuse c)))

    arrived-later :
        (s s' : S) (genesis : HashDigest) (state : States) (n m : ℕ) (blocks : List HashedBlock)
        → Continues kv s genesis state s'
        → n ≡ m
        → All (λ block. HasBlock kv s block × (get_height block ≤ n)) blocks
        → All (λ block. HasBlock kv s' block × (get_height block ≤ m)) blocks
    arrived-later s s' genesis state n m [] c same arrived = tt
    arrived-later s s' genesis state n m (block ∷ blocks) c same ((has, low), rest) = (
      (
        HasBlock-Continues kv s s' genesis state block c has,
        subst (λ (k : ℕ). get_height block ≤ k) same low,
      ),
      arrived-later s s' genesis state n m blocks c same rest,
    )

    -- The last call, `set_head` to the highest block.
    set_head-Ends :
        (s : S) (genesis head : HashDigest) (state : States) (tree : IsTree kv s genesis head state)
        (blocks : List HashedBlock) (best : HashedBlock) (s₁ : S) (h₁ : HashDigest)
        (state₁ : States) (tree₁ : IsTree kv s₁ genesis h₁ state₁)
        → Reaches kv s s₁
        → get_diff_height tree.head_diff ≤ get_height best
        → Arrived kv blocks best s₁
        → Ends s genesis head state tree blocks
            ((lift (decode_hash best) >>= (λ h. set_head kv h >> pure none)) s₁)
    set_head-Ends s genesis head state tree blocks best s₁ h₁ state₁ tree₁ reaches above arrived =
        let b = arrived.best_stored in
        let (s₂, e, tree₂, same) =
          set_head-IsTree kv laws s₁ genesis h₁ state₁ tree₁ b.hash b.diff b.stored in
        let step = Step.moved b.hash (ok tt) e in
        let moved =
          Reaches-Continues kv laws s₁ s₂ genesis h₁ state₁ (Reaches.next step Reaches.done)
            tree₁ in
        let top : get_height best ≡ get_diff_height tree₂.head_diff =
          sym b.height
          ∙ ap get_diff_height (stored_unique (sym (same b.hash ∙ b.stored) ∙ tree₂.head_stored)) in
        rw (b.named, lift, e)
          (
            Reaches-Continues kv laws s s₂ genesis head state (Reaches-then kv reaches step) tree,
            inl (
              refl,
              record {
                head = b.hash;
                states = state₁;
                tree = tree₂;
                arrived =
                    arrived-later s₁ s₂ genesis state₁ _ _ blocks moved top arrived.all_stored;
              },
              omega arith,
            ),
          )

    -- What follows `insert_blocks`.
    run-Ends :
        (s : S) (genesis head : HashDigest) (state : States) (tree : IsTree kv s genesis head state)
        (blocks : List HashedBlock) (run : Run HashedBlock × S)
        → HasRun kv s genesis (get_hashed_block tree.head_diff) blocks run
        → Ends s genesis head state tree blocks (
            and_then run
              (λ new_head. lift (decode_hash new_head) >>= (λ h. set_head kv h >> pure none)))
    unfolding get_diff_height
    run-Ends s genesis head state tree blocks run h =
        let G = λ (p : Run HashedBlock × S). Ends s genesis head state tree blocks (
          and_then p
            (λ new_head. lift (decode_hash new_head) >>= (λ k. set_head kv k >> pure none))) in
        elim h.answer [
          | inl (best, e, above, arrived) ↦
              subst G (ap {B = Run HashedBlock × S} (λ (r : Run HashedBlock). (r, run.1)) (sym e)) (
                set_head-Ends s genesis head state tree blocks best run.1 h.head h.states h.tree
                  h.reaches above arrived)
          | inr (c, e) ↦
              subst G (ap {B = Run HashedBlock × S} (λ (r : Run HashedBlock). (r, run.1)) (sym e)) (
                rw (and_then-refuse c run.1 _) (
                  Reaches-Continues kv laws s run.1 genesis head state h.reaches tree,
                  inr (c, refl),
                ))
        ]

    -- `on_received_peer_blocks` on a well-formed tree, for blocks with hashes that are not in the
    -- tree and differ from one another, where the heights of the tree leave room for them. Whatever
    -- it answers, the tree stays well formed and keeps its blocks with their balances. Where it
    -- succeeds, the tree has all the blocks, and its head is at least as high as each of them and as
    -- the head before.
    pub on_received_peer_blocks-IsCaughtUp :
        (s : S) (genesis head : HashDigest) (state : States) (response : GetBlocksResponse)
        (tree : IsTree kv s genesis head state)
        → HasRoomFor kv (length response.blocks) s
        → AreNew kv s response.blocks
        → Ends s genesis head state tree response.blocks (on_received_peer_blocks kv response s)
    unfolding on_received_peer_blocks
    on_received_peer_blocks-IsCaughtUp s genesis head state response tree room new =
        rw (get_head-eq s genesis head state tree) (
          run-Ends s genesis head state tree response.blocks _ (
            insert_blocks-HasRun kv laws response.blocks (get_hashed_block tree.head_diff) s genesis
              head state tree room new (head-HasBlock s genesis head state tree)))
