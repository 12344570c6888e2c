-- ===== src/Service/Inserted.antt =====
-- The loop of `on_received_peer_blocks` of service.rs: the tree after each block, and the highest
-- block.
use ironcoin.Base.{
  ◌≤◌, ◌≡◌, ◌⊎◌, refl, List, [], ◌∷◌, All, length, arith, inl, inr, Bool-cases, ltb, if◌then◌else◌,
}
use ironcoin.Base.Run.{Run, ok, refuse, IroncError, Panic}
use ironcoin.Base.Action.{and_then-refuse}
use ironcoin.Block.{get_height}
use ironcoin.Blocktree.Growth.{insert_block-IsInserted}
use ironcoin.Blocktree.Insertion.{HasRoom, extended}
use ironcoin.Blocktree.Laws.{HasLaws}
use ironcoin.Blocktree.Reach.{Reaches, Reaches-Continues, Step}
use ironcoin.Blocktree.Tree.{IsTree, States}
use ironcoin.Crypto.HashDigest.{HashDigest}
use ironcoin.External.{Base64, Sodium}
use ironcoin.Message.Codecs.{Codecs}
use ironcoin.Message.Ledger.{HashedBlock}
use ironcoin.Service.Sync.{insert_blocks}
use ironcoin.Store.{KeyValueStore}
use ironcoin.Service.Incoming.{
  AreNew, HasBlock, HasBlock-Continues, HasRoomFor, inserted-AreNew, inserted-HasBlock,
  inserted-HasRoomFor,
}

module _ {S : Type 0} (kv : KeyValueStore S) ⦃sodium : Sodium⦄ ⦃base64 : Base64⦄
    ⦃codecs : Codecs⦄ where
  -- The run of `insert_blocks` so far: the tree after it, and the blocks that it has, where it
  -- answers with the highest block.
  pub record Arrived (blocks : List HashedBlock) (best : HashedBlock) (s : S) : Type 0 where
    pub best_stored : HasBlock kv s best
    pub all_stored :
        All (λ block. HasBlock kv s block × (get_height block ≤ get_height best)) blocks

  pub record HasRun (s : S) (genesis : HashDigest) (new_head : HashedBlock)
      (blocks : List HashedBlock) (run : Run HashedBlock × S) : Type 0 where
    pub reaches : Reaches kv s run.1
    pub head : HashDigest
    pub states : States
    pub tree : IsTree kv run.1 genesis head states
    pub answer :
        ((best : HashedBlock) × (run.0 ≡ ok best)
          × (get_height new_head ≤ get_height best)
          × Arrived blocks best run.1)
        ⊎ ((c : IroncError ⊎ Panic) × (run.0 ≡ refuse c))

  abbrev higher_of : HashedBlock → HashedBlock → HashedBlock
  higher_of new_head block =
      if ltb (get_height new_head) (get_height block) then block else new_head

  higher_of-HasBlock :
      (s : S) (new_head block : HashedBlock)
      → HasBlock kv s new_head
      → HasBlock kv s block
      → HasBlock kv s (higher_of new_head block)
  higher_of-HasBlock s new_head block old new =
      elim (Bool-cases (ltb (get_height new_head) (get_height block))) [
        | inl more ↦ rw more new
        | inr less ↦ rw less old
      ]

  higher_of-le :
      (new_head block : HashedBlock)
      → (get_height new_head ≤ get_height (higher_of new_head block))
        × (get_height block ≤ get_height (higher_of new_head block))
  higher_of-le new_head block = elim (Bool-cases (ltb (get_height new_head) (get_height block))) [
    | inl more ↦ rw more (ground arith, omega arith)
    | inr less ↦ rw less (omega arith, ground arith)
  ]

  module _ (laws : HasLaws kv) where
    -- One block more at the front of a run.
    next-HasRun :
        (s s₁ : S) (genesis head : HashDigest) (state : States) (new_head block : HashedBlock)
        (blocks : List HashedBlock) (run : Run HashedBlock × S)
        → Step kv s s₁
        → IsTree kv s₁ genesis head state
        → HasBlock kv s₁ block
        → HasRun s₁ genesis (higher_of new_head block) blocks run
        → HasRun s genesis new_head (block ∷ blocks) run
    next-HasRun s s₁ genesis head state new_head block blocks run step tree mine rest = record {
      reaches = Reaches.next step rest.reaches;
      head = rest.head;
      states = rest.states;
      tree = rest.tree;
      answer = elim rest.answer [
        | inr refused ↦ inr refused
        | inl (best, e, above, arrived) ↦
            let later = Reaches-Continues kv laws s₁ run.1 genesis head state rest.reaches tree in
            let (over_head, over_block) = higher_of-le new_head block in
            inl (
              best,
              e,
              omega arith,
              record {
                best_stored = arrived.best_stored;
                all_stored = (
                  (HasBlock-Continues kv s₁ run.1 genesis state block later mine, omega arith),
                  arrived.all_stored,
                );
              },
            )
      ];
    }

    pub insert_blocks-HasRun :
        (blocks : List HashedBlock) (new_head : HashedBlock) (s : S) (genesis head : HashDigest)
        (state : States)
        → IsTree kv s genesis head state
        → HasRoomFor kv (length blocks) s
        → AreNew kv s blocks
        → HasBlock kv s new_head
        → HasRun s genesis new_head blocks (insert_blocks kv new_head blocks s)
    unfolding insert_blocks
    insert_blocks-HasRun [] new_head s genesis head state tree room new has = record {
      reaches = Reaches.done;
      head = head;
      states = state;
      tree = tree;
      answer = inl (new_head, refl, omega arith, record { best_stored = has; all_stored = tt });
    }
    insert_blocks-HasRun (block ∷ blocks) new_head s genesis head state tree room
          (fresh, apart, new) has =
        let one : HasRoom kv s = λ h d stored. omega (arith, room h d stored) in
        elim (insert_block-IsInserted kv s genesis head state tree laws block one fresh) [
          | inr (c, e) ↦
              rw (e, and_then-refuse c s _)
                (record {
                  reaches = Reaches.done;
                  head = head;
                  states = state;
                  tree = tree;
                  answer = inr (c, refl);
                })
          | inl (s₁, e, i) ↦
              let step = Step.inserted block (ok tt) one fresh e in
              let first =
                Reaches-Continues kv laws s s₁ genesis head state (Reaches.next step Reaches.done)
                  tree in
              let mine = inserted-HasBlock kv s s₁ genesis head state tree block i in
              rw e (
                next-HasRun s s₁ genesis head (extended i.hash i.accounts state) new_head block
                  blocks _ step i.grown mine
                  (insert_blocks-HasRun blocks (higher_of new_head block) s₁ genesis head
                    (extended i.hash i.accounts state) i.grown
                    (inserted-HasRoomFor kv s s₁ genesis head state tree block i (length blocks)
                      (fresh i.hash i.named) room)
                    (inserted-AreNew kv s s₁ genesis head state tree block i blocks apart new)
                    (higher_of-HasBlock s₁ new_head block
                      (HasBlock-Continues kv s s₁ genesis state new_head first has) mine)))
        ]
