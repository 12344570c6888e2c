-- ===== src/Blocktree/Reach.antt =====
-- Any sequence of `set_head` and `insert_block` of blocktree.rs, from a well-formed tree.
use ironcoin.Base.{◌≡◌, ◌≢◌, refl, sym, ◌∙◌, ap, subst, some, none, arith, inl, inr}
use ironcoin.Base.Run.{Run, ok, Run-cases}
use ironcoin.Block.{decode_hash}
use ironcoin.Blocktree.Growth.{insert_block-IsInserted}
use ironcoin.Blocktree.Insertion.{HasRoom, IsFresh, extended, stored-apart, extended-other}
use ironcoin.Blocktree.Keys.{get_block_diff}
use ironcoin.Blocktree.Laws.{HasLaws}
use ironcoin.Blocktree.Moves.{set_head-IsTree, set_head-refused}
use ironcoin.Blocktree.Store.{insert_block, set_head}
use ironcoin.Blocktree.Tree.{IsStored, IsTree, States}
use ironcoin.Crypto.HashDigest.{HashDigest}
use ironcoin.External.{Base64, Sodium}
use ironcoin.Message.Codecs.{Codecs}
use ironcoin.Message.Ledger.{BlockWithDiff, HashedBlock}
use ironcoin.Store.{KeyValueStore}

module _ {S : Type 0} (kv : KeyValueStore S) ⦃sodium : Sodium⦄ ⦃base64 : Base64⦄
    ⦃codecs : Codecs⦄ where
  -- One call, whatever it answers. A block to insert is new, at a height that does not wrap.
  pub data Step : S → S → Type 0 where
    moved : (h : HashDigest) (r : Run (Unit {0})) {s s' : S} → set_head kv h s ≡ (r, s') → Step s s'
    inserted :
        (block : HashedBlock) (r : Run (Unit {0})) {s s' : S}
        → HasRoom kv s
        → ((h : HashDigest) → decode_hash block ≡ ok h → IsFresh kv s h)
        → insert_block kv block s ≡ (r, s')
        → Step s s'

  pub data Reaches : S → S → Type 0 where
    done : {s : S} → Reaches s s
    next : {s s' s'' : S} → Step s s' → Reaches s' s'' → Reaches s s''

  pub Reaches-then : {s s' s'' : S} → Reaches s s' → Step s' s'' → Reaches s s''
  Reaches-then done step = next step done
  Reaches-then (next first rest) step = next first (Reaches-then rest step)

  -- A well-formed tree that keeps every block of another, with the balances there.
  pub record Continues (s : S) (genesis : HashDigest) (state : States) (s' : S) : Type 0 where
    pub head : HashDigest
    pub states : States
    pub tree : IsTree kv s' genesis head states
    pub keeps :
        (h : HashDigest) (d : BlockWithDiff)
        → IsStored kv s h d
        → IsStored kv s' h d × (states h ≡ state h)

  pub Continues-trans :
      (s s' s'' : S) (genesis : HashDigest) (state : States) (first : Continues s genesis state s')
      → Continues s' genesis first.states s''
      → Continues s genesis state s''
  Continues-trans s s' s'' genesis state first last = record {
    head = last.head;
    states = last.states;
    tree = last.tree;
    keeps = λ h d stored.
        let (kept, same) = first.keeps h d stored in
        let (kept', same') = last.keeps h d kept in (kept', same' ∙ same);
  }

  module _ (laws : HasLaws kv) where
    pub same-Continues :
        (s s' : S) (genesis head : HashDigest) (state : States)
        → IsTree kv s genesis head state
        → s ≡ s'
        → Continues s genesis state s'
    same-Continues s s' genesis head state tree same = record {
      head = head;
      states = state;
      tree = subst (λ (t : S). IsTree kv t genesis head state) same tree;
      keeps = λ h d stored. (subst (λ (t : S). IsStored kv t h d) same stored, refl);
    }

    moved-Continues :
        (s s' : S) (genesis head : HashDigest) (state : States) (h : HashDigest)
        (r : Run (Unit {0}))
        → IsTree kv s genesis head state
        → set_head kv h s ≡ (r, s')
        → Continues s genesis state s'
    moved-Continues s s' genesis head state h r tree e =
        let refused : ((d : BlockWithDiff) → get_block_diff kv h s ≢ ok (some d)) → s ≡ s' =
          λ unknown. elim (set_head-refused kv laws s genesis head state tree h unknown) [
            | inl (_, e') ↦ ap (λ (p : Run (Unit {0}) × S). p.1) (sym e' ∙ e)
            | inr (c, _, e') ↦ ap (λ (p : Run (Unit {0}) × S). p.1) (sym e' ∙ e)
          ] in
        elim (Run-cases (get_block_diff kv h s)) [
          | inr (c, found) ↦
              same-Continues s s' genesis head state tree (refused (λ d stored. ground arith))
          | inl (none, found) ↦
              same-Continues s s' genesis head state tree
                (refused (λ d stored. cc (sym found ∙ stored)))
          | inl (some d, stored) ↦
              let (t, e', moved_tree, blocks) =
                set_head-IsTree kv laws s genesis head state tree h d stored in
              let same : t ≡ s' = ap (λ (p : Run (Unit {0}) × S). p.1) (sym e' ∙ e) in
              record {
                head = h;
                states = state;
                tree = subst (λ (u : S). IsTree kv u genesis h state) same moved_tree;
                keeps =
                    λ k b old. (subst (λ (u : S). IsStored kv u k b) same (blocks k ∙ old), refl);
              }
        ]

    inserted-Continues :
        (s s' : S) (genesis head : HashDigest) (state : States) (block : HashedBlock)
        (r : Run (Unit {0}))
        → IsTree kv s genesis head state
        → HasRoom kv s
        → ((h : HashDigest) → decode_hash block ≡ ok h → IsFresh kv s h)
        → insert_block kv block s ≡ (r, s')
        → Continues s genesis state s'
    inserted-Continues s s' genesis head state block r tree room fresh e =
        elim (insert_block-IsInserted kv s genesis head state tree laws block room fresh) [
          | inr (c, e') ↦
              same-Continues s s' genesis head state tree
                (ap (λ (p : Run (Unit {0}) × S). p.1) (sym e' ∙ e))
          | inl (t, e', i) ↦
              let same : t ≡ s' = ap (λ (p : Run (Unit {0}) × S). p.1) (sym e' ∙ e) in
              let new = fresh i.hash i.named in
              record {
                head = head;
                states = extended i.hash i.accounts state;
                tree =
                    subst (λ (u : S). IsTree kv u genesis head (extended i.hash i.accounts state))
                      same i.grown;
                keeps = λ k b old.
                    let apart = stored-apart kv s i.hash k b new old in
                    (
                      subst (λ (u : S). IsStored kv u k b) same (i.others k apart ∙ old),
                      extended-other kv i.hash k i.accounts state apart,
                    );
              }
        ]

    Step-Continues :
        (s s' : S) (genesis head : HashDigest) (state : States)
        → Step s s'
        → IsTree kv s genesis head state
        → Continues s genesis state s'
    Step-Continues s s' genesis head state (moved h r e) tree =
        moved-Continues s s' genesis head state h r tree e
    Step-Continues s s' genesis head state (inserted block r room fresh e) tree =
        inserted-Continues s s' genesis head state block r tree room fresh e

    -- However many heads are set and blocks are inserted, whatever the calls answer, a well-formed
    -- tree stays one, and keeps every block that it had, with the balances at it. A block to insert
    -- is one whose hash is not in the tree, at a time when the heights leave room for one more.
    pub Reaches-Continues :
        (s s' : S) (genesis head : HashDigest) (state : States)
        → Reaches s s'
        → IsTree kv s genesis head state
        → Continues s genesis state s'
    Reaches-Continues s s' genesis head state done tree =
        same-Continues s s genesis head state tree refl
    Reaches-Continues s s'' genesis head state (next {s' = s'} step rest) tree =
        let first = Step-Continues s s' genesis head state step tree in
        Continues-trans s s' s'' genesis state first
          (Reaches-Continues s' s'' genesis first.head first.states rest first.tree)
