-- ===== src/Blocktree/Planting.antt =====
-- `BlockTreeStore::new` of blocktree.rs on an empty store: the genesis alone.
use ironcoin.Base.{
  ℕ, ◌≡◌, ◌≢◌, refl, sym, ◌∙◌, ap, subst, none, some, [], ◌∷◌, Bytes, length, arith, inl, inr,
  Bool-cases, list_eq, list_beq, nat_eq,
}
use ironcoin.Base.Map.{Map}
use ironcoin.Base.Run.{ok}
use ironcoin.Base.Action.{Action, ◌>>◌}
use ironcoin.Block.{decode_diff_hash, decode_hash, get_block, get_diff_height, verify}
use ironcoin.Blocktree.Genesis.{
  collect_tokens, genesis_diff, genesis_patches, make_genesis_block_diff,
}
use ironcoin.Blocktree.Given.{collect_tokens-IsGiven, genesis_patches-given, given}
use ironcoin.Blocktree.Insertion.{stored_unique}
use ironcoin.Blocktree.Keys.{
  format_balance_key, format_block_key, genesis_field, get_balance, get_block_diff,
  get_genesis_hash, get_head_hash, head_field,
}
use ironcoin.Blocktree.Entries.{
  block-genesis_apart, block-head_apart, block_key_injective, get_block_diff-written,
  get_block_diff_congr, get_genesis_hash-written, get_genesis_hash_congr, get_head_hash-written,
  get_head_hash_congr,
}
use ironcoin.Blocktree.Laws.{
  HasBalances, HasLaws, at_key, balances, balances-ok, block_key-IsTreeKey, blocktree-IsLedger,
  genesis_field-IsTreeKey, get_balance_congr, head_field-IsTreeKey, other_key,
}
use ironcoin.Blocktree.Store
use ironcoin.Blocktree.Store.{apply_patches, install_genesis, open_with}
use ironcoin.Blocktree.Tree.{HasBlocks, IsStored, IsTree, States}
use ironcoin.Crypto.HashDigest.{HashDigest, digest_beq, digest_beq_iff}
use ironcoin.Crypto.PublicKey.{PublicKey, public_key_eq}
use ironcoin.Crypto.Sizes.{decoded-sized}
use ironcoin.External.{Base64, Sodium}
use ironcoin.Message.Codecs.{Codecs}
use ironcoin.Message.Ledger.{
  BlockWithDiff, HashedBlock, Transaction, get_bytes, get_transfers, new_balance,
}
use ironcoin.Store.{KeyValueStore, set_message}
use ironcoin.Store.Laws.{get_message-none, get_message-set_message}

module _ {S : Type 0} (kv : KeyValueStore S) ⦃sodium : Sodium⦄ ⦃base64 : Base64⦄
    ⦃codecs : Codecs⦄ where
  abbrev pub IsEmpty : HasLaws kv → S → Type 0
  IsEmpty laws s = (key : Bytes) → at_key kv laws s key ≡ none

  module _ (laws : HasLaws kv) where
    empty-get_balance :
        (s : S) (q : PublicKey) → IsEmpty laws s → get_balance kv s q ≡ ok (new_balance 0 0)
    unfolding get_balance
    empty-get_balance s q empty = rw (
        get_message-none laws.store laws.balance s (format_balance_key q)
          (empty (format_balance_key q)))

    empty-get_block_diff :
        (s : S) (h : HashDigest) → IsEmpty laws s → get_block_diff kv h s ≡ ok none
    unfolding get_block_diff
    empty-get_block_diff s h empty =
        get_message-none laws.store laws.block_with_diff s (format_block_key h)
          (empty (format_block_key h))

    -- The three entries that are written before the patches.
    record IsPlanted (s' : S) (h : HashDigest) (d : BlockWithDiff) : Type 0 where
      genesis_hash : get_genesis_hash kv s' ≡ ok h
      head_hash : get_head_hash kv s' ≡ ok h
      stored : IsStored kv s' h d
      others : (k : HashDigest) → h ≢ k → get_block_diff kv k s' ≡ ok none
      blank : (q : PublicKey) → get_balance kv s' q ≡ ok (new_balance 0 0)

    -- The writes of `install_genesis` up to its patches, and what follows.
    plant : HashDigest → BlockWithDiff → Action S (Unit {0}) → Action S (Unit {0})
    plant h d next =
        kv.set_bytes genesis_field h.bytes
        >> (kv.set_bytes head_field h.bytes
            >> (set_message kv codecs.block_with_diff (format_block_key h) d >> next))

    plant-IsPlanted :
        (s : S) (h : HashDigest) (d : BlockWithDiff)
        → IsEmpty laws s
        → length h.bytes ≡ sodium.hash_bytes
        → (s' : S) × ((next : Action S (Unit {0})) → plant h d next s ≡ next s') × IsPlanted s' h d
    unfolding plant list_beq
    plant-IsPlanted s h d empty sized =
        let (s₁, e₁, at₁) = laws.store.set-eq genesis_field h.bytes s in
        let (s₂, e₂, at₂) = laws.store.set-eq head_field h.bytes s₁ in
        let (s', e', reads, at) =
          get_message-set_message laws.store laws.block_with_diff (format_block_key h) d s₂ in
        let at_head : at_key kv laws s' head_field ≡ some h.bytes =
          other_key kv laws (format_block_key h) head_field _ s₂ s' (block-head_apart kv laws h)
            (at head_field)
          ∙ at₂ head_field in
        let at_genesis : at_key kv laws s' genesis_field ≡ some h.bytes =
          other_key kv laws (format_block_key h) genesis_field _ s₂ s'
            (block-genesis_apart kv laws h) (at genesis_field)
          ∙ at₂ genesis_field
          ∙ at₁ genesis_field in
        (
          s',
          λ next. rw (e₁, e₂, e'),
          record {
            genesis_hash = get_genesis_hash-written kv laws s' h at_genesis sized;
            head_hash = get_head_hash-written kv laws s' h at_head sized;
            stored = get_block_diff-written kv laws s' h d reads;
            others = λ k apart.
                get_block_diff_congr kv laws s s' k (
                  other_key kv laws (format_block_key h) (format_block_key k) _ s₂ s'
                    (λ e. apart (block_key_injective kv laws h k e)) (at (format_block_key k))
                  ∙ other_key kv laws head_field (format_block_key k) _ s₁ s₂
                      (λ e. block-head_apart kv laws k (sym e)) (at₂ (format_block_key k))
                  ∙ other_key kv laws genesis_field (format_block_key k) _ s s₁
                      (λ e. block-genesis_apart kv laws k (sym e)) (at₁ (format_block_key k)))
                ∙ empty-get_block_diff s k empty;
            blank = λ q.
                get_balance_congr kv laws s s' q (
                  other_key kv laws (format_block_key h) (format_balance_key q) _ s₂ s'
                    (λ e. block_key-IsTreeKey kv laws h q (sym e)) (at (format_balance_key q))
                  ∙ other_key kv laws head_field (format_balance_key q) _ s₁ s₂
                      (λ e. head_field-IsTreeKey kv laws q (sym e)) (at₂ (format_balance_key q))
                  ∙ other_key kv laws genesis_field (format_balance_key q) _ s s₁
                      (λ e. genesis_field-IsTreeKey kv laws q (sym e)) (at₁ (format_balance_key q)))
                ∙ empty-get_balance s q empty;
          },
        )

    -- One block is stored, and no other.
    abbrev pub IsOnly : S → HashDigest → BlockWithDiff → Type 0
    IsOnly s h d = (k : HashDigest) (e : BlockWithDiff) → IsStored kv s k e → (h ≡ k) × (d ≡ e)

    planted-IsOnly :
        (s s' : S) (h : HashDigest) (d : BlockWithDiff)
        → IsPlanted s h d
        → ((k : HashDigest) → get_block_diff kv k s' ≡ get_block_diff kv k s)
        → IsOnly s' h d
    planted-IsOnly s s' h d planted same k e stored = elim (Bool-cases (digest_beq h k)) [
      | inl equal ↦
          let here = (digest_beq_iff h k).0 equal in
          (
            here,
            stored_unique (
                sym (same h ∙ planted.stored)
                ∙ ap (λ (i : HashDigest). get_block_diff kv i s') here
                ∙ stored),
          )
      | inr unequal ↦
          let apart : h ≢ k = λ e'. cc (sym unequal ∙ (digest_beq_iff h k).1 e') in
          cc (sym stored ∙ same k ∙ planted.others k apart)
    ]

    only-HasBlocks :
        (s : S) (h : HashDigest) (d : BlockWithDiff) (state : States)
        → decode_diff_hash d ≡ ok h
        → get_genesis_hash kv s ≡ ok h
        → IsStored kv s h d
        → IsOnly s h d
        → HasBlocks kv s h state
    only-HasBlocks s h d state named genesis stored only = record {
      genesis_hash = genesis;
      genesis_diff = d;
      genesis_stored = stored;
      hashes = λ k e stored.
          let (here, block) = only k e stored in
          subst (λ (i : BlockWithDiff). decode_diff_hash i ≡ ok k) block
            (named ∙ ap (λ (i : HashDigest). ok i) here);
      parents = λ k e stored fresh. absurd (fresh (sym (only k e stored).0));
      lowest = λ k e stored.
          let same_height = ap get_diff_height (only k e stored).1 in omega (arith, same_height);
    }

    -- `new` on an empty store, in the words of the cache of `make_genesis_block_diff`.
    pub opened-IsTree :
        (s : S) (block : HashedBlock) (h : HashDigest) (tx : Transaction) (cache : Map PublicKey ℕ)
        → IsEmpty laws s
        → verify block ≡ ok tt
        → decode_hash block ≡ ok h
        → (get_block block).transactions ≡ tx ∷ []
        → collect_tokens [] (get_transfers tx) ≡ ok cache
        → (s' : S) × (Store.new kv (some block) s ≡ (ok tt, s'))
          × IsTree kv s' h h (λ _. given cache)
          × IsOnly s' h (record { hashed_block = some block; diff = genesis_patches cache })
    unfolding Store.new open_with install_genesis make_genesis_block_diff genesis_diff apply_patches
        plant decode_diff_hash
    opened-IsTree s block h tx cache empty verified named single collected =
        let d : BlockWithDiff = record {
          hashed_block = some block;
          diff = genesis_patches cache;
        } in
        let sized = (decoded-sized (get_bytes block.hash) h named).0 in
        let (s₁, e₁, planted) = plant-IsPlanted s h d empty sized in
        let readable : HasBalances kv s₁ = λ q. (new_balance 0 0, planted.blank q) in
        let zero_before : (q : PublicKey) → balances kv s₁ q ≡ new_balance 0 0 =
          λ q. balances-ok kv s₁ q (new_balance 0 0) (planted.blank q) in
        let (s', e', acc, after) =
          genesis_patches-given (blocktree-IsLedger kv laws s₁) cache s₁
            (collect_tokens-IsGiven (get_transfers tx) [] cache tt collected)
            (record { readable = readable; tree = λ key other. refl }) (λ q. inr (zero_before q)) in
        let blocks : (k : HashDigest) → get_block_diff kv k s' ≡ get_block_diff kv k s₁ = λ k.
          get_block_diff_congr kv laws s₁ s' k
            (acc.tree (format_block_key k) (block_key-IsTreeKey kv laws k)) in
        let only = planted-IsOnly s₁ s' h d planted blocks in
        (
          s',
          rw
              (
                laws.store.get-eq s genesis_field,
                empty genesis_field,
                verified,
                named,
                single,
                collected,
              )
              (e₁ (apply_patches kv (genesis_patches cache)) ∙ e'),
          record {
            blocks =
                only-HasBlocks s' h d (λ _. given cache) named
                  (get_genesis_hash_congr kv laws s₁ s'
                      (acc.tree genesis_field (genesis_field-IsTreeKey kv laws))
                    ∙ planted.genesis_hash)
                  (blocks h ∙ planted.stored) only;
            head_hash =
                get_head_hash_congr kv laws s₁ s'
                  (acc.tree head_field (head_field-IsTreeKey kv laws))
                ∙ planted.head_hash;
            head_diff = d;
            head_stored = blocks h ∙ planted.stored;
            readable = acc.readable;
            at_head = λ q. ground (arith, after q, zero_before q);
          },
          only,
        )
