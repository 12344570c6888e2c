-- ===== src/Main/Start.antt =====
-- From the arguments of main.rs to the tree of the block that they describe.
use ironcoin.Base.{
  ℕ, ◌+◌, ◌%◌, ◌^◌, ◌<◌, ◌≡◌, refl, ◌∙◌, ap, some, [], ◌∷◌, ◌++◌, Bytes, All, map, length, sym,
  subst, if◌then◌else◌, ◌==◌, list_eq, nat_eq, List,
}
use mathlib.Core.List.{append_assoc, append-nil}
use ironcoin.Base.Run.{ok}
use ironcoin.Balance.Transfer.{from_slice-eq}
use ironcoin.Block.{GenesisBuilder, decode_hash, add_genesis_transfer}
use ironcoin.Block.Founding.{build-IsGenesis, gifts}
use ironcoin.Blocktree.Laws.{HasLaws}
use ironcoin.Blocktree.Planting.{IsEmpty}
use ironcoin.Blocktree.Opening.{new-IsTree}
use ironcoin.Blocktree.Granted.{IsGrant, granted, tokens_to}
use ironcoin.Balance.View.{Accounts}
use mathlib.Core.Path.{fun_ext}
use ironcoin.Blocktree.Tree.{IsTree}
use ironcoin.Crypto.HashDigest.{HashDigest}
use ironcoin.Crypto.PublicKey.{PublicKey}
use ironcoin.Crypto.SecretKey.{SecretKey}
use ironcoin.External.{Base64, HasSizes, IsBase64, IsFaithful, Sodium}
use ironcoin.Main.{
  with_address, create_block_store, create_genesis_block_from_cmdline, parse_transfer,
  parse_transfers, split,
}
use ironcoin.Main.Texts.{amount_text, amount_text-NoColon, parse_number-amount_text, split-two}
use ironcoin.Message.Codecs.{Codecs}
use ironcoin.Message.Ledger.{HashedBlock, Transfer, get_transfers, new_balance}
use ironcoin.Store.{KeyValueStore}
use ironcoin.Tx.Built.{IsPair}

-- The amounts of all the transfers to an address together.
abbrev pub amount_to : PublicKey → GenesisBuilder → ℕ
amount_to q [] = 0
amount_to q ((destination, tokens) ∷ transfers) =
    (if destination.bytes == q.bytes then tokens else 0) + amount_to q transfers

-- The balances that transfers describe: each address has the sum of the amounts to it, as a `u64`.
abbrev pub described : GenesisBuilder → Accounts
described transfers q = new_balance (amount_to q transfers % 2 ^ 64) 0

tokens_to-gifts :
    (q source : PublicKey) (op_num : ℕ) (transfers : GenesisBuilder)
    → tokens_to q (gifts source op_num transfers) ≡ amount_to q transfers
tokens_to-gifts q source op_num [] = refl
tokens_to-gifts q source op_num ((destination, tokens) ∷ transfers) =
    ap (λ (n : ℕ). (if destination.bytes == q.bytes then tokens else 0) + n)
      (tokens_to-gifts q source ((op_num + 1) % 2 ^ 32) transfers)

granted-gifts :
    (source : PublicKey) (op_num : ℕ) (transfers : GenesisBuilder)
    → granted (gifts source op_num transfers) ≡ described transfers
granted-gifts source op_num transfers =
    fun_ext
      (λ q. ap (λ (n : ℕ). new_balance (n % 2 ^ 64) 0) (tokens_to-gifts q source op_num transfers))

module _ ⦃sodium : Sodium⦄ where
  -- A transfer that an argument can describe: an address, and an amount of 64 bits.
  abbrev pub IsGift : PublicKey × ℕ → Type 0
  IsGift (destination, tokens) =
      (length destination.bytes ≡ sodium.public_key_bytes) × (tokens < 2 ^ 64)

  gifts-IsGrant :
      (source : PublicKey) (op_num : ℕ) (transfers : GenesisBuilder)
      → All IsGift transfers
      → All IsGrant (gifts source op_num transfers)
  gifts-IsGrant source op_num [] h = tt
  gifts-IsGrant source op_num ((destination, tokens) ∷ transfers) (gift, h) =
      (gift, gifts-IsGrant source ((op_num + 1) % 2 ^ 32) transfers h)

  module _ ⦃base64 : Base64⦄ where
    -- `ADDR:AMOUNT`
    abbrev pub argument : PublicKey × ℕ → Bytes
    argument (destination, tokens) = base64.to_base64 destination.bytes ++ b':' ∷ amount_text tokens

    module _ (laws64 : IsBase64 base64) where
      parse_transfer-argument :
          (destination : PublicKey) (tokens : ℕ)
          → IsGift (destination, tokens)
          → parse_transfer (split (argument (destination, tokens))) ≡ ok (destination, tokens)
      unfolding parse_transfer
      parse_transfer-argument destination tokens (sized, small) =
          rw
            (
              split-two (base64.to_base64 destination.bytes) (amount_text tokens)
                  (laws64.plain destination.bytes) (amount_text-NoColon tokens),
              parse_transfer,
              laws64.from_base64-to_base64 destination.bytes,
              from_slice-eq destination.bytes destination refl sized,
              with_address,
              parse_number-amount_text (2 ^ 64) tokens small,
            )
            refl

      parse_transfers-arguments :
          (builder transfers : GenesisBuilder)
          → All IsGift transfers
          → parse_transfers builder (map argument transfers) ≡ ok (builder ++ transfers)
      unfolding parse_transfers add_genesis_transfer
      parse_transfers-arguments builder [] h = rw (append-nil builder) refl
      parse_transfers-arguments builder ((destination, tokens) ∷ transfers) (gift, h) =
          rw (parse_transfer-argument destination tokens gift) (
            parse_transfers-arguments (builder ++ (destination, tokens) ∷ []) transfers h
            ∙ rw (append_assoc builder ((destination, tokens) ∷ []) transfers) refl)

      module _ ⦃codecs : Codecs⦄ {S : Type 0} (kv : KeyValueStore S) where
        -- Arguments that describe transfers as they are asked for, addresses in base64 with amounts
        -- below 2^64: `create_genesis_block_from_cmdline` makes a block of them, with any key pair
        -- and at any time, and `create_block_store` on an empty store accepts it. The store is then
        -- a well-formed tree under that block, in which each address has the sum of what the
        -- arguments give it.
        pub create_block_store-arguments :
            (laws : HasLaws kv) (sizes : HasSizes sodium) (blocks : IsFaithful codecs.block)
            (signed_blocks : IsFaithful codecs.signed_block)
            (commitments : IsFaithful codecs.commitment) (pk : PublicKey) (sk : SecretKey) (now : ℕ)
            (transfers : GenesisBuilder) (s : S)
            → IsPair sk pk
            → All IsGift transfers
            → IsEmpty kv laws s
            → (block : HashedBlock) × (h : HashDigest) × (s' : S)
              × (create_genesis_block_from_cmdline pk sk now (map argument transfers) ≡ ok block)
              × (create_block_store kv (some block) s ≡ (ok tt, s'))
              × (decode_hash block ≡ ok h)
              × IsTree kv s' h h (λ _. described transfers)
        unfolding create_genesis_block_from_cmdline create_block_store
        create_block_store-arguments laws sizes blocks signed_blocks commitments pk sk now transfers
              s pair asked empty =
            let (block, made, genesis) =
              build-IsGenesis sizes blocks signed_blocks commitments pk sk now transfers pair in
            let grants : All IsGrant (get_transfers genesis.tx) =
              subst (λ (ts : List Transfer). All IsGrant ts) (sym genesis.given)
                (gifts-IsGrant pk 0 transfers asked) in
            let (s', _, e, tree, _) =
              new-IsTree kv laws s block genesis.hash genesis.tx empty genesis.verified
                genesis.named genesis.single grants in
            let same = ap granted genesis.given ∙ granted-gifts pk 0 transfers in
            (
              block,
              genesis.hash,
              s',
              rw (parse_transfers-arguments [] transfers asked) made,
              e,
              genesis.named,
              subst (λ (g : Accounts). IsTree kv s' genesis.hash genesis.hash (λ _. g)) same tree,
            )
