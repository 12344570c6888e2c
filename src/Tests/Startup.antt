-- ===== src/Tests/Startup.antt =====
-- The theorem on the arguments of the daemon, with a base64 whose texts hold no colon.
use ironcoin.Base.{
  ℕ, ◌+◌, ◌-◌, ◌≡◌, ◌≢◌, refl, sym, ◌∙◌, ap, some, [], ◌∷◌, Bytes, All, map, ltb, arith,
  if◌then◌else◌, ==_refl, list_eq, nat_eq, List,
}
use ironcoin.Base.Run.{ok, err, IroncError}
use ironcoin.Block.{GenesisBuilder}
use ironcoin.Blocktree.Laws.{HasLaws}
use ironcoin.Blocktree.Planting.{IsEmpty}
use ironcoin.Blocktree.Tree.{IsTree}
use ironcoin.Crypto.HashDigest.{HashDigest}
use ironcoin.External.{Base64, IsBase64}
use ironcoin.Main.{create_genesis_block_from_cmdline, parse_transfer, split}
use ironcoin.Main.Start.{IsGift, argument, described}
use ironcoin.App.Handled.{Runs}
use ironcoin.App.Peer
use ironcoin.App.State.{Application}
use ironcoin.Blocktree.Reach.{Continues}
use ironcoin.Main.Commands.{start_node}
use ironcoin.Main.Started.{IsOpening, start_node-Continues}
use ironcoin.Service.State.{IroncService}
use ironcoin.Tests.Nodes.{nb_write, quiet}
use ironcoin.Message.Ledger.{HashedBlock, new_balance}
use ironcoin.Store.{HashMapStore, hash_map_store}
use ironcoin.Store.Laws.{hash_map-IsStore}
use ironcoin.Tests.Chain.{alice, bob, root, root_key}
use ironcoin.Tests.Coder.{codec-IsFaithful}
use ironcoin.Tests.Messages.{balance, block, block_with_diff, commitment, signed_block}
use ironcoin.Tests.World.{codecs, sodium, sodium-HasSizes}
use ironcoin.Tx.Built.{IsPair}

-- Each byte from the colon on moves up by one.
abbrev up : ℕ → ℕ
up c = if ltb c 58 then c else c + 1

abbrev down : ℕ → ℕ
down c = if ltb c 58 then c else c - 1

instance abbrev skipping : Base64
skipping = record { to_base64 = map up; from_base64 = λ text. ok (map down text) }

down-up : (c : ℕ) → down (up c) ≡ c
down-up c = ground arith

map-down : (bytes : Bytes) → map down (map up bytes) ≡ bytes
map-down [] = refl
map-down (c ∷ bytes) = rw (down-up c, map-down bytes) refl

up-apart : (c : ℕ) → up c ≢ b':'
up-apart c = ground arith

map-plain : (bytes : Bytes) → All (λ c. c ≢ b':') (map up bytes)
map-plain [] = tt
map-plain (c ∷ bytes) = (up-apart c, map-plain bytes)

skipping-IsBase64 : IsBase64 skipping
skipping-IsBase64 = record {
  from_base64-to_base64 = λ bytes. ap ok (map-down bytes);
  plain = map-plain;
}

laws : HasLaws hash_map_store
laws = record {
  store = hash_map-IsStore;
  balance = codec-IsFaithful balance;
  block_with_diff = codec-IsFaithful block_with_diff;
  base64_injective = λ a b e. sym (map-down a) ∙ ap (map down) e ∙ map-down b;
}

empty : IsEmpty hash_map_store laws []
unfolding laws hash_map-IsStore
empty key = refl

abbrev transfers : GenesisBuilder
transfers = (alice, 50) ∷ (bob, 20) ∷ (alice, 5) ∷ []

-- Alice's address is one byte, 11.
first_argument : argument (alice, 50) ≡ 11 ∷ b':' ∷ b'5' ∷ b'0' ∷ []
unfolding ironcoin.Wallet.decimal
first_argument = refl

no_amount :
    parse_transfer (split (11 ∷ b':' ∷ b'5' ∷ b'x' ∷ []))
    ≡ err (IroncError.not_an_amount (b'5' ∷ b'x' ∷ []))
unfolding parse_transfer split
no_amount = refl

asked : All IsGift transfers
asked = ((refl, omega arith), ((refl, omega arith), ((refl, omega arith), tt)))

root-IsPair : IsPair root_key root
root-IsPair = record {
  sized = refl;
  accepts = λ message. ==_refl (sodium.sign_detached message root_key.bytes);
}

-- The two amounts for Alice are added.
alice_gift : described transfers alice ≡ new_balance 55 0
unfolding ironcoin.Base.list_beq
alice_gift = refl

quiet-IsOpening : IsOpening quiet
quiet-IsOpening = record {
  socket-eq = λ protocol world. (tt, world, refl);
  subscribe-eq = λ topic socket world. (world, refl);
  connect-eq = λ endpoint socket world. (world, refl);
}

abbrev peers : List Bytes
peers = (b'p' ∷ []) ∷ (b'q' ∷ []) ∷ []

start_node-Continues_example :
    (block : HashedBlock) × (h : HashDigest) × (app : Application
      (IroncService HashMapStore (Unit {0}))
      (Unit {0})
      (Unit {0}))
    × (world' : Unit {0}) × (create_genesis_block_from_cmdline root root_key 1000
          (map argument transfers)
        ≡ ok block)
    × (start_node hash_map_store quiet
          (some block)
          []
          (b'i' ∷ [])
          (ok tt)
          (b'e' ∷ [])
          peers
          []
          bob
          root_key
          tt
        ≡ (ok app, world'))
    × (app.peers ≡ map Peer.new peers)
    × (app.service.pending_transactions ≡ [])
    × IsTree hash_map_store app.service.blocktree h h (λ _. described transfers)
    × ((node : Application (IroncService HashMapStore (Unit {0})) (Unit {0}) (Unit {0}))
        → Runs hash_map_store nb_write quiet app node
        → Continues hash_map_store app.service.blocktree h
            (λ _. described transfers)
            node.service.blocktree)
start_node-Continues_example =
    start_node-Continues hash_map_store quiet laws sodium-HasSizes quiet-IsOpening skipping-IsBase64
      (codec-IsFaithful block) (codec-IsFaithful signed_block) (codec-IsFaithful commitment)
      nb_write root root_key 1000 transfers [] (b'i' ∷ []) tt (b'e' ∷ []) peers [] bob root_key tt
      root-IsPair asked empty
