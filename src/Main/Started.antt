-- ===== src/Main/Started.antt =====
-- The daemon of main.rs from its arguments on: the node that it starts, and the runs of that node.
use ironcoin.Base.{ℕ, ◌-◌, ◌≡◌, refl, sym, ap, subst, some, [], List, Bytes, All, map, arith}
use ironcoin.Base.Run.{ok}
use ironcoin.Base.Action.{Action}
use ironcoin.App.Handled.{Runs, Runs-Continues}
use ironcoin.App.Peer
use ironcoin.App.Socket.{Nanomsg, Protocol}
use ironcoin.App.State as App
use ironcoin.App.State.{Application}
use ironcoin.Block.{GenesisBuilder, decode_diff_hash, get_block}
use ironcoin.Blocktree.Laws.{HasLaws}
use ironcoin.Blocktree.Planting.{IsEmpty}
use ironcoin.Blocktree.Reach.{Continues}
use ironcoin.Blocktree.Tree.{IsTree, States}
use ironcoin.Crypto.HashDigest.{HashDigest}
use ironcoin.Crypto.PublicKey.{PublicKey}
use ironcoin.Crypto.SecretKey.{SecretKey}
use ironcoin.External.{Base64, HasSizes, IsBase64, IsFaithful, Sodium}
use ironcoin.Main.{create_genesis_block_from_cmdline}
use ironcoin.Main.Commands.{start_node}
use ironcoin.Main.Start.{IsGift, argument, described, create_block_store-arguments}
use ironcoin.Message.Codecs.{Codecs}
use ironcoin.Message.Ledger.{HashedBlock, get_hashed_block, get_num}
use ironcoin.Service.Received.{get_head-eq}
use ironcoin.Service.State.{IroncService}
use ironcoin.Service.Traits as Service
use ironcoin.Service.Traits.{head_block_pub_service}
use ironcoin.Staking.Start.{new-IsStaker}
use ironcoin.Store.{KeyValueStore}
use ironcoin.Tx.Built.{IsPair}
use ironcoin.Wallet.{Wallet}

-- Sockets that can be made, subscribed and connected.
pub record IsOpening {World Socket : Type 0} (nanomsg : Nanomsg World Socket) : Type 0 where
  pub socket-eq :
      (protocol : Protocol) (world : World)
      → (socket : Socket) × (world' : World) × (nanomsg.socket protocol world ≡ (ok socket, world'))
  pub subscribe-eq :
      (topic : Bytes) (socket : Socket) (world : World)
      → (world' : World) × (nanomsg.subscribe topic socket world ≡ (ok tt, world'))
  pub connect-eq :
      (endpoint : Bytes) (socket : Socket) (world : World)
      → (world' : World) × (nanomsg.connect endpoint socket world ≡ (ok tt, world'))

module _ {S Pub World Socket : Type 0} (kv : KeyValueStore S) (nanomsg : Nanomsg World Socket)
    ⦃sodium : Sodium⦄ ⦃base64 : Base64⦄ ⦃codecs : Codecs⦄ (laws : HasLaws kv)
    (sizes : HasSizes sodium) (opening : IsOpening nanomsg) where
  -- What a start leaves: the service that it was given, and a peer for each endpoint.
  record IsRunning (service : IroncService S Pub) (peers : List Bytes)
      (app : Application (IroncService S Pub) World Socket) : Type 0 where
    same : app.service ≡ service
    peers_made : app.peers ≡ map Peer.new peers

  new-IsRunning :
      (endpoint : Bytes) (service : IroncService S Pub) (peers : List Bytes) (wallet : Wallet)
      (pk : PublicKey) (sk : SecretKey) (world : World) (genesis head : HashDigest) (state : States)
      → IsTree kv service.blocktree genesis head state
      → (app : Application (IroncService S Pub) World Socket) × (world' : World) × (App.new
            (head_block_pub_service kv)
            nanomsg
            endpoint
            service
            peers
            wallet
            pk
            sk
            world
          ≡ (ok app, world'))
        × IsRunning service peers app
  unfolding App.new head_block_pub_service decode_diff_hash
  new-IsRunning endpoint service peers wallet pk sk world genesis head state tree =
      let (socket, w₁, made) = opening.socket-eq Protocol.sub world in
      let (w₂, subscribed) = opening.subscribe-eq [] socket w₁ in
      let (w₃, connected) = opening.connect-eq service.pub_block_endpoint_str socket w₂ in
      let block = get_hashed_block tree.head_diff in
      let (staker, started, _, _, _, _) =
        new-IsStaker sizes (sodium.hash_bytes - 1) wallet head (get_num (get_block block).timestamp)
          (omega (arith, sizes.digest_room)) in
      (
        record {
          app_public_key = pk;
          app_secret_key = sk;
          endpoint = endpoint;
          peers = map Peer.new peers;
          service = service;
          staker = staker;
          sub_head_socket = socket;
          world = w₃;
        },
        w₃,
        rw
            (
              made,
              subscribed,
              connected,
              get_head-eq kv laws service.blocktree genesis head state tree,
              tree.blocks.hashes head tree.head_diff tree.head_stored,
              started,
            )
            refl,
        record { same = refl; peers_made = refl },
      )

  -- The daemon from its arguments on. Arguments that describe transfers as they are asked for make
  -- a genesis block, and over an empty store and sockets that open, that block starts a node: its
  -- block tree is well formed under the genesis, each address has the sum of the amounts that the
  -- arguments give it, modulo 2^64, and there is a peer for each endpoint and no pending
  -- transaction. However the handlers of the event loop are then called, the tree stays well formed
  -- and keeps its blocks with their balances, where new blocks have new hashes and heights with
  -- room.
  pub start_node-Continues :
      (laws64 : IsBase64 base64) (blocks : IsFaithful codecs.block)
      (signed_blocks : IsFaithful codecs.signed_block) (commitments : IsFaithful codecs.commitment)
      (nb_write : Bytes → Action Pub (Unit {0})) (genesis_pk : PublicKey) (genesis_sk : SecretKey)
      (now : ℕ) (transfers : GenesisBuilder) (s : S) (pub_endpoint : Bytes) (pub_socket : Pub)
      (endpoint : Bytes) (peers : List Bytes) (wallet : Wallet) (pk : PublicKey) (sk : SecretKey)
      (world : World)
      → IsPair genesis_sk genesis_pk
      → All IsGift transfers
      → IsEmpty kv laws s
      → (block : HashedBlock) × (h : HashDigest) × (app : Application
          (IroncService S Pub)
          World
          Socket)
        × (world' : World) × (create_genesis_block_from_cmdline genesis_pk genesis_sk now
              (map argument transfers)
            ≡ ok block)
        × (start_node kv nanomsg
              (some block)
              s
              pub_endpoint
              (ok pub_socket)
              endpoint
              peers
              wallet
              pk
              sk
              world
            ≡ (ok app, world'))
        × (app.peers ≡ map Peer.new peers)
        × (app.service.pending_transactions ≡ [])
        × IsTree kv app.service.blocktree h h (λ _. described transfers)
        × ((node : Application (IroncService S Pub) World Socket)
            → Runs kv nb_write nanomsg app node
            → Continues kv app.service.blocktree h
                (λ _. described transfers)
                node.service.blocktree)
  unfolding start_node Service.new
  start_node-Continues laws64 blocks signed_blocks commitments nb_write genesis_pk genesis_sk now
        transfers s pub_endpoint pub_socket endpoint peers wallet pk sk world pair asked empty =
      let (block, h, s', made, opened, _, tree) =
        create_block_store-arguments laws64 kv laws sizes blocks signed_blocks commitments
          genesis_pk genesis_sk now transfers s pair asked empty in
      let service : IroncService S Pub = record {
        blocktree = s';
        pending_transactions = [];
        pub_block_socket = pub_socket;
        pub_block_endpoint_str = pub_endpoint;
      } in
      let states : States = λ _. described transfers in
      let (app, world', started, running) =
        new-IsRunning endpoint service peers wallet pk sk world h h states tree in
      let grown : IsTree kv app.service.blocktree h h states =
        subst (λ (x : IroncService S Pub). IsTree kv x.blocktree h h states) (sym running.same)
          tree in
      (
        block,
        h,
        app,
        world',
        made,
        rw (opened, tree.head_hash, started) refl,
        running.peers_made,
        ap (λ (x : IroncService S Pub). x.pending_transactions) running.same,
        grown,
        λ node run. Runs-Continues kv nb_write nanomsg laws app node h h states run grown,
      )
