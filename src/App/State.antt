-- ===== src/App/State.antt =====
-- `Application` of app.rs, how it is made, and actions on its parts.
use ironcoin.Base.{ℕ, zero, suc, List, [], ◌∷◌, Bytes, map}
use ironcoin.Base.Action.{Action, lift, pure, reads, ◌>>=◌, ◌>>◌}
use ironcoin.Base.Run.{Run, ok, panic, Panic}
use ironcoin.App.Peer
use ironcoin.App.Peer.{Peer}
use ironcoin.App.Socket.{Nanomsg, Protocol}
use ironcoin.Block.{decode_hash, get_block}
use ironcoin.Crypto.PublicKey.{PublicKey}
use ironcoin.Crypto.SecretKey.{SecretKey}
use ironcoin.External.{Sodium}
use ironcoin.Message.Ledger.{WalletKeypair, get_num}
use ironcoin.Service.Traits.{HeadBlockPubService}
use ironcoin.Staking
use ironcoin.Staking.{Staker}

-- `world` is the state behind the sockets.
pub record Application (Service World Socket : Type 0) : Type 0 where
  pub app_public_key : PublicKey
  pub app_secret_key : SecretKey
  pub endpoint : Bytes
  pub peers : List (Peer Socket)
  pub service : Service
  pub staker : Staker
  pub sub_head_socket : Socket
  pub world : World

module _ {World Socket A : Type 0} where
  -- `self.peers[index]`, which panics out of bounds.
  unfoldable pub at_index :
      ℕ
      → Action (Peer Socket × World) A
      → List (Peer Socket)
      → World
      → Run A × List (Peer Socket) × World
  at_index index action [] world = (panic Panic.index_out_of_bounds, [], world)
  at_index zero action (peer ∷ peers) world =
      let (r, (peer', world')) = action (peer, world) in (r, peer' ∷ peers, world')
  at_index (suc index) action (peer ∷ peers) world =
      let (r, peers', world') = at_index index action peers world in (r, peer ∷ peers', world')

module _ {Service World Socket A : Type 0} where
  abbrev pub on_service : Action Service A → Action (Application Service World Socket) A
  on_service action app =
      let (r, service) = action app.service in (r, record app { service = service })

  abbrev pub on_staker : Action Staker A → Action (Application Service World Socket) A
  on_staker action app = let (r, staker) = action app.staker in (r, record app { staker = staker })

  abbrev pub read_service : (Service → Run A) → Action (Application Service World Socket) A
  read_service f app = (f app.service, app)

  unfoldable pub on_peer :
      ℕ → Action (Peer Socket × World) A → Action (Application Service World Socket) A
  unfolding at_index
  on_peer index action app =
      let (r, peers, world) = at_index index action app.peers app.world in
      (r, record app { peers = peers; world = world })

module _ {Service World Socket : Type 0} (head : HeadBlockPubService Service)
    (nanomsg : Nanomsg World Socket) ⦃sodium : Sodium⦄ where
  -- `Application::new`; the last two arguments are the key pair that `gen_keypair` answers with.
  unfoldable pub new :
      Bytes
      → Service
      → List Bytes
      → List WalletKeypair
      → PublicKey
      → SecretKey
      → Action World (Application Service World Socket)
  unfolding decode_hash get_block Peer.new Staking.new
  new endpoint service peer_endpoints staking_keys public_key secret_key = do
    sub_head_socket ← nanomsg.socket Protocol.sub
    nanomsg.subscribe [] sub_head_socket
    nanomsg.connect (head.get_pub_endpoint service) sub_head_socket
    head_block ← lift (head.current_head_block service)
    head_hash ← lift (decode_hash head_block)
    staker ← lift (Staking.new staking_keys head_hash (get_num (get_block head_block).timestamp))
    world ← reads (λ w. ok w)
    pure (record {
      app_public_key = public_key;
      app_secret_key = secret_key;
      endpoint = endpoint;
      peers = map Peer.new peer_endpoints;
      service = service;
      staker = staker;
      sub_head_socket = sub_head_socket;
      world = world;
    })
