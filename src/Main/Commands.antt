-- ===== src/Main/Commands.antt =====
-- The options of main.rs on a wallet, on the file of a genesis block, and for the daemon. Where main
-- prints a message and returns, the answer is an error; where it unwraps, a panic.
use ironcoin.Base.{ℕ, Option, none, some, List, [], ◌∷◌, Bytes, map, get_or}
use ironcoin.Base.Action.{Action, lift, pure, ◌>>=◌, ◌>>◌}
use ironcoin.Base.Run
use ironcoin.Base.Run.{Run, ok, err, unwrap, IroncError}
use ironcoin.App.Socket.{Nanomsg}
use ironcoin.App.State as App
use ironcoin.App.State.{Application}
use ironcoin.Crypto.PublicKey
use ironcoin.Crypto.PublicKey.{PublicKey}
use ironcoin.Crypto.SecretKey.{SecretKey}
use ironcoin.External.{Base64, Codec, Sodium}
use ironcoin.Main.{create_block_store, create_genesis_block_from_cmdline, split}
use ironcoin.Message.Codecs.{Codecs}
use ironcoin.Message.Ledger.{HashedBlock, WalletKeypair}
use ironcoin.Service.State.{IroncService}
use ironcoin.Service.Traits as Service
use ironcoin.Service.Traits.{head_block_pub_service}
use ironcoin.Store.{KeyValueStore}
use ironcoin.Wallet.{Wallet, add_public_key, generate_name, generate_new_key, search_keys}
use ironcoin.Wallet.Files.{Files, load_from_file, load_proto_from_file, pretty_format, save_to_file}

-- `unwrap` of a call
abbrev pub unwrapped : {S A : Type 0} → Action S A → Action S A
unwrapped action s = let (r, s') = action s in (unwrap r, s')

-- The option `new`, with the key pair that `gen_keypair` answers with.
unfoldable pub new_key :
    PublicKey → SecretKey → Option Bytes → Wallet → Run (WalletKeypair × Wallet)
unfolding generate_name generate_new_key
new_key pk sk (some name) wallet = ok (generate_new_key pk sk name wallet)
new_key pk sk none wallet =
    Run.◌>>=◌ (generate_name wallet) (λ name. ok (generate_new_key pk sk name wallet))

-- The option `ls`: the texts that are printed.
unfoldable pub list_keys : ⦃base64 : Base64⦄ → Option Bytes → Wallet → List Bytes
unfolding search_keys pretty_format
list_keys pattern wallet = elim (get_or pattern []) [
  | [] ↦ map pretty_format wallet
  | c ∷ rest ↦ map pretty_format (search_keys (c ∷ rest) wallet)
]

module _ ⦃sodium : Sodium⦄ ⦃base64 : Base64⦄ where
  -- The option `add`, split into its parts.
  unfoldable pub add_parts : Wallet → List Bytes → Run Wallet
  unfolding PublicKey.from_slice add_public_key
  add_parts wallet (addr_name ∷ address ∷ []) =
      Run.◌>>=◌ (unwrap (base64.from_base64 address)) (λ bytes.
        Run.◌>>=◌ (unwrap (PublicKey.from_slice bytes))
          (λ public_key. ok (add_public_key addr_name public_key wallet)))
  add_parts wallet _ = err IroncError.not_a_key

  unfoldable pub add_address : Bytes → Wallet → Run Wallet
  unfolding add_parts split
  add_address addr_pattern wallet = add_parts wallet (split addr_pattern)

module _ {World File : Type 0} (files : Files World File) ⦃sodium : Sodium⦄ ⦃base64 : Base64⦄ where
  -- The options `f`, `new` and `add`.
  unfoldable pub use_wallet :
      Codec Wallet
      → PublicKey
      → SecretKey
      → Bytes
      → Option (Option Bytes)
      → Option Bytes
      → Action World Wallet
  unfolding new_key add_address load_from_file save_to_file
  use_wallet codec pk sk wallet_file new_name addr_pattern = do
    loaded ← unwrapped (load_from_file files codec wallet_file)
    wallet ← elim new_name [
      | some name ↦ do
        made ← lift (new_key pk sk name loaded)
        unwrapped (save_to_file files codec wallet_file made.1)
        pure made.1
      | none ↦ pure loaded
    ]
    elim addr_pattern [
      | some pattern ↦ do
        added ← lift (add_address pattern wallet)
        unwrapped (save_to_file files codec wallet_file added)
        pure added
      | none ↦ pure wallet
    ]

  module _ ⦃codecs : Codecs⦄ where
    -- The option `new-genesis`.
    unfoldable pub write_genesis :
        PublicKey → SecretKey → ℕ → Bytes → List Bytes → Action World (Unit {0})
    unfolding create_genesis_block_from_cmdline
    write_genesis public_key secret_key now genesis_path tx_strs = do
      genesis_block ← lift (create_genesis_block_from_cmdline public_key secret_key now tx_strs)
      genesis_out ← unwrapped (files.create_file genesis_path)
      genesis_bytes ← lift (unwrap (codecs.hashed_block.write_to_bytes genesis_block))
      files.write_all genesis_bytes genesis_out

    -- The option `g`.
    unfoldable pub read_genesis : Option Bytes → Action World (Option HashedBlock)
    unfolding load_proto_from_file
    read_genesis (some path) = do
      genesis ← load_proto_from_file files codecs.hashed_block path
      pure (some genesis)
    read_genesis none = pure none

module _ {S Pub World Socket : Type 0} (kv : KeyValueStore S) (nanomsg : Nanomsg World Socket)
    ⦃sodium : Sodium⦄ ⦃base64 : Base64⦄ ⦃codecs : Codecs⦄ where
  -- The option `d`, up to the loop: the tree over the store that was opened, the service with the
  -- endpoint and the socket that it publishes heads on, and the application with its key pair.
  unfoldable pub start_node :
      Option HashedBlock
      → S
      → Bytes
      → Run Pub
      → Bytes
      → List Bytes
      → Wallet
      → PublicKey
      → SecretKey
      → Action World (Application (IroncService S Pub) World Socket)
  unfolding create_block_store Service.new App.new head_block_pub_service
  start_node genesis store pub_endpoint bound rpc_endpoint peers wallet public_key secret_key =
      let (opened, blocktree) = create_block_store kv genesis store in
      do
        lift opened
        service ← lift (unwrap (Service.new kv pub_endpoint bound blocktree))
        unwrapped (
            App.new (head_block_pub_service kv) nanomsg rpc_endpoint service peers wallet public_key
              secret_key)
