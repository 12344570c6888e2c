-- ===== src/Wallet/Files.antt =====
-- The files of wallet.rs: messages that are read from a file and written to one, and the text of a
-- key pair. A text is its bytes.
use ironcoin.Base.{ℕ, [], ◌∷◌, ◌++◌, Bytes}
use ironcoin.Base.Action.{Action, lift, ◌>>=◌}
use ironcoin.External.{Base64, Codec}
use ironcoin.Message.Ledger.{WalletKeypair, get_bytes}
use ironcoin.Wallet.{Wallet}

-- Files of the standard library: opened and read to the end, created, and written to.
pub record Files (World File : Type 0) : Type 0 where
  pub open_file : Bytes → Action World File
  pub create_file : Bytes → Action World File
  pub read_to_end : File → Action World Bytes
  pub write_all : Bytes → File → Action World (Unit {0})

module _ {World File : Type 0} (files : Files World File) where
  unfoldable pub load_proto_from_file : {M : Type 0} → Codec M → Bytes → Action World M
  load_proto_from_file codec path = do
    proto_in ← files.open_file path
    wallet_bytes ← files.read_to_end proto_in
    lift (codec.parse_from_bytes wallet_bytes)

  unfoldable pub save_proto_to_file : {M : Type 0} → Codec M → Bytes → M → Action World (Unit {0})
  save_proto_to_file codec path msg = do
    proto_out ← files.create_file path
    wallet_bytes ← lift (codec.write_to_bytes msg)
    files.write_all wallet_bytes proto_out

  unfoldable pub load_from_file : Codec Wallet → Bytes → Action World Wallet
  unfolding load_proto_from_file
  load_from_file codec path = load_proto_from_file codec path

  unfoldable pub save_to_file : Codec Wallet → Bytes → Wallet → Action World (Unit {0})
  unfolding save_proto_to_file
  save_to_file codec path wallet = save_proto_to_file codec path wallet

unfoldable pub pretty_format : ⦃base64 : Base64⦄ → WalletKeypair → Bytes
pretty_format ⦃base64⦄ wallet_key =
    let pk = base64.to_base64 (get_bytes wallet_key.public_key) in
    let sk = base64.to_base64 (get_bytes wallet_key.secret_key) in
    let newline : ℕ = 10 in
    (b'[' ∷ b' ' ∷ [])
    ++ pk
    ++ (b' ' ∷ b']' ∷ newline ∷ b' ' ∷ b'n' ∷ b'a' ∷ b'm' ∷ b'e' ∷ b':' ∷ b' ' ∷ [])
    ++ get_bytes wallet_key.name
    ++ (newline ∷ b' ' ∷ b' ' ∷ b' ' ∷ b'p' ∷ b'k' ∷ b':' ∷ b' ' ∷ [])
    ++ pk
    ++ (newline ∷ b' ' ∷ b' ' ∷ b' ' ∷ b's' ∷ b'k' ∷ b':' ∷ b' ' ∷ [])
    ++ sk
    ++ (newline ∷ [])
