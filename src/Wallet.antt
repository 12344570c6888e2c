-- ===== src/Wallet.antt =====
-- wallet.rs: the key pairs of a wallet, their names, and how they are searched. A name is the bytes
-- of its text, and the random key pair of `generate_new_key` is an argument.
pub mod Names
pub mod Secrets
pub mod Files
use ironcoin.Base.{
  ℕ, zero, suc, ◌+◌, ◌/◌, ◌%◌, Bool, true, false, ◌||◌, Option, none, some, List, [], ◌∷◌, ◌++◌,
  Bytes, nat_eq, list_eq, ◌==◌, keep, length, ltb, get_or, if◌then◌else◌,
}
use ironcoin.Base.Run.{Run, ok, err, panic, Panic, ◌>>=◌}
use ironcoin.Crypto.PublicKey
use ironcoin.Crypto.PublicKey.{PublicKey}
use ironcoin.Crypto.SecretKey
use ironcoin.Crypto.SecretKey.{SecretKey}
use ironcoin.External.{Base64, Sodium}
use ironcoin.Message.Ledger.{WalletKeypair, get_bytes}

abbrev pub Wallet : Type 0
Wallet = List WalletKeypair

unfoldable pub add_keypair : Bytes → PublicKey → SecretKey → Wallet → Wallet
add_keypair name public_key secret_key wallet =
    wallet
    ++ record {
      public_key = some public_key.bytes;
      secret_key = some secret_key.bytes;
      name = some name;
    }
      ∷ []

unfoldable pub add_public_key : Bytes → PublicKey → Wallet → Wallet
add_public_key name public_key wallet =
    wallet
    ++ record { public_key = some public_key.bytes; secret_key = none; name = some name } ∷ []

-- The answer is a copy of the new key pair.
unfoldable pub generate_new_key : PublicKey → SecretKey → Bytes → Wallet → WalletKeypair × Wallet
generate_new_key public_key secret_key name wallet =
    let key : WalletKeypair = record {
      public_key = some public_key.bytes;
      secret_key = some secret_key.bytes;
      name = some name;
    } in
    (key, wallet ++ key ∷ [])

-- The decimal digits of a number before some bytes, as `format!` writes them.
unfoldable pub decimal : ℕ → ℕ → Bytes → Bytes
decimal zero n rest = rest
decimal (suc fuel) n rest = elim (ltb n 10) [
  | true ↦ (48 + n) ∷ rest
  | false ↦ decimal fuel (n / 10) ((48 + n % 10) ∷ rest)
]

-- `format!("addr{}", i)`
unfoldable pub make_name : ℕ → Bytes
unfolding decimal
make_name i = b'a' ∷ b'd' ∷ b'd' ∷ b'r' ∷ decimal (suc i) i []

unfoldable pub already_exists : Wallet → Bytes → Bool
already_exists wallet name = ltb 0 (length (keep (λ k. get_bytes k.name == name) wallet))

-- The last number of `count(1, 1)` before the first name that is free.
unfoldable pub last_taken : ℕ → ℕ → Option ℕ → Wallet → Run (Option ℕ)
unfolding already_exists make_name
last_taken zero i last wallet = panic Panic.fuel_exhausted
last_taken (suc fuel) i last wallet = elim (already_exists wallet (make_name i)) [
  | true ↦ last_taken fuel (i + 1) (some i) wallet
  | false ↦ ok last
]

unfoldable pub generate_name : Wallet → Run Bytes
unfolding last_taken make_name
generate_name wallet =
    last_taken (suc (length wallet)) 1 none wallet >>= (λ last. ok (make_name (get_or last 0 + 1)))

unfoldable pub starts_with : Bytes → Bytes → Bool
starts_with text [] = true
starts_with [] (p ∷ prefix) = false
starts_with (c ∷ text) (p ∷ prefix) = if c == p then starts_with text prefix else false

unfoldable pub search_keys : ⦃base64 : Base64⦄ → Bytes → Wallet → List WalletKeypair
unfolding starts_with
search_keys ⦃base64⦄ search_str wallet =
    keep
      (λ wkey.
        starts_with (get_bytes wkey.name) search_str
        || starts_with (base64.to_base64 (get_bytes wkey.public_key)) search_str)
      wallet

module _ ⦃sodium : Sodium⦄ where
  unfoldable pub decode_public_key : WalletKeypair → Run PublicKey
  unfolding PublicKey.from_slice
  decode_public_key keypair = PublicKey.from_slice (get_bytes keypair.public_key)

  unfoldable pub decode_secret_key : WalletKeypair → Run SecretKey
  unfolding SecretKey.from_slice
  decode_secret_key keypair = SecretKey.from_slice (get_bytes keypair.secret_key)

  abbrev pub is_ok {ℓ} : {A : Type ℓ} → Run A → Bool
  is_ok (ok _) = true
  is_ok _ = false

  unfoldable pub drop_keypairs_no_secret : Wallet → Wallet
  unfolding decode_secret_key
  drop_keypairs_no_secret wallet = keep (λ kp. is_ok (decode_secret_key kp)) wallet
