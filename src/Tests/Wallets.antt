-- ===== src/Tests/Wallets.antt =====
-- The theorems on wallets, on one with the names addr1, addr2 and addr4.
use ironcoin.Base.{ℕ, ◌+◌, ◌≡◌, ◌≢◌, refl, none, some, [], ◌∷◌, All, list_beq, arith}
use ironcoin.Base.Run.{ok}
use ironcoin.Crypto.SecretKey.{SecretKey}
use ironcoin.Message.Ledger.{WalletKeypair}
use ironcoin.Tests.Chain.{bob}
use ironcoin.Tests.World.{sodium}
use ironcoin.Wallet.{
  Wallet, add_keypair, add_public_key, decode_secret_key, drop_keypairs_no_secret, generate_name,
  make_name,
}
use ironcoin.Wallet.Names.{IsNext, generate_name-IsNext}
use ironcoin.Wallet.Secrets.{drop_keypairs_no_secret_lem}

abbrev named : ℕ → WalletKeypair
named i = record {
  public_key = some (11 ∷ []);
  secret_key = some (11 ∷ []);
  name = some (make_name i);
}

abbrev wallet : Wallet
wallet = named 1 ∷ named 4 ∷ named 2 ∷ record (named 7) { secret_key = none } ∷ []

third : generate_name wallet ≡ ok (b'a' ∷ b'd' ∷ b'd' ∷ b'r' ∷ b'3' ∷ [])
unfolding generate_name list_beq
third = refl

generate_name-IsNext_example :
    (n : ℕ) × (generate_name wallet ≡ ok (make_name (n + 1))) × IsNext wallet n
generate_name-IsNext_example = generate_name-IsNext wallet

abbrev bob_key : SecretKey
bob_key = record { bytes = 22 ∷ [] }

one : sodium.secret_key_bytes ≢ 0
one e = omega (arith, e)

drop_keypairs_no_secret_lem_example :
    (drop_keypairs_no_secret (add_keypair (b'b' ∷ []) bob bob_key wallet)
      ≡ add_keypair (b'b' ∷ []) bob bob_key (drop_keypairs_no_secret wallet))
    × (drop_keypairs_no_secret (add_public_key (b'b' ∷ []) bob wallet)
        ≡ drop_keypairs_no_secret wallet)
    × All (λ kp. (sk : SecretKey) × (decode_secret_key kp ≡ ok sk)) (drop_keypairs_no_secret wallet)
drop_keypairs_no_secret_lem_example =
    drop_keypairs_no_secret_lem wallet (b'b' ∷ []) bob bob_key refl one
