-- ===== src/Main.antt =====
-- main.rs: the genesis block that is described on the command line, and the store of blocks that is
-- opened for it. A text is its bytes.
pub mod Texts
pub mod Start
pub mod Payments
pub mod Paid
pub mod Commands
pub mod Started
use ironcoin.Base.{
  ℕ, ◌+◌, ◌*◌, ◌-◌, ◌^◌, ◌&&◌, Option, none, some, List, [], ◌∷◌, Bytes, nat_eq, ◌==◌, leb, ltb,
  if◌then◌else◌,
}
use ironcoin.Base.Action.{Action}
use ironcoin.Base.Run.{Run, ok, err, panic, ◌>>=◌, IroncError}
use ironcoin.Block.{GenesisBuilder, add_genesis_transfer, build}
use ironcoin.Blocktree.Store
use ironcoin.Crypto.PublicKey
use ironcoin.Crypto.PublicKey.{PublicKey}
use ironcoin.Crypto.SecretKey.{SecretKey}
use ironcoin.External.{Base64, Sodium}
use ironcoin.Message.Codecs.{Codecs}
use ironcoin.Message.Ledger.{HashedBlock}
use ironcoin.Store.{KeyValueStore}

abbrev pub push_front : ℕ → List Bytes → List Bytes
push_front c [] = (c ∷ []) ∷ []
push_front c (part ∷ parts) = (c ∷ part) ∷ parts

-- `split_str(":")`
unfoldable pub split : Bytes → List Bytes
split [] = [] ∷ []
split (c ∷ text) = let parts = split text in if c == b':' then [] ∷ parts else push_front c parts

-- The digits of `from_str` of an unsigned type, with its checks for overflow.
unfoldable pub parse_digits : ℕ → ℕ → Bytes → Option ℕ
parse_digits limit result [] = some result
parse_digits limit result (c ∷ text) =
    let next = result * 10 + (c - 48) in
    let rest = parse_digits limit next text in
    if leb 48 c && leb c 57 && ltb next limit then rest else none

-- `from_str`: an empty text is no number.
unfoldable pub parse_number : ℕ → Bytes → Option ℕ
unfolding parse_digits
parse_number limit [] = none
parse_number limit (c ∷ text) = parse_digits limit 0 (c ∷ text)

abbrev pub parse_u64 : Bytes → Option ℕ
parse_u64 text = parse_number (2 ^ 64) text

-- The amount of an argument, as it was parsed.
unfoldable pub with_amount : Bytes → PublicKey → Option ℕ → Run (PublicKey × ℕ)
with_amount amount destination (some tokens) = ok (destination, tokens)
with_amount amount destination none = err (IroncError.not_an_amount amount)

-- The address of an argument, as it was decoded, and then its amount.
unfoldable pub with_address : Bytes → Bytes → Run PublicKey → Run (PublicKey × ℕ)
unfolding with_amount parse_number
with_address address amount (ok destination) = with_amount amount destination (parse_u64 amount)
with_address address amount (err _) = err (IroncError.not_an_address address)
with_address address amount (panic p) = panic p

module _ ⦃sodium : Sodium⦄ ⦃base64 : Base64⦄ where
  -- One argument of `create_genesis_block_from_cmdline`, split into its parts.
  unfoldable pub parse_transfer : List Bytes → Run (PublicKey × ℕ)
  unfolding PublicKey.from_slice with_address
  parse_transfer (address ∷ amount ∷ []) =
      base64.from_base64 address
      >>= (λ bytes. with_address address amount (PublicKey.from_slice bytes))
  parse_transfer _ = err IroncError.not_a_transfer

  -- The loop over the arguments.
  unfoldable pub parse_transfers : GenesisBuilder → List Bytes → Run GenesisBuilder
  unfolding split parse_transfer add_genesis_transfer
  parse_transfers builder [] = ok builder
  parse_transfers builder (tx_str ∷ tx_strs) =
      parse_transfer (split tx_str) >>= (λ (destination, amount).
        parse_transfers (add_genesis_transfer destination amount builder) tx_strs)

  module _ ⦃codecs : Codecs⦄ where
    -- The key pair and the time are those that `build` takes.
    unfoldable pub create_genesis_block_from_cmdline :
        PublicKey → SecretKey → ℕ → List Bytes → Run HashedBlock
    unfolding parse_transfers
    create_genesis_block_from_cmdline public_key secret_key now tx_strs =
        parse_transfers [] tx_strs >>= (λ builder. build public_key secret_key now builder)

    -- The store of blocks over the database that is opened.
    unfoldable pub create_block_store :
        {S : Type 0} → KeyValueStore S → Option HashedBlock → Action S (Unit {0})
    unfolding Store.new
    create_block_store kv genesis = Store.new kv genesis
