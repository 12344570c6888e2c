-- ===== src/Tests/World.antt =====
-- A small world to run the model in: a hash, signatures, texts and codecs that can be computed.
use ironcoin.Base.Run.{ok}
use ironcoin.Base.{
  ℕ, ◌+◌, ◌*◌, ◌%◌, ◌≡◌, refl, [], ◌∷◌, Bytes, ◌==◌, nat_eq, list_eq, length, replicate, arith,
}
use ironcoin.External.{Base64, HasSizes, Sodium}
use ironcoin.Blocktree.Laws.{HasLaws}
use ironcoin.Blocktree.Planting.{IsEmpty}
use ironcoin.Message.Codecs.{Codecs}
use ironcoin.Store.{hash_map_store}
use ironcoin.Store.Laws.{hash_map-IsStore}
use ironcoin.Tests.Coder.{codec, codec-IsFaithful}
use ironcoin.Tests.Messages.{
  balance, block, block_with_diff, commitment, hashed_block, signed_block,
}
use ironcoin.Tests.Wire.{rpc_request, rpc_response, signed_rpc_request}

abbrev mix : Bytes → ℕ
mix [] = 7
mix (b ∷ rest) = (b + 31 * mix rest) % 251

abbrev digest : Bytes → Bytes
digest message = mix message ∷ replicate 7 0

abbrev sign_with : Bytes → Bytes → Bytes
sign_with message [] = 0 ∷ 0 ∷ []
sign_with message (key ∷ _) = key ∷ mix message ∷ []

-- The public key is the secret one.
instance abbrev pub sodium : Sodium
sodium = record {
  hash_bytes = 8;
  public_key_bytes = 1;
  secret_key_bytes = 1;
  signature_bytes = 2;
  sha512 = digest;
  sign_detached = sign_with;
  verify_detached = λ signature message key. signature == sign_with message key;
}

length-sign_with : (message key : Bytes) → length (sign_with message key) ≡ 2
length-sign_with message [] = refl
length-sign_with message (key ∷ _) = refl

pub sodium-HasSizes : HasSizes sodium
sodium-HasSizes = record {
  digest_room = omega arith;
  length-sha512 = λ message. refl;
  length-sign = length-sign_with;
}

instance abbrev pub base64 : Base64
base64 = record { to_base64 = λ bytes. bytes; from_base64 = λ text. ok text }

instance abbrev pub codecs : Codecs
codecs = record {
  balance = codec balance;
  block = codec block;
  block_with_diff = codec block_with_diff;
  commitment = codec commitment;
  hashed_block = codec hashed_block;
  signed_block = codec signed_block;
  rpc_request = codec rpc_request;
  signed_rpc_request = codec signed_rpc_request;
  rpc_response = codec rpc_response;
}

pub hash_map-HasLaws : HasLaws hash_map_store
hash_map-HasLaws = record {
  store = hash_map-IsStore;
  balance = codec-IsFaithful balance;
  block_with_diff = codec-IsFaithful block_with_diff;
  base64_injective = λ a b e. e;
}

pub nothing-IsEmpty : IsEmpty hash_map_store hash_map-HasLaws []
unfolding hash_map-HasLaws hash_map-IsStore
nothing-IsEmpty key = refl
