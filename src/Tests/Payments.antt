-- ===== src/Tests/Payments.antt =====
-- The theorem on transfers of the command line, with a wallet of two key pairs.
use ironcoin.Base.{◌≡◌, refl, none, some, [], ◌∷◌, map, arith, list_beq, ==_refl, list_eq, nat_eq}
use ironcoin.Base.Run.{ok, ◌>>=◌}
use ironcoin.Main.Paid.{
  IsPayable, Payment, build_payments-verify_signatures, payment_text, transfer_of,
}
use ironcoin.Main.Payments.{build_payments}
use ironcoin.Message.Ledger.{Transaction, get_commit, get_transfers}
use ironcoin.Tests.Chain.{alice, bob}
use ironcoin.Tests.Coder.{codec-IsFaithful}
use ironcoin.Tests.Messages.{commitment}
use ironcoin.Tests.World.{base64, codecs, sodium, sodium-HasSizes}
use ironcoin.Tx.{verify_signatures}
use ironcoin.Wallet.{Wallet}

abbrev wallet : Wallet
wallet =
    record {
      public_key = some (11 ∷ []);
      secret_key = some (11 ∷ []);
      name = some (b'a' ∷ b'l' ∷ []);
    }
    ∷ record { public_key = some (22 ∷ []); secret_key = none; name = some (b'b' ∷ b'o' ∷ []) }
    ∷ []

abbrev first : Payment
first = record {
  source = b'a' ∷ [];
  destination = b'b' ∷ b'o' ∷ [];
  amount = 20;
  op_number = 0;
  source_sk = record { bytes = 11 ∷ [] };
  source_pk = alice;
  destination_pk = bob;
}

abbrev second : Payment
second = record first { amount = 5; op_number = 1 }

first-IsPayable : IsPayable wallet first
unfolding ironcoin.Wallet.search_keys list_beq ironcoin.Wallet.decode_secret_key
    ironcoin.Wallet.decode_public_key
first-IsPayable = record {
  source_plain = ground arith;
  destination_plain = ground arith;
  amount_small = omega arith;
  op_small = omega arith;
  from = _;
  to = _;
  found_source = refl;
  found_destination = refl;
  secret = refl;
  public = refl;
  receiver = refl;
  pair = record {
    sized = refl;
    accepts = λ message. ==_refl (sodium.sign_detached message (11 ∷ []));
  };
}

second-IsPayable : IsPayable wallet second
second-IsPayable = record {
  source_plain = first-IsPayable.source_plain;
  destination_plain = first-IsPayable.destination_plain;
  amount_small = omega arith;
  op_small = omega arith;
  from = first-IsPayable.from;
  to = first-IsPayable.to;
  found_source = first-IsPayable.found_source;
  found_destination = first-IsPayable.found_destination;
  secret = first-IsPayable.secret;
  public = first-IsPayable.public;
  receiver = first-IsPayable.receiver;
  pair = first-IsPayable.pair;
}

build_payments-verify_signatures_example :
    (tx : Transaction) × (build_payments wallet (map payment_text (first ∷ second ∷ [])) ≡ ok tx)
    × (get_transfers tx ≡ map transfer_of (first ∷ second ∷ []))
    × (verify_signatures tx ≡ ok tt)
build_payments-verify_signatures_example =
    build_payments-verify_signatures wallet sodium-HasSizes (codec-IsFaithful commitment)
      (first ∷ second ∷ []) (first-IsPayable, (second-IsPayable, tt))

-- With two transfers the payer of the bounty is no key: it has the bytes of both.
two_bounties :
    (build_payments wallet (map payment_text (first ∷ second ∷ []))
      >>= (λ tx. ok (get_commit tx).bounty_pk))
    ≡ ok (some (11 ∷ 11 ∷ []))
unfolding build_payments ironcoin.Wallet.decimal list_beq
two_bounties = refl
