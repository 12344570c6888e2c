-- ===== src/Tests/Messages.antt =====
-- Codecs that can be computed, for the ledger messages.
use ironcoin.Base.{refl, Bytes}
use ironcoin.Message.Ledger.{
  Balance, BalancePatch, Block, BlockWithDiff, Commitment, DetachedSignature, HashedBlock,
  SignedBlock, Transaction, Transfer,
}
use ironcoin.Tests.Coder.{Coder, along, list, num, option, pair}

abbrev pub bytes : Coder Bytes
bytes = list num

abbrev pub balance : Coder Balance
balance =
    along (pair (option num) (option num)) (λ (t, i). record { tokens = t; op_index = i })
      (λ b. (b.tokens, b.op_index)) (λ b. refl)

abbrev transfer : Coder Transfer
transfer =
    along (pair (option num) (pair (option num) (pair (option bytes) (option bytes))))
      (λ (i, (t, (s, d))). record { op_index = i; tokens = t; source_pk = s; destination_pk = d })
      (λ t. (t.op_index, (t.tokens, (t.source_pk, t.destination_pk)))) (λ t. refl)

abbrev pub commitment : Coder Commitment
commitment =
    along (pair (option bytes) (pair (option num) (list transfer)))
      (λ (p, (b, ts)). record { bounty_pk = p; bounty = b; transfers = ts })
      (λ c. (c.bounty_pk, (c.bounty, c.transfers))) (λ c. refl)

abbrev signature : Coder DetachedSignature
signature =
    along (pair (option bytes) (option bytes)) (λ (k, p). record { public_key = k; payload = p })
      (λ s. (s.public_key, s.payload)) (λ s. refl)

abbrev pub transaction : Coder Transaction
transaction =
    along (pair (list signature) (option commitment))
      (λ (s, c). record { signatures = s; commit = c }) (λ t. (t.signatures, t.commit)) (λ t. refl)

abbrev pub block : Coder Block
block =
    along
      (pair (option bytes) (
        pair (option bytes)
          (pair (option num) (pair (option num) (pair (option bytes) (list transaction))))))
      (λ (s, (p, (t, (h, (g, txs))))). record {
        staker_pk = s;
        previous = p;
        timestamp = t;
        height = h;
        target_hash = g;
        transactions = txs;
      })
      (λ b. (b.staker_pk, (b.previous, (b.timestamp, (b.height, (b.target_hash, b.transactions))))))
      (λ b. refl)

abbrev pub signed_block : Coder SignedBlock
signed_block =
    along (pair (option bytes) (option block)) (λ (s, b). record { signature = s; block = b })
      (λ s. (s.signature, s.block)) (λ s. refl)

abbrev pub hashed_block : Coder HashedBlock
hashed_block =
    along (pair (option bytes) (option signed_block))
      (λ (h, s). record { hash = h; signed_block = s }) (λ b. (b.hash, b.signed_block)) (λ b. refl)

abbrev patch : Coder BalancePatch
patch =
    along (pair (option bytes) (pair (option balance) (option balance)))
      (λ (k, (b, a)). record { public_key = k; before = b; after = a })
      (λ p. (p.public_key, (p.before, p.after))) (λ p. refl)

abbrev pub block_with_diff : Coder BlockWithDiff
block_with_diff =
    along (pair (option hashed_block) (list patch))
      (λ (b, d). record { hashed_block = b; diff = d }) (λ d. (d.hashed_block, d.diff)) (λ d. refl)
