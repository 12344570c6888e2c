-- ===== src/Lib.antt =====
-- Ironcoin: a model of the node of a proof-of-stake currency, and what is proved of it.
--
-- The program keeps a tree of blocks in a key-value store, with the balances at its head. A block
-- holds signed transactions; each stored block carries the patches that lead from the balances at
-- its parent to those at the block, so that the head can move to any block of the tree. A staker
-- searches for the second at which one of its keys may make the next block. The service answers
-- requests and holds the transactions that wait for a block. The application polls its sockets in a
-- loop: it passes requests to the service, asks its peers for their blocks and passes on what they
-- send, and lets the staker search at each timeout. A wallet holds the keys, and the command line
-- describes the first block.
--
-- What each file models:
--   Base        lists, equality, maps, results (src/error.rs) and actions on a state
--   External    sodiumoxide, protobuf codecs and base64, as parameters with their documented laws
--   Message     the messages of src/proto/ironcoin_pb.proto: records of optional fields
--   Crypto      src/crypto.rs; Value and Order relate digests to the numbers that they stand for
--   Store       src/store.rs: the trait, its HashMap implementation, stored messages; Rocks has
--               RocksStore over a database, Laws what a store promises
--   Balance     src/balance.rs: Snapshot has the operations; View says what a snapshot shows;
--               Transfer, Spend, Over and Supply are about transfers, Ledger, Patches and Revert
--               about patches
--   Tx          src/tx.rs; Signed and Built are about its signatures
--   Block       src/block.rs; Verify is about its verification, Founding about the genesis builder
--   Blocktree   src/blocktree.rs: Keys, Genesis, Walk and Store have the operations; Tree states
--               when a store is a well-formed tree; Laws, Entries, Given, Steps, Ancestry, Moves,
--               Insertion, Growth, Planting, Granted, Opening and Reach are about it
--   Staking     src/staking.rs; Target, Start, Winner and Search are about the target and the
--               search
--   Service     src/service.rs: Requests, Traits, Pending, Heads, Answers, Sync and Client have the
--               operations; Mempool, Chain, Fetch, Settled, Incoming, Inserted, Received and Staked
--               are about them
--   App         src/app.rs: Socket is what it takes from nanomsg; Peer, State, Dispatch, Follow and
--               Loop have the operations; Safety, Exchange, Unserved and Handled are about them
--   Wallet      src/wallet.rs; Files has its files and texts; Names and Secrets are about names
--               and secret keys
--   Main        src/main.rs: the genesis block of the command line and the store of blocks; Commands
--               and Payments have the options; Texts, Start, Started and Paid are about
--               them
--   Tests       a hash, signatures and codecs that compute, and runs of the model with them
--
-- How the source is read. A function that may fail returns a Run: a value, an error or a panic. An
-- error is named by its message and the values that the message prints, and a description in an
-- answer, which is the text of an error, is that error. A method that changes its
-- object is an action from a state to an answer and a state, where an error keeps the changes made
-- before it. u64 and u32 sums wrap around, written out, as they do in Rust before 1.0, and an i64
-- is its bit pattern. A HashMap is an association list: its order stands for the order of
-- iteration, which is left open, and the theorems hold for each order. A struct of one field is
-- that field, as MessageStore and BlockTreeStore. The clock, random key pairs and the socket are
-- arguments, and what is printed is left out, but for the decoding that a print does.
--
-- Fuel. The loop of snapshot_at runs on one more than the sum of the two heights: each round lowers
-- one of them by one. The loop of get_blocktree runs on one more than the height of the head. Both
-- fuels are shown to be enough in a well-formed tree. The names that generate_name tries run on one
-- more than the number of key pairs, which is shown to be enough.
--
-- The event loop. A round is given what poll reports and what the reads of its two sockets answer;
-- the sockets of peers are handles into a world that nanomsg, a parameter, reads and changes. The
-- loop runs for the rounds of a list. What is written to the socket of requests is kept in order; a
-- round is also given what the write of its reply answers, and a write that fails adds no reply. The
-- count of timeouts and the index of a name are plain numbers.
--
-- Not modelled: how src/main.rs parses its options and what it prints, the library calls behind
-- the parameters (sockets, files, the database, random keys, codecs), the descriptors that app.rs
-- polls and what is closed when a value is dropped, and the traits that copy, print or wipe bytes.
pub mod Base
pub mod External
pub mod Message
pub mod Crypto
pub mod Store
pub mod Balance
pub mod Tx
pub mod Block
pub mod Blocktree
pub mod Staking
pub mod Wallet
pub mod Service
pub mod App
pub mod Main
pub mod Tests
