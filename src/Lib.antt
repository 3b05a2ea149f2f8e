-- ===== src/Lib.antt =====
-- Spaced: names on Bitcoin that are auctioned, transferred and renewed by ordinary transactions. The
-- development models the protocol crate, the node's state of the chain, its synchronisation and its
-- block source, and of the wallet the parts that meet the protocol.
--
-- The parts and how they interact. A transaction is prepared (`TxContext::from_tx` in
-- protocol/src/prepare.rs): the outputs with spaces that it spends, the scripts that its inputs
-- reveal and the bid that it carries are loaded from a data source. The validator
-- (protocol/src/validate.rs) turns the context into a change set: inputs spent, outputs created, and
-- updates of outputs that are not of the transaction. The node (node/src/node.rs) applies the change
-- set to the state (node/src/store.rs), which is the data source of the next transaction. Once in
-- 144 blocks a batch of spaces leaves the pre-auction by `Validator::rollout`. Blocks are fetched by
-- workers in any order and emitted in that of the chain (node/src/source.rs), applied one by one and
-- committed every 36 blocks, and rolled back to a commit when the chain is reorganised
-- (node/src/sync.rs). The wallet (wallet/src) makes the outputs, bids and transactions that the
-- protocol reads.
--
--   Base, Bitcoin    lists, Boolean tests, results (protocol/src/errors.rs); the `bitcoin` crate: its
--                    data, and its operations as a record of parameters with a record of laws
--   Label            protocol/src/slabel.rs: Grammar and Owned for the wire form, Text for strings,
--                    Utf8 for the decoding of text, Codec for bincode and serde
--   Keys             protocol/src/hasher.rs: Kinds, Priority and Order for what the keys promise the
--                    store, over the bytes of Bytes
--   Spaces           protocol/src/lib.rs, with Signing for the bid that an output carries, Refund on
--                    the transaction that it signs, Spends on the form of a bid spend, and Constants
--                    for protocol/src/constants.rs
--   Script           protocol/src/script.rs, with Create for scripts that are written and read back
--   Prepare          protocol/src/prepare.rs, with Inputs and Relevant on `from_tx`
--   Validate         protocol/src/validate.rs: Transfer, BidSpend, Spend, Opening, Process and
--                    Rollout hold the methods; Cases, Outcomes, OpenParts and Openings specify the
--                    outcomes of a step; Creates, ProcessCreates, FinalCreates, Flags and Tracking treat the created
--                    outputs, Updates and ProcessUpdates the updates; Raise is on bids, Batch on the
--                    rollout, TakenBack and Panics on reserved spaces
--   Store            node/src/store.rs: the staged changes over a snapshot and their commit, with
--                    Overlay on reads, Contents and Refines on the state as a map, and Follows on
--                    what the application of a block keeps
--   Node             node/src/node.rs: `apply_tx`, with Found on created spaces and Dangling on
--                    expired ones; Block holds `apply_block` and the batch of a rollout, with Writes,
--                    Batch and Advance on what it keeps and Listing on the order of the batch
--   Sync             node/src/sync.rs: `handle_block` and `restore`, with Restored on the commit that
--                    is rolled back to, and Reachable on the states when a block arrives
--   Checker          node/src/checker.rs: a transaction tried on an overlay of the state, with
--                    Recorded and Overlay on what the overlay answers, and Safe on what passes the
--                    checks
--   Source           node/src/source.rs: repeated calls with Retries and Awaited, hexadecimal digits
--                    with Hex, the workers in Workers with Emitted on the blocks that they send
--   Wallet           wallet/src/lib.rs: the pairs of outputs for bids with Bidouts, the bid that a
--                    transaction carries with Carried; and of wallet/src/builder.rs: Amounts,
--                    Selection and Selected on coins, Requests and Placeholders on the stack of
--                    transactions, Recipients and Reveals on the outputs of the first of them, Stack
--                    and Pushed on the transactions that follow
--   Tests            the theorems at concrete inputs
--
-- How code is modelled. Numbers are natural numbers; `u32` arithmetic wraps around at 2 ^ 32 where the
-- code adds heights, and sums of amounts, which panic, are operations of the bitcoin crate. Byte
-- strings and Rust strings are lists of bytes. `Result` has the errors of the code and a value for
-- panics (`expect`, `unwrap`, `assert!`, a slice out of range). Code that mutates a change set or the
-- state takes it and returns it. Loops are recursion on the list that they run over, so that no fuel
-- is needed. A data source is what it answers while one transaction is prepared. The locks of the
-- state are left out, as is what a failing run leaves behind in it. A data source renews no snapshot, as
-- a snapshot is a cache. `LiveStore` is its state, whose database the store shares. The loop of the
-- synchronisation and that of the workers are step relations, with what threads and channels do as
-- arguments of the steps; the retries of a call have the code's own bound of ten.
--
-- Parameters: the operations of the bitcoin crate with secp256k1, the hash function, bincode, the
-- encodings of stored values, the database spacedb, the answers of the bitcoin node, and of bdk_wallet
-- the unspent outputs, the addresses and the default selection of coins. Laws about them are hypotheses
-- of the theorems that need them.
--
-- Not modelled: the listings of the rollout for the RPC of the store, the
-- threads, channels and HTTP requests of the block source, the signing, files
-- and PSBTs of the wallet, its addresses and exports (wallet/src/address.rs,
-- wallet/src/export.rs), and the servers, programs and configuration, which
-- are I/O.
pub mod Base
pub mod Bitcoin
pub mod Label
pub mod Keys
pub mod Spaces
pub mod Script
pub mod Prepare
pub mod Validate
pub mod Store
pub mod Sync
pub mod Checker
pub mod Source
pub mod Wallet
pub mod Node
pub mod Tests
