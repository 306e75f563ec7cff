-- ===== src/Lib.antt =====
-- Verification of the core of Morph Reth, the L2 execution client: its consensus rules, its
-- transaction rules, its fee arithmetic and the state machines around them, as definitions that
-- compute, with the theorems that make them correct.
--
-- The parts and how they interact. The chain specification (crates/chainspec) says which hardfork is
-- active; consensus validation (crates/consensus) checks headers and block bodies by it, with the
-- transaction rules of crates/primitives; the engine validator (crates/node) adds the check of the L1
-- message index against the parent. The fee arithmetic of crates/revm charges a transaction, the pool
-- (crates/txpool) predicts that charge, the payload builder (crates/payload) packs blocks under the
-- limits that consensus checks, and crates/proofs-exex keeps proof history in step with the chain.
--
-- The files:
--   Common: names and lemmas that all parts share; Common/Words has u64, u128 and U256 arithmetic.
--   Chainspec/Hardfork: crates/chainspec/src/hardfork.rs (MorphHardfork, morph_hardfork_at, the maps to
--     and from SpecId).
--   Primitives: crates/primitives/src/transaction and header.rs (TxMorph::validate, MorphTxEnvelope,
--     MorphHeader).
--   Consensus: crates/consensus/src/validation.rs (validate_header, validate_header_against_parent,
--     validate_block_pre_execution, validate_block_post_execution and what they call).
--   Node/Validator: crates/node/src/validator.rs (validate_next_l1_msg_index).
--   Node/WithdrawRoots: crates/node/src/validator.rs (the withdraw trie root expectations of
--     MorphEngineValidator).
--   Proofs/Api, Proofs/Tables: crates/proofs/src/api.rs, error.rs and db/models; MDBX is an interface with
--     laws, and Proofs/MemoryDatabase is a database that keeps them.
--   Proofs/Cursor, Proofs/Store: crates/proofs/src/db/cursor.rs and db/store.rs (MdbxProofsStorage).
--   Proofs/Pruner: crates/proofs/src/prune/pruner.rs (MorphProofStoragePruner), over a store that is an
--     interface.
--   ProofsExex/SyncTarget, ProofsExex/Cache: crates/proofs-exex/src/sync_target.rs (SyncTargetState, the
--     operations of SyncTarget).
--   ProofsExex/SyncLoop: crates/proofs-exex/src/lib.rs (ensure_initialized, sync_loop, sync_forward,
--     run_revert), over a store and a provider that are interfaces.
--   ProofsExex/Notifications: crates/proofs-exex/src/lib.rs (handle_notification).
--   Revm/L1Block: crates/revm/src/l1block.rs (L1BlockInfo, calculate_tx_l1_cost).
--   Revm/TokenFee: crates/revm/src/token_fee.rs (TokenFeeInfo, the registry, the conversions).
--   Revm/Handler: crates/revm/src/handler.rs (calculate_caller_fee_with_l1_cost, and the amounts of
--     reward_beneficiary, validate_and_deduct_token_fee and reimburse_caller_token_fee).
--   Revm/Journal, Revm/Transfer: crates/revm/src/handler.rs (transfer_erc20_with_slot), on a journal that
--     is an interface with laws; Revm/MemoryJournal is a journal that keeps them.
--   Txpool/MorphTxValidation: crates/txpool/src/morph_tx_validation.rs (validate_morph_tx).
--
-- Txpool is proved against Revm/Handler, Node against Consensus, and the pruner against the laws of a store
-- that Proofs/Store/Prune proves of the store on MDBX; each part has its examples in a
-- module Tests.
--
-- Correspondence. A struct is a record and an enum a data type with the names of the source in snake
-- case. Integers are natural numbers: where the source saturates, checks or wraps, so does the model.
-- Hashes, addresses and byte strings are numbers and lists of numbers. An error is a constructor with
-- the fields that the source gives it; texts of messages are constructors too. Code of other crates is
-- an argument of what calls it. Loops are recursions on lists, but for two that
-- run on fuel: the batches of the pruner, with one turn for each block to prune, and sync_forward, where the
-- theorem on it says how many turns are enough.
--
-- What arrives while a turn of the sync loop runs is an argument of the turn; its effect on the cache while the
-- turn takes from it is not modelled. Where a theorem
-- asks that a diff gives every key once, that is what reth's sorted updates do: MDBX itself would take a second
-- row of a key at one block, if its value is the larger one.
--
-- Not modelled: failures of the database other than rows that it refuses, the in-memory proof store, the
-- state roots and proofs over the stored tries, networking, RPC plumbing, metrics and logging, the EVM
-- interpreter, and the encodings that alloy and reth implement.

pub mod Common
pub mod Chainspec
pub mod Primitives
pub mod Consensus
pub mod Node
pub mod Proofs
pub mod ProofsExex
pub mod Revm
pub mod Txpool
