-- ===== src/Lib.antt =====
-- The off-chain node of Descartes v2 (offchain/): a validator that reads the state of the
-- rollups contract from the events of the chain, drives a machine with the inputs it finds, and
-- claims and finalizes epochs.
--
-- The parts and the files that model them:
--
--   offchain/src/fold/types.rs             Fold/Types (the data, with Types/Metadata for
--                                          `Input::get_metadata`), Fold/Claims, Fold/Finalized
--   offchain/src/fold/input_delegate.rs    Fold/Input
--   offchain/src/fold/accumulating_epoch_delegate.rs   Fold/Accumulating
--   offchain/src/fold/sealed_epoch_delegate.rs         Fold/Sealed
--   offchain/src/fold/finalized_epoch_delegate.rs      Fold/Finalizing
--   offchain/src/fold/epoch_delegate.rs    Fold/Epoch
--   offchain/src/fold/descartesv2_delegate.rs          Fold/Descartes
--   offchain/src/fold/setup.rs             Fold/Setup
--   offchain/src/logic/descartes_logic.rs  Logic (what is asked of the machine), Logic/React
--                                          (`react`, the transactions), Logic/Config,
--                                          Logic/MainLoop (`main_loop`)
--   offchain/src/logic/instantiate_state_fold.rs       Logic/FoldInstance
--   offchain/src/logic/instantiate_tx_manager.rs       Logic/Instances
--   offchain/src/machine/mod.rs            Machine, also for offchain/src/error.rs
--   offchain/src/machine/rollup_mm.rs      Machine/RollupMm, with Machine/RollupMm/Session for
--                                          `MachineManager::new`
--
-- Base, Outcome, Effect and HashMap carry what these share; Fold/Replay states what a chain of
-- folds is; Tests runs the development at concrete inputs.
--
-- A fold (`StateFoldDelegate`) has a `sync`, which computes a state from all events up to a
-- block, and a `fold`, which takes the state of the parent block and the events of one block.
-- The crate state_fold uses either, so the two have to agree. The folds build on each other:
-- inputs, then the accumulating, the sealed and the finalized epochs, then the raw state of the
-- contract (`EpochFoldDelegate`), then the logical state (`DescartesV2FoldDelegate`), on which
-- `react` decides.
--
-- Conventions. `U256`, `usize`, `u64`, addresses and hashes are native numbers. `U256` addition
-- and the narrowing conversions panic out of range, which is an `Outcome`; sums of `usize` and
-- `u64` wrap as in a release build. A call that fails is an `err`, a panic a `panic` with its
-- cause. A call with effects is an `Effect`: it goes from a state to an outcome and a state, and
-- the awaits of the program run one after the other. `im::Vector` is a list, `im::HashMap` a list
-- of entries in the order of insertion; of `Vector::slice` beyond the end nothing is known, so
-- what it does there is a parameter.
--
-- Parameters stand for what is not in the repository: the events of the contracts and the blocks
-- (`Access`), the other folds (`StateFold`), the crate state_fold (`StateFoldCrate`), the
-- transaction manager, the provider of the events (`FoldCrates`), the factories of middleware
-- and the block subscriber (`NodeCrates`), the client generated for the rollup machine manager,
-- keccak256 and the ABI encoder. A subscription is the list of the messages that it gives. What
-- a statement relies on of them is a hypothesis of its own: `Grows` and the links between a
-- block and its child (the answer up to a block is the one up to its parent with the block's own
-- events, and a bloom filter has no false negatives), `Answers`, `Answered`, `Syncs` (every
-- state is synced at its block) or `Obtains` (every state comes of syncs and folds), `Advances`,
-- `Serves`, `Receives`, `Keeps` (a server that keeps the inputs that it accepts), `Reports`,
-- `KeepsSessions`.
--
-- The recursion of `enqueue_inputs_of_finalized_epochs` is cut off by fuel, with a result of its
-- own; fuel beyond the number of epochs that the machine is behind is enough. All else
-- is structural recursion; `main_loop` runs over the messages received so far.
--
-- Not modelled: the messages of the errors, and the units of durations, which are numbers passed
-- on; the entry point, which prints a line, and the build script; the contracts in Solidity, and
-- the scripts and tests in TypeScript.
pub mod Base
pub mod Outcome
pub mod Effect
pub mod HashMap
pub mod Fold
pub mod Machine
pub mod Logic
pub mod Tests
