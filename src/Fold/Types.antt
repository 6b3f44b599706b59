-- ===== src/Fold/Types.antt =====
-- The data of offchain/src/fold/types.rs. Addresses, hashes and `U256` are numbers, payloads
-- lists of bytes. `Arc` and the borrows have no counterpart.
pub mod Metadata
use descartes_v.Base.{ℕ, List, []}
use descartes_v.HashMap.{HashMap, HashSet}

-- A single input from the Input.sol contract.
pub record Input : Type 0 where
  pub sender : ℕ
  pub timestamp : ℕ
  pub payload : List ℕ

-- The inputs of an epoch.
pub record EpochInputState : Type 0 where
  pub epoch_number : ℕ
  pub inputs : List Input

-- `EpochInputState::new`
unfoldable pub new_epoch_input_state : ℕ → EpochInputState
new_epoch_input_state n = record { epoch_number = n; inputs = [] }

-- For each claimed hash the validators that claimed it.
pub record Claims : Type 0 where
  pub claims : HashMap HashSet
  pub first_claim_timestamp : ℕ

pub record FinalizedEpoch : Type 0 where
  pub epoch_number : ℕ
  pub hash : ℕ
  pub inputs : EpochInputState
  pub finalized_block_hash : ℕ
  pub finalized_block_number : ℕ

pub record FinalizedEpochs : Type 0 where
  pub finalized_epochs : List FinalizedEpoch
  pub initial_epoch : ℕ

-- A sealed epoch with one or more claims.
pub record EpochWithClaims : Type 0 where
  pub epoch_number : ℕ
  pub claims : Claims
  pub inputs : EpochInputState

-- The active epoch, which receives inputs.
pub record AccumulatingEpoch : Type 0 where
  pub epoch_number : ℕ
  pub inputs : EpochInputState

-- `AccumulatingEpoch::new`
unfoldable pub new_accumulating_epoch : ℕ → AccumulatingEpoch
unfolding new_epoch_input_state
new_accumulating_epoch n = record { epoch_number = n; inputs = new_epoch_input_state n }

pub data PhaseState : Type 0 where
  input_accumulation : PhaseState
  epoch_sealed_awaiting_first_claim : AccumulatingEpoch → PhaseState
  awaiting_consensus_no_conflict : EpochWithClaims → PhaseState
  awaiting_consensus_after_conflict : EpochWithClaims → (challenge_period_base_ts : ℕ) → PhaseState
  consensus_timeout : EpochWithClaims → PhaseState
  awaiting_dispute : EpochWithClaims → PhaseState

pub record ImmutableState : Type 0 where
  pub input_duration : ℕ
  pub challenge_period : ℕ
  pub contract_creation_timestamp : ℕ
  pub input_contract_address : ℕ
  pub output_contract_address : ℕ
  pub validator_contract_address : ℕ
  pub dispute_contract_address : ℕ

pub record DescartesV2State : Type 0 where
  pub constants : ImmutableState
  pub initial_epoch : ℕ
  pub finalized_epochs : FinalizedEpochs
  pub current_epoch : AccumulatingEpoch
  pub current_phase : PhaseState
