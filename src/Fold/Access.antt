-- ===== src/Fold/Access.antt =====
-- What the fold uses of the crates state_fold, offchain_core and ethers, and of the contract
-- bindings that the build generates: the types with the fields that the program reads, and the
-- queries as a record that the delegates take as an argument.
use descartes_v.Base.{ℕ, Bool, Option, List}
use descartes_v.Outcome.{Outcome}

pub data EventKind : Type 0 where
  input_added claim finalize_epoch phase_change descartes_created : EventKind

-- The errors of a delegate; the messages are left out. `substate_error` is the error of a fold
-- that another fold asked.
pub data FoldError : Type 0 where
  contract_error : EventKind → FoldError
  access_error : FoldError
  block_not_found : FoldError
  created_event_not_found : FoldError
  illegal_dispute_state : FoldError
  unknown_phase : ℕ → FoldError
  substate_error : FoldError → FoldError

abbrev pub Fold : Type 0 → Type 0
Fold = Outcome FoldError

-- `offchain_core::types::Block`
pub record Block : Type 0 where
  pub hash : ℕ
  pub number : ℕ
  pub timestamp : ℕ
  pub logs_bloom : ℕ

-- `state_fold::types::BlockState`
pub record BlockState (S : Type 0) : Type 0 where
  pub block : Block
  pub state : S

-- `StateFold::get_state_for_block` of a fold: initial state and block hash.
abbrev pub StateFold : Type 0 → Type 0
StateFold S = ℕ → ℕ → Fold (BlockState S)

pub record InputAddedFilter : Type 0 where
  pub epoch_number : ℕ
  pub sender : ℕ
  pub timestamp : ℕ
  pub input : List ℕ

pub record ClaimFilter : Type 0 where
  pub epoch_number : ℕ
  pub claimer : ℕ
  pub epoch_hash : ℕ

pub record FinalizeEpochFilter : Type 0 where
  pub epoch_number : ℕ
  pub epoch_hash : ℕ

pub record PhaseChangeFilter : Type 0 where
  pub new_phase : ℕ

pub record DescartesV2CreatedFilter : Type 0 where
  pub input : ℕ
  pub output : ℕ
  pub validator_manager : ℕ
  pub dispute_manager : ℕ
  pub input_duration : ℕ
  pub challenge_period : ℕ

-- `ethers::contract::LogMeta`
pub record LogMeta : Type 0 where
  pub block_hash : ℕ
  pub block_number : ℕ

-- An indexed number, or the signature of an event.
pub data Topic : Type 0 where
  uint : ℕ → Topic
  signature : EventKind → Topic

-- A query that fails is `none`. `…_until` asks for the events of the contract at an address up
-- to the block with a number (`build_sync_contract`), `…_at` for those of the block with a hash
-- (`build_fold_contract`). A last number is the epoch given to `topic1`.
pub record Access : Type 0 where
  pub contains_address : (bloom address : ℕ) → Bool
  pub contains_topic : (bloom : ℕ) → Topic → Bool
  pub get_block : (hash : ℕ) → Option (Option Block)
  pub input_added_until : (address number epoch : ℕ) → Option (List InputAddedFilter)
  pub input_added_at : (address hash epoch : ℕ) → Option (List InputAddedFilter)
  pub claim_until : (address number epoch : ℕ) → Option (List (ClaimFilter × LogMeta))
  pub claim_at : (address hash epoch : ℕ) → Option (List (ClaimFilter × LogMeta))
  pub finalize_epoch_until : (address number : ℕ) → Option (List (FinalizeEpochFilter × LogMeta))
  pub finalize_epoch_at : (address hash : ℕ) → Option (List (FinalizeEpochFilter × LogMeta))
  pub phase_change_until : (address number : ℕ) → Option (List (PhaseChangeFilter × LogMeta))
  pub phase_change_at : (address hash : ℕ) → Option (List PhaseChangeFilter)
  pub created_until : (address number : ℕ) → Option (List (DescartesV2CreatedFilter × LogMeta))

-- The trait `StateFoldDelegate`, as the folds implement it: every initial state is a `U256`, and
-- every state a `BlockState`.
pub record StateFoldDelegate (S : Type 0) : Type 0 where
  pub sync : ℕ → Block → Access → Fold S
  pub fold : S → Block → Access → Fold S
  pub convert : BlockState S → BlockState S
