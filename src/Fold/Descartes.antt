-- ===== src/Fold/Descartes.antt =====
-- `DescartesV2FoldDelegate` (offchain/src/fold/descartesv2_delegate.rs): from the raw state of
-- the contract to the logical state, on which the node decides.
pub mod Phases
pub mod Total
pub mod Numbers
pub mod Replay
use descartes_v.Base.{
  ℕ, ◌+◌, Bool, true, false, Option, none, some, List, [], ◌∷◌, length, ltb, max, ◌==◌,
  if◌then◌else◌,
}
use descartes_v.Outcome.{
  Outcome, ok, err, panic, unreachable, ok_or, map_err, assert, add_u256, ◌>>=◌, ◌>>◌,
}
use descartes_v.Fold.Types.{
  AccumulatingEpoch, EpochWithClaims, DescartesV2State, ImmutableState, PhaseState,
  epoch_sealed_awaiting_first_claim, awaiting_consensus_no_conflict,
  awaiting_consensus_after_conflict, consensus_timeout, new_accumulating_epoch,
}
use descartes_v.Fold.Sealed.{SealedEpochState, sealed_epoch_no_claims, sealed_epoch_with_claims}
use descartes_v.Fold.Epoch.{
  ContractPhase, awaiting_consensus, awaiting_dispute, EpochState, get_state,
}
use descartes_v.Fold.Access.{
  Access, Block, Fold, StateFold, DescartesV2CreatedFilter, LogMeta, StateFoldDelegate,
  contract_error, access_error, block_not_found, created_event_not_found, descartes_created,
}

pub record DescartesV2FoldDelegate : Type 0 where
  pub descartesv2_address : ℕ
  pub epoch_fold : StateFold EpochState

-- `DescartesV2FoldDelegate::new`
unfoldable pub new_descartes_delegate : ℕ → StateFold EpochState → DescartesV2FoldDelegate
new_descartes_delegate address epoch_fold = record {
  descartesv2_address = address;
  epoch_fold = epoch_fold;
}

-- `impl From<&(DescartesV2CreatedFilter, U256)> for ImmutableState`
unfoldable pub from_created : DescartesV2CreatedFilter → (timestamp : ℕ) → ImmutableState
from_created ev timestamp = record {
  input_duration = ev.input_duration;
  challenge_period = ev.challenge_period;
  contract_creation_timestamp = timestamp;
  input_contract_address = ev.input;
  output_contract_address = ev.output;
  validator_contract_address = ev.validator_manager;
  dispute_contract_address = ev.dispute_manager;
}

-- The phase of an epoch with claims, in the arm for `AwaitingConsensus`.
unfoldable pub claimed_phase :
    ImmutableState → Block → (round_start : ℕ) → EpochWithClaims → Fold PhaseState
claimed_phase constants block round_start claimed = do
  let first_claim_timestamp = claimed.claims.first_claim_timestamp
  let time_of_last_move = max first_claim_timestamp round_start
  deadline ← add_u256 time_of_last_move constants.challenge_period
  ok (
      if ltb deadline block.timestamp
      then consensus_timeout claimed
      else if time_of_last_move == first_claim_timestamp
      then awaiting_consensus_no_conflict claimed
      else awaiting_consensus_after_conflict claimed round_start)

-- The logical phase, and the number of the new accumulating epoch where the raw state's own has
-- become the sealed one (`current_epoch_no_inputs`).
unfoldable pub logical_phase :
    ImmutableState → Block → EpochState → ContractPhase → Fold (PhaseState × Option ℕ)
logical_phase constants block contract_state ContractPhase.input_accumulation = do
  let start : ℕ = elim contract_state.phase_change_timestamp [
    | none ↦ constants.contract_creation_timestamp
    | some ts ↦ ts
  ]
  deadline ← add_u256 start constants.input_duration
  if ltb deadline block.timestamp
      then (do
        following ← add_u256 contract_state.current_epoch.epoch_number 1
        ok (epoch_sealed_awaiting_first_claim contract_state.current_epoch, some following))
      else ok (PhaseState.input_accumulation, none)
logical_phase constants block contract_state
      (awaiting_consensus (sealed_epoch_no_claims sealed) _) =
    ok (epoch_sealed_awaiting_first_claim sealed, none)
logical_phase constants block contract_state
      (awaiting_consensus (sealed_epoch_with_claims claimed) round_start) =
    do phase ← claimed_phase constants block round_start claimed; ok (phase, none)
logical_phase constants block contract_state (awaiting_dispute _) = panic unreachable

unfoldable pub convert_raw_to_logical :
    EpochState → ImmutableState → Block → (initial_epoch : ℕ) → Fold DescartesV2State
convert_raw_to_logical contract_state constants block initial_epoch = do
  phase ← logical_phase constants block contract_state contract_state.current_phase
  ok (record {
    constants = constants;
    initial_epoch = initial_epoch;
    finalized_epochs = contract_state.finalized_epochs;
    current_epoch = elim phase.1 [
      | none ↦ contract_state.current_epoch
      | some epoch_number ↦ new_accumulating_epoch epoch_number
    ];
    current_phase = phase.0;
  })

module _ (d : DescartesV2FoldDelegate) where
  -- The constants, from the one event of the contract's creation.
  unfoldable pub sync_constants : Block → Access → Fold ImmutableState
  sync_constants block access = do
    events ←
        ok_or (contract_error descartes_created)
          (access.created_until d.descartesv2_address block.number)
    elim events [
      | [] ↦ err created_event_not_found
      | (ev, meta) ∷ rest ↦ do
        assert (length ((ev, meta) ∷ rest) == 1)
        found ← ok_or access_error (access.get_block meta.block_hash)
        created ← ok_or block_not_found found
        ok (from_created ev created.timestamp)
    ]

  unfoldable pub sync_descartes : ℕ → Block → Access → Fold DescartesV2State
  sync_descartes initial_epoch block access = do
    constants ← sync_constants block access
    raw ← get_state d.epoch_fold initial_epoch block.hash
    convert_raw_to_logical raw constants block initial_epoch

  unfoldable pub fold_descartes : DescartesV2State → Block → Access → Fold DescartesV2State
  fold_descartes previous block access = do
    raw ← get_state d.epoch_fold previous.initial_epoch block.hash
    convert_raw_to_logical raw previous.constants block previous.initial_epoch

  unfoldable pub descartes_delegate : StateFoldDelegate DescartesV2State
  descartes_delegate = record { sync = sync_descartes; fold = fold_descartes; convert = λ s. s }
