-- ===== src/Fold/Epoch.antt =====
-- `EpochFoldDelegate` (offchain/src/fold/epoch_delegate.rs): the raw state of the contract, put
-- together from the last phase change and the states of the accumulating, the sealed and the
-- finalized epochs.
pub mod Answers
pub mod Numbers
pub mod Replay
pub mod Chain
use descartes_v.Base.{
  ℕ, ◌+◌, Bool, not, ◌&&◌, Option, none, some, List, [], ◌∷◌, get_last?, ◌==◌, if◌then◌else◌,
}
use descartes_v.Outcome.{Outcome, ok, err, ok_or, map_err, unwrap, add_u256, ◌>>=◌}
use descartes_v.Fold.Types.{AccumulatingEpoch, EpochWithClaims, FinalizedEpochs}
use descartes_v.Fold.Finalized.{next_epoch}
use descartes_v.Fold.Sealed.{SealedEpochState, sealed_epoch_no_claims, sealed_epoch_with_claims}
use descartes_v.Fold.Sealed
use descartes_v.Fold.Access.{
  Access, Block, Fold, StateFold, PhaseChangeFilter, LogMeta, StateFoldDelegate, contract_error,
  access_error, block_not_found, illegal_dispute_state, unknown_phase, substate_error, signature,
  phase_change,
}

pub data ContractPhase : Type 0 where
  input_accumulation : ContractPhase
  awaiting_consensus : SealedEpochState → (round_start : ℕ) → ContractPhase
  awaiting_dispute : EpochWithClaims → ContractPhase

pub record EpochState : Type 0 where
  pub initial_epoch : ℕ
  pub current_phase : ContractPhase
  pub finalized_epochs : FinalizedEpochs
  pub current_epoch : AccumulatingEpoch
  pub phase_change_timestamp : Option ℕ

pub record EpochFoldDelegate : Type 0 where
  pub descartesv2_address : ℕ
  pub accumulating_epoch_fold : StateFold AccumulatingEpoch
  pub sealed_epoch_fold : StateFold SealedEpochState
  pub finalized_epoch_fold : StateFold FinalizedEpochs

-- `EpochFoldDelegate::new`
unfoldable pub new_epoch_delegate :
    ℕ
    → StateFold AccumulatingEpoch
    → StateFold SealedEpochState
    → StateFold FinalizedEpochs
    → EpochFoldDelegate
new_epoch_delegate address accumulating sealed finalized = record {
  descartesv2_address = address;
  accumulating_epoch_fold = accumulating;
  sealed_epoch_fold = sealed;
  finalized_epoch_fold = finalized;
}

-- `get_acc_sync`, `get_acc_fold`, `get_sealed_sync`, `get_sealed_fold` and the query of the
-- finalized epochs, which differ in the fold that they ask.
unfoldable pub get_state : {S : Type 0} → StateFold S → (epoch block_hash : ℕ) → Fold S
get_state fold epoch block_hash = do
  found ← map_err substate_error (fold epoch block_hash)
  ok found.state

-- A dispute is about an epoch with claims.
unfoldable pub disputed : SealedEpochState → Fold EpochWithClaims
disputed (sealed_epoch_no_claims _) = err illegal_dispute_state
disputed (sealed_epoch_with_claims claimed) = ok claimed

module _ (d : EpochFoldDelegate) where
  -- The `match` on the last phase change of `sync` and of `fold`. They differ in `round_start`:
  -- the time of the phase change's block, unwrapped, and the time of the block.
  unfoldable pub phase_of_event :
      (next block_hash : ℕ) (round_start : Fold ℕ)
      → Option PhaseChangeFilter
      → Fold (ContractPhase × AccumulatingEpoch)
  phase_of_event next block_hash round_start none = do
    current ← get_state d.accumulating_epoch_fold next block_hash
    ok (input_accumulation, current)
  phase_of_event next block_hash round_start (some ev) =
      if ev.new_phase == 0
      then (do
        current ← get_state d.accumulating_epoch_fold next block_hash
        ok (input_accumulation, current))
      else if ev.new_phase == 1
      then (do
        sealed ← get_state d.sealed_epoch_fold next block_hash
        following ← add_u256 next 1
        current ← get_state d.accumulating_epoch_fold following block_hash
        start ← round_start
        ok (awaiting_consensus sealed start, current))
      else if ev.new_phase == 2
      then (do
        sealed ← get_state d.sealed_epoch_fold next block_hash
        following ← add_u256 next 1
        current ← get_state d.accumulating_epoch_fold following block_hash
        claimed ← disputed sealed
        ok (awaiting_dispute claimed, current))
      else err (unknown_phase ev.new_phase)

  -- The time of the block of the last phase change, if there is one.
  unfoldable pub time_of_last : Access → Option (PhaseChangeFilter × LogMeta) → Fold (Option ℕ)
  time_of_last access none = ok none
  time_of_last access (some (_, meta)) = do
    found ← ok_or access_error (access.get_block meta.block_hash)
    block ← ok_or block_not_found found
    ok (some block.timestamp)

  abbrev pub event_of : Option (PhaseChangeFilter × LogMeta) → Option PhaseChangeFilter
  event_of none = none
  event_of (some (ev, _)) = some ev

  unfoldable pub sync_epoch : ℕ → Block → Access → Fold EpochState
  sync_epoch initial_epoch block access = do
    finalized_epochs ← get_state d.finalized_epoch_fold initial_epoch block.hash
    next ← next_epoch finalized_epochs
    events ←
        ok_or (contract_error phase_change)
          (access.phase_change_until d.descartesv2_address block.number)
    timestamp ← time_of_last access (get_last? events)
    found ← phase_of_event next block.hash (unwrap timestamp) (event_of (get_last? events))
    ok (record {
      initial_epoch = initial_epoch;
      current_phase = found.0;
      finalized_epochs = finalized_epochs;
      current_epoch = found.1;
      phase_change_timestamp = timestamp;
    })

  -- The test of the bloom filter that opens `fold`.
  abbrev pub may_have_changed : Block → Access → Bool
  may_have_changed block access =
      access.contains_address block.logs_bloom d.descartesv2_address
      && access.contains_topic block.logs_bloom (signature phase_change)

  -- The phase at a block with no phase change: its epochs are brought up to date.
  unfoldable pub update_phase : (block_hash : ℕ) → ContractPhase → Fold ContractPhase
  update_phase block_hash input_accumulation = ok input_accumulation
  update_phase block_hash (awaiting_consensus sealed round_start) = do
    sealed' ← get_state d.sealed_epoch_fold (Sealed.epoch_number sealed) block_hash
    ok (awaiting_consensus sealed' round_start)
  update_phase block_hash (awaiting_dispute sealed) = do
    sealed' ← get_state d.sealed_epoch_fold sealed.epoch_number block_hash
    claimed ← disputed sealed'
    ok (awaiting_dispute claimed)

  -- The early return of `fold`.
  unfoldable pub fold_unchanged : EpochState → Block → Fold EpochState
  fold_unchanged previous block = do
    current ← get_state d.accumulating_epoch_fold previous.current_epoch.epoch_number block.hash
    phase ← update_phase block.hash previous.current_phase
    ok (record {
      initial_epoch = previous.initial_epoch;
      current_phase = phase;
      finalized_epochs = previous.finalized_epochs;
      current_epoch = current;
      phase_change_timestamp = previous.phase_change_timestamp;
    })

  -- The rest of `fold`, once the bloom filter has let the block through.
  unfoldable pub fold_changed : EpochState → Block → Access → Fold EpochState
  fold_changed previous block access = do
    finalized_epochs ← get_state d.finalized_epoch_fold previous.initial_epoch block.hash
    next ← next_epoch finalized_epochs
    events ←
        ok_or (contract_error phase_change)
          (access.phase_change_at d.descartesv2_address block.hash)
    found ← phase_of_event next block.hash (ok block.timestamp) (get_last? events)
    ok (record {
      initial_epoch = previous.initial_epoch;
      current_phase = found.0;
      finalized_epochs = finalized_epochs;
      current_epoch = found.1;
      phase_change_timestamp = elim events [
        | [] ↦ previous.phase_change_timestamp
        | _ ∷ _ ↦ some block.timestamp
      ];
    })

  unfoldable pub fold_epoch : EpochState → Block → Access → Fold EpochState
  fold_epoch previous block access =
      if not (may_have_changed block access)
      then fold_unchanged previous block
      else fold_changed previous block access

  unfoldable pub epoch_delegate : StateFoldDelegate EpochState
  epoch_delegate = record { sync = sync_epoch; fold = fold_epoch; convert = λ s. s }
