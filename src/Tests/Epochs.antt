-- ===== src/Tests/Epochs.antt =====
-- The raw state of the contract on the chain of three blocks: it awaits consensus from the second
-- block on.
use descartes_v.Base.{ℕ, ◌≡◌, refl, [], ◌∷◌, none, some, arith}
use descartes_v.Outcome.{ok, add_u256}
use descartes_v.Fold.Types.{ImmutableState}
use descartes_v.Fold.Finalized.{next_epoch}
use descartes_v.Fold.Sealed.{sealed_epoch_no_claims}
use descartes_v.Fold.Sealed
use descartes_v.Fold.Epoch.{
  EpochState, EpochFoldDelegate, ContractPhase, awaiting_consensus, sync_epoch, fold_epoch,
  get_state, phase_of_event, time_of_last,
}
use descartes_v.Fold.Epoch.Answers.{Answers}
use descartes_v.Fold.Epoch.Replay.{PhaseLink, fold_epoch-eq-sync_epoch, fold_epoch_false_positive}
use descartes_v.Fold.Descartes.{
  DescartesV2FoldDelegate, sync_descartes, fold_descartes, sync_constants, from_created,
  convert_raw_to_logical, logical_phase,
}
use descartes_v.Fold.Descartes.Replay.{fold_descartes-eq-sync_descartes}
use descartes_v.Fold.Types.{DescartesV2State, PhaseState}
use descartes_v.Fold.Epoch.Chain.{replay_epoch-eq-sync}
use descartes_v.Fold.Replay.{replay}
use descartes_v.Tests.World.{
  block_1, block_2, block_3, meta_2, phase_1, chain, accumulating, accumulating_fold, sealed_fold,
  no_epochs, finalized_fold,
}

abbrev pub delegate : EpochFoldDelegate
delegate = record {
  descartesv2_address = 100;
  accumulating_epoch_fold = accumulating_fold;
  sealed_epoch_fold = sealed_fold;
  finalized_epoch_fold = finalized_fold;
}

answers : (h : ℕ) → Answers delegate 0 h
unfolding get_state next_epoch add_u256 Sealed.epoch_number
answers h = record {
  finalized = no_epochs;
  next = 0;
  accumulating = accumulating;
  sealed = λ n. sealed_epoch_no_claims (accumulating n);
  finalized_answer = refl;
  next_answer = refl;
  accumulating_answer = λ n. refl;
  accumulating_number = λ n. refl;
  sealed_answer = λ n. refl;
  sealed_number = λ n. refl;
  room = omega arith;
}

abbrev pub accumulating_state : EpochState
accumulating_state = record {
  initial_epoch = 0;
  current_phase = ContractPhase.input_accumulation;
  finalized_epochs = no_epochs;
  current_epoch = accumulating 0;
  phase_change_timestamp = none;
}

abbrev pub consensus_state : EpochState
consensus_state = record {
  initial_epoch = 0;
  current_phase = awaiting_consensus (sealed_epoch_no_claims (accumulating 0)) 2000;
  finalized_epochs = no_epochs;
  current_epoch = accumulating 1;
  phase_change_timestamp = some 2000;
}

link_2 : PhaseLink chain delegate 0 block_1 block_2
unfolding answers
link_2 = record {
  old = [];
  new = (phase_1, meta_2) ∷ [];
  until_parent = refl;
  until_child = refl;
  at_child = refl;
  mined = (refl, tt);
  found = refl;
  parent = answers 11;
  child = answers 12;
  finalized_stay = λ e. refl;
}

pub synced_1 : sync_epoch delegate 0 block_1 chain ≡ ok accumulating_state
unfolding sync_epoch get_state next_epoch add_u256 time_of_last phase_of_event
synced_1 = refl

fold_epoch-eq-sync_epoch_example :
    fold_epoch delegate accumulating_state block_2 chain ≡ sync_epoch delegate 0 block_2 chain
unfolding link_2
fold_epoch-eq-sync_epoch_example =
    fold_epoch-eq-sync_epoch chain delegate 0 block_1 block_2 accumulating_state link_2 (λ e. cc)
      (λ _ e. cc) synced_1

link_3 : PhaseLink chain delegate 0 block_2 block_3
unfolding answers
link_3 = record {
  old = (phase_1, meta_2) ∷ [];
  new = [];
  until_parent = refl;
  until_child = refl;
  at_child = refl;
  mined = tt;
  found = refl;
  parent = answers 12;
  child = answers 13;
  finalized_stay = λ e. refl;
}

synced_2 : sync_epoch delegate 0 block_2 chain ≡ ok consensus_state
unfolding sync_epoch get_state next_epoch add_u256 time_of_last phase_of_event
synced_2 = refl

replay_epoch-eq-sync_example :
    (s' : EpochState) × (replay
        (λ s b. fold_epoch delegate s b chain)
        accumulating_state
        (block_2 ∷ [])
      ≡ ok s')
    × (sync_epoch delegate 0 block_2 chain ≡ ok s')
unfolding link_2
replay_epoch-eq-sync_example =
    replay_epoch-eq-sync chain delegate 0 block_1 (block_2 ∷ []) accumulating_state
      (
        record {
          link = link_2;
          no_miss = λ e. cc;
          exact = λ _ e. cc;
          state = consensus_state;
          synced = synced_2;
        },
        tt,
      )
      synced_1

fold_epoch_false_positive_example :
    (t u : EpochState) × (fold_epoch delegate consensus_state block_3 chain ≡ ok t)
    × (sync_epoch delegate 0 block_3 chain ≡ ok u)
    × (t.current_phase ≡ ContractPhase.input_accumulation)
    × (u.current_phase ≡ awaiting_consensus (sealed_epoch_no_claims (accumulating 0)) 2000)
unfolding link_3 answers
fold_epoch_false_positive_example =
    fold_epoch_false_positive chain delegate 0 block_2 block_3 consensus_state link_3 phase_1 meta_2
      block_2 refl refl refl refl refl synced_2

abbrev descartes : DescartesV2FoldDelegate
descartes = record {
  descartesv2_address = 100;
  epoch_fold = λ _ hash. ok (record { block = block_1; state = accumulating_state });
}

abbrev pub constants : ImmutableState
constants = record {
  input_duration = 500;
  challenge_period = 900;
  contract_creation_timestamp = 1000;
  input_contract_address = 200;
  output_contract_address = 201;
  validator_contract_address = 202;
  dispute_contract_address = 203;
}

abbrev logical_state : DescartesV2State
logical_state = record {
  constants = constants;
  initial_epoch = 0;
  finalized_epochs = no_epochs;
  current_epoch = accumulating 0;
  current_phase = PhaseState.input_accumulation;
}

-- The second block is past the input duration, so the state changes.
fold_descartes-eq-sync_descartes_example :
    fold_descartes descartes logical_state block_2 chain ≡ sync_descartes descartes 0 block_2 chain
unfolding sync_descartes sync_constants from_created convert_raw_to_logical logical_phase get_state
    add_u256
fold_descartes-eq-sync_descartes_example =
    fold_descartes-eq-sync_descartes chain descartes 0 block_1 block_2 logical_state refl refl
