-- ===== src/Tests/Numbers.antt =====
-- The numbers of the epochs on the chain of three blocks, in the second of which the last phase
-- change is to awaiting consensus.
use descartes_v.Base.{ℕ, ◌≡◌, refl, sym, ap, none, some, Option, [], ◌∷◌, arith}
use mathlib.Core.Path.{subst}
use descartes_v.Outcome.{ok, ok-injective, map_err, add_u256, as_u64, ◌>>=◌, >>=-eq-ok}
use descartes_v.Fold.Types.{
  EpochInputState, AccumulatingEpoch, DescartesV2State, awaiting_consensus_after_conflict,
  epoch_sealed_awaiting_first_claim, new_accumulating_epoch, new_epoch_input_state,
}
use descartes_v.Fold.Finalized.{
  next_epoch, insert_epoch, epoch_number_consistent, new_finalized_epochs,
}
use descartes_v.Fold.Claims.{new_claims, insert_claim}
use descartes_v.Fold.Input.{
  input_delegate, new_input_delegate, sync_inputs, push_events, from_event,
}
use descartes_v.Fold.Sealed.{add_claims_sync, sync_sealed, sealed_delegate, new_sealed_delegate}
use descartes_v.Fold.Accumulating.{
  sync_accumulating, get_inputs, accumulating_delegate, new_accumulating_delegate,
}
use descartes_v.Fold.Finalizing.{
  sync_finalized, add_epochs_sync, add_epoch, finalized_delegate, new_finalized_delegate,
}
use descartes_v.Fold.Epoch.{
  sync_epoch, fold_epoch, fold_changed, get_state, time_of_last, phase_of_event, epoch_delegate,
  new_epoch_delegate,
}
use descartes_v.Fold.Epoch.Numbers.{
  FoldsNumbered, EpochNumbers, sync_epoch-EpochNumbers, fold_epoch-EpochNumbers,
}
use descartes_v.Fold.Descartes.{
  new_descartes_delegate, descartes_delegate, sync_descartes, sync_constants, from_created,
  convert_raw_to_logical, logical_phase, claimed_phase,
}
use descartes_v.Fold.Descartes.Numbers.{StateNumbers, convert_raw_to_logical-StateNumbers}
use descartes_v.Fold.Access.{Block, BlockState, StateFoldDelegate, substate_error}
use descartes_v.Fold.Setup.{
  create_input, create_accumulating_epoch, create_sealed_epoch, create_finalized_epoch,
  create_epoch, create_descartes_state_fold,
}
use descartes_v.Fold.Setup.Obtained.{Obtained, by_sync, Obtains}
use descartes_v.Fold.Setup.Numbers.{create_descartes_state_fold-StateNumbers}
use descartes_v.Tests.World.{
  block_2, chain, accumulating, no_epochs, block_1, phase_1, meta_1, meta_2, created,
}
use descartes_v.Tests.Wiring
use descartes_v.Tests.Wiring.{synced_state, setup, by_sync-Syncs, answered}
use descartes_v.Tests.Epochs.{delegate, constants, accumulating_state, consensus_state, synced_1}
use descartes_v.HashMap.{modify_entry, insert}
use descartes_v.Fold.Setup.Events.{raw_at, create_descartes_state_fold-raw_at}
use descartes_v.Fold.Sealed

abbrev pub inputs_12 : ℕ → EpochInputState
inputs_12 n = record {
  epoch_number = n;
  inputs =
      record { sender = 7; timestamp = 1000; payload = 1 ∷ 2 ∷ [] }
      ∷ record { sender = 8; timestamp = 2000; payload = 3 ∷ [] }
      ∷ [];
}

-- The state at the second block.
abbrev pub state_12 : DescartesV2State
state_12 = record {
  constants = constants;
  initial_epoch = 0;
  finalized_epochs = record {
    finalized_epochs =
        record {
          epoch_number = 0;
          hash = 50;
          inputs = inputs_12 0;
          finalized_block_hash = 11;
          finalized_block_number = 1;
        }
        ∷ record {
          epoch_number = 1;
          hash = 51;
          inputs = inputs_12 1;
          finalized_block_hash = 12;
          finalized_block_number = 2;
        }
        ∷ [];
    initial_epoch = 0;
  };
  current_epoch = record { epoch_number = 3; inputs = inputs_12 3 };
  current_phase =
      awaiting_consensus_after_conflict
        (record {
          epoch_number = 2;
          claims = record {
            claims = (70, 7 ∷ []) ∷ (80, 8 ∷ []) ∷ [];
            first_claim_timestamp = 1000;
          };
          inputs = inputs_12 2;
        })
        2000;
}

abbrev pub found_12 : BlockState DescartesV2State
found_12 = record { block = block_2; state = state_12 }

pub create_descartes_state_fold_12 :
    create_descartes_state_fold Wiring.by_sync chain setup 0 12 ≡ ok found_12
unfolding create_descartes_state_fold descartes_delegate new_descartes_delegate sync_descartes
    sync_constants from_created convert_raw_to_logical logical_phase claimed_phase create_epoch
    epoch_delegate new_epoch_delegate sync_epoch get_state time_of_last phase_of_event create_input
    create_accumulating_epoch create_sealed_epoch create_finalized_epoch input_delegate
    new_input_delegate sync_inputs push_events from_event accumulating_delegate
    new_accumulating_delegate sync_accumulating get_inputs sealed_delegate new_sealed_delegate
    sync_sealed add_claims_sync finalized_delegate new_finalized_delegate sync_finalized
    add_epochs_sync add_epoch new_finalized_epochs next_epoch insert_epoch epoch_number_consistent
    add_u256 as_u64 new_claims insert_claim modify_entry insert
create_descartes_state_fold_12 = refl

obtained_of :
    {S : Type 0} (d : StateFoldDelegate S) (initial : ℕ) (o : Option (Option Block))
    (found : BlockState S)
    → synced_state d initial o ≡ ok found
    → Obtained d chain initial found.block found.state
obtained_of d initial none found e = cc
obtained_of d initial (some none) found e = cc
obtained_of d initial (some (some b)) found e =
    let (s, synced, last) = >>=-eq-ok (d.sync initial b chain) _ e in
    subst (λ (x : BlockState _). Obtained d chain initial x.block x.state) (ok-injective last)
      (by_sync synced)

pub by_sync-Obtains : Obtains Wiring.by_sync chain
by_sync-Obtains = record {
  obtained =
      λ d margin initial hash found _ e. obtained_of d initial (chain.get_block hash) found e;
}

create_descartes_state_fold-StateNumbers_example : StateNumbers state_12
create_descartes_state_fold-StateNumbers_example =
    create_descartes_state_fold-StateNumbers Wiring.by_sync chain setup by_sync-Obtains 0 12
      found_12 create_descartes_state_fold_12

delegate-FoldsNumbered : FoldsNumbered delegate
unfolding get_state Sealed.epoch_number
delegate-FoldsNumbered = record {
  accumulating_number =
      λ n h a e. sym (ap (λ (x : AccumulatingEpoch). x.epoch_number) (ok-injective e));
  sealed_number = λ n h s e. sym (ap Sealed.epoch_number (ok-injective e));
}

sync_epoch-EpochNumbers_example : EpochNumbers accumulating_state
sync_epoch-EpochNumbers_example =
    sync_epoch-EpochNumbers delegate delegate-FoldsNumbered 0 block_1 chain accumulating_state
      synced_1

numbers_1 : EpochNumbers accumulating_state
unfolding next_epoch add_u256
numbers_1 = (0, refl, refl)

folded_2 : fold_epoch delegate accumulating_state block_2 chain ≡ ok consensus_state
unfolding fold_epoch fold_changed get_state next_epoch add_u256 phase_of_event
folded_2 = refl

fold_epoch-EpochNumbers_example : EpochNumbers consensus_state
fold_epoch-EpochNumbers_example =
    fold_epoch-EpochNumbers delegate delegate-FoldsNumbered accumulating_state block_2 chain
      consensus_state numbers_1 folded_2

-- At the second block the input accumulation has run out.
abbrev expired_2 : DescartesV2State
expired_2 = record {
  constants = constants;
  initial_epoch = 0;
  finalized_epochs = no_epochs;
  current_epoch = record { epoch_number = 1; inputs = record { epoch_number = 1; inputs = [] } };
  current_phase = epoch_sealed_awaiting_first_claim (accumulating 0);
}

converted_2 : convert_raw_to_logical accumulating_state constants block_2 0 ≡ ok expired_2
unfolding convert_raw_to_logical logical_phase new_accumulating_epoch new_epoch_input_state add_u256
converted_2 = refl

convert_raw_to_logical-StateNumbers_example : StateNumbers expired_2
convert_raw_to_logical-StateNumbers_example =
    convert_raw_to_logical-StateNumbers accumulating_state constants block_2 0 expired_2 numbers_1
      converted_2

create_descartes_state_fold-raw_at_example :
    create_descartes_state_fold Wiring.by_sync chain setup 0 12 ≡ (do
      raw ← map_err substate_error (
          raw_at Wiring.by_sync chain setup by_sync-Syncs block_2 answered 0
            (omega arith)
            (some (phase_1, meta_2)))
      s ← convert_raw_to_logical raw (from_created created 1000) block_2 0
      ok (record { block = block_2; state = s }))
create_descartes_state_fold-raw_at_example =
    create_descartes_state_fold-raw_at Wiring.by_sync chain setup by_sync-Syncs block_2 answered 0
      (omega arith) ((phase_1, meta_2) ∷ []) created meta_1 block_1 refl refl refl
