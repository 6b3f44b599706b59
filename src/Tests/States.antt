-- ===== src/Tests/States.antt =====
-- Claims, finalized epochs and the phases of the logical state.
use descartes_v.Base.{
  ℕ, ◌≡◌, ◌≤◌, ◌<◌, ◌+◌, refl, ◌⊎◌, ◌↔◌, Bool, true, false, ◌&&◌, ◌||◌, [], ◌∷◌, none, some, arith,
  max, ◌==◌, if◌then◌else◌,
}
use descartes_v.Outcome.{ok, add_u256, u256_mod}
use mathlib.Core.Path.{subst}
use descartes_v.Fold.Types.{
  Claims, FinalizedEpoch, FinalizedEpochs, EpochWithClaims, DescartesV2State, consensus_timeout,
}
use descartes_v.Fold.Access.{FoldError}
use descartes_v.Fold.Claims.{insert_claim, update_with_new_claim}
use descartes_v.Fold.Claims.Laws.{
  has_claimed, has_claimed-insert_claim, update_with_new_claim-eq-insert_claim,
}
use descartes_v.Fold.Finalized.{get_epoch, insert_epoch}
use descartes_v.Fold.Finalized.Laws.{IsConsecutive, get_epoch-IsConsecutive, get_epoch-insert_epoch}
use descartes_v.Fold.Sealed.{sealed_epoch_with_claims}
use descartes_v.Fold.Epoch.{EpochState, ContractPhase, awaiting_consensus}
use descartes_v.Fold.Descartes.{convert_raw_to_logical, logical_phase, claimed_phase}
use descartes_v.Fold.Descartes.Phases.{PhaseAt, convert_raw_to_logical-PhaseAt}
use descartes_v.Fold.Descartes.Total.{Fits, convert_raw_to_logical_total}
use descartes_v.Tests.World.{block_3, accumulating, inputs_of, no_epochs}
use descartes_v.Tests.Epochs.{constants}

abbrev two_claims : Claims
two_claims = record { claims = (70, 7 ∷ []) ∷ (80, 8 ∷ []) ∷ []; first_claim_timestamp = 1500 }

has_claimed-insert_claim_example :
    has_claimed (insert_claim two_claims 80 9) 80 9
    ≡ ((80 == 80) && (9 == 9) || has_claimed two_claims 80 9)
has_claimed-insert_claim_example = has_claimed-insert_claim two_claims 80 9 80 9

update_with_new_claim-eq-insert_claim_example :
    update_with_new_claim two_claims 80 9 ≡ insert_claim two_claims 80 9
update_with_new_claim-eq-insert_claim_example =
    update_with_new_claim-eq-insert_claim two_claims 80 9

abbrev epoch_4 : FinalizedEpoch
epoch_4 = record {
  epoch_number = 4;
  hash = 70;
  inputs = inputs_of 4;
  finalized_block_hash = 11;
  finalized_block_number = 1;
}

abbrev epoch_5 : FinalizedEpoch
epoch_5 = record {
  epoch_number = 5;
  hash = 71;
  inputs = inputs_of 5;
  finalized_block_hash = 12;
  finalized_block_number = 2;
}

abbrev from_4 : FinalizedEpochs
from_4 = record { finalized_epochs = epoch_4 ∷ []; initial_epoch = 4 }

get_epoch-IsConsecutive_example :
    (((e : FinalizedEpoch) × (get_epoch {E = FoldError} from_4 4 ≡ ok (some e))
        × (e.epoch_number ≡ 4))
      × (4 ≤ 4)
      × (4 < 5))
    ⊎ ((get_epoch {E = FoldError} from_4 4 ≡ ok none) × ((4 < 4) ⊎ (5 ≤ 4)))
get_epoch-IsConsecutive_example =
    get_epoch-IsConsecutive {E = FoldError} from_4 4 (refl, tt) (omega arith)

get_epoch-insert_epoch_example :
    (b : Bool) × (g : FinalizedEpochs) × (insert_epoch {E = FoldError} from_4 epoch_5 ≡ ok (b, g))
    × IsConsecutive g
    × ((b ≡ true) ↔ (epoch_5.epoch_number ≡ 5))
    × (b ≡ false → g ≡ from_4)
    × (get_epoch {E = FoldError} g 5
        ≡ (if b && (5 == 5) then ok (some epoch_5) else get_epoch from_4 5))
get_epoch-insert_epoch_example =
    get_epoch-insert_epoch {E = FoldError} from_4 epoch_5 5 (refl, tt) (omega arith)

abbrev claimed : EpochWithClaims
claimed = record { epoch_number = 0; claims = two_claims; inputs = inputs_of 0 }

abbrev raw : EpochState
raw = record {
  initial_epoch = 0;
  current_phase = awaiting_consensus (sealed_epoch_with_claims claimed) 2000;
  finalized_epochs = no_epochs;
  current_epoch = accumulating 1;
  phase_change_timestamp = some 1200;
}

abbrev timed_out_state : DescartesV2State
timed_out_state = record {
  constants = constants;
  initial_epoch = 0;
  finalized_epochs = no_epochs;
  current_epoch = accumulating 1;
  current_phase = consensus_timeout claimed;
}

converted : convert_raw_to_logical raw constants block_3 0 ≡ ok timed_out_state
unfolding convert_raw_to_logical logical_phase claimed_phase add_u256
converted = refl

convert_raw_to_logical-PhaseAt_example :
    PhaseAt constants 3000 raw (consensus_timeout claimed) (accumulating 1)
    × (constants ≡ constants)
    × (timed_out_state.initial_epoch ≡ 0)
    × (no_epochs ≡ no_epochs)
convert_raw_to_logical-PhaseAt_example =
    convert_raw_to_logical-PhaseAt constants block_3 raw 0 timed_out_state converted

abbrev deadline : ContractPhase → ℕ
deadline (awaiting_consensus (sealed_epoch_with_claims c) t) =
    max c.claims.first_claim_timestamp t + 900
deadline _ = 0

raw-Fits : Fits constants block_3 raw
raw-Fits = record {
  accumulation = omega arith;
  following = omega arith;
  challenge = λ c t e. subst (λ p. deadline p < u256_mod) e (omega arith);
}

convert_raw_to_logical_total_example :
    (s : DescartesV2State) × (convert_raw_to_logical raw constants block_3 0 ≡ ok s)
convert_raw_to_logical_total_example =
    convert_raw_to_logical_total constants block_3 raw 0 raw-Fits (λ c e. cc)
