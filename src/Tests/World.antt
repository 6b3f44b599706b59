-- ===== src/Tests/World.antt =====
-- A small chain of three blocks, on which the tests of the folds run: the events of the
-- contracts at the addresses 100 and 200, and folds that answer as those of the node do.
use descartes_v.Base.{ℕ, Option, none, some, List, [], ◌∷◌, ◌++◌, ltb, ◌==◌, if◌then◌else◌}
use descartes_v.Outcome.{ok}
use descartes_v.Fold.Types.{EpochInputState, FinalizedEpochs, AccumulatingEpoch}
use descartes_v.Fold.Sealed.{SealedEpochState, sealed_epoch_no_claims}
use descartes_v.Fold.Access.{
  Access, Block, StateFold, InputAddedFilter, ClaimFilter, FinalizeEpochFilter, PhaseChangeFilter,
  DescartesV2CreatedFilter, LogMeta,
}

-- The bloom filters of the second and the third block let everything through.
abbrev pub block_1 : Block
block_1 = record { hash = 11; number = 1; timestamp = 1000; logs_bloom = 0 }

abbrev pub block_2 : Block
block_2 = record { hash = 12; number = 2; timestamp = 2000; logs_bloom = 1 }

abbrev pub block_3 : Block
block_3 = record { hash = 13; number = 3; timestamp = 3000; logs_bloom = 1 }

abbrev pub meta_1 : LogMeta
meta_1 = record { block_hash = 11; block_number = 1 }

abbrev pub meta_2 : LogMeta
meta_2 = record { block_hash = 12; block_number = 2 }

abbrev pub added_1 : InputAddedFilter
added_1 = record { epoch_number = 0; sender = 7; timestamp = 1000; input = 1 ∷ 2 ∷ [] }

abbrev pub added_2 : InputAddedFilter
added_2 = record { epoch_number = 0; sender = 8; timestamp = 2000; input = 3 ∷ [] }

abbrev pub claim_1 : ClaimFilter × LogMeta
claim_1 = (record { epoch_number = 1; claimer = 7; epoch_hash = 70 }, meta_1)

abbrev pub claim_2 : ClaimFilter × LogMeta
claim_2 = (record { epoch_number = 1; claimer = 8; epoch_hash = 80 }, meta_2)

abbrev pub finalized_0 : FinalizeEpochFilter × LogMeta
finalized_0 = (record { epoch_number = 0; epoch_hash = 50 }, meta_1)

abbrev pub finalized_1 : FinalizeEpochFilter × LogMeta
finalized_1 = (record { epoch_number = 1; epoch_hash = 51 }, meta_2)

abbrev pub phase_1 : PhaseChangeFilter
phase_1 = record { new_phase = 1 }

abbrev pub created : DescartesV2CreatedFilter
created = record {
  input = 200;
  output = 201;
  validator_manager = 202;
  dispute_manager = 203;
  input_duration = 500;
  challenge_period = 900;
}

-- The answers up to a block, of events at the first block and at the second.
abbrev pub until : {Ev : Type 0} → (first second : List Ev) → (number : ℕ) → Option (List Ev)
until first second number = some (if ltb number 2 then first else first ++ second)

abbrev pub at : {Ev : Type 0} → (first second : List Ev) → (hash : ℕ) → Option (List Ev)
at first second hash = some (if hash == 11 then first else if hash == 12 then second else [])

abbrev pub chain : Access
chain = record {
  contains_address = λ bloom _. bloom == 1;
  contains_topic = λ bloom _. bloom == 1;
  get_block = λ hash. some (
      if hash == 11
      then some block_1
      else if hash == 12
      then some block_2
      else if hash == 13
      then some block_3
      else none);
  input_added_until = λ _ number _. until (added_1 ∷ []) (added_2 ∷ []) number;
  input_added_at = λ _ hash _. at (added_1 ∷ []) (added_2 ∷ []) hash;
  claim_until = λ _ number _. until (claim_1 ∷ []) (claim_2 ∷ []) number;
  claim_at = λ _ hash _. at (claim_1 ∷ []) (claim_2 ∷ []) hash;
  finalize_epoch_until = λ _ number. until (finalized_0 ∷ []) (finalized_1 ∷ []) number;
  finalize_epoch_at = λ _ hash. at (finalized_0 ∷ []) (finalized_1 ∷ []) hash;
  phase_change_until = λ _ number. until [] ((phase_1, meta_2) ∷ []) number;
  phase_change_at = λ _ hash. at [] (phase_1 ∷ []) hash;
  created_until = λ _ _. some ((created, meta_1) ∷ []);
}

abbrev pub inputs_of : ℕ → EpochInputState
inputs_of n = record { epoch_number = n; inputs = [] }

abbrev pub input_fold : StateFold EpochInputState
input_fold n _ = ok (record { block = block_1; state = inputs_of n })

abbrev pub accumulating : ℕ → AccumulatingEpoch
accumulating n = record { epoch_number = n; inputs = inputs_of n }

abbrev pub accumulating_fold : StateFold AccumulatingEpoch
accumulating_fold n _ = ok (record { block = block_1; state = accumulating n })

abbrev pub sealed_fold : StateFold SealedEpochState
sealed_fold n _ = ok (record { block = block_1; state = sealed_epoch_no_claims (accumulating n) })

abbrev pub no_epochs : FinalizedEpochs
no_epochs = record { finalized_epochs = []; initial_epoch = 0 }

abbrev pub finalized_fold : StateFold FinalizedEpochs
finalized_fold _ _ = ok (record { block = block_1; state = no_epochs })
