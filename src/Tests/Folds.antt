-- ===== src/Tests/Folds.antt =====
-- The folds of the inputs, the claims and the finalized epochs on the chain of three blocks.
use descartes_v.Base.{ℕ, ◌≡◌, refl, [], ◌∷◌, none, some, ◌↔◌, false, true, arith}
use descartes_v.Outcome.{ok, ◌>>=◌}
use descartes_v.Fold.Types.{EpochInputState, FinalizedEpochs}
use descartes_v.Fold.Replay.{replay}
use descartes_v.Fold.Input.{sync_inputs, fold_inputs, InputFoldDelegate, from_event, push_events}
use descartes_v.Fold.Input.Replay.{collected, replay_inputs-eq-sync}
use descartes_v.Fold.Claims.{get_sender_claim}
use descartes_v.Fold.Accumulating.{get_inputs}
use descartes_v.Fold.Sealed.{
  SealedEpochState, SealedEpochFoldDelegate, sync_sealed, fold_sealed, add_claims_sync,
}
use descartes_v.Fold.Sealed.Replay.{first_claims, with_claims, replay_claims-eq-sync}
use descartes_v.Fold.Sealed.Claimed.{says, claims_by, get_sender_claim-first_claims}
use descartes_v.Fold.Finalizing.{FinalizedEpochFoldDelegate, sync_finalized, fold_finalized}
use descartes_v.Fold.Finalizing.Events.{epochs_from, sync_finalized_lem, epoch_of}
use descartes_v.Fold.Finalizing.Lookup.{get_epoch-sync_finalized}
use descartes_v.Fold.Finalized.{get_epoch}
use descartes_v.Fold.Finalizing.Replay.{replay_finalized-eq-sync}
use descartes_v.Tests.World.{
  block_1, block_2, added_1, added_2, claim_1, claim_2, finalized_0, finalized_1, chain, inputs_of,
  input_fold,
}

abbrev inputs_delegate : InputFoldDelegate
inputs_delegate = record { input_address = 200 }

replay_inputs-eq-sync_example :
    (s' : EpochInputState) × (replay
        (λ s b. fold_inputs inputs_delegate s b chain)
        (collected 0 (added_1 ∷ []))
        (block_2 ∷ [])
      ≡ ok s')
    × (sync_inputs inputs_delegate 0 block_2 chain ≡ ok s')
unfolding sync_inputs push_events from_event
replay_inputs-eq-sync_example =
    replay_inputs-eq-sync chain inputs_delegate 0 block_1 (block_2 ∷ [])
      (collected 0 (added_1 ∷ []))
      (
        record {
          grows = record {
            old = added_1 ∷ [];
            new = added_2 ∷ [];
            until_parent = refl;
            until_child = refl;
            at_child = refl;
          };
          bloom = λ e. cc;
        },
        tt,
      )
      refl

abbrev sealed_delegate : SealedEpochFoldDelegate
sealed_delegate = record { descartesv2_address = 100; input_fold = input_fold }

replay_claims-eq-sync_example :
    (s' : SealedEpochState) × (replay
        (λ s b. fold_sealed sealed_delegate s b chain)
        (with_claims 1 (first_claims 1000 claim_1 []) (inputs_of 1))
        (block_2 ∷ [])
      ≡ ok s')
    × (sync_sealed sealed_delegate 1 block_2 chain ≡ ok s')
unfolding sync_sealed add_claims_sync get_inputs
replay_claims-eq-sync_example =
    replay_claims-eq-sync chain sealed_delegate 1 block_1 (block_2 ∷ [])
      (with_claims 1 (first_claims 1000 claim_1 []) (inputs_of 1))
      (
        record {
          grows = record {
            old = claim_1 ∷ [];
            new = claim_2 ∷ [];
            until_parent = refl;
            until_child = refl;
            at_child = refl;
          };
          bloom = λ e. cc;
          mined = (refl, tt);
          found = refl;
          inputs_stay = refl;
        },
        tt,
      )
      refl

get_sender_claim-first_claims_example :
    ((get_sender_claim (first_claims 1000 claim_1 (claim_2 ∷ [])) 8 ≡ none)
      ↔ (claims_by 8 (claim_1 ∷ claim_2 ∷ []) ≡ false))
    × ((k : ℕ)
        → get_sender_claim (first_claims 1000 claim_1 (claim_2 ∷ [])) 8 ≡ some k
        → says k 8 (claim_1 ∷ claim_2 ∷ []) ≡ true)
get_sender_claim-first_claims_example = get_sender_claim-first_claims 1000 claim_1 (claim_2 ∷ []) 8

abbrev finalized_delegate : FinalizedEpochFoldDelegate
finalized_delegate = record { descartesv2_address = 100; input_fold = input_fold }

replay_finalized-eq-sync_example :
    (s' : FinalizedEpochs) × (replay
        (λ s b. fold_finalized finalized_delegate s b chain)
        (epochs_from finalized_delegate inputs_of 0 (finalized_0 ∷ []))
        (block_2 ∷ [])
      ≡ ok s')
    × (sync_finalized finalized_delegate 0 block_2 chain ≡ ok s')
unfolding get_inputs
replay_finalized-eq-sync_example =
    replay_finalized-eq-sync chain finalized_delegate inputs_of 0 (omega arith) block_1
      (block_2 ∷ []) (epochs_from finalized_delegate inputs_of 0 (finalized_0 ∷ []))
      (
        record {
          grows = record {
            old = finalized_0 ∷ [];
            new = finalized_1 ∷ [];
            until_parent = refl;
            until_child = refl;
            at_child = refl;
          };
          bloom = λ n e. cc;
          numbered = (refl, (refl, tt));
          inputs_parent = λ n h. refl;
          inputs_child = λ n h. refl;
          short = omega arith;
        },
        tt,
      )
      (sync_finalized_lem finalized_delegate inputs_of chain 0 block_1 (finalized_0 ∷ []) refl
        (refl, tt) (λ n h. refl) (omega arith) (omega arith))

-- With the initial epoch 1 the second event is found.
get_epoch-sync_finalized_example :
    (do epochs ← sync_finalized finalized_delegate 1 block_2 chain; get_epoch epochs 1)
    ≡ ok (some (epoch_of finalized_delegate inputs_of finalized_1))
unfolding get_inputs
get_epoch-sync_finalized_example =
    get_epoch-sync_finalized finalized_delegate inputs_of chain 1 block_2
      (finalized_0 ∷ finalized_1 ∷ []) 1 refl (refl, (refl, tt)) (λ n h. refl) (omega arith)
      (omega arith)
