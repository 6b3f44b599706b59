-- ===== src/Tests/Loop.antt =====
-- The node on the machine and the transaction manager of the tests, over several blocks.
use descartes_v.Base.{ℕ, ◌≡◌, ◌≢◌, refl, none, some, [], ◌∷◌, arith}
use descartes_v.Outcome.{ok}
use descartes_v.Fold.Types.{DescartesV2State, epoch_sealed_awaiting_first_claim, consensus_timeout}
use descartes_v.Fold.Claims.{get_sender_claim}
use descartes_v.HashMap.{contains}
use descartes_v.Fold.Access.{StateFold}
use descartes_v.Machine.{MachineInterface}
use descartes_v.Logic.{Call, Label}
use descartes_v.Logic.Instances.{new_block, failed}
use descartes_v.Logic.Progress.{react_ends}
use descartes_v.Logic.React.{react}
use descartes_v.Logic.React.Liveness.{Serves, ClaimSent, react-ClaimSent, react-finalize_epoch}
use descartes_v.Logic.MainLoop.{receive_loop}
use descartes_v.Logic.MainLoop.Steps.{LoopSteps, receive_loop-LoopSteps}
use descartes_v.Logic.MainLoop.Sealed.{SealedStep, react-sealed_number}
use descartes_v.Tests.World.{block_1, block_2, chain}
use descartes_v.Tests.Wiring.{by_sync, setup}
use descartes_v.Tests.Numbers.{state_12, found_12, by_sync-Obtains, create_descartes_state_fold_12}
use descartes_v.Tests.Node.{
  beyond, status_of, machine, machine-Advances, manager, config, state_in, claimed, sealed, node_at,
  next_0, own,
}

machine-Serves : Serves machine
machine-Serves = record { enqueue_served = λ e k inputs s. refl; claim_served = λ n s. (70, refl) }

react_ends_example :
    (react beyond manager 100 9 config machine 1
      (state_in (consensus_timeout claimed))
      (node_at 0)).0
    ≢ ok none
react_ends_example =
    react_ends beyond manager 100 9 config machine machine-Advances
      (state_in (consensus_timeout claimed)) 0 next_0 1 (node_at 0) (omega arith)

-- Validator 8 has not claimed, though the claim of validator 9 is the one of the machine.
not_yet : get_sender_claim claimed.claims 8 ≡ none
unfolding get_sender_claim contains
not_yet = refl

react-ClaimSent_example :
    ClaimSent beyond manager 100 8 config machine machine-Serves
      (state_in (consensus_timeout claimed))
      0
      next_0
      (some tt)
      []
      (react beyond manager 100 8 config machine 1
        (state_in (consensus_timeout claimed))
        (node_at 1))
react-ClaimSent_example =
    react-ClaimSent beyond manager 100 8 config machine machine-Serves
      (state_in (consensus_timeout claimed)) 0 next_0 0 (node_at 1) (status_of 1) refl
      (omega arith, (omega arith, omega arith)) not_yet (λ label call t. refl)

-- A machine whose claim is not the one that validator 9 has sent.
abbrev other_machine : MachineInterface ℕ
other_machine = record machine { get_epoch_claim = λ e s. (ok 71, s) }

other_machine-Serves : Serves other_machine
other_machine-Serves = record {
  enqueue_served = λ e k inputs s. refl;
  claim_served = λ n s. (71, refl);
}

react-finalize_epoch_example :
    ((react beyond manager 100 9 config other_machine 1
        (state_in (consensus_timeout claimed))
        (node_at 1)).0
      ≡ ok (some tt))
    × ((react beyond manager 100 9 config other_machine 1
          (state_in (consensus_timeout claimed))
          (node_at 1)).1.transactions
        ≡ (Label.finalize_epoch 0, Call.finalize_epoch) ∷ [])
react-finalize_epoch_example =
    react-finalize_epoch beyond manager 100 9 config other_machine other_machine-Serves
      (state_in (consensus_timeout claimed)) 0 next_0 0 (node_at 1) (status_of 1) refl
      (omega arith, (omega arith, omega arith)) (70, own) (λ label call t. refl)

abbrev states : StateFold DescartesV2State
states _ _ =
    ok (record { block = block_1; state = state_in (epoch_sealed_awaiting_first_claim sealed) })

receive_loop-LoopSteps_example :
    LoopSteps beyond manager 100 9 config machine states 0 1
      (new_block block_1 ∷ new_block block_2 ∷ failed ∷ [])
      (receive_loop beyond manager 100 9 config machine states 0 1
        (new_block block_1 ∷ new_block block_2 ∷ failed ∷ [])
        (node_at 1)).0
      (node_at 1)
      (receive_loop beyond manager 100 9 config machine states 0 1
        (new_block block_1 ∷ new_block block_2 ∷ failed ∷ [])
        (node_at 1)).1
receive_loop-LoopSteps_example =
    receive_loop-LoopSteps beyond manager 100 9 config machine states 0 1
      (new_block block_1 ∷ new_block block_2 ∷ failed ∷ []) (node_at 1)

react-sealed_number_example :
    SealedStep beyond manager 100 9 config machine state_12.current_phase []
      (react beyond manager 100 9 config machine 3 state_12 (node_at 3)).1.transactions
react-sealed_number_example =
    react-sealed_number beyond manager 100 9 config machine by_sync chain setup by_sync-Obtains 0 12
      3 found_12 (node_at 3) create_descartes_state_fold_12
