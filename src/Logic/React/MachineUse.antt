-- ===== src/Logic/React/MachineUse.antt =====
-- What `react` asks of the machine: that the calls of each of its arms are such calls.
use descartes_v.Base.{
  ℕ, ◌≡◌, refl, sym, ◌∙◌, ap, Bool, not, Option, none, some, List, inl, inr, Option-cases, ==_iff,
  ◌==◌,
}
use descartes_v.Outcome.{Outcome, ok}
use descartes_v.Effect.{Effect}
use descartes_v.Fold.Types.{
  Input, EpochWithClaims, DescartesV2State, PhaseState, input_accumulation,
  epoch_sealed_awaiting_first_claim, awaiting_consensus_no_conflict,
  awaiting_consensus_after_conflict, consensus_timeout, awaiting_dispute,
}
use descartes_v.Fold.Finalized.{next_epoch}
use descartes_v.Fold.Claims.{get_sender_claim}
use descartes_v.Machine.{Error, EpochStatus, MachineInterface}
use descartes_v.Logic.{
  Node, TxConfig, TransactionManager, enqueue_remaning_inputs, enqueue_inputs_of_finalized_epochs,
}
use descartes_v.Logic.React.{
  on_machine, send_claim_tx, send_finalize_tx, catch_up, react_sealed, make_claim, await_consensus,
  after_timeout, react_phase, react_from, react,
}
use descartes_v.Logic.React.MachineCalls.{
  sealed_inputs, sealed, current, MachineCalls, nothing, status_asked, claim_asked, Calls,
  machine_state, Calls-bind, Calls-lift, Calls-if, enqueue_remaning_inputs-Calls,
  update_sealed_epoch-Calls, enqueue_inputs_of_finalized_epochs-Calls,
}

module _ {F S T : Type 0} (beyond : List Input → ℕ → Outcome Error (List Input))
    (tx_manager : TransactionManager F T) (contract sender : ℕ) (config : TxConfig F)
    (M : MachineInterface S) (state : DescartesV2State) where
  abbrev machine_of : Node S T → S
  machine_of node = node.machine

  abbrev NodeCalls : {A : Type 0} → Effect Error (Node S T) A → Type 0
  NodeCalls m = Calls beyond M state machine_of m

  Calls-on_machine :
      {A : Type 0} (m : Effect Error S A)
      → Calls beyond M state (machine_state beyond M state) m
      → NodeCalls (on_machine m)
  Calls-on_machine m h node = h node.machine

  make_claim-Calls :
      (n : ℕ)
      → next_epoch {E = Error} state.finalized_epochs ≡ ok n
      → NodeCalls (make_claim beyond tx_manager contract sender config M n)
  unfolding make_claim send_claim_tx
  make_claim-Calls n next =
      Calls-bind beyond M state machine_of (on_machine (M.get_epoch_claim n)) _
        (λ node. claim_asked n next nothing) (λ _ hash _ node. nothing)

  await_consensus-Calls :
      (e : EpochWithClaims) (n : ℕ)
      → next_epoch {E = Error} state.finalized_epochs ≡ ok n
      → NodeCalls (await_consensus beyond tx_manager contract sender config M e n)
  unfolding await_consensus
  await_consensus-Calls e n next node = elim (Option-cases (get_sender_claim e.claims sender)) [
    | inl none_yet ↦ rw (none_yet, await_consensus) (make_claim-Calls n next node)
    | inr (k, own) ↦ rw (own, await_consensus) nothing
  ]

  after_timeout-Calls :
      (e : EpochWithClaims) (n : ℕ)
      → next_epoch {E = Error} state.finalized_epochs ≡ ok n
      → NodeCalls (after_timeout beyond tx_manager contract sender config M e n)
  unfolding after_timeout send_finalize_tx
  after_timeout-Calls e n next node = elim (Option-cases (get_sender_claim e.claims sender)) [
    | inl none_yet ↦ rw (none_yet, after_timeout) (make_claim-Calls n next node)
    | inr (k, own) ↦ rw (own, after_timeout) nothing
  ]

  catch_up-Calls :
      (status : EpochStatus) (n : ℕ) (xs : List Input)
      → next_epoch {E = Error} state.finalized_epochs ≡ ok n
      → sealed_inputs state.current_phase ≡ some xs
      → Calls beyond M state
          (machine_state beyond M state)
          (catch_up beyond tx_manager contract sender config M status n xs)
  unfolding catch_up
  catch_up-Calls status n xs next here =
      Calls-if beyond M state (machine_state beyond M state) (status.epoch_number == n) _ _
        (λ on_sealed.
          update_sealed_epoch-Calls beyond M state status xs
            (sealed (next ∙ ap ok (sym ((==_iff status.epoch_number n).0 on_sealed))) here))
        (λ _ s. nothing)

  react_sealed-Calls :
      (status : EpochStatus) (xs : List Input) (about : ℕ → Effect Error (Node S T) (Unit {0}))
      → sealed_inputs state.current_phase ≡ some xs
      → ((n : ℕ) → next_epoch {E = Error} state.finalized_epochs ≡ ok n → NodeCalls (about n))
      → NodeCalls (react_sealed beyond tx_manager contract sender config M state status xs about)
  unfolding react_sealed
  react_sealed-Calls status xs about here h =
      Calls-lift beyond M state machine_of (next_epoch state.finalized_epochs) _ (λ n next.
        Calls-bind beyond M state machine_of
          (on_machine (catch_up beyond tx_manager contract sender config M status n xs)) _
          (Calls-on_machine (catch_up beyond tx_manager contract sender config M status n xs)
            (catch_up-Calls status n xs next here))
          (λ _ all _.
            Calls-if beyond M state machine_of (not all) _ _ (λ _ node. nothing)
              (λ _.
                Calls-bind beyond M state machine_of
                  (on_machine
                    (enqueue_remaning_inputs beyond M status state.current_epoch.inputs.inputs))
                  _ (current_epoch-Calls status) (λ _ _ _. h n next))))
    where
      current_epoch-Calls :
          (status : EpochStatus)
          → NodeCalls (
              on_machine
                (enqueue_remaning_inputs beyond M status state.current_epoch.inputs.inputs))
      current_epoch-Calls status =
          Calls-on_machine
            (enqueue_remaning_inputs beyond M status state.current_epoch.inputs.inputs)
            (enqueue_remaning_inputs-Calls beyond M state status state.current_epoch.inputs.inputs
              (current refl))

  react_phase-Calls :
      (status : EpochStatus) (p : PhaseState)
      → state.current_phase ≡ p
      → NodeCalls (react_phase beyond tx_manager contract sender config M state status p)
  unfolding react_phase
  react_phase-Calls status input_accumulation here =
      Calls-bind beyond M state machine_of
        (on_machine (enqueue_remaning_inputs beyond M status state.current_epoch.inputs.inputs)) _
        (Calls-on_machine
          (enqueue_remaning_inputs beyond M status state.current_epoch.inputs.inputs)
          (enqueue_remaning_inputs-Calls beyond M state status state.current_epoch.inputs.inputs
            (current refl)))
        (λ _ _ _ node. nothing)
  react_phase-Calls status (epoch_sealed_awaiting_first_claim e) here =
      react_sealed-Calls status e.inputs.inputs _ (ap sealed_inputs here) make_claim-Calls
  react_phase-Calls status (awaiting_consensus_no_conflict e) here =
      react_sealed-Calls status e.inputs.inputs _ (ap sealed_inputs here) (await_consensus-Calls e)
  react_phase-Calls status (awaiting_consensus_after_conflict e _) here =
      react_sealed-Calls status e.inputs.inputs _ (ap sealed_inputs here) (await_consensus-Calls e)
  react_phase-Calls status (consensus_timeout e) here =
      react_sealed-Calls status e.inputs.inputs _ (ap sealed_inputs here) (after_timeout-Calls e)
  react_phase-Calls status (awaiting_dispute e) here = λ node. nothing

  react_from-Calls :
      (caught : Option (Bool × EpochStatus))
      → NodeCalls (react_from beyond tx_manager contract sender config M state caught)
  unfolding react_from
  react_from-Calls none = λ node. nothing
  react_from-Calls (some (go, status)) =
      Calls-if beyond M state machine_of (not go) _ _ (λ _ node. nothing)
        (λ _.
          Calls-bind beyond M state machine_of
            (react_phase beyond tx_manager contract sender config M state status
              state.current_phase)
            _ (react_phase-Calls status state.current_phase refl) (λ _ _ _ node. nothing))

  -- Whatever the machine answers, the calls that one call of `react` makes of it ask for its
  -- status, ask for the claim of the epoch that follows the finalized ones, send inputs of an
  -- epoch of the state from some index on, or finish an epoch that is finalized or sealed, always
  -- with the number of inputs that this epoch has.
  pub react-MachineCalls :
      (fuel : ℕ) (node : Node S T)
      → MachineCalls beyond M state node.machine
          (react beyond tx_manager contract sender config M fuel state node).1.machine
  unfolding react
  react-MachineCalls fuel =
      Calls-bind beyond M state machine_of (on_machine M.get_current_epoch_status) _
        (λ node. status_asked nothing)
        (λ _ status _.
          Calls-bind beyond M state machine_of
            (on_machine (enqueue_inputs_of_finalized_epochs beyond M fuel state status)) _
            (Calls-on_machine (enqueue_inputs_of_finalized_epochs beyond M fuel state status)
              (enqueue_inputs_of_finalized_epochs-Calls beyond M state fuel status))
            (λ _ caught _. react_from-Calls caught))
