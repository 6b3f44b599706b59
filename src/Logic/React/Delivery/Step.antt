-- ===== src/Logic/React/Delivery/Step.antt =====
-- The inputs that the machine gets of one call of `react` (offchain/src/logic/descartes_logic.rs)
-- while its epoch takes inputs.

use descartes_v.Base.{
  ℕ, suc, ◌+◌, ◌<◌, ◌≡◌, refl, sym, ◌∙◌, ap, Option, some, List, ◌++◌, arith, length, length-append,
}
use descartes_v.Outcome.{Outcome, ok, u64_mod}
use descartes_v.Effect.{Effect, pure, ◌>>=◌, ◌>>◌, >>=-ok, >>=-eq-ok}
use descartes_v.Fold.Types.{Input, DescartesV2State}
use descartes_v.Machine.{Error, EpochStatus, MachineInterface}
use descartes_v.Logic.React.{on_machine, react_phase, react_from, react}
use descartes_v.Logic.React.Liveness.{Serves, caught_up, enqueue_remaning_inputs_served}
use descartes_v.Logic.{
  Node, TxConfig, TransactionManager, enqueue_remaning_inputs, enqueue_inputs_of_finalized_epochs,
}
use descartes_v.Logic.React.Delivery.{
  Receives, Reports, Has, Accumulates, enqueue_remaning_inputs-received,
  enqueue_remaning_inputs-current,
}

module _ {F S T : Type 0} (beyond : List Input → ℕ → Outcome Error (List Input))
    (tx_manager : TransactionManager F T) (contract sender : ℕ) (config : TxConfig F)
    (M : MachineInterface S) (receives : Receives M) where
  react_accumulating :
      (fuel : ℕ) (state : DescartesV2State) (e : ℕ) (inputs : List Input) (node : Node S T)
      (status : EpochStatus)
      → Accumulates state e inputs
      → (M.get_current_epoch_status node.machine).0 ≡ ok status
      → status.epoch_number ≡ e
      → react beyond tx_manager contract sender config M (suc fuel) state node
        ≡ ((on_machine (enqueue_remaning_inputs beyond M status inputs) >>= λ _. pure tt)
              >> pure (some tt))
            (record {
              machine = (M.get_current_epoch_status node.machine).1;
              transactions = node.transactions;
            })
  unfolding react react_from react_phase
  react_accumulating fuel state e inputs node status (phase, known, same) answered on_it =
      >>=-ok (on_machine M.get_current_epoch_status) _ node answered
      ∙ (rw
          (
            caught_up beyond M fuel state status e (M.get_current_epoch_status node.machine).1 known
                (omega (arith, on_it)),
            phase,
            same,
          )
          refl)

  -- A call of the machine whose value is not used.
  alone :
      {A : Type 0} (m : Effect Error S A) (node : Node S T) {r : Option (Unit {0})}
      → (((on_machine m >>= λ _. pure tt) >> pure (some tt)) node).0 ≡ ok r
      → (a : A) × ((m node.machine).0 ≡ ok a)
        × ((((on_machine m >>= λ _. pure tt) >> pure (some tt)) node).1.machine
            ≡ (m node.machine).1)
  alone {A} m node {r} e =
      let (_, up_to, _) = >>=-eq-ok (on_machine m >>= λ _. pure tt) (λ _. pure (some tt)) node e in
      let (a, sent, _) = >>=-eq-ok (on_machine m) (λ _. pure tt) node up_to in
      (a, sent, rw (>>=-ok (on_machine m) (λ _. pure tt) node sent) refl)

  react-Has_by :
      (fuel e : ℕ) (old more inputs : List Input) (state : DescartesV2State) (node : Node S T)
      (status : EpochStatus) (r : Option (Unit {0}))
      → Has M receives node.machine e old
      → old ++ more ≡ inputs
      → length inputs < u64_mod
      → Accumulates state e inputs
      → (M.get_current_epoch_status node.machine).0 ≡ ok status
      → (react beyond tx_manager contract sender config M (suc fuel) state node).0 ≡ ok r
      → Has M receives
          (react beyond tx_manager contract sender config M (suc fuel) state node).1.machine
          e
          inputs
  react-Has_by fuel e old more inputs state node status r (on_e, has) grown short takes answered
        ended =
      let s : S = (M.get_current_epoch_status node.machine).1 in
      let on_it : status.epoch_number ≡ e = receives.reported node.machine status answered ∙ on_e in
      let eq = react_accumulating fuel state e inputs node status takes answered on_it in
      let (all, sent, machine) =
        alone (enqueue_remaning_inputs beyond M status inputs)
          (record { machine = s; transactions = node.transactions })
          (sym (ap (λ x. x.0) eq) ∙ ended) in
      let asked : receives.received s status.epoch_number ≡ old =
        receives.asked node.machine status.epoch_number
        ∙ ap (receives.received node.machine) on_it
        ∙ has in
      let counts : status.processed_input_count + status.pending_input_count
          ≡ length (receives.received s status.epoch_number) =
        receives.counted node.machine status answered
        ∙ ap length (sym (receives.asked node.machine status.epoch_number)) in
      let got =
        enqueue_remaning_inputs-received beyond M receives status inputs s all
          (more, ap (λ l. l ++ more) asked ∙ grown) short counts sent in
      let last = ap (λ x. x.1.machine) eq ∙ machine in
      (
        ap receives.current last
            ∙ enqueue_remaning_inputs-current beyond M receives status inputs s all sent
            ∙ receives.asked_stays node.machine
            ∙ on_e,
        ap (λ m. receives.received m e) last
            ∙ ap (receives.received (enqueue_remaning_inputs beyond M status inputs s).1)
                (sym on_it)
            ∙ got,
      )

  -- One call of `react` while the machine is on the epoch that takes inputs.
  pub react-Has :
      (fuel e : ℕ) (old more inputs : List Input) (state : DescartesV2State) (node : Node S T)
      (r : Option (Unit {0}))
      → Has M receives node.machine e old
      → old ++ more ≡ inputs
      → length inputs < u64_mod
      → Accumulates state e inputs
      → (react beyond tx_manager contract sender config M (suc fuel) state node).0 ≡ ok r
      → Has M receives
          (react beyond tx_manager contract sender config M (suc fuel) state node).1.machine
          e
          inputs
  unfolding react
  react-Has fuel e old more inputs state node r has grown short takes ended =
      let (status, answered, _) =
        >>=-eq-ok (on_machine M.get_current_epoch_status)
          (λ status.
            on_machine (enqueue_inputs_of_finalized_epochs beyond M (suc fuel) state status)
            >>= react_from beyond tx_manager contract sender config M state)
          node ended in
      react-Has_by fuel e old more inputs state node status r has grown short takes answered ended

  -- One call of `react` ends well while the machine answers.
  pub react_served :
      (fuel e : ℕ) (old more inputs : List Input) (state : DescartesV2State) (node : Node S T)
      → Serves M
      → Reports M
      → Has M receives node.machine e old
      → old ++ more ≡ inputs
      → length inputs < u64_mod
      → Accumulates state e inputs
      → (react beyond tx_manager contract sender config M (suc fuel) state node).0 ≡ ok (some tt)
  react_served fuel e old more inputs state node serves reports (on_e, has) grown short takes =
      let s : S = (M.get_current_epoch_status node.machine).1 in
      let (status, answered) = reports.answered node.machine in
      let on_it : status.epoch_number ≡ e = receives.reported node.machine status answered ∙ on_e in
      let got : length (receives.received node.machine status.epoch_number) ≡ length old =
        ap length (ap (receives.received node.machine) on_it ∙ has) in
      let sum : length inputs ≡ length old + length more =
        ap length (sym grown) ∙ length-append old more in
      let counts = receives.counted node.machine status answered in
      let (all, sent) =
        enqueue_remaning_inputs_served beyond M serves status inputs s
          (omega (arith, counts, got, sum), short) in
      let eq = react_accumulating fuel state e inputs node status takes answered on_it in
      ap (λ x. x.0) eq
      ∙ (rw
          (>>=-ok (on_machine (enqueue_remaning_inputs beyond M status inputs)) (λ _. pure tt)
            (record { machine = s; transactions = node.transactions }) sent)
          refl)
