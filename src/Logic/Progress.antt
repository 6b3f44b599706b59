-- ===== src/Logic/Progress.antt =====
-- The recursion over the finalized epochs ends: each round finishes an epoch, and the machine
-- goes on to a later one.
use descartes_v.Base.{
  ℕ, zero, suc, ◌-◌, ◌<◌, ◌≡◌, ◌≢◌, refl, ◌∙◌, ap, Bool, true, false, not, Option, none, some, List,
  arith, leb, length, ◌==◌, if◌then◌else◌,
}
use descartes_v.Outcome.{Outcome, ok, err, panic, as_u64, assert, unwrap}
use descartes_v.Effect.{Effect, pure, lift, after, ◌>>=◌}
use descartes_v.Fold.Types.{Input, DescartesV2State}
use descartes_v.Fold.Finalized.{next_epoch, get_epoch}
use descartes_v.Machine.{Error, EpochStatus, MachineInterface}
use descartes_v.Logic.React.{on_machine, react_phase, react_from, react}
use descartes_v.Logic.{
  Node, TxConfig, TransactionManager, finalized_round, enqueue_remaning_inputs,
  enqueue_inputs_of_finalized_epochs,
}

module _ {S : Type 0} where
  -- A machine that has finished an epoch reports a later one.
  pub record Advances (M : MachineInterface S) : Type 0 where
    pub later :
        (e n : ℕ) (s : S) (status : EpochStatus)
        → (M.finish_epoch e n s).0 ≡ ok tt
        → (M.get_current_epoch_status (M.finish_epoch e n s).1).0 ≡ ok status
        → e < status.epoch_number

  -- The call does not run out of fuel.
  abbrev Ends : {A : Type 0} → Effect Error S (Option A) → S → Type 0
  Ends m s = (m s).0 ≢ ok none

  Ends-bind :
      {A B : Type 0} (m : Effect Error S A) (k : A → Effect Error S (Option B)) (s : S)
      → ((a : A) → (m s).0 ≡ ok a → Ends (k a) (m s).1)
      → Ends (m >>= k) s
  Ends-bind {A} {B} m k s h = go (m s).0 refl
    where
      go : (r : Outcome Error A) → (m s).0 ≡ r → (after (r, (m s).1) k).0 ≢ ok none
      go (ok a) e = h a e
      go (err x) e = λ p. cc
      go (panic p) e = λ q. cc

  Ends-lift :
      {A B : Type 0} (o : Outcome Error A) (k : A → Effect Error S (Option B)) (s : S)
      → ((a : A) → o ≡ ok a → Ends (k a) s)
      → Ends (lift o >>= k) s
  Ends-lift o k s h = Ends-bind (lift o) k s h

  Ends-if :
      {A : Type 0} (b : Bool) (m m' : Effect Error S (Option A)) (s : S)
      → (b ≡ true → Ends m s)
      → (b ≡ false → Ends m' s)
      → Ends (if b then m else m') s
  Ends-if true m m' s h h' = h refl
  Ends-if false m m' s h h' = h' refl

  Ends-some : {A : Type 0} (a : A) (s : S) → Ends (pure (some a)) s
  Ends-some a s = λ p. cc

module _ {S : Type 0} (beyond : List Input → ℕ → Outcome Error (List Input))
    (M : MachineInterface S) (forward : Advances M) (state : DescartesV2State) (next : ℕ)
    (known : next_epoch {E = Error} state.finalized_epochs ≡ ok next) where
  -- The call made again starts from a later epoch, with the machine still behind.
  finalized_round-Ends :
      (status : EpochStatus) (again : EpochStatus → Effect Error S (Option (Bool × EpochStatus)))
      → ((status' : EpochStatus) (s' : S)
          → status.epoch_number < next
          → status.epoch_number < status'.epoch_number
          → Ends (again status') s')
      → (s : S) → Ends (finalized_round beyond M state status again) s
  unfolding finalized_round
  finalized_round-Ends status again onward s =
      Ends-lift (next_epoch state.finalized_epochs) _ s (λ k e.
        let same : k ≡ next = cc (known, e) in
        Ends-if (leb k status.epoch_number) _ _ s (λ _. Ends-some _ s)
          (λ behind. Ends-lift (as_u64 status.epoch_number) _ s (λ index _.
            Ends-lift (get_epoch state.finalized_epochs index) _ s (λ found _.
              Ends-lift (unwrap found) _ s (λ epoch _.
                Ends-if (status.processed_input_count == length epoch.inputs.inputs) _ _ s
                  (λ _. Ends-lift (assert (status.pending_input_count == 0)) _ s (λ _ _.
                    Ends-bind (M.finish_epoch status.epoch_number status.processed_input_count) _ s
                      (λ done finished.
                        Ends-bind M.get_current_epoch_status _ _ (λ status' reported.
                          onward status' _ (ahead k same behind) (
                            forward.later status.epoch_number status.processed_input_count s status'
                              finished reported)))))
                  (λ _.
                    Ends-bind (enqueue_remaning_inputs beyond M status epoch.inputs.inputs) _ s
                      (λ _ _.
                        Ends-some (false, status)
                          (enqueue_remaning_inputs beyond M status epoch.inputs.inputs s).1)))))))
    where
      ahead : (k : ℕ) → k ≡ next → leb k status.epoch_number ≡ false → status.epoch_number < next
      ahead k same behind = ground arith

  -- On a machine that reports a later epoch after each epoch finished, with more fuel than there
  -- are finalized epochs ahead of the machine, the recursion ends by itself.
  pub enqueue_inputs_of_finalized_epochs_ends :
      (fuel : ℕ) (status : EpochStatus) (s : S)
      → next - status.epoch_number < fuel
      → (enqueue_inputs_of_finalized_epochs beyond M fuel state status s).0 ≢ ok none
  unfolding enqueue_inputs_of_finalized_epochs
  enqueue_inputs_of_finalized_epochs_ends zero status s enough = omega arith
  enqueue_inputs_of_finalized_epochs_ends (suc fuel) status s enough =
      finalized_round-Ends status (enqueue_inputs_of_finalized_epochs beyond M fuel state)
        (λ status' s' behind later.
          enqueue_inputs_of_finalized_epochs_ends fuel status' s' (omega arith))
        s

module _ {F S T : Type 0} (beyond : List Input → ℕ → Outcome Error (List Input))
    (tx_manager : TransactionManager F T) (contract sender : ℕ) (config : TxConfig F)
    (M : MachineInterface S) (forward : Advances M) (state : DescartesV2State) (next : ℕ)
    (known : next_epoch {E = Error} state.finalized_epochs ≡ ok next) where
  react_from-Ends :
      (caught : Option (Bool × EpochStatus)) (node : Node S T)
      → caught ≢ none
      → Ends (react_from beyond tx_manager contract sender config M state caught) node
  unfolding react_from
  react_from-Ends none node got = λ _. got refl
  react_from-Ends (some (go, status)) node got =
      Ends-if (not go) _ _ node (λ _. Ends-some tt node)
        (λ _.
          Ends-bind
            (react_phase beyond tx_manager contract sender config M state status
              state.current_phase)
            _ node (λ done _ p. cc))

  -- On a machine that reports a later epoch after each epoch finished, with more fuel than
  -- the number of the next epoch, a call of `react` is never cut off: it ends by itself, whatever
  -- epoch the machine is on.
  pub react_ends :
      (fuel : ℕ) (node : Node S T)
      → next < fuel
      → (react beyond tx_manager contract sender config M fuel state node).0 ≢ ok none
  unfolding react
  react_ends fuel node enough =
      Ends-bind (on_machine M.get_current_epoch_status) _ node (λ status _.
        Ends-bind (on_machine (enqueue_inputs_of_finalized_epochs beyond M fuel state status)) _ _
          (λ caught e. react_from-Ends caught _ (λ cut.
            enqueue_inputs_of_finalized_epochs_ends beyond M forward state next known fuel status
              (M.get_current_epoch_status node.machine).1 (omega arith) (e ∙ ap ok cut))))
