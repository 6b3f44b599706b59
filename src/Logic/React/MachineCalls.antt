-- ===== src/Logic/React/MachineCalls.antt =====
-- What one call of `react` asks of the machine: which epochs it finishes, with how many inputs,
-- and which inputs it sends.
use descartes_v.Base.{
  ℕ, zero, suc, ◌+◌, ◌≡◌, refl, sym, ◌∙◌, ap, Bool, true, false, not, Option, none, some, List,
  ==_iff, length, leb, ◌==◌, if◌then◌else◌,
}
use mathlib.Core.Path.{subst}
use Prim.Native.Nat.{◌%◌}
use descartes_v.Outcome.{Outcome, ok, err, panic, as_u64, assert, unwrap, u64_mod}
use descartes_v.Effect.{Effect, pure, lift, after, ◌>>=◌, ◌>>◌}
use descartes_v.Fold.Types.{
  Input, DescartesV2State, FinalizedEpoch, PhaseState, epoch_sealed_awaiting_first_claim,
  awaiting_consensus_no_conflict, awaiting_consensus_after_conflict, consensus_timeout,
}
use descartes_v.Fold.Finalized.{next_epoch, get_epoch}
use descartes_v.Machine.{Error, EpochStatus, MachineInterface}
use descartes_v.Logic.{
  slice_from, enqueue_remaning_inputs, update_sealed_epoch, finalized_round,
  enqueue_inputs_of_finalized_epochs,
}

-- The inputs of the epoch that a phase has sealed.
abbrev pub sealed_inputs : PhaseState → Option (List Input)
sealed_inputs (epoch_sealed_awaiting_first_claim e) = some e.inputs.inputs
sealed_inputs (awaiting_consensus_no_conflict e) = some e.inputs.inputs
sealed_inputs (awaiting_consensus_after_conflict e _) = some e.inputs.inputs
sealed_inputs (consensus_timeout e) = some e.inputs.inputs
sealed_inputs _ = none

module _ (state : DescartesV2State) where
  -- The chain has closed epoch `e` with the inputs `xs`.
  pub data IsClosed (e : ℕ) (xs : List Input) : Type 0 where
    finalized :
        (index : ℕ) (epoch : FinalizedEpoch)
        → as_u64 {E = Error} e ≡ ok index
        → get_epoch {E = Error} state.finalized_epochs index ≡ ok (some epoch)
        → xs ≡ epoch.inputs.inputs
        → IsClosed e xs
    sealed :
        next_epoch {E = Error} state.finalized_epochs ≡ ok e
        → sealed_inputs state.current_phase ≡ some xs
        → IsClosed e xs

  -- Some epoch of the chain has the inputs `xs`.
  pub data IsKnown (xs : List Input) : Type 0 where
    closed : (e : ℕ) → IsClosed e xs → IsKnown xs
    current : xs ≡ state.current_epoch.inputs.inputs → IsKnown xs

module _ {S : Type 0} (beyond : List Input → ℕ → Outcome Error (List Input))
    (M : MachineInterface S) (state : DescartesV2State) where
  -- The calls of the machine from `s` on.
  pub data MachineCalls (s : S) : S → Type 0 where
    nothing : MachineCalls s s
    status_asked : {t : S} → MachineCalls s t → MachineCalls s (M.get_current_epoch_status t).1
    claim_asked :
        {t : S} (e : ℕ)
        → next_epoch {E = Error} state.finalized_epochs ≡ ok e
        → MachineCalls s t
        → MachineCalls s (M.get_epoch_claim e t).1
    -- The inputs sent are those of an epoch from the index given on.
    enqueued :
        {t : S} (e first : ℕ) (xs rest : List Input)
        → IsKnown state xs
        → slice_from beyond xs first ≡ ok rest
        → MachineCalls s t
        → MachineCalls s (M.enqueue_inputs e first rest t).1
    -- An epoch is finished with as many inputs as it has.
    finished :
        {t : S} (e : ℕ) (xs : List Input)
        → IsClosed state e xs
        → MachineCalls s t
        → MachineCalls s (M.finish_epoch e (length xs) t).1

  trans : {s t u : S} → MachineCalls s t → MachineCalls t u → MachineCalls s u
  trans p nothing = p
  trans p (status_asked q) = status_asked (trans p q)
  trans p (claim_asked e h q) = claim_asked e h (trans p q)
  trans p (enqueued e first xs rest h k q) = enqueued e first xs rest h k (trans p q)
  trans p (finished e xs h q) = finished e xs h (trans p q)

  -- A computation on a state `W` with the machine's in it makes such calls only.
  abbrev pub Calls : {W A : Type 0} → (W → S) → Effect Error W A → Type 0
  Calls {W} view m = (w : W) → MachineCalls (view w) (view (m w).1)

  abbrev pub machine_state : S → S
  machine_state s = s

  pub Calls-bind :
      {W A B : Type 0} (view : W → S) (m : Effect Error W A) (k : A → Effect Error W B)
      → Calls view m
      → ((w : W) (a : A) → (m w).0 ≡ ok a → Calls view (k a))
      → Calls view (m >>= k)
  Calls-bind {W} {A} view m k h h' w = go (m w).0 refl
    where
      go :
          (r : Outcome Error A)
          → (m w).0 ≡ r
          → MachineCalls (view w) (view (after (r, (m w).1) k).1)
      go (ok a) e = trans (h w) (h' w a e (m w).1)
      go (err x) e = h w
      go (panic p) e = h w

  pub Calls-lift :
      {W A B : Type 0} (view : W → S) (o : Outcome Error A) (k : A → Effect Error W B)
      → ((a : A) → o ≡ ok a → Calls view (k a))
      → Calls view (lift o >>= k)
  Calls-lift view o k h = Calls-bind view (lift o) k (λ w. nothing) (λ w. h)

  pub Calls-if :
      {W B : Type 0} (view : W → S) (b : Bool) (m m' : Effect Error W B)
      → (b ≡ true → Calls view m)
      → (b ≡ false → Calls view m')
      → Calls view (if b then m else m')
  Calls-if view true m m' h h' = h refl
  Calls-if view false m m' h h' = h' refl

  pub enqueue_remaning_inputs-Calls :
      (status : EpochStatus) (xs : List Input)
      → IsKnown state xs
      → Calls machine_state (enqueue_remaning_inputs beyond M status xs)
  unfolding enqueue_remaning_inputs
  enqueue_remaning_inputs-Calls status xs known =
      Calls-if machine_state (status.processed_input_count == length xs) _ _ (λ _ s. nothing)
        (λ _. Calls-lift machine_state (slice_from beyond xs sent_count) _ (λ rest e.
          Calls-bind machine_state (M.enqueue_inputs status.epoch_number sent_count rest) _
            (λ s. enqueued status.epoch_number sent_count xs rest known e nothing)
            (λ _ _ _ s. nothing)))
    where
      sent_count : ℕ
      sent_count = (status.processed_input_count + status.pending_input_count) % u64_mod

  not_true :
      {A : Type 0} (o : Outcome Error A) (k : A → Effect Error S (Unit {0})) (s : S)
      → ((lift o >>= λ a. k a >> pure false) s).0 ≡ ok true
      → ⊥
  not_true (ok a) k s = go (k a s)
    where
      go : (r : Outcome Error (Unit {0}) × S) → (after r (λ _. pure false)).0 ≡ ok true → ⊥
      go (ok _, s') e = cc
      go (err x, s') e = cc
      go (panic p, s') e = cc
  not_true (err x) k s = λ e. cc
  not_true (panic p) k s = λ e. cc

  all_processed_if :
      {A P : Type 0} (b : Bool) (o : Outcome Error A) (k : A → Effect Error S (Unit {0})) (s : S)
      → (b ≡ true → P)
      → ((if b then pure true else (lift o >>= λ a. k a >> pure false)) s).0 ≡ ok true
      → P
  all_processed_if true o k s h e = h refl
  all_processed_if false o k s h e = absurd (not_true o k s e)

  -- Where nothing is left to send, all inputs have been processed.
  all_processed :
      (status : EpochStatus) (xs : List Input) (s : S)
      → (enqueue_remaning_inputs beyond M status xs s).0 ≡ ok true
      → status.processed_input_count ≡ length xs
  unfolding enqueue_remaning_inputs
  all_processed status xs s =
      let sent_count = (status.processed_input_count + status.pending_input_count) % u64_mod in
      all_processed_if (status.processed_input_count == length xs) (slice_from beyond xs sent_count)
        (λ rest. M.enqueue_inputs status.epoch_number sent_count rest) s
        (==_iff status.processed_input_count (length xs)).0

  finish-Calls :
      (status : EpochStatus) (xs : List Input)
      → IsClosed state status.epoch_number xs
      → status.processed_input_count ≡ length xs
      → Calls machine_state (M.finish_epoch status.epoch_number status.processed_input_count)
  finish-Calls status xs h all s =
      subst (λ n. MachineCalls s (M.finish_epoch status.epoch_number n s).1) (sym all)
        (finished status.epoch_number xs h nothing)

  pub update_sealed_epoch-Calls :
      (status : EpochStatus) (xs : List Input)
      → IsClosed state status.epoch_number xs
      → Calls machine_state (update_sealed_epoch beyond M xs status)
  unfolding update_sealed_epoch
  update_sealed_epoch-Calls status xs h =
      Calls-bind machine_state (enqueue_remaning_inputs beyond M status xs) _
        (enqueue_remaning_inputs-Calls status xs (closed status.epoch_number h))
        (λ s all e.
          Calls-if machine_state (not all) _ _ (λ _ s'. nothing)
            (λ yes.
              Calls-bind machine_state
                (M.finish_epoch status.epoch_number status.processed_input_count) _
                (finish-Calls status xs h (all_processed status xs s (yes_then all e yes)))
                (λ _ _ _ s'. nothing)))
    where
      yes_then : {o : Outcome Error Bool} (b : Bool) → o ≡ ok b → not b ≡ false → o ≡ ok true
      yes_then true e _ = e
      yes_then false e h = cc

  finalized_round-Calls :
      (status : EpochStatus) (again : EpochStatus → Effect Error S (Option (Bool × EpochStatus)))
      → ((status' : EpochStatus) → Calls machine_state (again status'))
      → Calls machine_state (finalized_round beyond M state status again)
  unfolding finalized_round
  finalized_round-Calls status again h =
      Calls-lift machine_state (next_epoch state.finalized_epochs) _ (λ k _.
        Calls-if machine_state (leb k status.epoch_number) _ _ (λ _ s. nothing)
          (λ _. Calls-lift machine_state (as_u64 status.epoch_number) _ (λ index narrow.
            Calls-lift machine_state (get_epoch state.finalized_epochs index) _ (λ found got.
              Calls-lift machine_state (unwrap found) _ (λ epoch some_epoch.
                let this = closed_by found index epoch narrow got some_epoch in
                Calls-if machine_state (status.processed_input_count == length epoch.inputs.inputs)
                  _ _
                  (λ all.
                    Calls-lift machine_state (assert (status.pending_input_count == 0)) _ (λ _ _.
                      Calls-bind machine_state
                        (M.finish_epoch status.epoch_number status.processed_input_count) _
                        (finish-Calls status epoch.inputs.inputs this (
                          (==_iff status.processed_input_count (length epoch.inputs.inputs)).0 all))
                        (λ _ _ _.
                          Calls-bind machine_state M.get_current_epoch_status _
                            (λ s. status_asked nothing) (λ _ status' _. h status'))))
                  (λ _.
                    Calls-bind machine_state
                      (enqueue_remaning_inputs beyond M status epoch.inputs.inputs) _
                      (enqueue_remaning_inputs-Calls status epoch.inputs.inputs
                        (closed status.epoch_number this))
                      (λ _ _ _ s. nothing)))))))
    where
      closed_by :
          (found : Option FinalizedEpoch) (index : ℕ) (epoch : FinalizedEpoch)
          → as_u64 {E = Error} status.epoch_number ≡ ok index
          → get_epoch {E = Error} state.finalized_epochs index ≡ ok found
          → unwrap {E = Error} found ≡ ok epoch
          → IsClosed state status.epoch_number epoch.inputs.inputs
      closed_by none index epoch narrow got e = cc
      closed_by (some found) index epoch narrow got e =
          let same : some found ≡ some epoch = cc in
          finalized index epoch narrow (got ∙ ap ok same) refl

  pub enqueue_inputs_of_finalized_epochs-Calls :
      (fuel : ℕ) (status : EpochStatus)
      → Calls machine_state (enqueue_inputs_of_finalized_epochs beyond M fuel state status)
  unfolding enqueue_inputs_of_finalized_epochs
  enqueue_inputs_of_finalized_epochs-Calls zero status s = nothing
  enqueue_inputs_of_finalized_epochs-Calls (suc fuel) status s =
      finalized_round-Calls status (enqueue_inputs_of_finalized_epochs beyond M fuel state)
        (enqueue_inputs_of_finalized_epochs-Calls fuel) s
