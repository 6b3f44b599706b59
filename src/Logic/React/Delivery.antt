-- ===== src/Logic/React/Delivery.antt =====
-- Which inputs the machine gets of a call of `enqueue_remaning_inputs`
-- (offchain/src/logic/descartes_logic.rs).
pub mod Step
use Prim.Native.Nat.{◌%◌}
use descartes_v.Base.{
  ℕ, suc, ◌+◌, ◌<◌, ◌≡◌, refl, sym, ◌∙◌, ap, Bool, true, false, Bool-cases, inl, inr, Option, some,
  List, [], ◌∷◌, ◌++◌, append-nil, arith, length, length-append, leb, drop-append, ◌==◌,
}
use native.Mathlib.Nat.{mod-eq_of_lt}
use mathlib.Core.Path.{subst}
use descartes_v.Outcome.{Outcome, ok, u64_mod}
use descartes_v.Effect.{Effect, pure, lift, ◌>>=◌, ◌>>◌, >>=-ok, >>=-eq-ok}
use descartes_v.Fold.Types.{Input, DescartesV2State}
use descartes_v.Fold.Finalized.{next_epoch}
use descartes_v.Machine.{Error, EpochStatus, MachineInterface}
use descartes_v.Fold.Types.{input_accumulation}
use descartes_v.Logic.React.{on_machine, react_phase, react_from, react}
use descartes_v.Logic.React.Liveness.{Serves, caught_up, enqueue_remaning_inputs_served}
use descartes_v.Logic.{
  Node, TxConfig, TransactionManager, slice_from, enqueue_remaning_inputs,
  enqueue_inputs_of_finalized_epochs,
}

module _ {S : Type 0} where
  -- The inputs that a machine has got for each epoch: a call that succeeds adds its inputs at the
  -- end, and the machine stays on its epoch; the status counts them, and asking for it changes
  -- nothing.
  pub record Receives (M : MachineInterface S) : Type 0 where
    pub received : S → ℕ → List Input
    pub enqueued :
        (e k : ℕ) (inputs : List Input) (s : S)
        → (M.enqueue_inputs e k inputs s).0 ≡ ok tt
        → received (M.enqueue_inputs e k inputs s).1 e ≡ received s e ++ inputs
    pub counted :
        (s : S) (status : EpochStatus)
        → (M.get_current_epoch_status s).0 ≡ ok status
        → status.processed_input_count + status.pending_input_count
          ≡ length (received s status.epoch_number)
    pub asked : (s : S) (e : ℕ) → received (M.get_current_epoch_status s).1 e ≡ received s e
    pub current : S → ℕ
    pub reported :
        (s : S) (status : EpochStatus)
        → (M.get_current_epoch_status s).0 ≡ ok status
        → status.epoch_number ≡ current s
    pub enqueue_stays :
        (e k : ℕ) (inputs : List Input) (s : S)
        → (M.enqueue_inputs e k inputs s).0 ≡ ok tt
        → current (M.enqueue_inputs e k inputs s).1 ≡ current s
    pub asked_stays : (s : S) → current (M.get_current_epoch_status s).1 ≡ current s

-- The machine answers when it is asked for its status.
pub record Reports {S : Type 0} (M : MachineInterface S) : Type 0 where
  pub answered : (s : S) → (status : EpochStatus) × ((M.get_current_epoch_status s).0 ≡ ok status)

nil_of_length : (xs : List Input) → length xs ≡ 0 → xs ≡ []
nil_of_length [] e = refl
nil_of_length (x ∷ xs) e = absurd (omega arith)

module _ {S : Type 0} (beyond : List Input → ℕ → Outcome Error (List Input))
    (M : MachineInterface S) (receives : Receives M) where
  remaining_received :
      (status : EpochStatus) (rest : List Input) (s : S) (all : Bool)
      → status.processed_input_count + status.pending_input_count
        ≡ length (receives.received s status.epoch_number)
      → length (receives.received s status.epoch_number ++ rest) < u64_mod
      → (enqueue_remaning_inputs beyond M status
          (receives.received s status.epoch_number ++ rest)
          s).0
        ≡ ok all
      → receives.received
          (enqueue_remaning_inputs beyond M status
            (receives.received s status.epoch_number ++ rest)
            s).1
          status.epoch_number
        ≡ receives.received s status.epoch_number ++ rest
  unfolding enqueue_remaning_inputs slice_from
  remaining_received status rest s all counts short e =
      let old = receives.received s status.epoch_number in
      let sum : length (old ++ rest) ≡ length old + length rest = length-append old rest in
      elim (Bool-cases (status.processed_input_count == length (old ++ rest))) [
        | inl every ↦
            let none_left : length rest ≡ 0 = ground (arith, sum) in
            rw (every, nil_of_length rest none_left, append-nil) refl
        | inr some_left ↦
            let no_wrap : (status.processed_input_count + status.pending_input_count) % u64_mod
                ≡ length old =
              rw counts (mod-eq_of_lt (omega (arith, sum))) in
            let in_range : leb (length old) (length (old ++ rest)) ≡ true = ground (arith, sum) in
            let send : Effect Error S (Unit {0}) =
              M.enqueue_inputs status.epoch_number (length old) rest in
            let (_, sent, _) =
              >>=-eq-ok send (λ _. pure false) s
                (rw (some_left, no_wrap, in_range, drop-append) at e) in
            rw (some_left, no_wrap, in_range, drop-append)
              (rw (>>=-ok send (λ _. pure false) s sent)
                (receives.enqueued status.epoch_number (length old) rest s sent))
      ]

  -- The machine has got the first of these inputs for the epoch.
  abbrev pub Begins : S → ℕ → List Input → Type 0
  Begins s e inputs = (rest : List Input) × (receives.received s e ++ rest ≡ inputs)

  -- Where the machine has got the first inputs of the epoch that its status is about, as many as
  -- the status counts, a call of `enqueue_remaning_inputs` that ends well has sent the others,
  -- each once and in order: the machine then has all inputs of the epoch, and no more.
  pub enqueue_remaning_inputs-received :
      (status : EpochStatus) (inputs : List Input) (s : S) (all : Bool)
      → Begins s status.epoch_number inputs
      → length inputs < u64_mod
      → status.processed_input_count + status.pending_input_count
        ≡ length (receives.received s status.epoch_number)
      → (enqueue_remaning_inputs beyond M status inputs s).0 ≡ ok all
      → receives.received (enqueue_remaning_inputs beyond M status inputs s).1 status.epoch_number
        ≡ inputs
  enqueue_remaning_inputs-received status inputs s all (rest, begins) short counts e =
      subst
        (λ i.
          length i < u64_mod
          → (enqueue_remaning_inputs beyond M status i s).0 ≡ ok all
          → receives.received (enqueue_remaning_inputs beyond M status i s).1 status.epoch_number
            ≡ i)
        begins (λ short e. remaining_received status rest s all counts short e) short e

  enqueue_remaning_inputs-current :
      (status : EpochStatus) (inputs : List Input) (s : S) (all : Bool)
      → (enqueue_remaning_inputs beyond M status inputs s).0 ≡ ok all
      → receives.current (enqueue_remaning_inputs beyond M status inputs s).1 ≡ receives.current s
  unfolding enqueue_remaning_inputs
  enqueue_remaning_inputs-current status inputs s all e =
      elim (Bool-cases (status.processed_input_count == length inputs)) [
        | inl every ↦ rw every refl
        | inr some_left ↦
            let count = (status.processed_input_count + status.pending_input_count) % u64_mod in
            let (slice, cut, e1) =
              >>=-eq-ok (lift (slice_from beyond inputs count))
                (λ slice. M.enqueue_inputs status.epoch_number count slice >> pure false) s
                (rw some_left at e) in
            let send : Effect Error S (Unit {0}) =
              M.enqueue_inputs status.epoch_number count slice in
            let (_, sent, _) = >>=-eq-ok send (λ _. pure false) s e1 in
            rw (some_left, cut)
              (rw (>>=-ok send (λ _. pure false) s sent)
                (receives.enqueue_stays status.epoch_number count slice s sent))
      ]

module _ {S : Type 0} (M : MachineInterface S) (receives : Receives M) where
  -- The machine is on the epoch, and has got these inputs for it.
  abbrev pub Has : S → (e : ℕ) → List Input → Type 0
  Has s e inputs = (receives.current s ≡ e) × (receives.received s e ≡ inputs)

-- The epoch `e` takes inputs, and has these.
abbrev pub Accumulates : DescartesV2State → (e : ℕ) → List Input → Type 0
Accumulates state e inputs =
    (state.current_phase ≡ input_accumulation)
    × (next_epoch {E = Error} state.finalized_epochs ≡ ok e)
    × (state.current_epoch.inputs.inputs ≡ inputs)
