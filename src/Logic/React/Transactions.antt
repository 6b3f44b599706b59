-- ===== src/Logic/React/Transactions.antt =====
-- Which transactions one call of `react` sends: at most one, a claim where the validator has
-- none yet, or the finalization where it has one and the challenge period is over.
use descartes_v.Base.{
  ℕ, ◌≡◌, refl, Bool, true, false, not, Option, none, some, List, inl, inr, Option-cases,
  if◌then◌else◌,
}
use mathlib.Core.Path.{subst}
use descartes_v.Outcome.{Outcome, ok, err, panic}
use descartes_v.Effect.{Effect, pure, lift, after, ◌>>=◌, ◌>>◌}
use descartes_v.Fold.Types.{
  Input, EpochWithClaims, DescartesV2State, PhaseState, input_accumulation,
  epoch_sealed_awaiting_first_claim, awaiting_consensus_no_conflict,
  awaiting_consensus_after_conflict, consensus_timeout, awaiting_dispute,
}
use descartes_v.Fold.Finalized.{next_epoch}
use descartes_v.Fold.Claims.{get_sender_claim}
use descartes_v.Machine.{Error, EpochStatus, MachineInterface}
use descartes_v.Logic.{
  Node, Call, claim, Label, claim_for_epoch, TxConfig, TransactionManager, enqueue_remaning_inputs,
  enqueue_inputs_of_finalized_epochs,
}
use descartes_v.Logic.React.{
  on_machine, send, send_claim_tx, send_finalize_tx, catch_up, react_sealed, make_claim,
  await_consensus, after_timeout, react_phase, react_from, react,
}

module _ (sender : ℕ) where
  -- In this phase the validator may claim: the epoch is sealed, and it has no claim for it.
  abbrev pub MayClaim : PhaseState → Type 0
  MayClaim input_accumulation = ⊥
  MayClaim (epoch_sealed_awaiting_first_claim _) = Unit
  MayClaim (awaiting_consensus_no_conflict e) = get_sender_claim e.claims sender ≡ none
  MayClaim (awaiting_consensus_after_conflict e _) = get_sender_claim e.claims sender ≡ none
  MayClaim (consensus_timeout e) = get_sender_claim e.claims sender ≡ none
  MayClaim (awaiting_dispute _) = ⊥

  -- In this phase it may finalize: the challenge period is over, and it has claimed.
  abbrev pub MayFinalize : PhaseState → Type 0
  MayFinalize (consensus_timeout e) = (k : ℕ) × (get_sender_claim e.claims sender ≡ some k)
  MayFinalize _ = ⊥

module _ {F S T : Type 0} (beyond : List Input → ℕ → Outcome Error (List Input))
    (tx_manager : TransactionManager F T) (contract sender : ℕ) (config : TxConfig F)
    (M : MachineInterface S) (phase : PhaseState) (n : ℕ) where
  -- From the transactions `t` to `t'` in a phase with the sealed epoch `n`.
  pub data TransactionStep (t t' : T) : Type 0 where
    idle : t' ≡ t → TransactionStep t t'
    claimed :
        (hash : ℕ) (s : S)
        → MayClaim sender phase
        → (M.get_epoch_claim n s).0 ≡ ok hash
        → t' ≡ (send tx_manager contract sender config (claim_for_epoch n) (claim hash) t).1
        → TransactionStep t t'
    finalized :
        MayFinalize sender phase
        → t'
          ≡ (send tx_manager contract sender config
              (Label.finalize_epoch n)
              Call.finalize_epoch
              t).1
        → TransactionStep t t'

  abbrev Steps : {A : Type 0} → Effect Error (Node S T) A → Type 0
  Steps m = (node : Node S T) → TransactionStep node.transactions (m node).1.transactions

  Steps-on_machine :
      {A B : Type 0} (m : Effect Error S A) (k : A → Effect Error (Node S T) B)
      → ((a : A) (s : S) → (m s).0 ≡ ok a → Steps (k a))
      → Steps (on_machine m >>= k)
  Steps-on_machine {A} m k h node = go (m node.machine).0 (m node.machine).1 refl
    where
      go :
          (r : Outcome Error A) (s : S)
          → (m node.machine).0 ≡ r
          → TransactionStep node.transactions
              (after (r, record { machine = s; transactions = node.transactions }) k).1.transactions
      go (ok a) s e = h a node.machine e (record { machine = s; transactions = node.transactions })
      go (err e) s _ = idle refl
      go (panic p) s _ = idle refl

  Steps-lift :
      {A B : Type 0} (o : Outcome Error A) (k : A → Effect Error (Node S T) B)
      → ((a : A) → o ≡ ok a → Steps (k a))
      → Steps (lift o >>= k)
  Steps-lift (ok a) k h node = h a refl node
  Steps-lift (err e) k h node = idle refl
  Steps-lift (panic p) k h node = idle refl

  Steps-pure :
      {B : Type 0} (m : Effect Error (Node S T) (Unit {0})) (b : B) → Steps m → Steps (m >> pure b)
  Steps-pure m b h node = go (m node).0 (m node).1 (h node)
    where
      go :
          (r : Outcome Error (Unit {0})) (node' : Node S T)
          → TransactionStep node.transactions node'.transactions
          → TransactionStep node.transactions (after (r, node') (λ _. pure b)).1.transactions
      go (ok a) node' e = e
      go (err _) node' e = e
      go (panic p) node' e = e

  make_claim-Steps :
      MayClaim sender phase → Steps (make_claim beyond tx_manager contract sender config M n)
  unfolding make_claim send_claim_tx
  make_claim-Steps may =
      Steps-on_machine (M.get_epoch_claim n) _ (λ hash s e node. claimed hash s may e refl)

  Steps-unless :
      {B : Type 0} (go : Bool) (b : B) (m : Effect Error (Node S T) B)
      → Steps m
      → Steps (if not go then pure b else m)
  Steps-unless true b m h = h
  Steps-unless false b m h = λ node. idle refl

  react_sealed-Steps :
      (state : DescartesV2State) (status : EpochStatus) (inputs : List Input)
      (about : ℕ → Effect Error (Node S T) (Unit {0}))
      → next_epoch {E = Error} state.finalized_epochs ≡ ok n
      → Steps (about n)
      → Steps (react_sealed beyond tx_manager contract sender config M state status inputs about)
  unfolding react_sealed
  react_sealed-Steps state status inputs about next h =
      Steps-lift (next_epoch state.finalized_epochs) _ (λ k e.
        Steps-on_machine (catch_up beyond tx_manager contract sender config M status k inputs) _
          (λ go _ _. Steps-unless go tt _ (
            Steps-on_machine
              (enqueue_remaning_inputs beyond M status state.current_epoch.inputs.inputs) _
              (λ _ _ _. subst (λ i. Steps (about i)) (same k e) h))))
    where
      same : (k : ℕ) → next_epoch {E = Error} state.finalized_epochs ≡ ok k → n ≡ k
      same k e = cc (next, e)

  await_consensus-Steps :
      (e : EpochWithClaims)
      → (get_sender_claim e.claims sender ≡ none → MayClaim sender phase)
      → Steps (await_consensus beyond tx_manager contract sender config M e n)
  unfolding await_consensus
  await_consensus-Steps e may node = elim (Option-cases (get_sender_claim e.claims sender)) [
    | inl none_yet ↦ rw (none_yet, await_consensus) (make_claim-Steps (may none_yet) node)
    | inr (k, own) ↦ rw (own, await_consensus) (idle refl)
  ]

  after_timeout-Steps :
      (e : EpochWithClaims)
      → phase ≡ consensus_timeout e
      → Steps (after_timeout beyond tx_manager contract sender config M e n)
  unfolding after_timeout send_finalize_tx
  after_timeout-Steps e here node = elim (Option-cases (get_sender_claim e.claims sender)) [
    | inl none_yet ↦ rw (none_yet, after_timeout) (make_claim-Steps (rw here none_yet) node)
    | inr (k, own) ↦ rw (own, after_timeout) (finalized (rw here (k, own)) refl)
  ]

  react_phase-Steps :
      (state : DescartesV2State) (status : EpochStatus) (p : PhaseState)
      → next_epoch {E = Error} state.finalized_epochs ≡ ok n
      → phase ≡ p
      → Steps (react_phase beyond tx_manager contract sender config M state status p)
  unfolding react_phase
  react_phase-Steps state status input_accumulation next here =
      Steps-on_machine (enqueue_remaning_inputs beyond M status state.current_epoch.inputs.inputs) _
        (λ _ _ _ node. idle refl)
  react_phase-Steps state status (epoch_sealed_awaiting_first_claim e) next here =
      react_sealed-Steps state status e.inputs.inputs _ next (make_claim-Steps (rw here tt))
  react_phase-Steps state status (awaiting_consensus_no_conflict e) next here =
      react_sealed-Steps state status e.inputs.inputs _ next
        (await_consensus-Steps e (λ none_yet. rw here none_yet))
  react_phase-Steps state status (awaiting_consensus_after_conflict e _) next here =
      react_sealed-Steps state status e.inputs.inputs _ next
        (await_consensus-Steps e (λ none_yet. rw here none_yet))
  react_phase-Steps state status (consensus_timeout e) next here =
      react_sealed-Steps state status e.inputs.inputs _ next (after_timeout-Steps e here)
  react_phase-Steps state status (awaiting_dispute e) next here = λ node. idle refl

module _ {F S T : Type 0} (beyond : List Input → ℕ → Outcome Error (List Input))
    (tx_manager : TransactionManager F T) (contract sender : ℕ) (config : TxConfig F)
    (M : MachineInterface S) where
  pub react_from-Steps :
      (state : DescartesV2State) (n : ℕ) (caught : Option (Bool × EpochStatus))
      → next_epoch {E = Error} state.finalized_epochs ≡ ok n
      → Steps beyond tx_manager contract sender config M state.current_phase n
          (react_from beyond tx_manager contract sender config M state caught)
  unfolding react_from
  react_from-Steps state n none next = λ node. idle refl
  react_from-Steps state n (some (go, status)) next =
      Steps-unless beyond tx_manager contract sender config M state.current_phase n go (some tt) _ (
        Steps-pure beyond tx_manager contract sender config M state.current_phase n _ (some tt) (
          react_phase-Steps beyond tx_manager contract sender config M state.current_phase n state
            status state.current_phase next refl))

  -- Where the number of the next epoch is in range, whatever the machine and the transaction
  -- manager answer, one call of `react` leaves the transactions as they are, or makes one call of
  -- the transaction manager: a claim, for the sealed epoch and with the hash that the machine
  -- gives for it, in a phase in which the validator has no claim for that epoch, or the
  -- finalization of that epoch, when the challenge period is over and the validator has claimed,
  -- whichever claim stands for it.
  pub react-TransactionStep :
      (fuel : ℕ) (state : DescartesV2State) (n : ℕ) (node : Node S T)
      → next_epoch {E = Error} state.finalized_epochs ≡ ok n
      → TransactionStep beyond tx_manager contract sender config M state.current_phase n
          node.transactions
          (react beyond tx_manager contract sender config M fuel state node).1.transactions
  unfolding react
  react-TransactionStep fuel state n node next =
      Steps-on_machine beyond tx_manager contract sender config M state.current_phase n
        M.get_current_epoch_status _
        (λ status _ _.
          Steps-on_machine beyond tx_manager contract sender config M state.current_phase n
            (enqueue_inputs_of_finalized_epochs beyond M fuel state status) _
            (λ caught _ _. react_from-Steps state n caught next))
        node
