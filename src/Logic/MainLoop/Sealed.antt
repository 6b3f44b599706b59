-- ===== src/Logic/MainLoop/Sealed.antt =====
-- The fold and the node together: what `react` (offchain/src/logic/descartes_logic.rs) sends on a
-- state of the fold of the set-up (offchain/src/fold/setup.rs) is about the sealed epoch that the
-- state itself names.
use descartes_v.Base.{ℕ, ◌≡◌, refl, sym, ◌∙◌, ◌⊎◌, inl, inr, Option, none, some, List, length}
use mathlib.Core.Path.{subst}
use descartes_v.Outcome.{Outcome, ok, add_u256-eq-ok}
use descartes_v.Fold.Types.{
  Input, DescartesV2State, PhaseState, FinalizedEpochs, input_accumulation,
  epoch_sealed_awaiting_first_claim, awaiting_consensus_no_conflict,
  awaiting_consensus_after_conflict, consensus_timeout, awaiting_dispute,
}
use descartes_v.Fold.Finalized.{next_epoch}
use descartes_v.Fold.Access.{Access, BlockState, FoldError}
use descartes_v.Fold.Descartes.Numbers.{LogicalNumbers, StateNumbers}
use descartes_v.Fold.Setup.{SetupConfig, StateFoldCrate, create_descartes_state_fold}
use descartes_v.Fold.Setup.Obtained.{Obtains}
use descartes_v.Fold.Setup.Numbers.{create_descartes_state_fold-StateNumbers}
use descartes_v.Machine.{Error, MachineInterface}
use descartes_v.Logic.{Node, TxConfig, TransactionManager}
use descartes_v.Logic.React.{react}
use descartes_v.Logic.React.Transactions.{
  TransactionStep, idle, claimed, finalized, MayClaim, MayFinalize,
}
use descartes_v.Logic.MainLoop.Steps.{Reaction, silent, acted, react-Reaction}

-- The number of the sealed epoch of a phase.
abbrev pub sealed_number : PhaseState → Option ℕ
sealed_number input_accumulation = none
sealed_number (epoch_sealed_awaiting_first_claim e) = some e.epoch_number
sealed_number (awaiting_consensus_no_conflict e) = some e.epoch_number
sealed_number (awaiting_consensus_after_conflict e _) = some e.epoch_number
sealed_number (consensus_timeout e) = some e.epoch_number
sealed_number (awaiting_dispute e) = some e.epoch_number

next_epoch-Error :
    (f : FinalizedEpochs) {n m : ℕ}
    → next_epoch {E = FoldError} f ≡ ok n
    → next_epoch {E = Error} f ≡ ok m
    → n ≡ m
unfolding next_epoch
next_epoch-Error f e e' =
    let (is_sum, _) =
      add_u256-eq-ok {E = FoldError} f.initial_epoch (length f.finalized_epochs) e in
    let (is_sum', _) = add_u256-eq-ok {E = Error} f.initial_epoch (length f.finalized_epochs) e' in
    is_sum ∙ sym is_sum'

numbered :
    (phase : PhaseState) (next current : ℕ)
    → LogicalNumbers phase next current
    → (phase ≡ input_accumulation) ⊎ (sealed_number phase ≡ some next)
numbered input_accumulation next current _ = inl refl
numbered (epoch_sealed_awaiting_first_claim e) next current (same, _) = inr (rw same)
numbered (awaiting_consensus_no_conflict e) next current (same, _) = inr (rw same)
numbered (awaiting_consensus_after_conflict e _) next current (same, _) = inr (rw same)
numbered (consensus_timeout e) next current (same, _) = inr (rw same)
numbered (awaiting_dispute e) next current (same, _) = inr (rw same)

module _ {F S T : Type 0} (beyond : List Input → ℕ → Outcome Error (List Input))
    (tx_manager : TransactionManager F T) (contract sender : ℕ) (config : TxConfig F)
    (M : MachineInterface S) where
  -- The transactions stay, or change by one step for the sealed epoch of the phase.
  abbrev pub SealedStep : PhaseState → (t t' : T) → Type 0
  SealedStep phase t t' =
      (t' ≡ t)
      ⊎ ((n : ℕ) × (sealed_number phase ≡ some n)
          × TransactionStep beyond tx_manager contract sender config M phase n t t')

  TransactionStep-SealedStep :
      (phase : PhaseState) (n : ℕ) (t t' : T)
      → (phase ≡ input_accumulation) ⊎ (sealed_number phase ≡ some n)
      → TransactionStep beyond tx_manager contract sender config M phase n t t'
      → SealedStep phase t t'
  TransactionStep-SealedStep phase n t t' (inr number) step = inr (n, number, step)
  TransactionStep-SealedStep phase n t t' (inl none_sealed) (idle same) = inl same
  TransactionStep-SealedStep phase n t t' (inl none_sealed) (claimed hash s may _ _) =
      absurd (subst (MayClaim sender) none_sealed may)
  TransactionStep-SealedStep phase n t t' (inl none_sealed) (finalized may _) =
      absurd (subst (MayFinalize sender) none_sealed may)

  Reaction-SealedStep :
      (state : DescartesV2State) (t t' : T)
      → StateNumbers state
      → Reaction beyond tx_manager contract sender config M state t t'
      → SealedStep state.current_phase t t'
  Reaction-SealedStep state t t' numbers (silent same) = inl same
  Reaction-SealedStep state t t' (next, known, numbers) (acted n known' step) =
      let same = next_epoch-Error state.finalized_epochs known known' in
      TransactionStep-SealedStep state.current_phase n t t'
        (subst
          (λ m.
            (state.current_phase ≡ input_accumulation)
            ⊎ (sealed_number state.current_phase ≡ some m))
          same (numbered state.current_phase next state.current_epoch.epoch_number numbers))
        step

  -- Where the crate state_fold gets every state by a sync, or by the fold of a block into an
  -- earlier state, one call of `react` on a state of the fold of the set-up, whatever the machine
  -- and the transaction manager answer, leaves the transactions as they are or makes one step for
  -- the sealed epoch in the phase of that state: a claim or the finalization under the number that
  -- this epoch itself bears.
  pub react-sealed_number :
      (crate : StateFoldCrate) (access : Access) (setup : SetupConfig)
      → Obtains crate access
      → (initial h fuel : ℕ) (found : BlockState DescartesV2State) (node : Node S T)
      → create_descartes_state_fold crate access setup initial h ≡ ok found
      → SealedStep found.state.current_phase node.transactions
          (react beyond tx_manager contract sender config M fuel found.state node).1.transactions
  react-sealed_number crate access setup obtains initial h fuel found node e =
      Reaction-SealedStep found.state _ _
        (create_descartes_state_fold-StateNumbers crate access setup obtains initial h found e)
        (react-Reaction beyond tx_manager contract sender config M fuel found.state node)
