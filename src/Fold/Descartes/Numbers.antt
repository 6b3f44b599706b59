-- ===== src/Fold/Descartes/Numbers.antt =====
-- The numbers of the epochs in the logical state (offchain/src/fold/descartesv2_delegate.rs), on
-- which the node relies when it asks the machine about the sealed epoch.
use descartes_v.Base.{ℕ, ◌+◌, ◌≡◌, ap}
use descartes_v.Outcome.{ok, Returns, Returns-bind}
use mathlib.Core.Path.{subst}
use descartes_v.Fold.Types.{
  AccumulatingEpoch, DescartesV2State, ImmutableState, PhaseState, input_accumulation,
  epoch_sealed_awaiting_first_claim, awaiting_consensus_no_conflict,
  awaiting_consensus_after_conflict, consensus_timeout, awaiting_dispute, new_accumulating_epoch,
}
use descartes_v.Fold.Finalized.{next_epoch}
use descartes_v.Fold.Sealed
use descartes_v.Fold.Access.{Access, Block, FoldError}
use descartes_v.Fold.Epoch.{EpochState, ContractPhase, get_state}
use descartes_v.Fold.Epoch.Numbers.{PhaseNumbers, EpochNumbers}
use descartes_v.Fold.Descartes.{
  DescartesV2FoldDelegate, convert_raw_to_logical, sync_constants, sync_descartes, fold_descartes,
}
use descartes_v.Fold.Descartes.Phases.{
  PhaseAt, accumulating, expired, unclaimed, timed_out, first_round, later_round,
  convert_raw_to_logical-PhaseAt,
}

-- The numbers of the sealed and of the accumulating epoch in a phase.
abbrev pub LogicalNumbers : PhaseState → (next current : ℕ) → Type 0
LogicalNumbers input_accumulation next current = current ≡ next
LogicalNumbers (epoch_sealed_awaiting_first_claim sealed) next current =
    (sealed.epoch_number ≡ next) × (current ≡ next + 1)
LogicalNumbers (awaiting_consensus_no_conflict claimed) next current =
    (claimed.epoch_number ≡ next) × (current ≡ next + 1)
LogicalNumbers (awaiting_consensus_after_conflict claimed _) next current =
    (claimed.epoch_number ≡ next) × (current ≡ next + 1)
LogicalNumbers (consensus_timeout claimed) next current =
    (claimed.epoch_number ≡ next) × (current ≡ next + 1)
LogicalNumbers (awaiting_dispute claimed) next current =
    (claimed.epoch_number ≡ next) × (current ≡ next + 1)

-- They go by the first epoch that is not finalized.
abbrev pub StateNumbers : DescartesV2State → Type 0
StateNumbers s =
    (next : ℕ) × (next_epoch {E = FoldError} s.finalized_epochs ≡ ok next)
    × LogicalNumbers s.current_phase next s.current_epoch.epoch_number

module _ (constants : ImmutableState) (now : ℕ) (raw : EpochState) (next : ℕ)
    (numbers : PhaseNumbers raw.current_phase next raw.current_epoch.epoch_number) where
  -- The numbers of the raw state, in the phase that it is in.
  numbers_in :
      (p : ContractPhase)
      → raw.current_phase ≡ p
      → PhaseNumbers p next raw.current_epoch.epoch_number
  numbers_in p e = subst (λ x. PhaseNumbers x next raw.current_epoch.epoch_number) e numbers

  PhaseAt-LogicalNumbers :
      (phase : PhaseState) (current : AccumulatingEpoch)
      → PhaseAt constants now raw phase current
      → LogicalNumbers phase next current.epoch_number
  unfolding Sealed.epoch_number new_accumulating_epoch
  PhaseAt-LogicalNumbers phase current (accumulating p _ here same) =
      rw (here, same) (numbers_in _ p)
  PhaseAt-LogicalNumbers phase current (expired p _ here same) =
      rw (here, same) (numbers_in _ p, ap (λ n. n + 1) (numbers_in _ p))
  PhaseAt-LogicalNumbers phase current (unclaimed sealed t p here same) =
      rw (here, same) (numbers_in _ p)
  PhaseAt-LogicalNumbers phase current (timed_out claimed t p _ _ here same) =
      rw (here, same) (numbers_in _ p)
  PhaseAt-LogicalNumbers phase current (first_round claimed t p _ _ here same) =
      rw (here, same) (numbers_in _ p)
  PhaseAt-LogicalNumbers phase current (later_round claimed t p _ _ here same) =
      rw (here, same) (numbers_in _ p)

-- The logical state that a raw state becomes has its numbers, also where the input accumulation
-- has run out by the clock, and the contract does not know it yet: the accumulating epoch of the
-- raw state is then the sealed one, and a new one follows it.
pub convert_raw_to_logical-StateNumbers :
    (raw : EpochState) (constants : ImmutableState) (block : Block) (initial_epoch : ℕ)
    (s : DescartesV2State)
    → EpochNumbers raw
    → convert_raw_to_logical raw constants block initial_epoch ≡ ok s
    → StateNumbers s
convert_raw_to_logical-StateNumbers raw constants block initial_epoch s (next, known, numbers) e =
    let (phase, _, _, finalized) =
      convert_raw_to_logical-PhaseAt constants block raw initial_epoch s e in
    (
      next,
      rw finalized known,
      PhaseAt-LogicalNumbers constants block.timestamp raw next numbers s.current_phase
          s.current_epoch phase,
    )

module _ (d : DescartesV2FoldDelegate)
    (below : (initial h : ℕ) (raw : EpochState)
      → get_state d.epoch_fold initial h ≡ ok raw
      → EpochNumbers raw) where
  pub sync_descartes-StateNumbers :
      (initial : ℕ) (block : Block) (access : Access)
      → Returns StateNumbers (sync_descartes d initial block access)
  unfolding sync_descartes
  sync_descartes-StateNumbers initial block access =
      Returns-bind StateNumbers (sync_constants d block access) _ (λ constants _.
        Returns-bind StateNumbers (get_state d.epoch_fold initial block.hash) _ (λ raw got s e.
          convert_raw_to_logical-StateNumbers raw constants block initial s
            (below initial block.hash raw got) e))

  pub fold_descartes-StateNumbers :
      (previous : DescartesV2State) (block : Block) (access : Access)
      → Returns StateNumbers (fold_descartes d previous block access)
  unfolding fold_descartes
  fold_descartes-StateNumbers previous block access =
      Returns-bind StateNumbers (get_state d.epoch_fold previous.initial_epoch block.hash) _
        (λ raw got s e.
          convert_raw_to_logical-StateNumbers raw previous.constants block previous.initial_epoch s
            (below previous.initial_epoch block.hash raw got) e)
