-- ===== src/Fold/Epoch/Numbers.antt =====
-- The numbers of the epochs in the raw state (offchain/src/fold/epoch_delegate.rs): the sealed
-- epoch is the first that is not finalized, and the accumulating epoch is that one or the next.
use descartes_v.Base.{ℕ, ◌+◌, ◌≡◌, ◌∙◌, not, Option, none, some, ◌==◌, get_last?}
use descartes_v.Outcome.{
  ok, ok_or, unwrap, add_u256, add_u256-eq-ok, ◌>>=◌, Returns, Returns-ok, Returns-err,
  Returns-bind, Returns-if,
}
use descartes_v.Fold.Types.{AccumulatingEpoch}
use descartes_v.Fold.Finalized.{next_epoch}
use descartes_v.Fold.Sealed.{SealedEpochState}
use descartes_v.Fold.Sealed
use descartes_v.Fold.Access.{
  Access, Block, Fold, FoldError, PhaseChangeFilter, contract_error, phase_change,
}
use descartes_v.Fold.Epoch.{
  ContractPhase, input_accumulation, awaiting_consensus, awaiting_dispute, EpochState,
  EpochFoldDelegate, get_state, disputed, phase_of_event, time_of_last, event_of, sync_epoch,
  update_phase, may_have_changed, fold_unchanged, fold_changed, fold_epoch,
}
use descartes_v.Fold.Epoch.Answers.{disputed-eq-ok}

-- The folds below give each epoch under its own number.
pub record FoldsNumbered (d : EpochFoldDelegate) : Type 0 where
  pub accumulating_number :
      (n h : ℕ) (a : AccumulatingEpoch)
      → get_state d.accumulating_epoch_fold n h ≡ ok a
      → a.epoch_number ≡ n
  pub sealed_number :
      (n h : ℕ) (s : SealedEpochState)
      → get_state d.sealed_epoch_fold n h ≡ ok s
      → Sealed.epoch_number s ≡ n

-- The numbers of the sealed and of the accumulating epoch in a phase.
abbrev pub PhaseNumbers : ContractPhase → (next current : ℕ) → Type 0
PhaseNumbers input_accumulation next current = current ≡ next
PhaseNumbers (awaiting_consensus sealed _) next current =
    (Sealed.epoch_number sealed ≡ next) × (current ≡ next + 1)
PhaseNumbers (awaiting_dispute claimed) next current =
    (claimed.epoch_number ≡ next) × (current ≡ next + 1)

-- They go by the first epoch that is not finalized.
abbrev pub EpochNumbers : EpochState → Type 0
EpochNumbers raw =
    (next : ℕ) × (next_epoch {E = FoldError} raw.finalized_epochs ≡ ok next)
    × PhaseNumbers raw.current_phase next raw.current_epoch.epoch_number

module _ (d : EpochFoldDelegate) (numbered : FoldsNumbered d) where
  -- The phase and the accumulating epoch have numbers that go by `next`.
  abbrev Found : (next : ℕ) → ContractPhase × AccumulatingEpoch → Type 0
  Found next found = PhaseNumbers found.0 next found.1.epoch_number

  accumulated :
      (next h : ℕ)
      → Returns {E = FoldError} (Found next) (do
        current ← get_state d.accumulating_epoch_fold next h
        ok (input_accumulation, current))
  accumulated next h =
      Returns-bind (Found next) (get_state d.accumulating_epoch_fold next h) _ (λ current got.
        Returns-ok (Found next) (input_accumulation, current)
          (numbered.accumulating_number next h current got))

  -- The accumulating epoch after a sealed one.
  followed :
      (next h : ℕ) {C : Type 0} (P : C → Type 0) (k : AccumulatingEpoch → Fold C)
      → ((current : AccumulatingEpoch) → current.epoch_number ≡ next + 1 → Returns P (k current))
      → Returns P (do
        following ← add_u256 next 1
        current ← get_state d.accumulating_epoch_fold following h
        k current)
  followed next h P k rest = Returns-bind P (add_u256 next 1) _ (λ following sum.
      Returns-bind P (get_state d.accumulating_epoch_fold following h) _ (λ current got.
        rest current (
          numbered.accumulating_number following h current got
          ∙ (add_u256-eq-ok {E = FoldError} next 1 sum).0)))

  phase_of_event-PhaseNumbers :
      (next h : ℕ) (start : Fold ℕ) (ev : Option PhaseChangeFilter)
      → Returns (Found next) (phase_of_event d next h start ev)
  unfolding phase_of_event
  phase_of_event-PhaseNumbers next h start none = accumulated next h
  phase_of_event-PhaseNumbers next h start (some ev) =
      Returns-if (Found next) (ev.new_phase == 0) _ _ (accumulated next h) (
        Returns-if (Found next) (ev.new_phase == 1) _ _
          (Returns-bind (Found next) (get_state d.sealed_epoch_fold next h) _ (λ sealed got.
            followed next h (Found next) _ (λ current number.
              Returns-bind (Found next) start _ (λ t _.
                Returns-ok (Found next) (awaiting_consensus sealed t, current)
                  (numbered.sealed_number next h sealed got, number)))))
          (Returns-if (Found next) (ev.new_phase == 2) _ _
            (Returns-bind (Found next) (get_state d.sealed_epoch_fold next h) _ (λ sealed got.
              followed next h (Found next) _ (λ current number.
                Returns-bind (Found next) (disputed sealed) _ (λ claimed dispute.
                  Returns-ok (Found next) (awaiting_dispute claimed, current)
                    (
                      disputed-eq-ok sealed dispute ∙ numbered.sealed_number next h sealed got,
                      number,
                    )))))
            (Returns-err (Found next) _)))

  -- Where the folds below give each epoch under its own number, a state that `sync` returns has
  -- as its sealed epoch the first that is not finalized, and as its accumulating epoch the one
  -- after it, or that one itself while none is sealed.
  pub sync_epoch-EpochNumbers :
      (initial : ℕ) (block : Block) (access : Access) (raw : EpochState)
      → sync_epoch d initial block access ≡ ok raw
      → EpochNumbers raw
  unfolding sync_epoch
  sync_epoch-EpochNumbers initial block access =
      Returns-bind EpochNumbers (get_state d.finalized_epoch_fold initial block.hash) _
        (λ finalized _. Returns-bind EpochNumbers (next_epoch finalized) _ (λ next known.
          Returns-bind EpochNumbers
            (ok_or (contract_error phase_change)
              (access.phase_change_until d.descartesv2_address block.number))
            _
            (λ events _.
              Returns-bind EpochNumbers (time_of_last d access (get_last? events)) _ (λ timestamp _.
                Returns-bind EpochNumbers
                  (phase_of_event d next block.hash (unwrap timestamp)
                    (event_of d (get_last? events)))
                  _
                  (λ found e. Returns-ok EpochNumbers _ (
                    next,
                    known,
                    phase_of_event-PhaseNumbers next block.hash (unwrap timestamp)
                        (event_of d (get_last? events)) found e,
                  ))))))

  -- The phase brought up to date keeps the numbers.
  update_phase-PhaseNumbers :
      (h next : ℕ) (phase : ContractPhase) (before after : AccumulatingEpoch)
      → PhaseNumbers phase next before.epoch_number
      → after.epoch_number ≡ before.epoch_number
      → Returns (λ phase'. PhaseNumbers phase' next after.epoch_number) (update_phase d h phase)
  unfolding update_phase
  update_phase-PhaseNumbers h next input_accumulation before after numbers same =
      Returns-ok _ input_accumulation (same ∙ numbers)
  update_phase-PhaseNumbers h next (awaiting_consensus sealed t) before after (number, current)
        same =
      Returns-bind _ (get_state d.sealed_epoch_fold (Sealed.epoch_number sealed) h) _
        (λ sealed' got.
          Returns-ok _ (awaiting_consensus sealed' t)
            (numbered.sealed_number _ h sealed' got ∙ number, same ∙ current))
  update_phase-PhaseNumbers h next (awaiting_dispute sealed) before after (number, current) same =
      Returns-bind _ (get_state d.sealed_epoch_fold sealed.epoch_number h) _ (λ sealed' got.
        Returns-bind _ (disputed sealed') _ (λ claimed dispute.
          Returns-ok _ (awaiting_dispute claimed) (
            disputed-eq-ok sealed' dispute ∙ numbered.sealed_number _ h sealed' got ∙ number,
            same ∙ current,
          )))

  fold_unchanged-EpochNumbers :
      (previous : EpochState) (block : Block)
      → EpochNumbers previous
      → Returns EpochNumbers (fold_unchanged d previous block)
  unfolding fold_unchanged
  fold_unchanged-EpochNumbers previous block (next, known, numbers) =
      Returns-bind EpochNumbers
        (get_state d.accumulating_epoch_fold previous.current_epoch.epoch_number block.hash) _
        (λ current got.
          Returns-bind EpochNumbers (update_phase d block.hash previous.current_phase) _ (λ phase e.
            Returns-ok EpochNumbers _ (
              next,
              known,
              update_phase-PhaseNumbers block.hash next previous.current_phase
                  previous.current_epoch current numbers
                  (numbered.accumulating_number _ block.hash current got) phase e,
            )))

  fold_changed-EpochNumbers :
      (previous : EpochState) (block : Block) (access : Access)
      → Returns EpochNumbers (fold_changed d previous block access)
  unfolding fold_changed
  fold_changed-EpochNumbers previous block access =
      Returns-bind EpochNumbers (get_state d.finalized_epoch_fold previous.initial_epoch block.hash)
        _
        (λ finalized _. Returns-bind EpochNumbers (next_epoch finalized) _ (λ next known.
          Returns-bind EpochNumbers
            (ok_or (contract_error phase_change)
              (access.phase_change_at d.descartesv2_address block.hash))
            _
            (λ events _.
              Returns-bind EpochNumbers
                (phase_of_event d next block.hash (ok block.timestamp) (get_last? events)) _
                (λ found e. Returns-ok EpochNumbers _ (
                  next,
                  known,
                  phase_of_event-PhaseNumbers next block.hash (ok block.timestamp)
                      (get_last? events) found e,
                )))))

  -- Where the folds below give each epoch under its own number, `fold` keeps it so that the
  -- sealed epoch of a state is the first that is not finalized, and the accumulating epoch the
  -- one after it, or that one itself while none is sealed.
  pub fold_epoch-EpochNumbers :
      (previous : EpochState) (block : Block) (access : Access) (raw : EpochState)
      → EpochNumbers previous
      → fold_epoch d previous block access ≡ ok raw
      → EpochNumbers raw
  unfolding fold_epoch
  fold_epoch-EpochNumbers previous block access raw numbers =
      Returns-if EpochNumbers (not (may_have_changed d block access)) _ _
        (fold_unchanged-EpochNumbers previous block numbers)
        (fold_changed-EpochNumbers previous block access) raw
