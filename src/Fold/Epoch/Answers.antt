-- ===== src/Fold/Epoch/Answers.antt =====
-- The raw state of the contract in terms of what the folds below answer.
use descartes_v.Base.{
  ℕ, ◌+◌, ◌<◌, ◌≡◌, refl, inl, inr, Option, none, some, Bool-cases, arith, ◌==◌, if◌then◌else◌,
}
use descartes_v.Outcome.{ok, err, panic, u256_mod, add_u256_lem, >>=-eq-ok, >>=_assoc, ◌>>=◌}
use descartes_v.Fold.Types.{AccumulatingEpoch, EpochWithClaims, FinalizedEpochs}
use descartes_v.Fold.Finalized.{next_epoch}
use descartes_v.Fold.Sealed.{SealedEpochState, sealed_epoch_no_claims, sealed_epoch_with_claims}
use descartes_v.Fold.Sealed
use descartes_v.Fold.Access.{Fold, FoldError, PhaseChangeFilter, unknown_phase}
use descartes_v.Fold.Epoch.{
  ContractPhase, input_accumulation, awaiting_consensus, awaiting_dispute, EpochFoldDelegate,
  get_state, disputed, phase_of_event, update_phase,
}

-- A dispute is about the epoch of the sealed state.
pub disputed-eq-ok :
    (s : SealedEpochState) {e : EpochWithClaims}
    → disputed s ≡ ok e
    → e.epoch_number ≡ Sealed.epoch_number s
unfolding disputed Sealed.epoch_number
disputed-eq-ok (sealed_epoch_no_claims s) h = cc
disputed-eq-ok (sealed_epoch_with_claims s) h = ground arith

module _ (d : EpochFoldDelegate) (initial : ℕ) where
  -- The folds below answer for the block with hash `h`, each epoch under its own number.
  pub record Answers (h : ℕ) : Type 0 where
    pub finalized : FinalizedEpochs
    pub next : ℕ
    pub accumulating : ℕ → AccumulatingEpoch
    pub sealed : ℕ → SealedEpochState
    pub finalized_answer : get_state d.finalized_epoch_fold initial h ≡ ok finalized
    pub next_answer : next_epoch {E = FoldError} finalized ≡ ok next
    pub accumulating_answer :
        (n : ℕ) → get_state d.accumulating_epoch_fold n h ≡ ok (accumulating n)
    pub accumulating_number : (n : ℕ) → (accumulating n).epoch_number ≡ n
    pub sealed_answer : (n : ℕ) → get_state d.sealed_epoch_fold n h ≡ ok (sealed n)
    pub sealed_number : (n : ℕ) → Sealed.epoch_number (sealed n) ≡ n
    pub room : next + 1 < u256_mod

  -- The phase by the answers.
  abbrev pub phase_by :
      {h : ℕ}
      → Answers h
      → (next : ℕ) → Fold ℕ
      → Option PhaseChangeFilter
      → Fold (ContractPhase × AccumulatingEpoch)
  phase_by a next start none = ok (input_accumulation, a.accumulating next)
  phase_by a next start (some ev) =
      if ev.new_phase == 0
      then ok (input_accumulation, a.accumulating next)
      else if ev.new_phase == 1
      then (do t ← start; ok (awaiting_consensus (a.sealed next) t, a.accumulating (next + 1)))
      else if ev.new_phase == 2
      then (do
        claimed ← disputed (a.sealed next)
        ok (awaiting_dispute claimed, a.accumulating (next + 1)))
      else err (unknown_phase ev.new_phase)

  pub phase_of_event_lem :
      (h : ℕ) (a : Answers h) (next : ℕ) (start : Fold ℕ) (ev : Option PhaseChangeFilter)
      → next + 1 < u256_mod
      → phase_of_event d next h start ev ≡ phase_by a next start ev
  unfolding phase_of_event
  phase_of_event_lem h a next start none room = rw (a.accumulating_answer next)
  phase_of_event_lem h a next start (some ev) room =
      rw
        (
          a.accumulating_answer next,
          a.sealed_answer next,
          add_u256_lem next 1 room,
          a.accumulating_answer (next + 1),
        )
        refl

  -- What `fold_unchanged` computes of a phase and an accumulating epoch.
  abbrev pub updated :
      (h : ℕ) → ContractPhase × AccumulatingEpoch → Fold (ContractPhase × AccumulatingEpoch)
  updated h found = do
    current ← get_state d.accumulating_epoch_fold found.1.epoch_number h
    phase ← update_phase d h found.0
    ok (phase, current)

  pub updated_lem :
      (h h' : ℕ) (a : Answers h) (a' : Answers h') (next : ℕ) (start : Fold ℕ)
      (ev : Option PhaseChangeFilter) (found : ContractPhase × AccumulatingEpoch)
      → phase_by a next start ev ≡ ok found
      → updated h' found ≡ phase_by a' next start ev
  unfolding update_phase
  updated_lem h h' a a' next start none found e =
      let same : (input_accumulation, a.accumulating next) ≡ found = cc in
      rw (← same, a.accumulating_number next, a'.accumulating_answer next)
  updated_lem h h' a a' next start (some ev) found e = elim (Bool-cases (ev.new_phase == 0)) [
    | inl zero ↦
        let same : (input_accumulation, a.accumulating next) ≡ found = cc (rw zero at e) in
        rw (zero, ← same, a.accumulating_number next, a'.accumulating_answer next)
    | inr nonzero ↦ elim (Bool-cases (ev.new_phase == 1)) [
      | inl one ↦
          let (t, started, after) = >>=-eq-ok start _ (rw (nonzero, one) at e) in
          let same : (awaiting_consensus (a.sealed next) t, a.accumulating (next + 1)) ≡ found =
            cc in
          rw (
            nonzero,
            one,
            started,
            ← same,
            a.accumulating_number (next + 1),
            a'.accumulating_answer (next + 1),
            a.sealed_number next,
            a'.sealed_answer next,
          )
      | inr not_one ↦ elim (Bool-cases (ev.new_phase == 2)) [
        | inl two ↦
            let (claimed, dispute, after) =
              >>=-eq-ok (disputed (a.sealed next)) _ (rw (nonzero, not_one, two) at e) in
            let same : (awaiting_dispute claimed, a.accumulating (next + 1)) ≡ found = cc in
            rw
              (
                nonzero,
                not_one,
                two,
                ← same,
                a.accumulating_number (next + 1),
                a'.accumulating_answer (next + 1),
                disputed-eq-ok (a.sealed next) dispute,
                a.sealed_number next,
                a'.sealed_answer next,
              )
              (>>=_assoc (disputed (a'.sealed next)) _ _)
        | inr other ↦ cc (rw (nonzero, not_one, other) at e)
      ]
    ]
  ]

pub seq_lem :
    {A B C : Type 0} (m : Fold A) (u : Fold B) (k : B × A → Fold C)
    → (m >>= (λ a. u >>= λ b. ok (b, a)) >>= k) ≡ (m >>= λ a. u >>= λ b. k (b, a))
seq_lem (ok a) u k = >>=_assoc u _ k
seq_lem (err e) u k = refl
seq_lem (panic p) u k = refl
