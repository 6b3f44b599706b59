-- ===== src/Fold/Finalizing/Replay.antt =====
-- The finalized epochs are the same by sync, which takes the events by their position, and by
-- fold, which takes them by their number. Neither loop's assertion fails.
use descartes_v.Base.{
  ℕ, ◌+◌, ◌<◌, ◌≡◌, ◌≢◌, refl, ◌∙◌, sym, ap, false, inl, inr, some, List, [], ◌∷◌, ◌++◌, append-nil,
  length, length-append, not, Bool-cases, arith, All, if◌then◌else◌,
}
use native.Mathlib.Decide.{dec_lt}
use descartes_v.Outcome.{ok, u64_mod}
use descartes_v.Fold.Types.{EpochInputState, FinalizedEpochs}
use descartes_v.Fold.Finalized.{next_epoch}
use descartes_v.Fold.Access.{Access, Block, FoldError, FinalizeEpochFilter, LogMeta}
use descartes_v.Fold.Replay.{Grows, Linked, last_block, replay, Agree, replay-eq-sync}
use descartes_v.Fold.Finalizing.{
  FinalizedEpochFoldDelegate, sync_finalized, add_new_epochs, fold_finalized, may_have_finalized,
}
use descartes_v.Fold.Finalizing.Events.{
  Events, NumberedEvents, NumberedEvents-front, NumberedEvents-append, length-le_of_absent,
  epochs_from, HaveInputs, sync_finalized_lem, add_epochs_fold_lem, next_early, next_late,
  epochs_from-early,
}

module _ (A : Access) (d : FinalizedEpochFoldDelegate) (inputs_of : ℕ → EpochInputState)
    (initial : ℕ) (small : initial < u64_mod) where
  abbrev state_at : Events → FinalizedEpochs
  state_at = epochs_from d inputs_of initial

  -- What is assumed of a block and its child: the access answers as documented; an event with
  -- a number that the bloom filter leaves out is not among the child's; the contract numbers its
  -- finalized epochs from 0; and the inputs of an epoch do not change once it is finalized.
  pub record FinalizedLink (b c : Block) : Type 0 where
    pub grows :
        Grows
          (λ n. A.finalize_epoch_until d.descartesv2_address n)
          (λ h. A.finalize_epoch_at d.descartesv2_address h)
          b
          c
    pub bloom :
        (n : ℕ)
        → may_have_finalized d n c A ≡ false
        → All (λ (ev : FinalizeEpochFilter × LogMeta). ev.0.epoch_number ≢ n) grows.new
    pub numbered : NumberedEvents 0 (grows.old ++ grows.new)
    pub inputs_parent : HaveInputs d inputs_of b.hash (length grows.old)
    pub inputs_child : HaveInputs d inputs_of c.hash (length grows.old + length grows.new)
    pub short : length grows.old + length grows.new < u64_mod

  fold_finalized_next :
      (previous : FinalizedEpochs) (c : Block) (n : ℕ)
      → next_epoch {E = FoldError} previous ≡ ok n
      → fold_finalized d previous c A
        ≡ (if not (may_have_finalized d n c A) then ok previous else add_new_epochs d previous c A)
  unfolding fold_finalized
  fold_finalized_next previous c n next =
      elim (Bool-cases (A.contains_address c.logs_bloom d.descartesv2_address)) [
        | inl hit ↦ rw (hit, next) refl
        | inr miss ↦ rw miss refl
      ]

  fold_finalized_lem :
      (c : Block) (old new : Events)
      → A.finalize_epoch_at d.descartesv2_address c.hash ≡ some new
      → ((n : ℕ)
          → may_have_finalized d n c A ≡ false
          → All (λ (ev : FinalizeEpochFilter × LogMeta). ev.0.epoch_number ≢ n) new)
      → NumberedEvents (length old) new
      → HaveInputs d inputs_of c.hash (length old + length new)
      → length old + length new < u64_mod
      → fold_finalized d (state_at old) c A ≡ ok (state_at (old ++ new))
  unfolding add_new_epochs
  fold_finalized_lem c old new at bloom n i short = elim (dec_lt (length old) initial) [
    | yes early ↦
        rw
          (fold_finalized_next (state_at old) c initial
            (next_early d inputs_of initial old early small))
          (elim (Bool-cases (may_have_finalized d initial c A)) [
            | inl hit ↦
                rw (hit, at)
                  (add_epochs_fold_lem d inputs_of c.hash initial old new n i small short)
            | inr miss ↦ rw miss (
                ap ok (
                  sym (
                    epochs_from-early d inputs_of initial old new
                      (length-le_of_absent _ _ new n (bloom initial miss) (omega arith)))))
          ])
    | no late ↦
        rw
          (fold_finalized_next (state_at old) c (length old)
            (next_late d inputs_of initial old (omega arith) (omega arith)))
          (elim (Bool-cases (may_have_finalized d (length old) c A)) [
            | inl hit ↦
                rw (hit, at)
                  (add_epochs_fold_lem d inputs_of c.hash initial old new n i small short)
            | inr miss ↦ rw miss (
                ap (λ (l : Events). ok (state_at l))
                  (sym (append-nil old)
                    ∙ ap (λ (l : Events). old ++ l)
                        (sym (none_new old new n (bloom (length old) miss)))))
          ])
  ]
    where
      none_new :
          (old new : Events)
          → NumberedEvents (length old) new
          → All (λ (ev : FinalizeEpochFilter × LogMeta). ev.0.epoch_number ≢ length old) new
          → new ≡ []
      none_new old [] n absent = refl
      none_new old (ev ∷ new) n absent = absurd (absent.0 n.0)

  finalized_step :
      (b c : Block) (s : FinalizedEpochs)
      → FinalizedLink b c
      → sync_finalized d initial b A ≡ ok s
      → Agree (λ b. sync_finalized d initial b A) (λ s b. fold_finalized d s b A) s c
  finalized_step b c s link synced =
      let g = link.grows in
      let sum = length-append g.old g.new in
      let start : 0 + length g.old ≡ length g.old = omega arith in
      let before =
        sync_finalized_lem d inputs_of A initial b g.old g.until_parent
          (NumberedEvents-front 0 g.old g.new link.numbered) link.inputs_parent small
          (omega arith) in
      let same : state_at g.old ≡ s = cc (before, synced) in
      (
        state_at (g.old ++ g.new),
        rw (← same) (
            fold_finalized_lem c g.old g.new g.at_child link.bloom
              (rw start at (NumberedEvents-append 0 g.old g.new link.numbered)) link.inputs_child
              link.short),
        sync_finalized_lem d inputs_of A initial c (g.old ++ g.new) g.until_child link.numbered
            (rw sum link.inputs_child) small (omega (arith, sum)),
      )

  -- After a sync at a block, folding over any blocks that follow it, each linked to the one
  -- before, gives the finalized epochs that a sync at the last of them gives; no assertion of the
  -- loops fails on the way. The initial epoch is below 2^64.
  pub replay_finalized-eq-sync :
      (b : Block) (bs : List Block) (s : FinalizedEpochs)
      → Linked FinalizedLink b bs
      → sync_finalized d initial b A ≡ ok s
      → (s' : FinalizedEpochs) × (replay (λ s b. fold_finalized d s b A) s bs ≡ ok s')
        × (sync_finalized d initial (last_block b bs) A ≡ ok s')
  replay_finalized-eq-sync =
      replay-eq-sync FinalizedLink (λ b. sync_finalized d initial b A)
        (λ s b. fold_finalized d s b A) finalized_step
