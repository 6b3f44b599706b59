-- ===== src/Fold/Finalizing/Events.antt =====
-- The finalized epochs of a list of events: what the loops of sync and of fold compute.
use descartes_v.Base.{
  ℕ, zero, suc, ◌+◌, ◌≤◌, ◌<◌, ◌≡◌, ◌≢◌, refl, ◌∙◌, sym, ap, some, List, [], ◌∷◌, ◌++◌, append-nil,
  append_assoc, map, map-append, length, length-append, length-map, length-drop, drop, drop_ge,
  drop-append_le, arith, All, ltb, lt→ltb, le→ltb, if◌then◌else◌,
}
use native.Mathlib.Decide.{dec_lt}
use descartes_v.Outcome.{ok, u64_mod, as_u64_lem}
use descartes_v.Fold.Types.{EpochInputState, FinalizedEpoch, FinalizedEpochs}
use descartes_v.Fold.Finalized.{new_finalized_epochs, next_epoch}
use descartes_v.Fold.Finalized.Laws.{push, next_epoch_lem, insert_epoch_next}
use descartes_v.Fold.Accumulating.{get_inputs}
use descartes_v.Fold.Access.{Access, Block, FoldError, FinalizeEpochFilter, LogMeta}
use descartes_v.Fold.Finalizing.{
  FinalizedEpochFoldDelegate, to_epoch, add_epoch, add_epochs_sync, add_epochs_fold, sync_finalized,
}

abbrev pub Events : Type 0
Events = List (FinalizeEpochFilter × LogMeta)

-- The events bear the numbers n, n + 1, …
abbrev pub NumberedEvents : ℕ → Events → Type 0
NumberedEvents n [] = Unit
NumberedEvents n (ev ∷ events) = (ev.0.epoch_number ≡ n) × NumberedEvents (n + 1) events

NumberedEvents-drop :
    (n k : ℕ) (events : Events) → NumberedEvents n events → NumberedEvents (n + k) (drop k events)
NumberedEvents-drop n zero events h = let e : n + 0 ≡ n = omega arith in rw e h
NumberedEvents-drop n (suc k) [] h = tt
NumberedEvents-drop n (suc k) (ev ∷ events) h =
    let e : n + suc k ≡ n + 1 + k = omega arith in rw e (NumberedEvents-drop (n + 1) k events h.1)

pub NumberedEvents-front :
    (n : ℕ) (xs ys : Events) → NumberedEvents n (xs ++ ys) → NumberedEvents n xs
NumberedEvents-front n [] ys h = tt
NumberedEvents-front n (x ∷ xs) ys h = (h.0, NumberedEvents-front (n + 1) xs ys h.1)

pub NumberedEvents-append :
    (n : ℕ) (xs ys : Events) → NumberedEvents n (xs ++ ys) → NumberedEvents (n + length xs) ys
NumberedEvents-append n [] ys h = let e : n + 0 ≡ n = omega arith in rw e h
NumberedEvents-append n (x ∷ xs) ys h =
    let e : n + suc (length xs) ≡ n + 1 + length xs = omega arith in
    rw e (NumberedEvents-append (n + 1) xs ys h.1)

-- Consecutive numbers that leave `m` out end before it.
pub length-le_of_absent :
    (n m : ℕ) (events : Events)
    → NumberedEvents n events
    → All (λ (ev : FinalizeEpochFilter × LogMeta). ev.0.epoch_number ≢ m) events
    → n ≤ m
    → n + length events ≤ m
length-le_of_absent n m [] h absent le = omega arith
length-le_of_absent n m (ev ∷ events) h absent le =
    omega (arith, length-le_of_absent (n + 1) m events h.1 absent.1 (grind (arith, h.0, absent.0)))

module _ (d : FinalizedEpochFoldDelegate) (inputs_of : ℕ → EpochInputState) where
  abbrev pub epoch_of : FinalizeEpochFilter × LogMeta → FinalizedEpoch
  epoch_of ev = to_epoch ev (inputs_of ev.0.epoch_number)

  -- The epochs that the events finalize, from `initial` on.
  abbrev pub epochs_from : (initial : ℕ) → Events → FinalizedEpochs
  epochs_from initial events = record {
    finalized_epochs = map epoch_of (drop initial events);
    initial_epoch = initial;
  }

  add_epoch_lem :
      (h : ℕ) (f : FinalizedEpochs) (ev : FinalizeEpochFilter × LogMeta)
      → get_inputs d.input_fold ev.0.epoch_number h ≡ ok (inputs_of ev.0.epoch_number)
      → ev.0.epoch_number ≡ f.initial_epoch + length f.finalized_epochs
      → f.initial_epoch + length f.finalized_epochs < u64_mod
      → add_epoch d h f ev ≡ ok (push f (epoch_of ev))
  unfolding add_epoch
  add_epoch_lem h f ev p q r = rw (p, insert_epoch_next f (epoch_of ev) q r)

  -- At the block with hash `h` the epochs numbered below `n` have their inputs.
  abbrev pub HaveInputs : (h n : ℕ) → Type 0
  HaveInputs h n = (k : ℕ) → k < n → get_inputs d.input_fold k h ≡ ok (inputs_of k)

  add_epochs_sync_lem :
      (h : ℕ) (f : FinalizedEpochs) (events : Events)
      → NumberedEvents (f.initial_epoch + length f.finalized_epochs) events
      → HaveInputs h (f.initial_epoch + length f.finalized_epochs + length events)
      → f.initial_epoch + length f.finalized_epochs + length events < u64_mod
      → add_epochs_sync d h f events
        ≡ ok (record f { finalized_epochs = f.finalized_epochs ++ map epoch_of events })
  unfolding add_epochs_sync
  add_epochs_sync_lem h f [] n i b = rw append-nil
  add_epochs_sync_lem h f (ev ∷ events) n i b =
      let one : length (f.finalized_epochs ++ epoch_of ev ∷ []) ≡ length f.finalized_epochs + 1 =
        length-append f.finalized_epochs (epoch_of ev ∷ []) ∙ omega arith in
      let eq : f.initial_epoch + length (push f (epoch_of ev)).finalized_epochs
          ≡ f.initial_epoch + length f.finalized_epochs + 1 =
        omega (arith, one) in
      rw (add_epoch_lem h f ev (i _ (omega (arith, n.0))) n.0 (omega arith)) (
        add_epochs_sync_lem h (push f (epoch_of ev)) events (rw eq n.1)
          (λ k lt. i k (omega (arith, one))) (omega (arith, one))
        ∙ (rw append_assoc))

  -- A sync returns the epochs of the events from the initial one on.
  pub sync_finalized_lem :
      (A : Access) (initial : ℕ) (b : Block) (events : Events)
      → A.finalize_epoch_until d.descartesv2_address b.number ≡ some events
      → NumberedEvents 0 events
      → HaveInputs b.hash (length events)
      → initial < u64_mod
      → length events < u64_mod
      → sync_finalized d initial b A ≡ ok (epochs_from initial events)
  unfolding sync_finalized new_finalized_epochs
  sync_finalized_lem A initial b events q n i small short =
      rw (q, as_u64_lem initial small)
        (elim (dec_lt (length events) initial) [
          | yes few ↦ rw (lt→ltb _ _ few, drop_ge initial events (omega arith)) refl
          | no enough ↦ rw (le→ltb (length events) initial (omega arith)) (
              add_epochs_sync_lem b.hash (new_finalized_epochs initial) (drop initial events)
                (let e : 0 + initial ≡ initial + 0 = omega arith in
                  rw (← e) (NumberedEvents-drop 0 initial events n))
                (λ k lt. i k (omega (arith, length-drop initial events)))
                (omega (arith, length-drop initial events)))
        ])

  -- The number after the last epoch, or the initial one.
  next_number :
      (initial : ℕ) (events : Events)
      → initial + length (epochs_from initial events).finalized_epochs
        ≡ (if ltb (length events) initial then initial else length events)
  next_number initial events =
      ground (arith, length-map epoch_of (drop initial events), length-drop initial events)

  pub epochs_from_short :
      (initial : ℕ) (events : Events)
      → initial < u64_mod
      → length events < u64_mod
      → initial + length (epochs_from initial events).finalized_epochs < u64_mod
  epochs_from_short initial events small short = ground (arith, next_number initial events)

  pub next_early :
      (initial : ℕ) (events : Events)
      → length events < initial
      → initial < u64_mod
      → next_epoch {E = FoldError} (epochs_from initial events) ≡ ok initial
  next_early initial events h small =
      let n : initial + length (epochs_from initial events).finalized_epochs ≡ initial =
        next_number initial events ∙ rw (lt→ltb _ _ h) refl in
      next_epoch_lem (epochs_from initial events) (omega (arith, n)) ∙ ap ok n

  pub next_late :
      (initial : ℕ) (events : Events)
      → initial ≤ length events
      → length events < u64_mod
      → next_epoch {E = FoldError} (epochs_from initial events) ≡ ok (length events)
  next_late initial events h short =
      let n : initial + length (epochs_from initial events).finalized_epochs ≡ length events =
        next_number initial events ∙ rw (le→ltb _ _ h) refl in
      next_epoch_lem (epochs_from initial events) (omega (arith, n)) ∙ ap ok n

  -- One event more.
  pub epochs_from-early :
      (initial : ℕ) (old new : Events)
      → length old + length new ≤ initial
      → epochs_from initial (old ++ new) ≡ epochs_from initial old
  epochs_from-early initial old new h = rw (
    drop_ge initial (old ++ new) (omega (arith, length-append old new)),
    drop_ge initial old (omega arith),
  )

  epochs_from-late :
      (initial : ℕ) (old : Events) (ev : FinalizeEpochFilter × LogMeta)
      → initial ≤ length old
      → push (epochs_from initial old) (epoch_of ev) ≡ epochs_from initial (old ++ ev ∷ [])
  epochs_from-late initial old ev h = rw (drop-append_le initial old (ev ∷ []) h, map-append)

  pub add_epochs_fold_lem :
      (h initial : ℕ) (old new : Events)
      → NumberedEvents (length old) new
      → HaveInputs h (length old + length new)
      → initial < u64_mod
      → length old + length new < u64_mod
      → add_epochs_fold d h (epochs_from initial old) new ≡ ok (epochs_from initial (old ++ new))
  unfolding add_epochs_fold
  add_epochs_fold_lem h initial old [] n i small short = rw append-nil
  add_epochs_fold_lem h initial old (ev ∷ new) n i small short =
      let one = length-append old (ev ∷ []) in
      let ih =
        add_epochs_fold_lem h initial (old ++ ev ∷ []) new (rw one n.1)
          (λ k lt. i k (omega (arith, one))) small (omega (arith, one)) in
      let assoc =
        ap (λ (l : Events). ok (epochs_from initial l)) (append_assoc old (ev ∷ []) new) in
      elim (dec_lt (length old) initial) [
        | yes early ↦
            rw
              (
                next_early initial old early small,
                lt→ltb ev.0.epoch_number initial (omega (arith, n.0)),
              )
              (ap (λ (f : FinalizedEpochs). add_epochs_fold d h f new)
                  (sym (epochs_from-early initial old (ev ∷ []) (omega arith)))
                ∙ ih
                ∙ assoc)
        | no late ↦
            let le : initial ≤ length old = omega arith in
            let next : initial + length (epochs_from initial old).finalized_epochs ≡ length old =
              next_number initial old ∙ rw (le→ltb _ _ le) refl in
            rw
              (
                next_late initial old le (omega arith),
                le→ltb ev.0.epoch_number (length old) (omega (arith, n.0)),
                add_epoch_lem h (epochs_from initial old) ev (i _ (omega (arith, n.0)))
                    (omega (arith, n.0, next)) (omega (arith, next)),
              )
              (ap (λ (f : FinalizedEpochs). add_epochs_fold d h f new)
                  (epochs_from-late initial old ev le)
                ∙ ih
                ∙ assoc)
      ]
