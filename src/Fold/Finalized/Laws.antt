-- ===== src/Fold/Finalized/Laws.antt =====
-- The finalized epochs are numbered consecutively from the initial epoch, and `get_epoch` finds
-- each under its number.
use descartes_v.Base.{
  ℕ, zero, suc, ◌+◌, ◌-◌, ◌≤◌, ◌<◌, ◌≡◌, refl, ◌≢◌, ◌⊎◌, inl, inr, Bool, true, false, ◌&&◌, ◌↔◌,
  none, some, List, [], ◌∷◌, ◌++◌, arith, length, get_elem?, get_elem?-ge, get_elem?-append_one,
  get_elem?-eq-none, get_elem?-eq-some, leb→le, get_elem?-lt, length-append, ==_iff, leb, ◌==◌,
  if◌then◌else◌, Bool-cases, Option-cases, ◌∙◌,
}
use native.Mathlib.Decide.{ℕ_discrete}
use descartes_v.Outcome.{ok, u64_mod, add_u256_lem, as_u64_lem}
use descartes_v.Fold.Types.{FinalizedEpoch, FinalizedEpochs}
use descartes_v.Fold.Finalized.{next_epoch, get_epoch, insert_epoch}

-- The epochs of the list bear the numbers n, n + 1, …
abbrev pub Numbered : ℕ → List FinalizedEpoch → Type 0
Numbered n [] = Unit
Numbered n (e ∷ es) = (e.epoch_number ≡ n) × Numbered (n + 1) es

abbrev pub IsConsecutive : FinalizedEpochs → Type 0
IsConsecutive f = Numbered f.initial_epoch f.finalized_epochs

-- The epochs after a successful insertion.
abbrev pub push : FinalizedEpochs → FinalizedEpoch → FinalizedEpochs
push f e = record f { finalized_epochs = f.finalized_epochs ++ e ∷ [] }

pub Numbered-append :
    (n : ℕ) (es : List FinalizedEpoch) (e : FinalizedEpoch)
    → Numbered n es
    → e.epoch_number ≡ n + length es
    → Numbered n (es ++ e ∷ [])
Numbered-append n [] e h p = omega arith
Numbered-append n (x ∷ es) e h p = (h.0, Numbered-append (n + 1) es e h.1 (omega arith))

Numbered-get_elem? :
    (n i : ℕ) (es : List FinalizedEpoch) {e : FinalizedEpoch}
    → Numbered n es
    → get_elem? es i ≡ some e
    → e.epoch_number ≡ n + i
Numbered-get_elem? n i [] h p = cc
Numbered-get_elem? n zero (x ∷ es) h p = ground arith
Numbered-get_elem? n (suc i) (x ∷ es) h p =
    let rest = Numbered-get_elem? (n + 1) i es h.1 p in omega arith

module _ {E : Type 0} where
  pub next_epoch_lem :
      (f : FinalizedEpochs)
      → f.initial_epoch + length f.finalized_epochs < u64_mod
      → next_epoch {E = E} f ≡ ok (f.initial_epoch + length f.finalized_epochs)
  unfolding next_epoch
  next_epoch_lem f h = add_u256_lem _ _ (omega arith)

  -- The lookup as one formula.
  pub get_epoch_lem :
      (f : FinalizedEpochs) (i : ℕ)
      → f.initial_epoch + length f.finalized_epochs < u64_mod
      → get_epoch {E = E} f i
        ≡ ok (
            if leb f.initial_epoch i
            then get_elem? f.finalized_epochs (i - f.initial_epoch)
            else none)
  unfolding get_epoch
  get_epoch_lem f i h =
      rw (as_u64_lem f.initial_epoch (omega arith), next_epoch_lem f h, as_u64_lem _ h)
        (ground (
          arith,
          get_elem?-ge f.finalized_epochs (i - f.initial_epoch),
          get_elem?-lt f.finalized_epochs (i - f.initial_epoch),
        ))

  -- For consecutive epochs whose next number is below 2^64: `get_epoch` finds the epoch with the
  -- number asked for exactly when that number lies between the initial epoch and the next one, and
  -- returns `None` otherwise.
  pub get_epoch-IsConsecutive :
      (f : FinalizedEpochs) (i : ℕ)
      → IsConsecutive f
      → f.initial_epoch + length f.finalized_epochs < u64_mod
      → (((e : FinalizedEpoch) × (get_epoch {E = E} f i ≡ ok (some e)) × (e.epoch_number ≡ i))
          × (f.initial_epoch ≤ i)
          × (i < f.initial_epoch + length f.finalized_epochs))
        ⊎ ((get_epoch {E = E} f i ≡ ok none)
            × ((i < f.initial_epoch) ⊎ (f.initial_epoch + length f.finalized_epochs ≤ i)))
  get_epoch-IsConsecutive f i c h =
      let formula = get_epoch_lem f i h in
      elim (Bool-cases (leb f.initial_epoch i)) [
        | inl above ↦ elim (Option-cases (get_elem? f.finalized_epochs (i - f.initial_epoch))) [
          | inl out ↦ inr (
            formula ∙ rw (above, out),
            inr (omega (arith, get_elem?-eq-none f.finalized_epochs _ out, leb→le _ _ above)),
          )
          | inr (e, found) ↦ inl (
            (
              e,
              formula ∙ rw (above, found),
              ground (arith, Numbered-get_elem? _ _ f.finalized_epochs c found),
            ),
            ground arith,
            omega (arith, get_elem?-eq-some f.finalized_epochs _ found, leb→le _ _ above),
          )
        ]
        | inr below ↦ inr (formula ∙ rw below, inl (ground arith))
      ]

  pub insert_epoch_next :
      (f : FinalizedEpochs) (e : FinalizedEpoch)
      → e.epoch_number ≡ f.initial_epoch + length f.finalized_epochs
      → f.initial_epoch + length f.finalized_epochs < u64_mod
      → insert_epoch {E = E} f e ≡ ok (true, push f e)
  unfolding insert_epoch
  insert_epoch_next f e p h = rw (next_epoch_lem f h, (==_iff _ _).1 p)

  insert_epoch_other :
      (f : FinalizedEpochs) (e : FinalizedEpoch)
      → e.epoch_number ≢ f.initial_epoch + length f.finalized_epochs
      → f.initial_epoch + length f.finalized_epochs < u64_mod
      → insert_epoch {E = E} f e ≡ ok (false, f)
  unfolding insert_epoch
  insert_epoch_other f e p h = rw (next_epoch_lem f h) (ground arith)

  get_epoch-push :
      (f : FinalizedEpochs) (e : FinalizedEpoch) (i : ℕ)
      → e.epoch_number ≡ f.initial_epoch + length f.finalized_epochs
      → suc (f.initial_epoch + length f.finalized_epochs) < u64_mod
      → get_epoch {E = E} (push f e) i
        ≡ (if i == e.epoch_number then ok (some e) else get_epoch f i)
  get_epoch-push f e i p h =
      rw
        (
          get_epoch_lem (push f e) i (omega (arith, length-append f.finalized_epochs (e ∷ []))),
          get_epoch_lem f i (omega arith),
          get_elem?-append_one,
        )
        (ground (arith, get_elem?-ge f.finalized_epochs (i - f.initial_epoch)))

  -- For consecutive epochs with room for one more below 2^64: `insert_epoch` accepts exactly the
  -- epoch that is next, and then a lookup finds it under its number and every other number as
  -- before; an epoch that it refuses leaves the finalized epochs as they are, the initial epoch
  -- included. Either way the epochs stay consecutive.
  pub get_epoch-insert_epoch :
      (f : FinalizedEpochs) (e : FinalizedEpoch) (i : ℕ)
      → IsConsecutive f
      → suc (f.initial_epoch + length f.finalized_epochs) < u64_mod
      → ((b : Bool) × (g : FinalizedEpochs) × (insert_epoch {E = E} f e ≡ ok (b, g))
          × IsConsecutive g
          × ((b ≡ true) ↔ (e.epoch_number ≡ f.initial_epoch + length f.finalized_epochs))
          × (b ≡ false → g ≡ f)
          × (get_epoch {E = E} g i
              ≡ (if b && (i == e.epoch_number) then ok (some e) else get_epoch f i)))
  get_epoch-insert_epoch f e i c h =
      elim (ℕ_discrete e.epoch_number (f.initial_epoch + length f.finalized_epochs)) [
        | yes p ↦ (
          true,
          push f e,
          insert_epoch_next f e p (omega arith),
          Numbered-append f.initial_epoch f.finalized_epochs e c p,
          (λ _. p, λ _. refl),
          (λ r. cc),
          get_epoch-push f e i p h,
        )
        | no n ↦ (
          false,
          f,
          insert_epoch_other f e n (omega arith),
          c,
          (λ q. cc, λ q. absurd (n q)),
          (λ _. refl),
          refl,
        )
      ]
