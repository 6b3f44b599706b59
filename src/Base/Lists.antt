-- ===== src/Base/Lists.antt =====
-- Lists measured and indexed by native numbers, under the library's names.
use Prim.Native.Nat.{ℕ, zero, suc, ◌+◌, ◌-◌, ◌≤◌, ◌<◌}
use mathlib.Core.Path.{◌≡◌, refl, ap}
use mathlib.Core.List.{List, [], ◌∷◌, ◌++◌, map}
use mathlib.Core.Option.{Option, none, some}
use mathlib.Core.Option
use native.Mathlib.Omega.{arith}
use descartes_v.Base.Tests.{◌==◌, if◌then◌else◌}

module _ {ℓ} {A : Type ℓ} where
  abbrev pub length : List A → ℕ
  length [] = 0
  length (x ∷ xs) = suc (length xs)

  abbrev pub get_elem? : List A → ℕ → Option A
  get_elem? [] i = none
  get_elem? (x ∷ xs) zero = some x
  get_elem? (x ∷ xs) (suc i) = get_elem? xs i

  abbrev pub drop : ℕ → List A → List A
  drop zero xs = xs
  drop (suc n) [] = []
  drop (suc n) (x ∷ xs) = drop n xs

  -- `.last()`
  abbrev pub get_last? : List A → Option A
  get_last? [] = none
  get_last? (x ∷ xs) = elim (get_last? xs) [ none ↦ some x | some y ↦ some y ]

  abbrev pub All {κ} : (A → Type κ) → List A → Type κ
  All P [] = Unit
  All P (x ∷ xs) = P x × All P xs

module _ {ℓ} {A : Type ℓ} where
  pub length-append : (xs ys : List A) → length (xs ++ ys) ≡ length xs + length ys
  length-append [] ys = omega arith
  length-append (x ∷ xs) ys = omega (arith, length-append xs ys)

  pub length-drop : (n : ℕ) (xs : List A) → length (drop n xs) ≡ length xs - n
  length-drop zero xs = omega arith
  length-drop (suc n) [] = omega arith
  length-drop (suc n) (x ∷ xs) = omega (arith, length-drop n xs)

  pub drop_ge : (n : ℕ) (xs : List A) → length xs ≤ n → drop n xs ≡ []
  drop_ge zero [] h = refl
  drop_ge zero (x ∷ xs) h = absurd (omega arith)
  drop_ge (suc n) [] h = refl
  drop_ge (suc n) (x ∷ xs) h = drop_ge n xs (omega arith)

  pub drop-append_le :
      (n : ℕ) (xs ys : List A) → n ≤ length xs → drop n (xs ++ ys) ≡ drop n xs ++ ys
  drop-append_le zero xs ys h = refl
  drop-append_le (suc n) [] ys h = absurd (omega arith)
  drop-append_le (suc n) (x ∷ xs) ys h = drop-append_le n xs ys (omega arith)

  pub drop-append : (xs ys : List A) → drop (length xs) (xs ++ ys) ≡ ys
  drop-append [] ys = refl
  drop-append (x ∷ xs) ys = drop-append xs ys

  pub get_elem?-ge : (xs : List A) (i : ℕ) → length xs < suc i → get_elem? xs i ≡ none
  get_elem?-ge [] i h = refl
  get_elem?-ge (x ∷ xs) zero h = absurd (omega arith)
  get_elem?-ge (x ∷ xs) (suc i) h = get_elem?-ge xs i (omega arith)

  pub get_elem?-lt : (xs : List A) (i : ℕ) → i < length xs → (x : A) × (get_elem? xs i ≡ some x)
  get_elem?-lt [] i h = elim h [ ]
  get_elem?-lt (x ∷ xs) zero h = (x, refl)
  get_elem?-lt (x ∷ xs) (suc i) h = get_elem?-lt xs i (omega arith)

  pub get_elem?-eq-none : (xs : List A) (i : ℕ) → get_elem? xs i ≡ none → length xs ≤ i
  get_elem?-eq-none [] i e = omega arith
  get_elem?-eq-none (x ∷ xs) zero e = cc
  get_elem?-eq-none (x ∷ xs) (suc i) e = omega (arith, get_elem?-eq-none xs i e)

  pub get_elem?-eq-some : (xs : List A) (i : ℕ) {x : A} → get_elem? xs i ≡ some x → i < length xs
  get_elem?-eq-some [] i e = cc
  get_elem?-eq-some (y ∷ xs) zero e = omega arith
  get_elem?-eq-some (y ∷ xs) (suc i) e = omega (arith, get_elem?-eq-some xs i e)

  pub get_elem?-append_one :
      (xs : List A) (y : A) (i : ℕ)
      → get_elem? (xs ++ y ∷ []) i ≡ (if i == length xs then some y else get_elem? xs i)
  get_elem?-append_one [] y zero = ground arith
  get_elem?-append_one [] y (suc i) = ground arith
  get_elem?-append_one (x ∷ xs) y zero = ground arith
  get_elem?-append_one (x ∷ xs) y (suc i) = ground (arith, get_elem?-append_one xs y i)

  pub get_last?-append :
      (xs : List A) (y : A) (ys : List A) → get_last? (xs ++ y ∷ ys) ≡ get_last? (y ∷ ys)
  get_last?-append [] y ys = refl
  get_last?-append (x ∷ xs) y ys = ground (arith, get_last?-append xs y ys)

  pub length-map {κ} : {B : Type κ} (f : A → B) (xs : List A) → length (map f xs) ≡ length xs
  length-map f [] = refl
  length-map f (x ∷ xs) = ap suc (length-map f xs)

module _ {ℓ} {A : Type ℓ} where
  -- The last element of a list that is not empty has what all have.
  pub All-last {κ} :
      (P : A → Type κ) (x : A) (xs : List A)
      → All P (x ∷ xs)
      → (y : A) × (get_last? (x ∷ xs) ≡ some y) × P y
  All-last P x [] h = (x, refl, h.0)
  All-last P x (x' ∷ xs) h = let (y, e, p) = All-last P x' xs h.1 in (y, rw e, p)

  pub get_last?-map {κ} :
      {B : Type κ} (f : A → B) (xs : List A)
      → get_last? (map f xs) ≡ elim (get_last? xs) [ none ↦ none | some x ↦ some (f x) ]
  get_last?-map f [] = refl
  get_last?-map f (x ∷ xs) = ground (arith, get_last?-map f xs)

  pub get_elem?-drop :
      (n i : ℕ) (xs : List A) → n ≤ i → get_elem? (drop n xs) (i - n) ≡ get_elem? xs i
  get_elem?-drop zero i xs h = ap (get_elem? xs) (omega arith)
  get_elem?-drop (suc n) zero xs h = absurd (omega arith)
  get_elem?-drop (suc n) (suc i) [] h = refl
  get_elem?-drop (suc n) (suc i) (x ∷ xs) h =
      let e : suc i - suc n ≡ i - n = omega arith in rw e (get_elem?-drop n i xs (omega arith))

  pub get_elem?-map {κ} :
      {B : Type κ} (f : A → B) (xs : List A) (i : ℕ)
      → get_elem? (map f xs) i ≡ Option.map f (get_elem? xs i)
  get_elem?-map f [] i = refl
  get_elem?-map f (x ∷ xs) zero = refl
  get_elem?-map f (x ∷ xs) (suc i) = get_elem?-map f xs i
