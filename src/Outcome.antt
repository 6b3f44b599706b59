-- ===== src/Outcome.antt =====
-- How a Rust call ends: with a value, with the `Err` of its error type, or with a panic. The
-- arithmetic of `U256` and its narrowing conversions panic out of range, as documented.
use descartes_v.Base.{
  ◌⊎◌, inl, inr, ℕ, ◌+◌, ◌^◌, suc, ◌<◌, ◌≡◌, refl, Bool, true, false, Option, none, some, List, [],
  ◌∷◌, arith, get_elem?, ltb, if◌then◌else◌,
}
use mathlib.Core.Path.{subst}

pub data Panic : Type 0 where
  overflow assertion expect index unreachable todo : Panic

pub data Outcome (E A : Type 0) : Type 0 where
  ok : A → Outcome E A
  err : E → Outcome E A
  panic : Panic → Outcome E A

infixl 5 ◌>>=◌ ◌>>◌
abbrev pub ◌>>=◌ : {E A B : Type 0} → Outcome E A → (A → Outcome E B) → Outcome E B
ok a >>= f = f a
err e >>= f = err e
panic p >>= f = panic p

abbrev pub ◌>>◌ : {E B : Type 0} → Outcome E (Unit {0}) → Outcome E B → Outcome E B
m >> k = m >>= λ _. k

-- `.map_err(f)?`
abbrev pub map_err : {E F A : Type 0} → (E → F) → Outcome E A → Outcome F A
map_err f (ok a) = ok a
map_err f (err e) = err (f e)
map_err f (panic p) = panic p

-- `assert!`, `assert_eq!`
abbrev pub assert : {E : Type 0} → Bool → Outcome E (Unit {0})
assert true = ok tt
assert false = panic assertion

-- `.unwrap()` and `.expect(..)` of an `Option`
abbrev pub unwrap : {E A : Type 0} → Option A → Outcome E A
unwrap none = panic expect
unwrap (some a) = ok a

-- `.ok_or(..)?`
abbrev pub ok_or : {E A : Type 0} → E → Option A → Outcome E A
ok_or e none = err e
ok_or e (some a) = ok a

-- `v[i]`
abbrev pub elem_at : {E A : Type 0} → List A → ℕ → Outcome E A
elem_at xs i = elim (get_elem? xs i) [ none ↦ panic index | some a ↦ ok a ]

abbrev pub u256_mod : ℕ
u256_mod = 2 ^ 256

-- `usize` and `u64` on a 64-bit target
abbrev pub u64_mod : ℕ
u64_mod = 2 ^ 64

-- `U256 + U256`
unfoldable pub add_u256 : {E : Type 0} → ℕ → ℕ → Outcome E ℕ
add_u256 a b = if ltb (a + b) u256_mod then ok (a + b) else panic overflow

-- `U256::as_usize`, `U256::as_u64`
unfoldable pub as_u64 : {E : Type 0} → ℕ → Outcome E ℕ
as_u64 a = if ltb a u64_mod then ok a else panic overflow

pub add_u256_lem : {E : Type 0} (a b : ℕ) → a + b < u256_mod → add_u256 {E = E} a b ≡ ok (a + b)
unfolding add_u256
add_u256_lem a b h = ground arith

pub add_u256_overflow :
    {E : Type 0} (a b : ℕ) → u256_mod < suc (a + b) → add_u256 {E = E} a b ≡ panic overflow
unfolding add_u256
add_u256_overflow a b h = ground arith

pub add_u256-eq-ok :
    {E : Type 0} (a b : ℕ) {c : ℕ} → add_u256 {E = E} a b ≡ ok c → (c ≡ a + b) × (a + b < u256_mod)
unfolding add_u256
add_u256-eq-ok a b h = ground arith

pub as_u64_lem : {E : Type 0} (a : ℕ) → a < u64_mod → as_u64 {E = E} a ≡ ok a
unfolding as_u64
as_u64_lem a h = ground arith

pub as_u64-eq-ok : {E : Type 0} (a : ℕ) {c : ℕ} → as_u64 {E = E} a ≡ ok c → (c ≡ a) × (a < u64_mod)
unfolding as_u64
as_u64-eq-ok a h = ground arith

-- A chain that ends well got a value from its first call.
pub >>=-eq-ok :
    {E A B : Type 0} (first : Outcome E A) (next : A → Outcome E B) {result : B}
    → (first >>= next) ≡ ok result
    → (value : A) × (first ≡ ok value) × (next value ≡ ok result)
>>=-eq-ok (panic p) next e = cc
>>=-eq-ok (err x) next e = cc
>>=-eq-ok (ok value) next e = (value, refl, e)

pub >>=_assoc :
    {E A B C : Type 0} (m : Outcome E A) (f : A → Outcome E B) (g : B → Outcome E C)
    → (m >>= f >>= g) ≡ (m >>= λ a. f a >>= g)
>>=_assoc (ok a) f g = refl
>>=_assoc (err e) f g = refl
>>=_assoc (panic p) f g = refl

pub Outcome-cases :
    {E A : Type 0} (o : Outcome E A)
    → ((a : A) × (o ≡ ok a)) ⊎ ((x : E) × (o ≡ err x)) ⊎ ((p : Panic) × (o ≡ panic p))
Outcome-cases (ok a) = inl (a, refl)
Outcome-cases (err x) = inr (inl (x, refl))
Outcome-cases (panic p) = inr (inr (p, refl))

pub ok_or-eq-ok : {E A : Type 0} (x : E) (o : Option A) {a : A} → ok_or x o ≡ ok a → o ≡ some a
ok_or-eq-ok x none e = cc
ok_or-eq-ok x (some a) e = cc

pub map_err-eq-ok :
    {E F A : Type 0} (f : E → F) (o : Outcome E A) {a : A} → map_err f o ≡ ok a → o ≡ ok a
map_err-eq-ok f (ok a) e = cc
map_err-eq-ok f (err x) e = cc
map_err-eq-ok f (panic p) e = cc

pub ok-injective : {E A : Type 0} {a b : A} → ◌≡◌ {A = Outcome E A} (ok a) (ok b) → a ≡ b
ok-injective e = cc

module _ {E A : Type 0} (P : A → Type 0) where
  -- Whatever the call returns has the property.
  abbrev pub Returns : Outcome E A → Type 0
  Returns m = (a : A) → m ≡ ok a → P a

  pub Returns-ok : (a : A) → P a → Returns (ok a)
  Returns-ok a p b e = subst P (ok-injective e) p

  pub Returns-err : (x : E) → Returns (err x)
  Returns-err x b e = cc

  pub Returns-panic : (p : Panic) → Returns (panic p)
  Returns-panic p b e = cc

  pub Returns-bind :
      {B : Type 0} (m : Outcome E B) (k : B → Outcome E A)
      → ((b : B) → m ≡ ok b → Returns (k b))
      → Returns (m >>= k)
  Returns-bind (ok b) k h = h b refl
  Returns-bind (err x) k h = λ a e. cc
  Returns-bind (panic p) k h = λ a e. cc

  pub Returns-if :
      (b : Bool) (m m' : Outcome E A) → Returns m → Returns m' → Returns (if b then m else m')
  Returns-if true m m' h h' = h
  Returns-if false m m' h h' = h'

  pub Returns-list :
      {B : Type 0} (xs : List B) (m : Outcome E A) (k : B → List B → Outcome E A)
      → Returns m
      → ((x : B) (rest : List B) → Returns (k x rest))
      → Returns (elim xs [ [] ↦ m | x ∷ rest ↦ k x rest ])
  Returns-list [] m k h h' = h
  Returns-list (x ∷ rest) m k h h' = h' x rest
