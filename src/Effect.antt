-- ===== src/Effect.antt =====
-- A call with effects: it ends as an `Outcome`, and leaves a state also when it fails. The
-- `await`s of the program run one after the other, so a call is a function on the state.

use descartes_v.Base.{◌≡◌, refl, ap}
use descartes_v.Outcome.{Outcome, ok, err, panic, ok-injective}

abbrev pub Effect : Type 0 → Type 0 → Type 0 → Type 0
Effect E S A = S → Outcome E A × S

abbrev pub pure : {E S A : Type 0} → A → Effect E S A
pure a s = (ok a, s)

-- A computation that has no effect.
abbrev pub lift : {E S A : Type 0} → Outcome E A → Effect E S A
lift o s = (o, s)

-- A call that does not fail.
abbrev pub call : {E S A : Type 0} → (S → A × S) → Effect E S A
call f s = let (a, s') = f s in (ok a, s')

-- What follows a call that ended with an outcome and a state.
abbrev pub after : {E S A B : Type 0} → Outcome E A × S → (A → Effect E S B) → Outcome E B × S
after (ok a, s) k = k a s
after (err e, s) k = (err e, s)
after (panic p, s) k = (panic p, s)

infixl 5 ◌>>=◌ ◌>>◌
abbrev pub ◌>>=◌ : {E S A B : Type 0} → Effect E S A → (A → Effect E S B) → Effect E S B
◌>>=◌ m k s = after (m s) k

abbrev pub ◌>>◌ : {E S B : Type 0} → Effect E S (Unit {0}) → Effect E S B → Effect E S B
m >> k = m >>= λ _. k

-- A chain that ends well went through its first call.
pub >>=-eq-ok :
    {E S A B : Type 0} (m : Effect E S A) (k : A → Effect E S B) (s : S) {b : B}
    → ((m >>= k) s).0 ≡ ok b
    → (a : A) × ((m s).0 ≡ ok a) × ((k a (m s).1).0 ≡ ok b)
>>=-eq-ok {E} {S} {A} {B} m k s {b} e = go (m s).0 refl e
  where
    go :
        (r : Outcome E A)
        → (m s).0 ≡ r
        → (after (r, (m s).1) k).0 ≡ ok b
        → (a : A) × ((m s).0 ≡ ok a) × ((k a (m s).1).0 ≡ ok b)
    go (ok a) here e = (a, here, e)
    go (err x) here e = cc
    go (panic p) here e = cc

-- A chain goes on from where its first call ended well.
pub >>=-ok :
    {E S A B : Type 0} (m : Effect E S A) (k : A → Effect E S B) (s : S) {a : A}
    → (m s).0 ≡ ok a
    → (m >>= k) s ≡ k a (m s).1
>>=-ok {E} {S} {A} {B} m k s {a} e = go (m s).0 e
  where
    go : (r : Outcome E A) → r ≡ ok a → after (r, (m s).1) k ≡ k a (m s).1
    go (ok b) here = ap (λ x. k x (m s).1) (ok-injective here)
    go (err x) here = cc
    go (panic p) here = cc
