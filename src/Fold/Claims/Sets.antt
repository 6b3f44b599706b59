-- ===== src/Fold/Claims/Sets.antt =====
-- The claims of an epoch up to how the map (offchain/src/fold/types.rs) lists them: who claimed
-- what, and when the first claim was made.
use descartes_v.Base.{
  ℕ, ◌≡◌, refl, sym, ◌∙◌, ap, Bool, true, ◌||◌, ◌&&◌, some, inl, inr, Option-cases, arith, ◌==◌,
}
use mathlib.Core.Quot
use mathlib.Core.Quot.{Quot, Quot-set}
use descartes_v.Fold.Types.{Claims}
use descartes_v.Fold.Claims.{insert_claim, get_sender_claim}
use descartes_v.Fold.Claims.Laws.{
  has_claimed, has_claimed-insert_claim, insert_claim-first_claim_timestamp, IsWellFormed,
  get_sender_claim-eq-some, get_sender_claim-eq-none,
}

abbrev pub SameClaims : Claims → Claims → Type 0
SameClaims c d =
    (c.first_claim_timestamp ≡ d.first_claim_timestamp)
    × ((k a : ℕ) → has_claimed c k a ≡ has_claimed d k a)

abbrev pub ClaimSet : Type 0
ClaimSet = Quot SameClaims

insert_claim-SameClaims :
    (claim sender : ℕ) (c d : Claims)
    → SameClaims c d
    → SameClaims (insert_claim c claim sender) (insert_claim d claim sender)
insert_claim-SameClaims claim sender c d (time, same) = (
  insert_claim-first_claim_timestamp c claim sender
      ∙ time
      ∙ sym (insert_claim-first_claim_timestamp d claim sender),
  λ k a.
      has_claimed-insert_claim c claim sender k a
      ∙ ap (λ b. (k == claim) && (a == sender) || b) (same k a)
      ∙ sym (has_claimed-insert_claim d claim sender k a),
)

or_left_comm : (a b c : Bool) → (a || (b || c)) ≡ (b || (a || c))
or_left_comm a b c = ground arith

insert_claim_comm :
    (claim sender claim' sender' : ℕ) (c : Claims)
    → SameClaims
        (insert_claim (insert_claim c claim' sender') claim sender)
        (insert_claim (insert_claim c claim sender) claim' sender')
insert_claim_comm claim sender claim' sender' c = (
  time claim sender claim' sender' ∙ sym (time claim' sender' claim sender),
  λ k a.
      twice claim sender claim' sender' k a
      ∙ or_left_comm ((k == claim) && (a == sender)) ((k == claim') && (a == sender'))
          (has_claimed c k a)
      ∙ sym (twice claim' sender' claim sender k a),
)
  where
    time :
        (claim sender claim' sender' : ℕ)
        → (insert_claim (insert_claim c claim' sender') claim sender).first_claim_timestamp
          ≡ c.first_claim_timestamp
    time claim sender claim' sender' =
        insert_claim-first_claim_timestamp (insert_claim c claim' sender') claim sender
        ∙ insert_claim-first_claim_timestamp c claim' sender'

    twice :
        (claim sender claim' sender' k a : ℕ)
        → has_claimed (insert_claim (insert_claim c claim' sender') claim sender) k a ≡ (
            (k == claim) && (a == sender) || ((k == claim') && (a == sender') || has_claimed c k a))
    twice claim sender claim' sender' k a =
        has_claimed-insert_claim (insert_claim c claim' sender') claim sender k a
        ∙ ap (λ b. (k == claim) && (a == sender) || b)
            (has_claimed-insert_claim c claim' sender' k a)

-- A claim more.
pub put : (claim sender : ℕ) → ClaimSet → ClaimSet
put claim sender =
    Quot.lift Quot-set (λ c. Quot.mk (insert_claim c claim sender))
      (λ c d same. Quot.sound (insert_claim-SameClaims claim sender c d same))

-- `insert_claim` is the abstract operation on what the map lists.
pub put-mk :
    (claim sender : ℕ) (c : Claims)
    → put claim sender (Quot.mk c) ≡ Quot.mk (insert_claim c claim sender)
unfolding put
put-mk claim sender c = refl

-- The order of two claims does not matter.
pub put_comm :
    (claim sender claim' sender' : ℕ) (s : ClaimSet)
    → put claim sender (put claim' sender' s) ≡ put claim' sender' (put claim sender s)
unfolding put
put_comm claim sender claim' sender' =
    Quot.ind (λ s. Quot-set _ _) (λ c. Quot.sound (insert_claim_comm claim sender claim' sender' c))

-- Which of the claims of a sender is found does not depend on how the map lists them, if the
-- sender has claimed no more than one hash.
pub get_sender_claim-SameClaims :
    (c d : Claims) (a : ℕ)
    → IsWellFormed c
    → IsWellFormed d
    → SameClaims c d
    → ((k k' : ℕ) → has_claimed c k a ≡ true → has_claimed c k' a ≡ true → k ≡ k')
    → get_sender_claim c a ≡ get_sender_claim d a
get_sender_claim-SameClaims c d a wc wd (_, same) once =
    elim (Option-cases (get_sender_claim c a)) [
      | inl none_c ↦ elim (Option-cases (get_sender_claim d a)) [
        | inl none_d ↦ none_c ∙ sym none_d
        | inr (k, found) ↦
            cc (
              get_sender_claim-eq-some d a wd found,
              get_sender_claim-eq-none c a k none_c,
              same k a,
            )
      ]
      | inr (k, found) ↦ elim (Option-cases (get_sender_claim d a)) [
        | inl none_d ↦
            cc (
              get_sender_claim-eq-some c a wc found,
              get_sender_claim-eq-none d a k none_d,
              same k a,
            )
        | inr (k', found') ↦
            found
            ∙ ap some (
                once k k' (get_sender_claim-eq-some c a wc found)
                  (same k' a ∙ get_sender_claim-eq-some d a wd found'))
            ∙ sym found'
      ]
    ]
