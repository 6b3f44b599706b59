-- ===== src/Tests/Claims.antt =====
-- Two claims in either order.
use descartes_v.Base.{ℕ, ◌≡◌, refl, true, some, [], ◌∷◌, arith}
use mathlib.Core.List.Perm
use mathlib.Core.Quot
use descartes_v.HashMap.{get, get_or, contains}
use descartes_v.Fold.Types.{Claims}
use descartes_v.Fold.Claims.{get_sender_claim, get_senders_with_claim}
use descartes_v.Fold.Claims.Laws.{has_claimed, IsWellFormed}
use descartes_v.Fold.Claims.Sets.{SameClaims, ClaimSet, get_sender_claim-SameClaims}
use descartes_v.Fold.Sealed.{add_claims_fold}
use descartes_v.Fold.Sealed.Order.{add_claims_fold-Perm}
use descartes_v.Tests.World.{claim_1, claim_2}

abbrev one_way : Claims
one_way = record { claims = (70, 7 ∷ []) ∷ (80, 8 ∷ []) ∷ []; first_claim_timestamp = 1000 }

abbrev other_way : Claims
other_way = record { claims = (80, 8 ∷ []) ∷ (70, 7 ∷ []) ∷ []; first_claim_timestamp = 1000 }

one_way-IsWellFormed : IsWellFormed one_way
unfolding get
one_way-IsWellFormed = (refl, (refl, tt))

other_way-IsWellFormed : IsWellFormed other_way
unfolding get
other_way-IsWellFormed = (refl, (refl, tt))

same : SameClaims one_way other_way
unfolding get_senders_with_claim get_or get contains
same = (refl, λ k a. ground arith)

once : (k k' : ℕ) → has_claimed one_way k 8 ≡ true → has_claimed one_way k' 8 ≡ true → k ≡ k'
unfolding get_senders_with_claim get_or get contains
once k k' h h' = ground arith

get_sender_claim-SameClaims_example : get_sender_claim one_way 8 ≡ get_sender_claim other_way 8
get_sender_claim-SameClaims_example =
    get_sender_claim-SameClaims one_way other_way 8 one_way-IsWellFormed other_way-IsWellFormed same
      once

add_claims_fold-Perm_example :
    (a b : Claims) × (add_claims_fold 2000 (some one_way) (claim_1 ∷ claim_2 ∷ []) ≡ some a)
    × (add_claims_fold 2000 (some one_way) (claim_2 ∷ claim_1 ∷ []) ≡ some b)
    × (◌≡◌ {A = ClaimSet} (Quot.mk a) (Quot.mk b))
add_claims_fold-Perm_example =
    add_claims_fold-Perm 2000 one_way (claim_1 ∷ claim_2 ∷ []) (claim_2 ∷ claim_1 ∷ [])
      (Perm.swap claim_2 claim_1 [])
