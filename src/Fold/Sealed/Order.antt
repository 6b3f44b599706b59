-- ===== src/Fold/Sealed/Order.antt =====
-- The loop over the claims (offchain/src/fold/sealed_epoch_delegate.rs) against the set of the
-- claims made: after the first, their order does not matter.
use descartes_v.Base.{ℕ, ◌≡◌, refl, sym, ◌∙◌, ap, some, List, [], ◌∷◌}
use mathlib.Core.List.{Perm, Permᴰ}
use mathlib.Core.Quot
use mathlib.Core.Quot.{Quot-set}
use mathlib.Core.Logic.{∥∥₁_elim}
use descartes_v.Fold.Types.{Claims}
use descartes_v.Fold.Claims.{insert_claim}
use descartes_v.Fold.Claims.Sets.{ClaimSet, put, put-mk, put_comm}
use descartes_v.Fold.Access.{ClaimFilter, LogMeta}
use descartes_v.Fold.Sealed.{add_claims_fold}
use descartes_v.Fold.Sealed.Replay.{insert_all, add_claims_fold-some}

-- The claims of the events, added to a set.
put_all : ClaimSet → List (ClaimFilter × LogMeta) → ClaimSet
put_all s [] = s
put_all s ((ev, _) ∷ events) = put_all (put ev.epoch_hash ev.claimer s) events

put_all-mk :
    (c : Claims) (events : List (ClaimFilter × LogMeta))
    → put_all (Quot.mk c) events ≡ Quot.mk (insert_all c events)
unfolding put_all
put_all-mk c [] = refl
put_all-mk c ((ev, _) ∷ events) =
    ap (λ s. put_all s events) (put-mk ev.epoch_hash ev.claimer c)
    ∙ put_all-mk (insert_claim c ev.epoch_hash ev.claimer) events

put_all-Perm_of :
    (s : ClaimSet) {xs ys : List (ClaimFilter × LogMeta)}
    → Permᴰ xs ys
    → put_all s xs ≡ put_all s ys
unfolding put_all
put_all-Perm_of s Permᴰ.nil = refl
put_all-Perm_of s (Permᴰ.cons {a = a} {l₂ = l} e p) =
    put_all-Perm_of (put a.0.epoch_hash a.0.claimer s) p
    ∙ ap (λ ev. put_all (put ev.0.epoch_hash ev.0.claimer s) l) e
put_all-Perm_of s (Permᴰ.swap {a = a} {b = b} {b' = b'} {l = l} e e') =
    ap (λ t. put_all t l)
      (put_comm b.0.epoch_hash b.0.claimer a.0.epoch_hash a.0.claimer s
        ∙ ap (λ ev. put ev.0.epoch_hash ev.0.claimer (put b.0.epoch_hash b.0.claimer s)) e
        ∙ ap (λ ev. put b'.0.epoch_hash b'.0.claimer (put ev.0.epoch_hash ev.0.claimer s)) e')
put_all-Perm_of s (Permᴰ.trans p q) = put_all-Perm_of s p ∙ put_all-Perm_of s q

-- The claims of one block, after the first claim of the epoch, give the same set of claims and
-- the same time of the first in whatever order the loop of `fold` meets them.
pub add_claims_fold-Perm :
    (timestamp : ℕ) (c : Claims) (xs ys : List (ClaimFilter × LogMeta))
    → Perm xs ys
    → (a b : Claims) × (add_claims_fold timestamp (some c) xs ≡ some a)
      × (add_claims_fold timestamp (some c) ys ≡ some b)
      × (◌≡◌ {A = ClaimSet} (Quot.mk a) (Quot.mk b))
add_claims_fold-Perm timestamp c xs ys p = (
  insert_all c xs,
  insert_all c ys,
  add_claims_fold-some timestamp c xs,
  add_claims_fold-some timestamp c ys,
  sym (put_all-mk c xs)
      ∙ ∥∥₁_elim p (Quot-set _ _) (λ p. put_all-Perm_of (Quot.mk c) p)
      ∙ put_all-mk c ys,
)
