-- ===== src/Fold/Sealed/Claimed.antt =====
-- The claims of a sealed epoch are those that the events name, and a validator is found to have
-- claimed exactly if one of them is its own.
use descartes_v.Base.{
  ℕ, ◌≡◌, ◌↔◌, ◌∙◌, sym, Bool, true, false, ◌&&◌, ◌||◌, none, some, List, [], ◌∷◌, arith, ◌==◌,
  Bool-cases, Option-cases, inl, inr,
}
use descartes_v.Fold.Types.{Claims}
use descartes_v.Fold.Claims.{new_claims, insert_claim, get_sender_claim}
use descartes_v.Fold.Claims.Laws.{
  has_claimed, has_claimed-insert_claim, has_claimed-new_claims, IsWellFormed,
  new_claims-IsWellFormed, insert_claim-IsWellFormed, get_sender_claim-eq-some,
  get_sender_claim-eq-none,
}
use descartes_v.Fold.Access.{ClaimFilter, LogMeta}
use descartes_v.Fold.Sealed.Replay.{insert_all, first_claims}

-- Whether an event says that `a` claims `k`.
abbrev pub says : (k a : ℕ) → List (ClaimFilter × LogMeta) → Bool
says k a [] = false
says k a ((ev, _) ∷ events) = (k == ev.epoch_hash) && (a == ev.claimer) || says k a events

-- Whether an event is a claim of `a`.
abbrev pub claims_by : (a : ℕ) → List (ClaimFilter × LogMeta) → Bool
claims_by a [] = false
claims_by a ((ev, _) ∷ events) = (a == ev.claimer) || claims_by a events

has_claimed-insert_all :
    (k a : ℕ) (c : Claims) (events : List (ClaimFilter × LogMeta))
    → has_claimed (insert_all c events) k a ≡ (has_claimed c k a || says k a events)
has_claimed-insert_all k a c [] = ground arith
has_claimed-insert_all k a c ((ev, _) ∷ events) = ground (
  arith,
  has_claimed-insert_all k a (insert_claim c ev.epoch_hash ev.claimer) events,
  has_claimed-insert_claim c ev.epoch_hash ev.claimer k a,
)

insert_all-IsWellFormed :
    (c : Claims) (events : List (ClaimFilter × LogMeta))
    → IsWellFormed c
    → IsWellFormed (insert_all c events)
insert_all-IsWellFormed c [] h = h
insert_all-IsWellFormed c ((ev, _) ∷ events) h =
    insert_all-IsWellFormed (insert_claim c ev.epoch_hash ev.claimer) events
      (insert_claim-IsWellFormed c ev.epoch_hash ev.claimer h)

module _ (timestamp : ℕ) (ev : ClaimFilter × LogMeta) (rest : List (ClaimFilter × LogMeta)) where
  -- A validator has claimed a hash exactly if an event says so.
  pub has_claimed-first_claims :
      (k a : ℕ) → has_claimed (first_claims timestamp ev rest) k a ≡ says k a (ev ∷ rest)
  has_claimed-first_claims k a = has_claimed-insert_all k a _ rest ∙ rw has_claimed-new_claims

  first_claims-IsWellFormed : IsWellFormed (first_claims timestamp ev rest)
  first_claims-IsWellFormed =
      insert_all-IsWellFormed (new_claims ev.0.epoch_hash ev.0.claimer timestamp) rest
        (new_claims-IsWellFormed ev.0.epoch_hash ev.0.claimer timestamp)

-- Some hash is claimed by `a` if an event is a claim of `a`, and only then.
says_of_claims_by :
    (a : ℕ) (events : List (ClaimFilter × LogMeta))
    → claims_by a events ≡ true
    → (k : ℕ) × (says k a events ≡ true)
says_of_claims_by a [] h = cc
says_of_claims_by a ((ev, m) ∷ events) h = elim (Bool-cases (a == ev.claimer)) [
  | inl own ↦ (ev.epoch_hash, ground arith)
  | inr other ↦ let (k, p) = says_of_claims_by a events (ground arith) in (k, ground arith)
]

claims_by_of_says :
    (k a : ℕ) (events : List (ClaimFilter × LogMeta))
    → says k a events ≡ true
    → claims_by a events ≡ true
claims_by_of_says k a [] h = cc
claims_by_of_says k a ((ev, m) ∷ events) h = ground (arith, claims_by_of_says k a events)

module _ (timestamp : ℕ) (ev : ClaimFilter × LogMeta) (rest : List (ClaimFilter × LogMeta)) where
  abbrev gathered : Claims
  gathered = first_claims timestamp ev rest

  says_of_found :
      (a : ℕ) {k : ℕ} → get_sender_claim gathered a ≡ some k → says k a (ev ∷ rest) ≡ true
  says_of_found a {k} h =
      sym (has_claimed-first_claims timestamp ev rest k a)
      ∙ get_sender_claim-eq-some gathered a (first_claims-IsWellFormed timestamp ev rest) h

  none_by : (a : ℕ) → get_sender_claim gathered a ≡ none → claims_by a (ev ∷ rest) ≡ false
  none_by a h = elim (Bool-cases (claims_by a (ev ∷ rest))) [
    | inr e ↦ e
    | inl e ↦
        let (k, p) = says_of_claims_by a (ev ∷ rest) e in
        cc (
          p,
          has_claimed-first_claims timestamp ev rest k a,
          get_sender_claim-eq-none gathered a k h,
        )
  ]

  none_found : (a : ℕ) → claims_by a (ev ∷ rest) ≡ false → get_sender_claim gathered a ≡ none
  none_found a h = elim (Option-cases (get_sender_claim gathered a)) [
    | inl e ↦ e
    | inr (k, e) ↦ cc (h, claims_by_of_says k a (ev ∷ rest) (says_of_found a e))
  ]

  -- The claim found for a validator is one that an event of its own names, and none is found
  -- exactly if no event is a claim of the validator.
  pub get_sender_claim-first_claims :
      (a : ℕ)
      → ((get_sender_claim (first_claims timestamp ev rest) a ≡ none)
          ↔ (claims_by a (ev ∷ rest) ≡ false))
        × ((k : ℕ)
            → get_sender_claim (first_claims timestamp ev rest) a ≡ some k
            → says k a (ev ∷ rest) ≡ true)
  get_sender_claim-first_claims a = ((none_by a, none_found a), λ k e. says_of_found a e)
