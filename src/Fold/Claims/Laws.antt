-- ===== src/Fold/Claims/Laws.antt =====
-- The queries of `Claims` against the record of who claimed what.
use descartes_v.Base.{
  ℕ, ◌≡◌, refl, Bool, true, false, ◌||◌, ◌&&◌, none, some, [], ◌∷◌, arith, ◌==◌, ap, inl, inr,
  Bool-cases, ==_refl, ==_ne,
}
use descartes_v.HashMap.{
  HashMap, HashSet, contains, insert, get, get_or, get_or-cons, get_or_of_none, NodupKeys,
  contains-insert, get_or-modify_entry, update-eq-modify_entry, modify_entry-NodupKeys,
}
use descartes_v.Fold.Types.{Claims}
use descartes_v.Fold.Claims.{
  new_claims, update_with_new_claim, insert_claim, find_claim, get_sender_claim,
  get_senders_with_claim,
}

-- Whether `sender` has claimed `claim`.
abbrev pub has_claimed : Claims → (claim sender : ℕ) → Bool
has_claimed c claim sender = contains sender (get_senders_with_claim c claim)

-- The persistent update and the update in place give the same claims.
pub update_with_new_claim-eq-insert_claim :
    (c : Claims) (claim sender : ℕ)
    → update_with_new_claim c claim sender ≡ insert_claim c claim sender
unfolding update_with_new_claim insert_claim
update_with_new_claim-eq-insert_claim c claim sender =
    ap
      (λ (m : HashMap HashSet). record {
        claims = m;
        first_claim_timestamp = c.first_claim_timestamp;
      })
      (update-eq-modify_entry claim [] (insert sender) c.claims)

-- After a claim, who has claimed what is as before, but for the one that was added.
pub has_claimed-insert_claim :
    (c : Claims) (claim sender k a : ℕ)
    → has_claimed (insert_claim c claim sender) k a
      ≡ ((k == claim) && (a == sender) || has_claimed c k a)
unfolding insert_claim get_senders_with_claim
has_claimed-insert_claim c claim sender k a =
    rw get_or-modify_entry (ground (arith, contains-insert a sender (get_or claim [] c.claims)))

pub insert_claim-first_claim_timestamp :
    (c : Claims) (claim sender : ℕ)
    → (insert_claim c claim sender).first_claim_timestamp ≡ c.first_claim_timestamp
unfolding insert_claim
insert_claim-first_claim_timestamp c claim sender = refl

pub has_claimed-new_claims :
    (claim sender ts k a : ℕ)
    → has_claimed (new_claims claim sender ts) k a ≡ ((k == claim) && (a == sender))
unfolding new_claims get_senders_with_claim contains get_or get
has_claimed-new_claims claim sender ts k a = ground arith

-- Each claim is listed once.
abbrev pub IsWellFormed : Claims → Type 0
IsWellFormed c = NodupKeys c.claims

pub new_claims-IsWellFormed : (claim sender ts : ℕ) → IsWellFormed (new_claims claim sender ts)
unfolding new_claims get
new_claims-IsWellFormed claim sender ts = (refl, tt)

pub insert_claim-IsWellFormed :
    (c : Claims) (claim sender : ℕ) → IsWellFormed c → IsWellFormed (insert_claim c claim sender)
unfolding insert_claim
insert_claim-IsWellFormed c claim sender h =
    modify_entry-NodupKeys claim [] (insert sender) c.claims h

find_claim-first :
    (s j : ℕ) {k : ℕ} (v : HashSet) (m : HashMap HashSet)
    → contains s v ≡ true
    → find_claim s ((j, v) ∷ m) ≡ some k
    → j ≡ k
unfolding find_claim
find_claim-first s j v m here e = ground arith

find_claim-later :
    (s j : ℕ) {k : ℕ} (v : HashSet) (m : HashMap HashSet)
    → contains s v ≡ false
    → find_claim s ((j, v) ∷ m) ≡ some k
    → find_claim s m ≡ some k
unfolding find_claim
find_claim-later s j v m elsewhere e = ground arith

key-ne :
    (s k j : ℕ) (m : HashMap HashSet)
    → get j m ≡ none
    → contains s (get_or k [] m) ≡ true
    → ¬ (k ≡ j)
unfolding contains
key-ne s k j m absent there e =
    cc (ap (λ i. contains s (get_or i [] m)) e, get_or_of_none j [] m absent)

find_claim-eq-some :
    (s : ℕ) {k : ℕ} (m : HashMap HashSet)
    → NodupKeys m
    → find_claim s m ≡ some k
    → contains s (get_or k [] m) ≡ true
unfolding find_claim get_or get
find_claim-eq-some s [] h e = cc
find_claim-eq-some s {k} ((j, v) ∷ m) h e = elim (Bool-cases (contains s v)) [
  | inl here ↦ rw (get_or-cons, ← find_claim-first s j v m here e, ==_refl) here
  | inr elsewhere ↦
      let later : contains s (get_or k [] m) ≡ true =
        find_claim-eq-some s m h.1 (find_claim-later s j v m elsewhere e) in
      rw (get_or-cons, ==_ne k j (key-ne s k j m h.0 later)) later
]

find_claim-eq-none :
    (s k : ℕ) (m : HashMap HashSet) → find_claim s m ≡ none → contains s (get_or k [] m) ≡ false
unfolding find_claim get_or get contains
find_claim-eq-none s k [] e = refl
find_claim-eq-none s k ((j, v) ∷ m) e = ground (arith, find_claim-eq-none s k m)

-- What `get_sender_claim` returns has been claimed by the sender.
pub get_sender_claim-eq-some :
    (c : Claims) (s : ℕ) {k : ℕ}
    → IsWellFormed c
    → get_sender_claim c s ≡ some k
    → has_claimed c k s ≡ true
unfolding get_sender_claim get_senders_with_claim
get_sender_claim-eq-some c s h e = find_claim-eq-some s c.claims h e

-- Where it returns nothing, the sender has claimed nothing.
pub get_sender_claim-eq-none :
    (c : Claims) (s k : ℕ) → get_sender_claim c s ≡ none → has_claimed c k s ≡ false
unfolding get_sender_claim get_senders_with_claim
get_sender_claim-eq-none c s k e = find_claim-eq-none s k c.claims e
