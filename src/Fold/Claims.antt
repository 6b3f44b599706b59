-- ===== src/Fold/Claims.antt =====
-- `Claims` (offchain/src/fold/types.rs): which validators claimed which hash for an epoch.
pub mod Laws
pub mod Sets
use descartes_v.Base.{ℕ, Bool, true, false, Option, none, some, List, [], ◌∷◌, if◌then◌else◌}
use descartes_v.HashMap.{HashMap, HashSet, contains, insert, get_or, update, modify_entry}
use descartes_v.Fold.Types.{Claims}

-- `Claims::new`
unfoldable pub new_claims : (claim sender timestamp : ℕ) → Claims
new_claims claim sender timestamp = record {
  claims = (claim, sender ∷ []) ∷ [];
  first_claim_timestamp = timestamp;
}

unfoldable pub update_with_new_claim : Claims → (claim sender : ℕ) → Claims
update_with_new_claim c claim sender =
    let sender_set = insert sender (get_or claim [] c.claims) in
    record {
      claims = update claim sender_set c.claims;
      first_claim_timestamp = c.first_claim_timestamp;
    }

unfoldable pub insert_claim : Claims → (claim sender : ℕ) → Claims
insert_claim c claim sender = record c { claims = modify_entry claim [] (insert sender) c.claims }

-- The loop of `get_sender_claim`. Which of two claims of one sender it meets first depends on
-- the iteration order of the map.
find_claim : ℕ → HashMap HashSet → Option ℕ
find_claim sender [] = none
find_claim sender ((k, v) ∷ m) = if contains sender v then some k else find_claim sender m

unfoldable pub get_sender_claim : Claims → ℕ → Option ℕ
unfolding find_claim
get_sender_claim c sender = find_claim sender c.claims

unfoldable pub get_senders_with_claim : Claims → ℕ → HashSet
get_senders_with_claim c claim = get_or claim [] c.claims
