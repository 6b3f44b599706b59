-- ===== src/HashMap.antt =====
-- `im::HashMap` and `im::HashSet` with number keys, as lists in order of insertion. The order in
-- which the real ones iterate is unspecified; a statement that depends on it says so.
use descartes_v.Base.{
  ℕ, ◌≡◌, refl, ◌≢◌, Bool, false, ◌||◌, Option, none, some, List, [], ◌∷◌, arith, ◌==◌,
  if◌then◌else◌,
}

abbrev pub HashSet : Type 0
HashSet = List ℕ

abbrev pub HashMap : Type 0 → Type 0
HashMap V = List (ℕ × V)

-- `HashSet::contains`
unfoldable pub contains : ℕ → HashSet → Bool
contains a [] = false
contains a (x ∷ xs) = (a == x) || contains a xs

-- `HashSet::insert`, `HashSet::update`
unfoldable pub insert : ℕ → HashSet → HashSet
insert a [] = a ∷ []
insert a (x ∷ xs) = if a == x then x ∷ xs else x ∷ insert a xs

pub contains-insert : (b a : ℕ) (s : HashSet) → contains b (insert a s) ≡ ((b == a) || contains b s)
unfolding contains insert
contains-insert b a [] = ground arith
contains-insert b a (x ∷ xs) = ground (arith, contains-insert b a xs)

module _ {V : Type 0} where
  -- `HashMap::get`
  unfoldable pub get : ℕ → HashMap V → Option V
  get k [] = none
  get k ((j, v) ∷ m) = if k == j then some v else get k m

  -- `HashMap::update`
  unfoldable pub update : ℕ → V → HashMap V → HashMap V
  update k v [] = (k, v) ∷ []
  update k v ((j, w) ∷ m) = if k == j then (j, v) ∷ m else (j, w) ∷ update k v m

  -- `*map.entry(k).or_insert(default)` changed in place by `f`
  unfoldable pub modify_entry : ℕ → V → (V → V) → HashMap V → HashMap V
  modify_entry k d f [] = (k, f d) ∷ []
  modify_entry k d f ((j, w) ∷ m) = if k == j then (j, f w) ∷ m else (j, w) ∷ modify_entry k d f m

  unfoldable pub get_or : ℕ → V → HashMap V → V
  get_or k d m = elim (get k m) [ none ↦ d | some v ↦ v ]

  pub get_or-cons :
      (k : ℕ) (d : V) (j : ℕ) (v : V) (m : HashMap V)
      → get_or k d ((j, v) ∷ m) ≡ (if k == j then v else get_or k d m)
  unfolding get_or get
  get_or-cons k d j v m = ground arith

  pub get_or_of_none : (k : ℕ) (d : V) (m : HashMap V) → get k m ≡ none → get_or k d m ≡ d
  unfolding get_or
  get_or_of_none k d m h = ground arith

  pub get_or-modify_entry :
      (i k : ℕ) (d : V) (f : V → V) (m : HashMap V)
      → get_or i d (modify_entry k d f m) ≡ (if i == k then f (get_or k d m) else get_or i d m)
  unfolding get_or get modify_entry
  get_or-modify_entry i k d f [] = ground arith
  get_or-modify_entry i k d f ((j, w) ∷ m) = ground (arith, get_or-modify_entry i k d f m)

  pub update-eq-modify_entry :
      (k : ℕ) (d : V) (f : V → V) (m : HashMap V)
      → update k (f (get_or k d m)) m ≡ modify_entry k d f m
  unfolding get_or get update modify_entry
  update-eq-modify_entry k d f [] = refl
  update-eq-modify_entry k d f ((j, w) ∷ m) = ground (arith, update-eq-modify_entry k d f m)

  -- No key is listed twice, as in every hash map.
  abbrev pub NodupKeys : HashMap V → Type 0
  NodupKeys [] = Unit
  NodupKeys ((k, _) ∷ m) = (get k m ≡ none) × NodupKeys m

  get-modify_entry_ne :
      (i k : ℕ) (d : V) (f : V → V) (m : HashMap V) → i ≢ k → get i (modify_entry k d f m) ≡ get i m
  unfolding get modify_entry
  get-modify_entry_ne i k d f [] h = ground arith
  get-modify_entry_ne i k d f ((j, w) ∷ m) h = ground (arith, get-modify_entry_ne i k d f m h)

  pub modify_entry-NodupKeys :
      (k : ℕ) (d : V) (f : V → V) (m : HashMap V) → NodupKeys m → NodupKeys (modify_entry k d f m)
  unfolding modify_entry get
  modify_entry-NodupKeys k d f [] h = (refl, tt)
  modify_entry-NodupKeys k d f ((j, w) ∷ m) h =
      ground (arith, modify_entry-NodupKeys k d f m h.1, get-modify_entry_ne j k d f m)
