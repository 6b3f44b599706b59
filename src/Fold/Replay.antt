-- ===== src/Fold/Replay.antt =====
-- A fold over the blocks that follow a synced one against a sync at the last of them. The
-- state_fold crate chooses freely between the two, so they have to agree.
use descartes_v.Base.{ℕ, ◌≡◌, refl, ◌++◌, Option, some, List, [], ◌∷◌}
use descartes_v.Outcome.{ok, ◌>>=◌}
use descartes_v.Fold.Access.{Block, Fold}

-- What a query answers at a block `b` and at its child `c`: the answer up to the child is that
-- up to its parent, followed by the child's own events.
pub record Grows {Ev : Type 0} (until at : ℕ → Option (List Ev)) (b c : Block) : Type 0 where
  pub old : List Ev
  pub new : List Ev
  pub until_parent : until b.number ≡ some old
  pub until_child : until c.number ≡ some (old ++ new)
  pub at_child : at c.hash ≡ some new

-- Each block is linked to the next by `R`.
abbrev pub Linked : (Block → Block → Type 0) → Block → List Block → Type 0
Linked R b [] = Unit
Linked R b (c ∷ cs) = R b c × Linked R c cs

abbrev pub last_block : Block → List Block → Block
last_block b [] = b
last_block b (c ∷ cs) = last_block c cs

module _ {S : Type 0} (fold : S → Block → Fold S) where
  -- One fold for each block.
  unfoldable pub replay : S → List Block → Fold S
  replay s [] = ok s
  replay s (b ∷ bs) = do s' ← fold s b; replay s' bs

-- Fold and sync agree on a state after `c`.
abbrev pub Agree : {S : Type 0} → (Block → Fold S) → (S → Block → Fold S) → S → Block → Type 0
Agree {S} sync fold s c = (s' : S) × (fold s c ≡ ok s') × (sync c ≡ ok s')

module _ {S : Type 0} (R : Block → Block → Type 0) (sync : Block → Fold S)
    (fold : S → Block → Fold S)
    (step : (b c : Block) (s : S) → R b c → sync b ≡ ok s → Agree sync fold s c) where
  -- If they agree on each child of a synced block, they agree along every chain.
  pub replay-eq-sync :
      (b : Block) (bs : List Block) (s : S)
      → Linked R b bs
      → sync b ≡ ok s
      → (s' : S) × (replay fold s bs ≡ ok s') × (sync (last_block b bs) ≡ ok s')
  unfolding replay
  replay-eq-sync b [] s links synced = (s, refl, synced)
  replay-eq-sync b (c ∷ cs) s links synced =
      let (t, folded, synced') = step b c s links.0 synced in
      let (u, replayed, last) = replay-eq-sync c cs t links.1 synced' in
      (u, rw folded replayed, last)
