-- ===== src/Fold/Setup/Obtained.antt =====
-- The states that the folds of the set-up (offchain/src/fold/setup.rs) give, when the crate
-- state_fold gets each by a sync, or from an earlier one by the fold of a block.
use descartes_v.Base.{ℕ, ◌≡◌}
use mathlib.Core.Path.{subst}
use descartes_v.Outcome.{ok, map_err, map_err-eq-ok, ok-injective, >>=-eq-ok, Returns}
use descartes_v.Fold.Access.{Access, Block, BlockState, StateFoldDelegate, substate_error}
use descartes_v.Fold.Epoch.{get_state}
use descartes_v.Fold.Setup.{StateFoldCrate}

module _ {S : Type 0} (d : StateFoldDelegate S) (access : Access) (initial : ℕ) where
  -- The delegate gives this state for this block.
  pub data Obtained : Block → S → Type 0 where
    by_sync : {b : Block} {s : S} → d.sync initial b access ≡ ok s → Obtained b s
    by_fold :
        {parent b : Block} {previous s : S}
        → Obtained parent previous
        → d.fold previous b access ≡ ok s
        → Obtained b s

  -- What a sync gives and a fold keeps, every state has.
  pub Obtained_invariant :
      (P : S → Type 0)
      → ((b : Block) → Returns P (d.sync initial b access))
      → ((previous : S) (b : Block) → P previous → Returns P (d.fold previous b access))
      → {b : Block} {s : S} → Obtained b s
      → P s
  Obtained_invariant P start keep {b} {s} (by_sync e) = start b s e
  Obtained_invariant P start keep {b} {s} (by_fold {previous = previous} before e) =
      keep previous b (Obtained_invariant P start keep before) s e

-- The crate gives no other states, with `convert` the identity.
pub record Obtains (crate : StateFoldCrate) (access : Access) : Type 1 where
  pub obtained :
      {S : Type 0} (d : StateFoldDelegate S) (margin initial hash : ℕ) (found : BlockState S)
      → ((s : BlockState S) → d.convert s ≡ s)
      → crate.new_state_fold d access margin initial hash ≡ ok found
      → Obtained d access initial found.block found.state

module _ {S : Type 0} (crate : StateFoldCrate) (access : Access) (obtains : Obtains crate access)
    (d : StateFoldDelegate S) (same : (s : BlockState S) → d.convert s ≡ s) (margin n : ℕ) where
  -- So it is for the states that another fold asks for.
  pub get_state-Obtained :
      (P : S → Type 0)
      → ((b : Block) → Returns P (d.sync n b access))
      → ((previous : S) (b : Block) → P previous → Returns P (d.fold previous b access))
      → (h : ℕ) (s : S) → get_state (crate.new_state_fold d access margin) n h ≡ ok s
      → P s
  unfolding get_state
  get_state-Obtained P start keep h s e =
      let (found, asked, last) =
        >>=-eq-ok (map_err substate_error (crate.new_state_fold d access margin n h)) _ e in
      subst P (ok-injective last) (
        Obtained_invariant d access n P start keep (
          obtains.obtained d margin n h found same
            (map_err-eq-ok substate_error (crate.new_state_fold d access margin n h) asked)))
