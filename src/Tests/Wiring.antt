-- ===== src/Tests/Wiring.antt =====
-- The set-up of the folds over a state fold that keeps no state, on the chain of three blocks.
use descartes_v.Base.{ℕ, ◌≡◌, refl, [], ◌∷◌, Option, List, none, some, ap, arith}
use descartes_v.Outcome.{err, ◌>>=◌, ok}
use descartes_v.Fold.Access.{
  Fold, Block, BlockState, StateFoldDelegate, access_error, block_not_found,
}
use descartes_v.Fold.Setup.{SetupConfig, StateFoldCrate}
use descartes_v.Fold.Setup.Wiring.{Syncs}
use mathlib.Core.Path.{subst}
use descartes_v.Fold.Access.{ClaimFilter, LogMeta}
use descartes_v.Fold.Setup.Tower.{Answered}
use descartes_v.Tests.World.{
  block_1, block_2, added_1, added_2, claim_1, claim_2, finalized_0, finalized_1, chain,
}

-- A fold that keeps no state, and syncs at every block.
abbrev pub synced_state :
    {S : Type 0} → StateFoldDelegate S → ℕ → Option (Option Block) → Fold (BlockState S)
synced_state d initial none = err access_error
synced_state d initial (some none) = err block_not_found
synced_state d initial (some (some b)) = do
  s ← d.sync initial b chain
  ok (record { block = b; state = s })

abbrev pub by_sync : StateFoldCrate
by_sync = record {
  new_state_fold = λ d _ _ initial hash. synced_state d initial (chain.get_block hash);
}

pub by_sync-Syncs : Syncs by_sync chain
by_sync-Syncs = record {
  synced = λ d margin initial hash b found. ap (synced_state d initial) found;
}

abbrev pub setup : SetupConfig
setup = record {
  safety_margin = 20;
  input_contract_address = 200;
  descartes_contract_address = 100;
}

abbrev pub claims_of : ℕ → List (ClaimFilter × LogMeta)
claims_of _ = claim_1 ∷ claim_2 ∷ []

-- The first claim was made in the first block.
abbrev pub FirstFound : List (ClaimFilter × LogMeta) → Type 0
FirstFound [] = Unit
FirstFound (ev ∷ _) = chain.get_block ev.1.block_hash ≡ some (some block_1)

pub answered : Answered chain setup block_2
answered = record {
  found = refl;
  added = λ _. added_1 ∷ added_2 ∷ [];
  added_answer = λ _. refl;
  claimed = claims_of;
  claimed_answer = λ _. refl;
  block_of = λ _. block_1;
  block_answer = λ n ev rest e. subst FirstFound e refl;
  finalized = finalized_0 ∷ finalized_1 ∷ [];
  finalized_answer = refl;
  numbered = (refl, (refl, tt));
  short = omega arith;
}
