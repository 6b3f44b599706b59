-- ===== src/Logic/FoldInstance.antt =====
-- The state fold that the node asks (offchain/src/logic/instantiate_state_fold.rs). The crates
-- that it is made of are a record of the functions called.
use descartes_v.Base.{ℕ, String, Option, List}
use descartes_v.Outcome.{Outcome, ok, ok_or, ◌>>=◌}
use descartes_v.Fold.Types.{DescartesV2State}
use descartes_v.Fold.Access.{Access, StateFold}
use descartes_v.Fold.Setup.{StateFoldCrate, create_descartes_state_fold}
use descartes_v.Machine.{Error, url_parse_error}
use descartes_v.Logic.Config.{StateFoldConfig, setup_config}

-- `Provider::<Http>::try_from`, `Access::new`, and `StateFold::new`
pub record FoldCrates : Type 1 where
  pub Provider : Type 0
  pub try_from : String → Option Provider
  pub new_access :
      Provider → (genesis_block : ℕ) → (codes : List ℕ) → (concurrent_events_fetch : ℕ) → Access
  pub state_fold : StateFoldCrate

module _ (crates : FoldCrates) where
  unfoldable pub create_provider : String → Outcome Error crates.Provider
  create_provider url = ok_or url_parse_error (crates.try_from url)

  unfoldable pub create_access : StateFoldConfig → Outcome Error Access
  create_access config = do
    provider ← create_provider config.provider_http_url
    ok (
        crates.new_access provider config.genesis_block config.query_limit_error_codes
          config.concurrent_events_fetch)

  unfoldable pub instantiate_state_fold :
      StateFoldConfig → Outcome Error (StateFold DescartesV2State)
  instantiate_state_fold config = do
    access ← create_access config
    ok (create_descartes_state_fold crates.state_fold access (setup_config config))
