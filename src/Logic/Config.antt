-- ===== src/Logic/Config.antt =====
-- The configuration of the node and the copies of its parts that the instantiations take
-- (offchain/src/logic/descartes_logic.rs, instantiate_state_fold.rs, instantiate_tx_manager.rs).
-- Durations are numbers; the `i32` error codes, which are passed on unread, are bit patterns.
use descartes_v.Base.{ℕ, String, Option, List}
use descartes_v.Fold.Setup.{SetupConfig}
use descartes_v.Logic.{TxConfig}

-- `F` stands for `f64`.
pub record Config (F : Type 0) : Type 0 where
  pub safety_margin : ℕ
  pub input_contract_address : ℕ
  pub descartes_contract_address : ℕ
  pub provider_http_url : String
  pub genesis_block : ℕ
  pub query_limit_error_codes : List ℕ
  pub concurrent_events_fetch : ℕ
  pub http_endpoint : String
  pub ws_endpoint : String
  pub max_retries : ℕ
  pub max_delay : ℕ
  pub call_timeout : ℕ
  pub subscriber_timeout : ℕ
  pub initial_epoch : ℕ
  pub gas_multiplier : Option F
  pub gas_price_multiplier : Option F
  pub rate : ℕ
  pub confirmations : ℕ

-- `instantiate_state_fold::Config`
pub record StateFoldConfig : Type 0 where
  pub safety_margin : ℕ
  pub input_contract_address : ℕ
  pub descartes_contract_address : ℕ
  pub provider_http_url : String
  pub genesis_block : ℕ
  pub query_limit_error_codes : List ℕ
  pub concurrent_events_fetch : ℕ

-- `instantiate_tx_manager::Config`
pub record TxManagerConfig : Type 0 where
  pub http_endpoint : String
  pub ws_endpoint : String
  pub max_retries : ℕ
  pub max_delay : ℕ
  pub call_timeout : ℕ
  pub subscriber_timeout : ℕ
  pub descartes_contract_address : ℕ

module _ {F : Type 0} (config : Config F) where
  -- `impl From<&Config> for TxConfig`
  unfoldable pub tx_config : TxConfig F
  tx_config = record {
    gas_multiplier = config.gas_multiplier;
    gas_price_multiplier = config.gas_price_multiplier;
    rate = config.rate;
    confirmations = config.confirmations;
  }

  -- `impl From<&Config> for instantiate_state_fold::Config`
  unfoldable pub state_fold_config : StateFoldConfig
  state_fold_config = record {
    safety_margin = config.safety_margin;
    input_contract_address = config.input_contract_address;
    descartes_contract_address = config.descartes_contract_address;
    provider_http_url = config.provider_http_url;
    genesis_block = config.genesis_block;
    query_limit_error_codes = config.query_limit_error_codes;
    concurrent_events_fetch = config.concurrent_events_fetch;
  }

  -- `impl From<&Config> for instantiate_tx_manager::Config`
  unfoldable pub tx_manager_config : TxManagerConfig
  tx_manager_config = record {
    http_endpoint = config.http_endpoint;
    ws_endpoint = config.ws_endpoint;
    max_retries = config.max_retries;
    max_delay = config.max_delay;
    call_timeout = config.call_timeout;
    subscriber_timeout = config.subscriber_timeout;
    descartes_contract_address = config.descartes_contract_address;
  }

-- `impl From<&Config> for SetupConfig`
unfoldable pub setup_config : StateFoldConfig → SetupConfig
setup_config config = record {
  safety_margin = config.safety_margin;
  input_contract_address = config.input_contract_address;
  descartes_contract_address = config.descartes_contract_address;
}
