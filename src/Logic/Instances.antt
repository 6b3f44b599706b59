-- ===== src/Logic/Instances.antt =====
-- The transaction manager, the block subscriber and the contract that the node works with
-- (offchain/src/logic/instantiate_tx_manager.rs). The crates that they come from are a record of
-- the functions called; `W` is the state of the world outside the node.
use descartes_v.Base.{ℕ, String, Option, List}
use descartes_v.Outcome.{Outcome, ok_or}
use descartes_v.Effect.{Effect, pure, lift, call, ◌>>=◌}
use descartes_v.Fold.Access.{Block}
use descartes_v.Machine.{Error, middleware_factory_error}
use descartes_v.Logic.{TransactionManager}
use descartes_v.Logic.Config.{TxManagerConfig}

-- A message of a subscription: a block, or an error.
pub data Message : Type 0 where
  new_block : Block → Message
  failed : Message

-- The middleware factories, the block subscriber and the transaction manager. A subscription is
-- the list of the messages that it gives.
pub record NodeCrates (F W : Type 0) : Type 1 where
  pub HttpFactory : Type 0
  pub WsFactory : Type 0
  pub Middleware : Type 0
  pub Factory : Type 0
  pub Subscriber : Type 0
  pub Handle : Type 0
  pub new_http : (endpoint : String) → Option HttpFactory
  pub current : HttpFactory → W → Middleware × W
  pub new_ws : (endpoint : String) → (max_retries max_delay : ℕ) → W → Option WsFactory × W
  pub new_factory : HttpFactory → (call_timeout : ℕ) → Factory
  pub create_and_start :
      WsFactory → (subscriber_timeout max_retries max_delay : ℕ) → W → (Subscriber × Handle) × W
  pub new_transaction_manager :
      Factory → Subscriber → (max_retries max_delay : ℕ) → TransactionManager F W
  pub subscribe : Subscriber → W → Option (List Message) × W

module _ {F W : Type 0} (crates : NodeCrates F W) where
  -- `DescartesV2Impl`
  pub record Contract : Type 0 where
    pub address : ℕ
    pub middleware : crates.Middleware

  -- What `instantiate_tx_manager` returns.
  pub record Instances : Type 0 where
    pub handle : crates.Handle
    pub block_subscriber : crates.Subscriber
    pub transaction_manager : TransactionManager F W
    pub descartesv2_contract : Contract

  unfoldable pub create_http_factory : TxManagerConfig → Outcome Error crates.HttpFactory
  create_http_factory config = ok_or middleware_factory_error (crates.new_http config.http_endpoint)

  unfoldable pub create_ws_factory : TxManagerConfig → Effect Error W crates.WsFactory
  create_ws_factory config w =
      let (made, w') = crates.new_ws config.ws_endpoint config.max_retries config.max_delay w in
      (ok_or middleware_factory_error made, w')

  unfoldable pub create_block_subscriber :
      TxManagerConfig → Effect Error W (crates.Subscriber × crates.Handle)
  create_block_subscriber config = do
    factory ← create_ws_factory config
    call (
        crates.create_and_start factory config.subscriber_timeout config.max_retries
          config.max_delay)

  -- The values that `instantiate_tx_manager` returns, of the parts that it has made.
  abbrev pub instances_of :
      TxManagerConfig
      → crates.HttpFactory
      → crates.Middleware
      → crates.Subscriber × crates.Handle
      → Instances
  instances_of config middleware_factory middleware (block_subscriber, handle) = record {
    handle = handle;
    block_subscriber = block_subscriber;
    transaction_manager =
        crates.new_transaction_manager (crates.new_factory middleware_factory config.call_timeout)
          block_subscriber config.max_retries config.max_delay;
    descartesv2_contract = record {
      address = config.descartes_contract_address;
      middleware = middleware;
    };
  }

  unfoldable pub instantiate_tx_manager : TxManagerConfig → Effect Error W Instances
  instantiate_tx_manager config = do
    middleware_factory ← lift (create_http_factory config)
    middleware ← call (crates.current middleware_factory)
    started ← create_block_subscriber config
    pure (instances_of config middleware_factory middleware started)
