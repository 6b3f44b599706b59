-- ===== src/Tests/MainLoop.antt =====
-- `main_loop` over crates of which nothing is kept but the number of calls made.
use descartes_v.Base.{ℕ, ◌+◌, ◌≡◌, refl, true, Option, none, some, [], ◌∷◌}
use descartes_v.Outcome.{ok}
use descartes_v.Fold.Types.{DescartesV2State}
use descartes_v.Fold.Access.{StateFold}
use descartes_v.Fold.Setup.{create_descartes_state_fold}
use descartes_v.Logic.{TransactionManager}
use descartes_v.Logic.Config.{Config, state_fold_config, tx_manager_config, setup_config}
use descartes_v.Logic.FoldInstance.{
  FoldCrates, create_provider, create_access, instantiate_state_fold,
}
use descartes_v.Logic.Instances.{
  new_block, NodeCrates, Instances, create_http_factory, create_ws_factory, create_block_subscriber,
  instantiate_tx_manager,
}
use descartes_v.Logic.MainLoop.{subscribe, set_up, receive, main_loop}
use descartes_v.Logic.MainLoop.Mock.{main_loop-set_up}
use descartes_v.Logic.MainLoop.Wiring.{FoldWired, Wired, configured_loop, set_up-Wired}
use descartes_v.Tests.World.{block_2, chain}
use descartes_v.Tests.Wiring.{by_sync}
use descartes_v.Tests.Node.{beyond, machine}

abbrev fold_crates : FoldCrates
fold_crates = record {
  Provider = Unit;
  try_from = λ url. some tt;
  new_access = λ provider genesis codes concurrent. chain;
  state_fold = by_sync;
}

abbrev manager : TransactionManager ℕ ℕ
manager = record { send_transaction = λ label call _ _ _ _ calls. (true, calls + 1) }

abbrev node_crates : NodeCrates ℕ ℕ
node_crates = record {
  HttpFactory = Unit;
  WsFactory = Unit;
  Middleware = Unit;
  Factory = Unit;
  Subscriber = ℕ;
  Handle = Unit;
  new_http = λ endpoint. some tt;
  current = λ factory calls. (tt, calls + 1);
  new_ws = λ endpoint retries delay calls. (some tt, calls + 1);
  new_factory = λ factory timeout. tt;
  create_and_start = λ factory timeout retries delay calls. ((8, tt), calls + 1);
  new_transaction_manager = λ factory subscriber retries delay. manager;
  subscribe = λ subscriber calls. (some (new_block block_2 ∷ []), calls + 1);
}

abbrev config : Config ℕ
config = record {
  safety_margin = 20;
  input_contract_address = 200;
  descartes_contract_address = 100;
  provider_http_url = "http://localhost:8545";
  genesis_block = 1;
  query_limit_error_codes = [];
  concurrent_events_fetch = 16;
  http_endpoint = "http://localhost:8545";
  ws_endpoint = "ws://localhost:8545";
  max_retries = 5;
  max_delay = 1;
  call_timeout = 60;
  subscriber_timeout = 60;
  initial_epoch = 0;
  gas_multiplier = none;
  gas_price_multiplier = none;
  rate = 50;
  confirmations = 7;
}

abbrev state_fold : StateFold DescartesV2State
state_fold =
    create_descartes_state_fold by_sync chain (record {
      safety_margin = 20;
      input_contract_address = 200;
      descartes_contract_address = 100;
    })

abbrev instances : Instances node_crates
instances = record {
  handle = tt;
  block_subscriber = 8;
  transaction_manager = manager;
  descartesv2_contract = record { address = 100; middleware = tt };
}

main_loop-set_up_example :
    ((main_loop fold_crates node_crates config beyond 9 3 0).1
      ≡ (set_up fold_crates node_crates config 0).1)
    × ((r : Option (Unit {0}))
        → (main_loop fold_crates node_crates config beyond 9 3 0).0 ≡ ok r
        → (i : Instances node_crates) × (f : StateFold DescartesV2State) × ((set_up fold_crates
              node_crates config 0).0
            ≡ ok (i, f, [])))
main_loop-set_up_example = main_loop-set_up beyond fold_crates node_crates config 9 3 0

set_up_lem :
    (set_up fold_crates node_crates config 0).0 ≡ ok (instances, state_fold, new_block block_2 ∷ [])
unfolding set_up subscribe instantiate_tx_manager create_http_factory create_block_subscriber
    create_ws_factory instantiate_state_fold create_access create_provider state_fold_config
    tx_manager_config setup_config
set_up_lem = refl

set_up-Wired_example :
    FoldWired fold_crates config state_fold
    × Wired node_crates config instances
    × (receive fold_crates node_crates config machine beyond 9 3
          (instances, state_fold, new_block block_2 ∷ [])
        ≡ configured_loop node_crates config machine beyond 9 3 instances state_fold
            (new_block block_2 ∷ []))
set_up-Wired_example =
    set_up-Wired node_crates config machine beyond 9 3 fold_crates 0 instances state_fold
      (new_block block_2 ∷ []) set_up_lem
