-- ===== src/Logic/MainLoop/Wiring.antt =====
-- Which values of the configuration reach the instances that `main_loop` works with.
use descartes_v.Base.{ℕ, ◌≡◌, Option, refl, sym, ◌∙◌, ap, some, List}
use descartes_v.Outcome.{Outcome, ok, ok_or, ok_or-eq-ok, ok-injective}
use descartes_v.Outcome
use descartes_v.Effect.{Effect, pure, lift, call, ◌>>=◌, >>=-eq-ok}
use descartes_v.Fold.Types.{Input, DescartesV2State}
use descartes_v.Fold.Access.{Access, StateFold}
use descartes_v.Fold.Setup.{create_descartes_state_fold}
use descartes_v.Machine.{Error, MachineInterface, url_parse_error, middleware_factory_error}
use descartes_v.Logic.{Node}
use descartes_v.Logic.Config.{Config, tx_config, state_fold_config, tx_manager_config, setup_config}
use descartes_v.Logic.FoldInstance.{
  FoldCrates, create_provider, create_access, instantiate_state_fold,
}
use descartes_v.Logic.Instances.{
  Message, NodeCrates, Instances, create_http_factory, create_ws_factory, create_block_subscriber,
  instances_of, instantiate_tx_manager,
}
use descartes_v.Logic.MainLoop.{receive_loop, subscribe, set_up, receive}

-- The state fold asks the configured provider, for the configured contracts.
pub record FoldWired {F : Type 0} (crates : FoldCrates) (config : Config F)
    (f : StateFold DescartesV2State) : Type 0 where
  pub provider : crates.Provider
  pub reached : crates.try_from config.provider_http_url ≡ some provider
  pub fold :
      f
      ≡ create_descartes_state_fold crates.state_fold
          (crates.new_access provider config.genesis_block config.query_limit_error_codes
            config.concurrent_events_fetch)
          (record {
            safety_margin = config.safety_margin;
            input_contract_address = config.input_contract_address;
            descartes_contract_address = config.descartes_contract_address;
          })

-- The transaction manager goes by the HTTP endpoint, the block subscriber by the one of the web
-- socket, and the contract stands at the configured address.
pub record Wired {F W : Type 0} (crates : NodeCrates F W) (config : Config F) (i : Instances crates)
    : Type 0 where
  pub http : crates.HttpFactory
  pub http_reached : crates.new_http config.http_endpoint ≡ some http
  pub manager :
      i.transaction_manager
      ≡ crates.new_transaction_manager
          (crates.new_factory http config.call_timeout)
          i.block_subscriber
          config.max_retries
          config.max_delay
  pub ws : crates.WsFactory
  pub before : W
  pub ws_reached :
      (crates.new_ws config.ws_endpoint config.max_retries config.max_delay before).0 ≡ some ws
  pub started : W
  pub subscriber :
      i.block_subscriber
      ≡ (crates.create_and_start ws config.subscriber_timeout config.max_retries config.max_delay
          started).0.0
  pub address : i.descartesv2_contract.address ≡ config.descartes_contract_address

module _ {F : Type 0} (crates : FoldCrates) (config : Config F) where
  instantiate_state_fold-FoldWired :
      (f : StateFold DescartesV2State)
      → instantiate_state_fold crates (state_fold_config config) ≡ ok f
      → FoldWired crates config f
  unfolding instantiate_state_fold create_access create_provider state_fold_config setup_config
  instantiate_state_fold-FoldWired f e =
      let (access, made, folded) =
        Outcome.>>=-eq-ok (create_access crates (state_fold_config config)) _ e in
      let (provider, reached, same) =
        Outcome.>>=-eq-ok (create_provider crates config.provider_http_url) _ made in
      record {
        provider = provider;
        reached = ok_or-eq-ok url_parse_error (crates.try_from config.provider_http_url) reached;
        fold =
            sym (ok-injective folded)
            ∙ ap
                (λ (a : Access).
                  create_descartes_state_fold crates.state_fold a
                    (setup_config (state_fold_config config)))
                (sym (ok-injective same));
      }

module _ {F W : Type 0} (crates : NodeCrates F W) (config : Config F) where
  instantiate_tx_manager-Wired :
      (w : W) (i : Instances crates)
      → (instantiate_tx_manager crates (tx_manager_config config) w).0 ≡ ok i
      → Wired crates config i
  unfolding instantiate_tx_manager create_block_subscriber create_ws_factory create_http_factory
      tx_manager_config
  instantiate_tx_manager-Wired w i e =
      let (http, http_made, e1) =
        >>=-eq-ok (lift (create_http_factory crates (tx_manager_config config))) _ w e in
      let w1 : W = (crates.current http w).1 in
      let (both, started, e2) =
        >>=-eq-ok (create_block_subscriber crates (tx_manager_config config))
          (λ both.
            pure
              (instances_of crates (tx_manager_config config) http (crates.current http w).0 both))
          w1 e1 in
      let (ws, ws_made, e3) =
        >>=-eq-ok (create_ws_factory crates (tx_manager_config config))
          (λ ws. call (
            crates.create_and_start ws config.subscriber_timeout config.max_retries
              config.max_delay))
          w1 started in
      let w2 : W = (create_ws_factory crates (tx_manager_config config) w1).1 in
      let same : instances_of crates (tx_manager_config config) http (crates.current http w).0 both
          ≡ i =
        ok-injective e2 in
      let sub : (crates.create_and_start ws config.subscriber_timeout config.max_retries
            config.max_delay w2).0
          ≡ both =
        ok-injective e3 in
      record {
        http = http;
        http_reached =
            ok_or-eq-ok middleware_factory_error (crates.new_http config.http_endpoint) http_made;
        manager = rw (← same) refl;
        ws = ws;
        before = w1;
        ws_reached = ok_or-eq-ok middleware_factory_error _ ws_made;
        started = w2;
        subscriber = rw (← same) (ap (λ (b : crates.Subscriber × crates.Handle). b.0) (sym sub));
        address = rw (← same) refl;
      }

  set_up-instances :
      (fold_crates : FoldCrates) (w : W) (i : Instances crates) (f : StateFold DescartesV2State)
      (messages : List Message)
      → (set_up fold_crates crates config w).0 ≡ ok (i, f, messages)
      → FoldWired fold_crates config f × Wired crates config i
  unfolding set_up
  set_up-instances fold_crates w i f messages e =
      let (i', made, e1) =
        >>=-eq-ok (instantiate_tx_manager crates (tx_manager_config config))
          (λ i'. lift (instantiate_state_fold fold_crates (state_fold_config config)) >>= λ f'.
            subscribe fold_crates crates config i' >>= λ l. pure (i', f', l))
          w e in
      let w1 : W = (instantiate_tx_manager crates (tx_manager_config config) w).1 in
      let (f', folded, e2) =
        >>=-eq-ok (lift (instantiate_state_fold fold_crates (state_fold_config config)))
          (λ f'. subscribe fold_crates crates config i' >>= λ l. pure (i', f', l)) w1 e1 in
      let (l, _, e3) =
        >>=-eq-ok (subscribe fold_crates crates config i') (λ l. pure (i', f', l)) w1 e2 in
      let same : ◌≡◌ {A = Instances crates × StateFold DescartesV2State × List Message} (i', f', l)
          (i, f, messages) =
        ok-injective e3 in
      (
        instantiate_state_fold-FoldWired fold_crates config f (
            folded
            ∙ ap (λ (r : Instances crates × StateFold DescartesV2State × List Message). ok r.1)
                same),
        instantiate_tx_manager-Wired w i (
            made
            ∙ ap (λ (r : Instances crates × StateFold DescartesV2State × List Message). ok r.0)
                same),
      )

  -- What `main_loop` goes on with, on any machine: the loop over the messages of the subscription,
  -- with the values of the configuration.
  abbrev pub configured_loop :
      {S : Type 0} (M : MachineInterface S) (beyond : List Input → ℕ → Outcome Error (List Input))
      (sender fuel : ℕ)
      → Instances crates
      → StateFold DescartesV2State
      → List Message
      → Effect Error (Node S W) (Option (Unit {0}))
  configured_loop M beyond sender fuel i f messages =
      receive_loop beyond i.transaction_manager config.descartes_contract_address sender
        (record {
          gas_multiplier = config.gas_multiplier;
          gas_price_multiplier = config.gas_price_multiplier;
          rate = config.rate;
          confirmations = config.confirmations;
        })
        M f config.initial_epoch fuel messages

  -- If the set-up succeeds, the state fold asks the configured provider for the configured
  -- contracts, with the configured safety margin; the transaction manager goes by the configured
  -- HTTP endpoint and its subscriber by the configured web socket; and what follows the set-up is,
  -- on any machine, the loop over the messages of the subscription with that state fold and that
  -- transaction manager, from the configured initial epoch on, with the transactions addressed to
  -- the configured contract and the configured gas multipliers, rate and confirmations.
  pub set_up-Wired :
      {S : Type 0} (M : MachineInterface S) (beyond : List Input → ℕ → Outcome Error (List Input))
      (sender fuel : ℕ) (fold_crates : FoldCrates) (w : W) (i : Instances crates)
      (f : StateFold DescartesV2State) (messages : List Message)
      → (set_up fold_crates crates config w).0 ≡ ok (i, f, messages)
      → FoldWired fold_crates config f
        × Wired crates config i
        × (receive fold_crates crates config M beyond sender fuel (i, f, messages)
            ≡ configured_loop M beyond sender fuel i f messages)
  unfolding receive tx_config
  set_up-Wired M beyond sender fuel fold_crates w i f messages e =
      let (fold, wired) = set_up-instances fold_crates w i f messages e in
      (fold, wired, rw wired.address refl)
