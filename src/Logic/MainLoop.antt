-- ===== src/Logic/MainLoop.antt =====
-- `main_loop` (offchain/src/logic/descartes_logic.rs): the set-up of the node, and one call of
-- `react` for each block of the subscription.
pub mod Mock
pub mod Wiring
pub mod Steps
pub mod Sealed
pub mod Delivery
pub mod Server
use descartes_v.Base.{ℕ, Option, none, some, List, [], ◌∷◌}
use descartes_v.Outcome.{Outcome, ok, err, panic, ok_or, map_err}
use descartes_v.Effect.{Effect, pure, lift, call, after, ◌>>=◌, ◌>>◌}
use descartes_v.Fold.Types.{Input, DescartesV2State}
use descartes_v.Fold.Access.{Block, BlockState, StateFold}
use descartes_v.Machine.{
  Error, state_fold_error, subscriber_receive_error, empty_subscription, MachineInterface,
  mock_machine,
}
use descartes_v.Logic.{Node, TxConfig, TransactionManager}
use descartes_v.Logic.Config.{Config, tx_config, state_fold_config, tx_manager_config}
use descartes_v.Logic.FoldInstance.{FoldCrates, instantiate_state_fold}
use descartes_v.Logic.Instances.{
  Message, new_block, failed, NodeCrates, Instances, instantiate_tx_manager,
}
use descartes_v.Logic.React.{react}

module _ {F S T : Type 0} (beyond : List Input → ℕ → Outcome Error (List Input))
    (tx_manager : TransactionManager F T) (contract sender : ℕ) (config : TxConfig F)
    (M : MachineInterface S) (state_fold : StateFold DescartesV2State)
    (initial_epoch fuel : ℕ) where
  -- The handling of one block; `none` where the fuel of `react` was used up.
  unfoldable pub react_to_block : Block → Effect Error (Node S T) (Option (Unit {0}))
  react_to_block block = do
    found ← lift (map_err state_fold_error (state_fold initial_epoch block.hash))
    react beyond tx_manager contract sender config M fuel found.state

  -- The loop, on the messages received so far. It waits for another one where they end.
  unfoldable pub receive_loop : List Message → Effect Error (Node S T) (Option (Unit {0}))
  receive_loop [] = pure (some tt)
  receive_loop (failed ∷ messages) = lift (err subscriber_receive_error)
  receive_loop (new_block block ∷ messages) = react_to_block block >>= λ reacted. elim reacted [
    | none ↦ pure none
    | some _ ↦ receive_loop messages
  ]

-- A computation of the node, whose machine is the mock and has no state, as one of the world.
abbrev pub on_world : {W A : Type 0} → Effect Error (Node (Unit {0}) W) A → Effect Error W A
on_world m w =
    let (r, node) = m (record { machine = tt; transactions = w }) in (r, node.transactions)

module _ {F W : Type 0} (fold_crates : FoldCrates) (node_crates : NodeCrates F W)
    (config : Config F) where
  unfoldable pub subscribe : Instances node_crates → Effect Error W (List Message)
  subscribe instances w =
      let (subscription, w') = node_crates.subscribe instances.block_subscriber w in
      (ok_or empty_subscription subscription, w')

  -- What comes before the loop: the instances, the state fold and the subscription.
  unfoldable pub set_up :
      Effect Error W (Instances node_crates × StateFold DescartesV2State × List Message)
  set_up = do
    instances ← instantiate_tx_manager node_crates (tx_manager_config config)
    state_fold ← lift (instantiate_state_fold fold_crates (state_fold_config config))
    messages ← subscribe instances
    pure (instances, state_fold, messages)

  -- What follows the set-up, on the machine that `react` is given.
  unfoldable pub receive :
      {S : Type 0} (M : MachineInterface S) (beyond : List Input → ℕ → Outcome Error (List Input))
      (sender fuel : ℕ)
      → Instances node_crates × StateFold DescartesV2State × List Message
      → Effect Error (Node S W) (Option (Unit {0}))
  receive M beyond sender fuel (instances, state_fold, messages) =
      receive_loop beyond instances.transaction_manager instances.descartesv2_contract.address
        sender (tx_config config) M state_fold config.initial_epoch fuel messages

  -- The machine is the mock.
  unfoldable pub main_loop :
      (beyond : List Input → ℕ → Outcome Error (List Input)) (sender fuel : ℕ)
      → Effect Error W (Option (Unit {0}))
  main_loop beyond sender fuel = do
    ready ← set_up
    on_world (receive mock_machine beyond sender fuel ready)
