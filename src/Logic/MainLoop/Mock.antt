-- ===== src/Logic/MainLoop/Mock.antt =====
-- What `main_loop` does with the machine that it is given, the mock.
use descartes_v.Base.{ℕ, ◌≡◌, refl, ap, inl, inr, Option, List, [], ◌∷◌}
use descartes_v.Outcome.{Outcome, ok, err, panic, todo, Outcome-cases}
use descartes_v.Effect.{Effect, after}
use descartes_v.Fold.Types.{Input, DescartesV2State}
use descartes_v.Fold.Access.{Block, BlockState, Fold, StateFold}
use descartes_v.Machine.{Error, state_fold_error, mock_machine}
use descartes_v.Logic.{Node, TxConfig, TransactionManager}
use descartes_v.Logic.Config.{Config, tx_config}
use descartes_v.Logic.FoldInstance.{FoldCrates}
use descartes_v.Logic.Instances.{Message, new_block, failed, NodeCrates, Instances}
use descartes_v.Logic.React.{react}
use descartes_v.Logic.MainLoop.{on_world, receive, react_to_block, receive_loop, set_up, main_loop}

-- How a block ends the loop: with the error of the state fold, or with the mock's `todo!()`.
abbrev stop : Fold (BlockState DescartesV2State) → Outcome Error (Option (Unit {0}))
stop (ok _) = panic todo
stop (err e) = err (state_fold_error e)
stop (panic p) = panic p

module _ {F T : Type 0} (beyond : List Input → ℕ → Outcome Error (List Input))
    (tx_manager : TransactionManager F T) (contract sender : ℕ) (config : TxConfig F)
    (state_fold : StateFold DescartesV2State) (initial_epoch fuel : ℕ) where
  react_mock :
      (state : DescartesV2State) (node : Node (Unit {0}) T)
      → react beyond tx_manager contract sender config mock_machine fuel state node
        ≡ (panic todo, node)
  unfolding react mock_machine
  react_mock state node = refl

  react_to_block_mock :
      (block : Block) (node : Node (Unit {0}) T)
      → react_to_block beyond tx_manager contract sender config mock_machine state_fold
          initial_epoch fuel block node
        ≡ (stop (state_fold initial_epoch block.hash), node)
  unfolding react_to_block
  react_to_block_mock block node = elim (Outcome-cases (state_fold initial_epoch block.hash)) [
    | inl (found, e) ↦ rw e (react_mock found.state node)
    | inr (inl (x, e)) ↦ rw e refl
    | inr (inr (p, e)) ↦ rw e refl
  ]

  -- With the mock the loop sends nothing, and it goes on only while no message has come.
  receive_loop-mock_machine :
      (messages : List Message) (node : Node (Unit {0}) T)
      → let run =
          receive_loop beyond tx_manager contract sender config mock_machine state_fold
            initial_epoch fuel messages node in
        (run.1.transactions ≡ node.transactions)
        × ((r : Option (Unit {0})) → run.0 ≡ ok r → messages ≡ [])
  unfolding receive_loop
  receive_loop-mock_machine [] node = (refl, λ r e. refl)
  receive_loop-mock_machine (failed ∷ messages) node = (refl, λ r e. cc)
  receive_loop-mock_machine (new_block block ∷ messages) node =
      rw (react_to_block_mock block node)
        (elim (Outcome-cases (state_fold initial_epoch block.hash)) [
          | inl (found, e) ↦ rw e (refl, λ r q. cc)
          | inr (inl (x, e)) ↦ rw e (refl, λ r q. cc)
          | inr (inr (p, e)) ↦ rw e (refl, λ r q. cc)
        ])

module _ {F W : Type 0} (beyond : List Input → ℕ → Outcome Error (List Input))
    (fold_crates : FoldCrates) (node_crates : NodeCrates F W) (config : Config F)
    (sender fuel : ℕ) where
  -- With the mock, `main_loop` leaves the world as its set-up leaves it, so it sends no
  -- transaction, and it goes on without an error or a panic only while the subscription has given
  -- no message.
  pub main_loop-set_up :
      (w : W)
      → ((main_loop fold_crates node_crates config beyond sender fuel w).1
          ≡ (set_up fold_crates node_crates config w).1)
        × ((r : Option (Unit {0}))
            → (main_loop fold_crates node_crates config beyond sender fuel w).0 ≡ ok r
            → (i : Instances node_crates) × (f : StateFold DescartesV2State) × ((set_up fold_crates
                  node_crates config w).0
                ≡ ok (i, f, [])))
  unfolding main_loop receive
  main_loop-set_up w = go (set_up fold_crates node_crates config w)
    where
      mock :
          Instances node_crates × StateFold DescartesV2State × List Message
          → Effect Error W (Option (Unit {0}))
      mock ready =
          on_world (receive fold_crates node_crates config mock_machine beyond sender fuel ready)

      go :
          (r : Outcome Error (Instances node_crates × StateFold DescartesV2State × List Message)
            × W)
          → ((after r mock).1 ≡ r.1)
            × ((u : Option (Unit {0}))
                → (after r mock).0 ≡ ok u
                → (i : Instances node_crates) × (f : StateFold DescartesV2State) × (r.0
                    ≡ ok (i, f, [])))
      go (err x, w) = (refl, λ u e. cc)
      go (panic p, w) = (refl, λ u e. cc)
      go (ok (i, f, messages), w) =
          let idle =
            receive_loop-mock_machine beyond i.transaction_manager i.descartesv2_contract.address
              sender (tx_config config) f config.initial_epoch fuel messages
              (record { machine = tt; transactions = w }) in
          (idle.0, λ u e. (i, f, ap (λ (l : List Message). ok (i, f, l)) (idle.1 u e)))
