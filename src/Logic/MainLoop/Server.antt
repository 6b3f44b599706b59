-- ===== src/Logic/MainLoop/Server.antt =====
-- The loop of `main_loop` (offchain/src/logic/descartes_logic.rs) with `MachineManager`
-- (offchain/src/machine/rollup_mm.rs) as its machine, down to the server behind it.
use descartes_v.Base.{ℕ, suc, ◌≡◌, some, List}
use descartes_v.Outcome.{Outcome, ok}
use descartes_v.Fold.Types.{Input, DescartesV2State}
use descartes_v.Fold.Types.Metadata.{Token}
use descartes_v.Fold.Access.{StateFold}
use descartes_v.Machine.{Error, MachineInterface}
use descartes_v.Machine.RollupMm.{Client, MachineManager, machine_manager}
use descartes_v.Machine.RollupMm.Keeps.{Keeps, machine_manager-Receives}
use descartes_v.Logic.{Node, TxConfig, TransactionManager}
use descartes_v.Logic.Instances.{Message}
use descartes_v.Logic.MainLoop.{receive_loop}
use descartes_v.Logic.MainLoop.Delivery.{Growing, receive_loop-Has}

module _ {F S T : Type 0} (beyond : List Input → ℕ → Outcome Error (List Input))
    (tx_manager : TransactionManager F T) (contract sender : ℕ) (config : TxConfig F)
    (client : Client S) (encode : List Token → List ℕ) (keccak256 : List ℕ → ℕ) (m : MachineManager)
    (keeps : Keeps client encode m) (state_fold : StateFold DescartesV2State)
    (initial_epoch fuel e : ℕ) where
  abbrev M : MachineInterface S
  M = machine_manager client encode keccak256 m

  -- Over a server that keeps the inputs that it accepts, and whose session is on the epoch: while
  -- the epoch takes inputs, fewer than 2^64, and each block has those of the block before and
  -- perhaps more, a run of the loop with some fuel and with `MachineManager` as its machine that
  -- ends well has left the server with exactly the inputs of the last block's state, each once and
  -- in order, and still on the epoch.
  pub receive_loop-machine_manager :
      {old last : List Input} {messages : List Message} (node : Node S T)
      → Growing beyond tx_manager contract sender config M
          (machine_manager-Receives client encode keccak256 m keeps)
          state_fold
          initial_epoch
          fuel
          e
          old
          messages
          last
      → keeps.active node.machine ≡ e
      → keeps.kept node.machine e ≡ old
      → (receive_loop beyond tx_manager contract sender config M state_fold initial_epoch
          (suc fuel)
          messages
          node).0
        ≡ ok (some tt)
      → (keeps.active
            (receive_loop beyond tx_manager contract sender config M state_fold initial_epoch
              (suc fuel)
              messages
              node).1.machine
          ≡ e)
        × (keeps.kept
              (receive_loop beyond tx_manager contract sender config M state_fold initial_epoch
                (suc fuel)
                messages
                node).1.machine
              e
            ≡ last)
  unfolding machine_manager-Receives
  receive_loop-machine_manager node growing on_it has =
      receive_loop-Has beyond tx_manager contract sender config M
        (machine_manager-Receives client encode keccak256 m keeps) state_fold initial_epoch fuel e
        node growing (on_it, has)
