-- ===== src/Logic/MainLoop/Delivery.antt =====
-- The inputs that the machine gets while an epoch takes inputs, over the blocks that the loop of
-- `main_loop` (offchain/src/logic/descartes_logic.rs) receives.
use descartes_v.Base.{
  ℕ, suc, ◌<◌, ◌≡◌, refl, sym, ◌∙◌, ap, Option, none, some, List, [], ◌∷◌, ◌++◌, length,
}
use mathlib.Core.Path.{subst}
use descartes_v.Outcome.{Outcome, ok, u64_mod}
use descartes_v.Effect.{Effect, pure, ◌>>=◌, >>=-eq-ok, >>=-ok}
use descartes_v.Fold.Types.{Input, DescartesV2State}
use descartes_v.Fold.Access.{Block, BlockState, StateFold}
use descartes_v.Machine.{Error, MachineInterface}
use descartes_v.Logic.{Node, TxConfig, TransactionManager}
use descartes_v.Logic.Instances.{Message, new_block}
use descartes_v.Logic.React.{react}
use descartes_v.Logic.React.Delivery.{Receives, Reports, Has, Accumulates}
use descartes_v.Logic.React.Delivery.Step.{react-Has, react_served}
use descartes_v.Logic.React.Liveness.{Serves}
use descartes_v.Logic.MainLoop.{react_to_block, receive_loop}

module _ {F S T : Type 0} (beyond : List Input → ℕ → Outcome Error (List Input))
    (tx_manager : TransactionManager F T) (contract sender : ℕ) (config : TxConfig F)
    (M : MachineInterface S) (receives : Receives M) (state_fold : StateFold DescartesV2State)
    (initial_epoch fuel e : ℕ) where
  -- Blocks at whose states the epoch `e` takes inputs, each with the inputs of the one before and
  -- more: from the inputs `old` to the inputs `last`.
  pub data Growing : (old : List Input) → List Message → (last : List Input) → Type 0 where
    stay : {old : List Input} → Growing old [] old
    grow :
        {old inputs last : List Input} {block : Block} {messages : List Message} (more : List Input)
        (found : BlockState DescartesV2State)
        → state_fold initial_epoch block.hash ≡ ok found
        → old ++ more ≡ inputs
        → length inputs < u64_mod
        → Accumulates found.state e inputs
        → Growing inputs messages last
        → Growing old (new_block block ∷ messages) last

  abbrev loop : List Message → Effect Error (Node S T) (Option (Unit {0}))
  loop = receive_loop beyond tx_manager contract sender config M state_fold initial_epoch (suc fuel)

  abbrev react_to : DescartesV2State → Effect Error (Node S T) (Option (Unit {0}))
  react_to = react beyond tx_manager contract sender config M (suc fuel)

  -- The loop after the call of `react` for a block.
  abbrev next_message :
      List Message → Option (Unit {0}) → Effect Error (Node S T) (Option (Unit {0}))
  next_message messages none = pure none
  next_message messages (some _) = loop messages

  abbrev HasAfter : List Input → Outcome Error (Option (Unit {0})) × Node S T → Type 0
  HasAfter inputs ended = Has M receives ended.1.machine e inputs

  loop_lem :
      (block : Block) (messages : List Message) (found : BlockState DescartesV2State)
      (node : Node S T)
      → state_fold initial_epoch block.hash ≡ ok found
      → loop (new_block block ∷ messages) node
        ≡ (react_to found.state >>= next_message messages) node
  unfolding receive_loop react_to_block
  loop_lem block messages found node at_block = rw at_block refl

  after_block :
      (messages : List Message) (last : List Input) (state : DescartesV2State) (node : Node S T)
      (r : Option (Unit {0}))
      → (react_to state node).0 ≡ ok r
      → (next_message messages r (react_to state node).1).0 ≡ ok (some tt)
      → ((loop messages (react_to state node).1).0 ≡ ok (some tt)
          → HasAfter last (loop messages (react_to state node).1))
      → HasAfter last ((react_to state >>= next_message messages) node)
  after_block messages last state node none reacted ended onward = cc
  after_block messages last state node (some u) reacted ended onward =
      rw (>>=-ok (react_to state) (next_message messages) node reacted) (onward ended)

  -- On a machine that keeps the inputs of the calls that succeed, counts them in its status and is
  -- on the epoch: while the epoch takes inputs, fewer than 2^64, and each block has those of the
  -- block before and perhaps more, a run of the loop with some fuel that ends well has delivered
  -- to the machine exactly the inputs of the last block's state, each once and in order, whatever
  -- was added in which block.
  pub receive_loop-Has :
      {old last : List Input} {messages : List Message} (node : Node S T)
      → Growing old messages last
      → Has M receives node.machine e old
      → (receive_loop beyond tx_manager contract sender config M state_fold initial_epoch
          (suc fuel)
          messages
          node).0
        ≡ ok (some tt)
      → Has M receives
          (receive_loop beyond tx_manager contract sender config M state_fold initial_epoch
            (suc fuel)
            messages
            node).1.machine
          e
          last
  unfolding receive_loop
  receive_loop-Has node stay has ended = has
  receive_loop-Has {old} {last} node
        (grow {inputs = inputs} {block = block} {messages = messages} more found at_block grown
          short takes rest)
        has ended =
      let eq = loop_lem block messages found node at_block in
      let (r, reacted, further) =
        >>=-eq-ok (react_to found.state) (next_message messages) node
          (sym (ap (λ x. x.0) eq) ∙ ended) in
      let has' =
        react-Has beyond tx_manager contract sender config M receives fuel e old more inputs
          found.state node r has grown short takes reacted in
      subst (HasAfter last) (sym eq) (
        after_block messages last found.state node r reacted further
          (receive_loop-Has (react_to found.state node).1 rest has'))

  -- Under the same conditions, on a machine that answers every call, the run of the loop does end
  -- well, and so the machine has exactly the inputs of the last block's state.
  pub receive_loop_served :
      {old last : List Input} {messages : List Message} (node : Node S T)
      → Serves M
      → Reports M
      → Growing old messages last
      → Has M receives node.machine e old
      → ((receive_loop beyond tx_manager contract sender config M state_fold initial_epoch
            (suc fuel)
            messages
            node).0
          ≡ ok (some tt))
        × Has M receives
            (receive_loop beyond tx_manager contract sender config M state_fold initial_epoch
              (suc fuel)
              messages
              node).1.machine
            e
            last
  receive_loop_served node serves reports growing has =
      let done = ends node serves reports growing has in
      (done, receive_loop-Has node growing has done)
    where
      ends :
          {old last : List Input} {messages : List Message} (node : Node S T)
          → Serves M
          → Reports M
          → Growing old messages last
          → Has M receives node.machine e old
          → (loop messages node).0 ≡ ok (some tt)
      ends node serves reports stay has = unfold receive_loop in refl
      ends {old} {last} node serves reports
            (grow {inputs = inputs} {block = block} {messages = messages} more found at_block grown
              short takes rest)
            has =
          let reacted =
            react_served beyond tx_manager contract sender config M receives fuel e old more inputs
              found.state node serves reports has grown short takes in
          let has' =
            react-Has beyond tx_manager contract sender config M receives fuel e old more inputs
              found.state node (some tt) has grown short takes reacted in
          ap (λ x. x.0)
            (loop_lem block messages found node at_block
              ∙ >>=-ok (react_to found.state) (next_message messages) node reacted)
          ∙ ends (react_to found.state node).1 serves reports rest has'
