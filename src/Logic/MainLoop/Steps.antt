-- ===== src/Logic/MainLoop/Steps.antt =====
-- What the loop of `main_loop` (offchain/src/logic/descartes_logic.rs) does with the messages of
-- its subscription: one call of `react` for each block, in their order, until one fails.
use descartes_v.Base.{
  ℕ, zero, suc, ◌≡◌, ◌≢◌, refl, Bool, Option, none, some, List, [], ◌∷◌, inl, inr, ◌⊎◌,
}
use descartes_v.Outcome.{Outcome, Panic, ok, err, panic, map_err}
use descartes_v.Effect.{Effect, pure, lift, after, ◌>>=◌, >>=-eq-ok}
use descartes_v.Fold.Types.{Input, DescartesV2State}
use descartes_v.Fold.Finalized.{next_epoch}
use descartes_v.Fold.Access.{Block, BlockState, StateFold}
use descartes_v.Machine.{
  Error, state_fold_error, subscriber_receive_error, MachineInterface, EpochStatus,
}
use descartes_v.Logic.{
  Node, TxConfig, TransactionManager, finalized_round, enqueue_inputs_of_finalized_epochs,
}
use descartes_v.Logic.Instances.{Message, new_block, failed}
use descartes_v.Logic.React.{on_machine, react, react_from}
use descartes_v.Logic.React.Transactions.{TransactionStep, react_from-Steps}
use descartes_v.Logic.MainLoop.{react_to_block, receive_loop}

module _ {F S T : Type 0} (beyond : List Input → ℕ → Outcome Error (List Input))
    (tx_manager : TransactionManager F T) (contract sender : ℕ) (config : TxConfig F)
    (M : MachineInterface S) where
  -- What one call of `react` on a state does to the transactions.
  pub data Reaction (state : DescartesV2State) (t t' : T) : Type 0 where
    silent : t' ≡ t → Reaction state t t'
    acted :
        (n : ℕ)
        → next_epoch {E = Error} state.finalized_epochs ≡ ok n
        → TransactionStep beyond tx_manager contract sender config M state.current_phase n t t'
        → Reaction state t t'

  Reaction-on_machine :
      {A B : Type 0} (state : DescartesV2State) (m : Effect Error S A)
      (k : A → Effect Error (Node S T) B) (node : Node S T)
      → ((a : A) (s : S)
          → (m s).0 ≡ ok a
          → (node' : Node S T) → Reaction state node'.transactions (k a node').1.transactions)
      → Reaction state node.transactions ((on_machine m >>= k) node).1.transactions
  Reaction-on_machine {A} state m k node h = go (m node.machine).0 (m node.machine).1 refl
    where
      go :
          (r : Outcome Error A) (s : S)
          → (m node.machine).0 ≡ r
          → Reaction state node.transactions
              (after (r, record { machine = s; transactions = node.transactions }) k).1.transactions
      go (ok a) s e = h a node.machine e (record { machine = s; transactions = node.transactions })
      go (err e) s _ = silent refl
      go (panic p) s _ = silent refl

  -- The finalized epochs were gone through only with the number of the next one.
  caught-cases :
      (fuel : ℕ) (state : DescartesV2State) (status : EpochStatus) (s : S)
      {caught : Option (Bool × EpochStatus)}
      → (enqueue_inputs_of_finalized_epochs beyond M fuel state status s).0 ≡ ok caught
      → (caught ≡ none) ⊎ ((n : ℕ) × (next_epoch {E = Error} state.finalized_epochs ≡ ok n))
  unfolding enqueue_inputs_of_finalized_epochs finalized_round
  caught-cases zero state status s e = inl cc
  caught-cases (suc fuel) state status s e =
      let (n, next, _) = >>=-eq-ok (lift (next_epoch state.finalized_epochs)) _ s e in inr (n, next)

  react_from-Reaction :
      (state : DescartesV2State) (caught : Option (Bool × EpochStatus))
      → (caught ≡ none) ⊎ ((n : ℕ) × (next_epoch {E = Error} state.finalized_epochs ≡ ok n))
      → (node : Node S T)
      → Reaction state node.transactions
          (react_from beyond tx_manager contract sender config M state caught node).1.transactions
  unfolding react_from
  react_from-Reaction state none _ node = silent refl
  react_from-Reaction state (some done) (inl e) node = cc
  react_from-Reaction state (some done) (inr (n, next)) node =
      acted n next
        (react_from-Steps beyond tx_manager contract sender config M state n (some done) next node)

  pub react-Reaction :
      (fuel : ℕ) (state : DescartesV2State) (node : Node S T)
      → Reaction state node.transactions
          (react beyond tx_manager contract sender config M fuel state node).1.transactions
  unfolding react
  react-Reaction fuel state node =
      Reaction-on_machine state M.get_current_epoch_status _ node (λ status _ _ node'.
        Reaction-on_machine state (enqueue_inputs_of_finalized_epochs beyond M fuel state status) _
          node'
          (λ caught s e. react_from-Reaction state caught (caught-cases fuel state status s e)))

  module _ (state_fold : StateFold DescartesV2State) (initial_epoch fuel : ℕ) where
    abbrev react_to : BlockState DescartesV2State → Effect Error (Node S T) (Option (Unit {0}))
    react_to found = react beyond tx_manager contract sender config M fuel found.state

    -- A run of the loop over messages, with how it ended, from one node to another. Each block
    -- whose state is known is answered by a call of `react` on that state.
    pub data LoopSteps
        : List Message → Outcome Error (Option (Unit {0})) → Node S T → Node S T → Type 0 where
      waits : {node : Node S T} → LoopSteps [] (ok (some tt)) node node
      lost :
          {messages : List Message} {node : Node S T}
          → LoopSteps (failed ∷ messages) (err subscriber_receive_error) node node
      no_state :
          {block : Block} {messages : List Message} {node : Node S T} (x : _)
          → state_fold initial_epoch block.hash ≡ err x
          → LoopSteps (new_block block ∷ messages) (err (state_fold_error x)) node node
      fold_panics :
          {block : Block} {messages : List Message} {node : Node S T} (p : Panic)
          → state_fold initial_epoch block.hash ≡ panic p
          → LoopSteps (new_block block ∷ messages) (panic p) node node
      stops :
          {block : Block} {messages : List Message} {r : Outcome Error (Option (Unit {0}))}
          {node node' : Node S T} (found : BlockState DescartesV2State)
          → state_fold initial_epoch block.hash ≡ ok found
          → react_to found node ≡ (r, node')
          → Reaction found.state node.transactions node'.transactions
          → r ≢ ok (some tt)
          → LoopSteps (new_block block ∷ messages) r node node'
      goes_on :
          {block : Block} {messages : List Message} {r : Outcome Error (Option (Unit {0}))}
          {node node' node'' : Node S T} (found : BlockState DescartesV2State)
          → state_fold initial_epoch block.hash ≡ ok found
          → react_to found node ≡ (ok (some tt), node')
          → Reaction found.state node.transactions node'.transactions
          → LoopSteps messages r node' node''
          → LoopSteps (new_block block ∷ messages) r node node''

    abbrev loop : List Message → Effect Error (Node S T) (Option (Unit {0}))
    loop = receive_loop beyond tx_manager contract sender config M state_fold initial_epoch fuel

    -- The loop after the call of `react` for a block.
    abbrev next_message :
        List Message → Option (Unit {0}) → Effect Error (Node S T) (Option (Unit {0}))
    next_message messages none = pure none
    next_message messages (some _) = loop messages

    -- What the loop does on the messages is a run over them.
    Follows : List Message → Node S T → Outcome Error (Option (Unit {0})) × Node S T → Type 0
    Follows messages node ended = LoopSteps messages ended.0 node ended.1

    after_react :
        (block : Block) (messages : List Message) (found : BlockState DescartesV2State)
        (node : Node S T)
        → ((node' : Node S T) → Follows messages node' (loop messages node'))
        → state_fold initial_epoch block.hash ≡ ok found
        → (r : Outcome Error (Option (Unit {0}))) (node' : Node S T)
        → react_to found node ≡ (r, node')
        → Reaction found.state node.transactions node'.transactions
        → Follows (new_block block ∷ messages) node (after (r, node') (next_message messages))
    unfolding Follows
    after_react block messages found node onward here (ok none) node' called step =
        stops found here called step (λ e. cc)
    after_react block messages found node onward here (ok (some _)) node' called step =
        goes_on found here called step (onward node')
    after_react block messages found node onward here (err x) node' called step =
        stops found here called step (λ e. cc)
    after_react block messages found node onward here (panic p) node' called step =
        stops found here called step (λ e. cc)

    after_state :
        (block : Block) (messages : List Message) (node : Node S T)
        → ((node' : Node S T) → Follows messages node' (loop messages node'))
        → (o : Outcome _ (BlockState DescartesV2State)) → state_fold initial_epoch block.hash ≡ o
        → Follows
            (new_block block ∷ messages)
            node
            (after (after (map_err state_fold_error o, node) react_to) (next_message messages))
    unfolding Follows
    after_state block messages node onward (ok found) here =
        after_react block messages found node onward here (react_to found node).0
          (react_to found node).1 refl (react-Reaction fuel found.state node)
    after_state block messages node onward (err x) here = no_state x here
    after_state block messages node onward (panic p) here = fold_panics p here

    -- The loop takes the messages in their order. For each block it asks for the state at that
    -- block, ends with the error or the panic of that request if there is one, and otherwise calls
    -- `react` on that state, once; the call leaves the transactions as they are or makes one step
    -- for the sealed epoch of that state. Where the call ends well the loop goes on to the next
    -- message with the node that the call left, and otherwise it ends as the call did. An error of
    -- the subscription ends it too, and where there are no more messages it has ended well.
    pub receive_loop-LoopSteps :
        (messages : List Message) (node : Node S T)
        → LoopSteps messages
            (receive_loop beyond tx_manager contract sender config M state_fold initial_epoch fuel
              messages node).0
            node
            (receive_loop beyond tx_manager contract sender config M state_fold initial_epoch fuel
              messages node).1
    unfolding receive_loop react_to_block Follows
    receive_loop-LoopSteps [] node = waits
    receive_loop-LoopSteps (failed ∷ messages) node = lost
    receive_loop-LoopSteps (new_block block ∷ messages) node =
        after_state block messages node (receive_loop-LoopSteps messages)
          (state_fold initial_epoch block.hash) refl
