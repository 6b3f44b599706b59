-- ===== src/Logic/React.antt =====
-- `react` and the transactions that it sends (offchain/src/logic/descartes_logic.rs).
pub mod Transactions
pub mod MachineCalls
pub mod MachineUse
pub mod Liveness
pub mod Delivery
pub mod Findings
use descartes_v.Base.{
  ℕ, Bool, true, false, not, Option, none, some, List, [], ◌∷◌, ◌==◌, if◌then◌else◌,
}
use descartes_v.Outcome.{Outcome, ok, err, panic, expect, unreachable, todo}
use descartes_v.Effect.{Effect, pure, lift, after, ◌>>=◌, ◌>>◌}
use descartes_v.Fold.Types.{
  Input, EpochWithClaims, DescartesV2State, PhaseState, input_accumulation,
  epoch_sealed_awaiting_first_claim, awaiting_consensus_no_conflict,
  awaiting_consensus_after_conflict, consensus_timeout, awaiting_dispute,
}
use descartes_v.Fold.Finalized.{next_epoch}
use descartes_v.Fold.Claims.{get_sender_claim}
use descartes_v.Fold.Access.{Block, StateFold}
use descartes_v.Machine.{
  Error, state_fold_error, subscriber_receive_error, EpochStatus, MachineInterface, mock_machine,
}
use descartes_v.Logic.{
  Node, Call, claim, Label, claim_for_epoch, TxConfig, ResubmitStrategy, TransactionManager,
  enqueue_remaning_inputs, update_sealed_epoch, enqueue_inputs_of_finalized_epochs,
}

-- A call of the machine leaves the transactions alone.
abbrev pub on_machine : {S T A : Type 0} → Effect Error S A → Effect Error (Node S T) A
on_machine m node =
    let (r, s) = m node.machine in (r, record { machine = s; transactions = node.transactions })

module _ {F T : Type 0} (tx_manager : TransactionManager F T) (contract sender : ℕ)
    (config : TxConfig F) where
  -- A call of the transaction manager, with the strategy of the configuration.
  abbrev pub send : Label → Call → T → Bool × T
  send label call =
      tx_manager.send_transaction label call contract sender
        (record {
          gas_multiplier = config.gas_multiplier;
          gas_price_multiplier = config.gas_price_multiplier;
          rate = config.rate;
        })
        config.confirmations

-- An error of the transaction manager is unwrapped by `expect`.
abbrev pub sent : {S T : Type 0} → Node S T → Bool × T → Outcome Error (Unit {0}) × Node S T
sent node (accepted, t) =
    (if accepted then ok tt else panic expect, record { machine = node.machine; transactions = t })

module _ {F S T : Type 0} (beyond : List Input → ℕ → Outcome Error (List Input))
    (tx_manager : TransactionManager F T) (contract sender : ℕ) (config : TxConfig F) where
  unfoldable pub send_claim_tx : (hash epoch_number : ℕ) → Effect Error (Node S T) (Unit {0})
  send_claim_tx hash epoch_number node = sent node (
      send tx_manager contract sender config (claim_for_epoch epoch_number) (claim hash)
        node.transactions)

  unfoldable pub send_finalize_tx : (epoch_number : ℕ) → Effect Error (Node S T) (Unit {0})
  send_finalize_tx epoch_number node = sent node (
      send tx_manager contract sender config (Label.finalize_epoch epoch_number) Call.finalize_epoch
        node.transactions)

  module _ (M : MachineInterface S) where
    -- The step that opens the arms with a sealed epoch: while the machine is on that epoch, its
    -- inputs are sent, and it is finished when all have been processed.
    unfoldable pub catch_up : EpochStatus → (sealed_number : ℕ) → List Input → Effect Error S Bool
    catch_up status sealed_number sealed_inputs =
        if status.epoch_number == sealed_number
        then update_sealed_epoch beyond M sealed_inputs status
        else pure true

    -- The arms with a sealed epoch, up to what they do about claims.
    unfoldable pub react_sealed :
        DescartesV2State
        → EpochStatus
        → (sealed_inputs : List Input)
        → (about_claims : (sealed_number : ℕ) → Effect Error (Node S T) (Unit {0}))
        → Effect Error (Node S T) (Unit {0})
    react_sealed state status sealed_inputs about_claims = do
      sealed_number ← lift (next_epoch state.finalized_epochs)
      all_inputs_processed ← on_machine (catch_up status sealed_number sealed_inputs)
      if not all_inputs_processed then pure tt else (do
        _ ← on_machine (enqueue_remaning_inputs beyond M status state.current_epoch.inputs.inputs)
        about_claims sealed_number)

    unfoldable pub make_claim : (sealed_number : ℕ) → Effect Error (Node S T) (Unit {0})
    make_claim sealed_number = do
      hash ← on_machine (M.get_epoch_claim sealed_number)
      send_claim_tx hash sealed_number

    -- Where the sender has claimed, `AwaitingConsensus…` falls through to the final `todo!()`.
    unfoldable pub await_consensus :
        EpochWithClaims → (sealed_number : ℕ) → Effect Error (Node S T) (Unit {0})
    await_consensus claimed sealed_number = elim (get_sender_claim claimed.claims sender) [
      | none ↦ make_claim sealed_number
      | some _ ↦ lift (panic todo)
    ]

    unfoldable pub after_timeout :
        EpochWithClaims → (sealed_number : ℕ) → Effect Error (Node S T) (Unit {0})
    after_timeout claimed sealed_number = elim (get_sender_claim claimed.claims sender) [
      | none ↦ make_claim sealed_number
      | some _ ↦ send_finalize_tx sealed_number
    ]

    -- The `match` on the phase.
    unfoldable pub react_phase :
        DescartesV2State → EpochStatus → PhaseState → Effect Error (Node S T) (Unit {0})
    react_phase state status input_accumulation = do
      _ ← on_machine (enqueue_remaning_inputs beyond M status state.current_epoch.inputs.inputs)
      pure tt
    react_phase state status (epoch_sealed_awaiting_first_claim sealed) =
        react_sealed state status sealed.inputs.inputs make_claim
    react_phase state status (awaiting_consensus_no_conflict claimed) =
        react_sealed state status claimed.inputs.inputs (await_consensus claimed)
    react_phase state status (awaiting_consensus_after_conflict claimed _) =
        react_sealed state status claimed.inputs.inputs (await_consensus claimed)
    react_phase state status (consensus_timeout claimed) =
        react_sealed state status claimed.inputs.inputs (after_timeout claimed)
    react_phase state status (awaiting_dispute claimed) = lift (panic unreachable)

    -- What follows the inputs of the finalized epochs; `none` where their fuel was used up.
    unfoldable pub react_from :
        DescartesV2State → Option (Bool × EpochStatus) → Effect Error (Node S T) (Option (Unit {0}))
    react_from state none = pure none
    react_from state (some (should_continue, status)) =
        if not should_continue
        then pure (some tt)
        else (do react_phase state status state.current_phase; pure (some tt))

    unfoldable pub react :
        (fuel : ℕ) → DescartesV2State → Effect Error (Node S T) (Option (Unit {0}))
    react fuel state = do
      status ← on_machine M.get_current_epoch_status
      caught ← on_machine (enqueue_inputs_of_finalized_epochs beyond M fuel state status)
      react_from state caught
