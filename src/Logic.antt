-- ===== src/Logic.antt =====
-- The decisions of the node (offchain/src/logic/descartes_logic.rs): what it asks of the machine
-- and which transactions it sends for a state of the chain.
pub mod Progress
pub mod React
pub mod Config
pub mod FoldInstance
pub mod Instances
pub mod MainLoop
use descartes_v.Base.{
  ℕ, zero, suc, ◌+◌, ◌-◌, Bool, true, false, not, Option, none, some, List, [], ◌∷◌, length, drop,
  leb, ◌==◌, if◌then◌else◌,
}
use Prim.Native.Nat.{◌%◌}
use descartes_v.Outcome.{
  Outcome, ok, err, panic, expect, unreachable, todo, as_u64, u64_mod, assert, unwrap,
}
use descartes_v.Effect.{Effect, pure, lift, after, ◌>>=◌, ◌>>◌}
use descartes_v.Fold.Types.{
  Input, Claims, EpochWithClaims, DescartesV2State, PhaseState, input_accumulation,
  epoch_sealed_awaiting_first_claim, awaiting_consensus_no_conflict,
  awaiting_consensus_after_conflict, consensus_timeout, awaiting_dispute,
}
use descartes_v.Fold.Finalized.{next_epoch, get_epoch}
use descartes_v.Fold.Claims.{get_sender_claim}
use descartes_v.Machine.{Error, EpochStatus, MachineInterface}

-- What the node has around it: the machine and the transaction manager.
pub record Node (S T : Type 0) : Type 0 where
  pub machine : S
  pub transactions : T

-- The calls of the contract that the node sends, with their labels: `claim_for_epoch:{}` and
-- `finalize_epoch:{}`.
pub data Call : Type 0 where
  claim : (hash : ℕ) → Call
  finalize_epoch : Call

pub data Label : Type 0 where
  claim_for_epoch : ℕ → Label
  finalize_epoch : ℕ → Label

-- `TxConfig`; `F` stands for `f64`.
pub record TxConfig (F : Type 0) : Type 0 where
  pub gas_multiplier : Option F
  pub gas_price_multiplier : Option F
  pub rate : ℕ
  pub confirmations : ℕ

-- `ResubmitStrategy` of the tx_manager crate
pub record ResubmitStrategy (F : Type 0) : Type 0 where
  pub gas_multiplier : Option F
  pub gas_price_multiplier : Option F
  pub rate : ℕ

-- `TransactionManager::send_transaction`: label, call, contract, sender, strategy, confirmations. The
-- result says whether the call was accepted.
pub record TransactionManager (F T : Type 0) : Type 0 where
  pub send_transaction :
      Label → Call → (contract sender : ℕ) → ResubmitStrategy F → (confirmations : ℕ) → T → Bool × T

-- `im::Vector::slice(n..)`. What the crate does where `n` lies beyond the end is `beyond`.
unfoldable pub slice_from :
    (beyond : List Input → ℕ → Outcome Error (List Input))
    → List Input
    → ℕ
    → Outcome Error (List Input)
slice_from beyond inputs n = if leb n (length inputs) then ok (drop n inputs) else beyond inputs n

module _ {S : Type 0} (beyond : List Input → ℕ → Outcome Error (List Input))
    (M : MachineInterface S) where
  -- The sum of the two counts is one of `usize`, which wraps in a release build.
  unfoldable pub enqueue_remaning_inputs : EpochStatus → List Input → Effect Error S Bool
  enqueue_remaning_inputs status inputs =
      if status.processed_input_count == length inputs then pure true else (do
        let inputs_sent_count =
            (status.processed_input_count + status.pending_input_count) % u64_mod
        input_slice ← lift (slice_from beyond inputs inputs_sent_count)
        M.enqueue_inputs status.epoch_number inputs_sent_count input_slice
        pure false)

  unfoldable pub update_sealed_epoch : List Input → EpochStatus → Effect Error S Bool
  update_sealed_epoch sealed_inputs status = do
    all_inputs_processed ← enqueue_remaning_inputs status sealed_inputs
    if not all_inputs_processed
        then pure false
        else (do M.finish_epoch status.epoch_number status.processed_input_count; pure true)

  -- One call of the recursion, whose recursive call is `again`.
  unfoldable pub finalized_round :
      DescartesV2State
      → EpochStatus
      → (again : EpochStatus → Effect Error S (Option (Bool × EpochStatus)))
      → Effect Error S (Option (Bool × EpochStatus))
  finalized_round state status again = do
    next ← lift (next_epoch state.finalized_epochs)
    if leb next status.epoch_number then pure (some (true, status)) else (do
      index ← lift (as_u64 status.epoch_number)
      found ← lift (get_epoch state.finalized_epochs index)
      epoch ← lift (unwrap found)
      if status.processed_input_count == length epoch.inputs.inputs
          then (do
            lift (assert (status.pending_input_count == 0))
            M.finish_epoch status.epoch_number status.processed_input_count
            status' ← M.get_current_epoch_status
            again status')
          else (do
            _ ← enqueue_remaning_inputs status epoch.inputs.inputs
            pure (some (false, status))))

  -- The recursion goes on while the machine is behind the finalized epochs. It is cut off, with
  -- `none`, when the fuel is used up.
  unfoldable pub enqueue_inputs_of_finalized_epochs :
      (fuel : ℕ) → DescartesV2State → EpochStatus → Effect Error S (Option (Bool × EpochStatus))
  enqueue_inputs_of_finalized_epochs zero state status = pure none
  enqueue_inputs_of_finalized_epochs (suc fuel) state status =
      finalized_round state status (enqueue_inputs_of_finalized_epochs fuel state)
