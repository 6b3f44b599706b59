-- ===== src/Logic/React/Findings.antt =====
-- Two runs of `react` that do not end as its comments say: a validator that has claimed awaits
-- consensus, and the machine has just finished the sealed epoch.
use descartes_v.Base.{
  ℕ, ◌+◌, ◌≡◌, ◌≢◌, ◌<◌, arith, refl, ◌∙◌, true, false, some, List, ◌⊎◌, inl, inr, ==_iff, ==_refl,
  ==_ne, length,
}
use Prim.Native.Nat.{◌%◌}
use descartes_v.Outcome.{Outcome, ok, err, panic, todo, u64_mod}
use descartes_v.Effect.{Effect, pure, after, ◌>>=◌}
use descartes_v.Fold.Types.{
  Input, AccumulatingEpoch, EpochWithClaims, DescartesV2State, PhaseState,
  epoch_sealed_awaiting_first_claim, awaiting_consensus_no_conflict,
  awaiting_consensus_after_conflict,
}
use descartes_v.Fold.Finalized.{next_epoch}
use descartes_v.Fold.Claims.{get_sender_claim}
use descartes_v.Machine.{Error, EpochStatus, MachineInterface}
use descartes_v.Logic.{
  Node, TxConfig, TransactionManager, slice_from, enqueue_remaning_inputs, update_sealed_epoch,
}
use descartes_v.Logic.React.{
  on_machine, catch_up, react_sealed, make_claim, await_consensus, react_phase,
}

-- The phase awaits consensus on the epoch `e`.
abbrev pub Awaits : EpochWithClaims → PhaseState → Type 0
Awaits e phase =
    (phase ≡ awaiting_consensus_no_conflict e)
    ⊎ ((ts : ℕ) × (phase ≡ awaiting_consensus_after_conflict e ts))

module _ {F S T : Type 0} (beyond : List Input → ℕ → Outcome Error (List Input))
    (tx_manager : TransactionManager F T) (contract sender : ℕ) (config : TxConfig F)
    (M : MachineInterface S) (state : DescartesV2State) (n : ℕ)
    (next : next_epoch {E = Error} state.finalized_epochs ≡ ok n) where
  await_own :
      (e : EpochWithClaims) (k : ℕ) (node : Node S T)
      → get_sender_claim e.claims sender ≡ some k
      → await_consensus beyond tx_manager contract sender config M e n node ≡ (panic todo, node)
  unfolding await_consensus
  await_own e k node own = rw (own, await_consensus) refl

  catch_up_past :
      (status : EpochStatus) (xs : List Input) (s : S)
      → status.epoch_number ≢ n
      → catch_up beyond tx_manager contract sender config M status n xs s ≡ (ok true, s)
  unfolding catch_up
  catch_up_past status xs s past = rw (==_ne status.epoch_number n past) refl

  all_sent :
      (status : EpochStatus) (xs : List Input) (s : S)
      → status.processed_input_count ≡ length xs
      → enqueue_remaning_inputs beyond M status xs s ≡ (ok true, s)
  unfolding enqueue_remaning_inputs
  all_sent status xs s all = rw (all, ==_refl (length xs)) refl

  react_sealed_past :
      (status : EpochStatus) (xs : List Input) (about : ℕ → Effect Error (Node S T) (Unit {0}))
      (node : Node S T)
      → status.epoch_number ≢ n
      → status.processed_input_count ≡ length state.current_epoch.inputs.inputs
      → react_sealed beyond tx_manager contract sender config M state status xs about node
        ≡ about n node
  unfolding react_sealed
  react_sealed_past status xs about node past all =
      rw
        (
          next,
          catch_up_past status xs node.machine past,
          all_sent status state.current_epoch.inputs.inputs node.machine all,
        )
        refl

  -- While consensus is awaited, for a validator that has claimed, with a machine that is past the
  -- sealed epoch and has processed as many inputs as the current one has, the code panics at the
  -- final `todo!()`, with the node as it was.
  pub react_phase_own_claim :
      (phase : PhaseState) (e : EpochWithClaims) (k : ℕ) (status : EpochStatus) (node : Node S T)
      → Awaits e phase
      → get_sender_claim e.claims sender ≡ some k
      → status.epoch_number ≢ n
      → status.processed_input_count ≡ length state.current_epoch.inputs.inputs
      → react_phase beyond tx_manager contract sender config M state status phase node
        ≡ (panic todo, node)
  unfolding react_phase
  react_phase_own_claim phase e k status node (inl p) own past all =
      rw (p, react_phase)
        (react_sealed_past status e.inputs.inputs _ node past all ∙ await_own e k node own)
  react_phase_own_claim phase e k status node (inr (ts, p)) own past all =
      rw (p, react_phase)
        (react_sealed_past status e.inputs.inputs _ node past all ∙ await_own e k node own)

  module _ (e : AccumulatingEpoch) (status : EpochStatus) (on_sealed : status.epoch_number ≡ n)
      (all : status.processed_input_count ≡ length e.inputs.inputs) where
    caught_up :
        (s finished : S)
        → M.finish_epoch n (length e.inputs.inputs) s ≡ (ok tt, finished)
        → catch_up beyond tx_manager contract sender config M status n e.inputs.inputs s
          ≡ (ok true, finished)
    unfolding catch_up update_sealed_epoch
    caught_up s finished done =
        rw
          (
            (==_iff status.epoch_number n).1 on_sealed,
            all_sent status e.inputs.inputs s all,
            on_sealed,
            all,
            done,
          )
          refl

    remaining :
        (rest : List Input) (s : S)
        → status.pending_input_count ≡ 0
        → length e.inputs.inputs < u64_mod
        → length e.inputs.inputs ≢ length state.current_epoch.inputs.inputs
        → slice_from beyond state.current_epoch.inputs.inputs (length e.inputs.inputs) ≡ ok rest
        → enqueue_remaning_inputs beyond M status state.current_epoch.inputs.inputs s
          ≡ (M.enqueue_inputs n (length e.inputs.inputs) rest >>= λ _. pure false) s
    unfolding enqueue_remaning_inputs
    remaining rest s pending small other slice =
        rw
          (
            on_sealed,
            all,
            pending,
            ==_ne (length e.inputs.inputs) (length state.current_epoch.inputs.inputs) other,
            count,
            slice,
          )
          refl
      where
        count : (length e.inputs.inputs + 0) % u64_mod ≡ length e.inputs.inputs
        count = omega arith

    -- When the machine is on the sealed epoch with all its inputs processed and none pending, the
    -- current epoch has another number of inputs, the call that finishes the sealed epoch succeeds
    -- and the slice taken is in range, `react` finishes the sealed epoch, then sends inputs of the
    -- current epoch under the number of the sealed one, leaving out as many as that one had, and
    -- then makes its claim.
    pub react_phase_stale_status :
        (node : Node S T) (finished : S) (rest : List Input)
        → status.pending_input_count ≡ 0
        → length e.inputs.inputs < u64_mod
        → length e.inputs.inputs ≢ length state.current_epoch.inputs.inputs
        → M.finish_epoch n (length e.inputs.inputs) node.machine ≡ (ok tt, finished)
        → slice_from beyond state.current_epoch.inputs.inputs (length e.inputs.inputs) ≡ ok rest
        → react_phase beyond tx_manager contract sender config M state status
            (epoch_sealed_awaiting_first_claim e)
            node
          ≡ (on_machine (M.enqueue_inputs n (length e.inputs.inputs) rest) >>= λ _.
                make_claim beyond tx_manager contract sender config M n)
              (record { machine = finished; transactions = node.transactions })
    unfolding react_phase react_sealed
    react_phase_stale_status node finished rest pending small other done slice =
        rw
          (
            next,
            caught_up node.machine finished done,
            remaining rest finished pending small other slice,
          )
          (go (M.enqueue_inputs n (length e.inputs.inputs) rest finished))
      where
        go :
            (r : Outcome Error (Unit {0}) × S)
            → after
                (
                  (after r (λ _. pure {E = Error} {S = S} false)).0,
                  record {
                    machine = (after r (λ _. pure {E = Error} {S = S} false)).1;
                    transactions = node.transactions;
                  },
                )
                (λ _. make_claim beyond tx_manager contract sender config M n)
              ≡ after
                  (r.0, record { machine = r.1; transactions = node.transactions })
                  (λ _. make_claim beyond tx_manager contract sender config M n)
        go (ok _, s) = refl
        go (err x, s) = refl
        go (panic p, s) = refl
