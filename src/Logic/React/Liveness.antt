-- ===== src/Logic/React/Liveness.antt =====
-- What `react` gets done (offchain/src/logic/descartes_logic.rs): on a machine that answers and
-- has gone on to the accumulating epoch, the claim and the finalization are sent when they are due.
use Prim.Native.Nat.{◌%◌}
use descartes_v.Base.{
  ℕ, suc, ap, drop, ◌+◌, ◌≤◌, ◌<◌, ◌≡◌, refl, ◌∙◌, Bool, true, false, Bool-cases, inl, inr, some,
  List, arith, length, leb, ◌==◌,
}
use native.Mathlib.Nat.{mod-eq_of_lt}
use descartes_v.Outcome.{Outcome, ok, u64_mod}
use descartes_v.Effect.{Effect, pure, ◌>>◌, >>=-ok}
use descartes_v.Fold.Types.{
  Input, DescartesV2State, PhaseState, input_accumulation, epoch_sealed_awaiting_first_claim,
  awaiting_consensus_no_conflict, awaiting_consensus_after_conflict, consensus_timeout,
  awaiting_dispute,
}
use descartes_v.Fold.Finalized.{next_epoch}
use descartes_v.Machine.{Error, EpochStatus, MachineInterface}
use descartes_v.Logic.{
  Node, Call, claim, Label, claim_for_epoch, TxConfig, TransactionManager, slice_from,
  enqueue_remaning_inputs, finalized_round, enqueue_inputs_of_finalized_epochs,
}
use descartes_v.Logic.React.{
  on_machine, send, send_claim_tx, send_finalize_tx, catch_up, react_sealed, make_claim,
  await_consensus, after_timeout, react_phase, react_from, react,
}
use descartes_v.Logic.React.Transactions.{MayClaim, MayFinalize}

-- The machine answers the calls that `react` makes once the machine is past the sealed epoch.
pub record Serves {S : Type 0} (M : MachineInterface S) : Type 0 where
  pub enqueue_served :
      (e k : ℕ) (inputs : List Input) (s : S) → (M.enqueue_inputs e k inputs s).0 ≡ ok tt
  pub claim_served : (n : ℕ) (s : S) → (hash : ℕ) × ((M.get_epoch_claim n s).0 ≡ ok hash)

-- The inputs that the machine has are among those of the epoch.
abbrev pub Within : EpochStatus → List Input → Type 0
Within status inputs =
    (status.processed_input_count + status.pending_input_count ≤ length inputs)
    × (length inputs < u64_mod)

module _ {S : Type 0} (beyond : List Input → ℕ → Outcome Error (List Input))
    (M : MachineInterface S) where
  pub enqueue_remaning_inputs_served :
      Serves M
      → (status : EpochStatus) (inputs : List Input) (s : S) → Within status inputs
      → (all : Bool) × ((enqueue_remaning_inputs beyond M status inputs s).0 ≡ ok all)
  unfolding enqueue_remaning_inputs slice_from
  enqueue_remaning_inputs_served serves status inputs s (fits, small) =
      elim (Bool-cases (status.processed_input_count == length inputs)) [
        | inl every ↦ (true, rw every refl)
        | inr some_left ↦
            let count = status.processed_input_count + status.pending_input_count in
            let no_wrap : count % u64_mod ≡ count = mod-eq_of_lt (omega arith) in
            let in_range : leb count (length inputs) ≡ true = ground arith in
            (
              false,
              rw (some_left, no_wrap, in_range)
                  (ap (λ ended. ended.0)
                    (>>=-ok (M.enqueue_inputs status.epoch_number count (drop count inputs)) _ s
                      (serves.enqueue_served _ _ _ s))),
            )
      ]

  -- A machine past the finalized epochs is sent none of their inputs.
  pub caught_up :
      (fuel : ℕ) (state : DescartesV2State) (status : EpochStatus) (n : ℕ) (s : S)
      → next_epoch {E = Error} state.finalized_epochs ≡ ok n
      → n ≤ status.epoch_number
      → enqueue_inputs_of_finalized_epochs beyond M (suc fuel) state status s
        ≡ (ok (some (true, status)), s)
  unfolding enqueue_inputs_of_finalized_epochs finalized_round
  caught_up fuel state status n s known le =
      let behind : leb n status.epoch_number ≡ true = ground arith in rw (known, behind) refl

module _ {F S T : Type 0} (beyond : List Input → ℕ → Outcome Error (List Input))
    (tx_manager : TransactionManager F T) (contract sender : ℕ) (config : TxConfig F)
    (M : MachineInterface S) (serves : Serves M) (state : DescartesV2State) (n : ℕ)
    (known : next_epoch {E = Error} state.finalized_epochs ≡ ok n) where
  abbrev React : Type 0
  React = Effect Error (Node S T) (Unit {0})

  -- The machine is past the sealed epoch, and has no more inputs than the accumulating epoch.
  abbrev Past : EpochStatus → Type 0
  Past status = (n < status.epoch_number) × Within status state.current_epoch.inputs.inputs

  react_sealed_reaches :
      (status : EpochStatus) (inputs : List Input) (about : ℕ → React) (node : Node S T)
      → Past status
      → (s : S) × (react_sealed beyond tx_manager contract sender config M state status inputs about
            node
          ≡ about n (record { machine = s; transactions = node.transactions }))
  unfolding react_sealed catch_up
  react_sealed_reaches status inputs about node (past, within) =
      let other : (status.epoch_number == n) ≡ false = ground arith in
      let (all, served) =
        enqueue_remaning_inputs_served beyond M serves status state.current_epoch.inputs.inputs
          node.machine within in
      (
        (enqueue_remaning_inputs beyond M status state.current_epoch.inputs.inputs node.machine).1,
        rw (known, other)
            (>>=-ok
              (on_machine
                (enqueue_remaning_inputs beyond M status state.current_epoch.inputs.inputs))
              (λ _. about n) node served),
      )

  -- The arm of a phase comes to what it does about claims.
  abbrev ArmOf : PhaseState → React → Type 0
  ArmOf phase act =
      (inputs : List Input) × (about : ℕ → React) × (about n ≡ act)
      × ((status : EpochStatus)
          → react_phase beyond tx_manager contract sender config M state status phase
            ≡ react_sealed beyond tx_manager contract sender config M state status inputs about)

  react_reaches :
      (fuel : ℕ) (node : Node S T) (status : EpochStatus) (act : React)
      → (M.get_current_epoch_status node.machine).0 ≡ ok status
      → Past status
      → ArmOf state.current_phase act
      → (s : S) × (react beyond tx_manager contract sender config M (suc fuel) state node
          ≡ (act >> pure (some tt)) (record { machine = s; transactions = node.transactions }))
  unfolding react react_from
  react_reaches fuel node status act reported (past, within) (inputs, about, is_act, arm) =
      let s0 = (M.get_current_epoch_status node.machine).1 in
      let node0 : Node S T = record { machine = s0; transactions = node.transactions } in
      let (s, e) = react_sealed_reaches status inputs about node0 (past, within) in
      (
        s,
        >>=-ok (on_machine M.get_current_epoch_status) _ node reported
            ∙ (rw
                (
                  caught_up beyond M fuel state status n s0 known (omega arith),
                  arm status,
                  e,
                  is_act,
                )
                refl),
      )

  claim_arm :
      (phase : PhaseState)
      → MayClaim sender phase
      → ArmOf phase (make_claim beyond tx_manager contract sender config M n)
  unfolding react_phase await_consensus after_timeout
  claim_arm input_accumulation may = absurd may
  claim_arm (epoch_sealed_awaiting_first_claim e) may = (e.inputs.inputs, _, refl, λ status. refl)
  claim_arm (awaiting_consensus_no_conflict e) may =
      (e.inputs.inputs, _, rw (may, await_consensus) refl, λ status. refl)
  claim_arm (awaiting_consensus_after_conflict e _) may =
      (e.inputs.inputs, _, rw (may, await_consensus) refl, λ status. refl)
  claim_arm (consensus_timeout e) may =
      (e.inputs.inputs, _, rw (may, after_timeout) refl, λ status. refl)
  claim_arm (awaiting_dispute e) may = absurd may

  finalize_arm :
      (phase : PhaseState)
      → MayFinalize sender phase
      → ArmOf phase (send_finalize_tx beyond tx_manager contract sender config n)
  unfolding react_phase after_timeout
  finalize_arm (consensus_timeout e) (k, own) =
      (e.inputs.inputs, _, rw (own, after_timeout) refl, λ status. refl)
  finalize_arm input_accumulation may = absurd may
  finalize_arm (epoch_sealed_awaiting_first_claim e) may = absurd may
  finalize_arm (awaiting_consensus_no_conflict e) may = absurd may
  finalize_arm (awaiting_consensus_after_conflict e _) may = absurd may
  finalize_arm (awaiting_dispute e) may = absurd may

  -- The transaction manager takes the call for a transaction.
  abbrev pub Accepts : Type 0
  Accepts =
      (label : Label) (call : Call) (t : T)
      → (send tx_manager contract sender config label call t).0 ≡ true

  -- The call ended well, with a claim sent.
  abbrev pub ClaimSent : {A : Type 0} → A → T → Outcome Error A × Node S T → Type 0
  ClaimSent a t ended =
      (hash : ℕ) × (s : S) × ((M.get_epoch_claim n s).0 ≡ ok hash)
      × (ended.0 ≡ ok a)
      × (ended.1.transactions
          ≡ (send tx_manager contract sender config (claim_for_epoch n) (claim hash) t).1)

  make_claim-ClaimSent :
      (node : Node S T)
      → Accepts
      → ClaimSent tt node.transactions
          (make_claim beyond tx_manager contract sender config M n node)
  unfolding make_claim send_claim_tx
  make_claim-ClaimSent node accepts =
      let (hash, got) = serves.claim_served n node.machine in
      (
        hash,
        node.machine,
        got,
        rw
            (
              >>=-ok (on_machine (M.get_epoch_claim n))
                  (λ hash. send_claim_tx beyond tx_manager contract sender config hash n) node got,
              accepts (claim_for_epoch n) (claim hash) node.transactions,
            )
            refl,
        rw
            (>>=-ok (on_machine (M.get_epoch_claim n))
              (λ hash. send_claim_tx beyond tx_manager contract sender config hash n) node got)
            refl,
      )

  -- Where the machine answers and is past the sealed epoch, the first that is not finalized, with
  -- no more inputs than the accumulating epoch has, which are fewer than 2^64, and the transaction
  -- manager takes every call, `react` with some fuel, in a phase with a sealed epoch outside a
  -- dispute for which the validator has not claimed, ends well and has sent the claim for that
  -- epoch, with the hash that the machine gives. After the challenge period it does so as well,
  -- also where that claim stands already, by another validator.
  pub react-ClaimSent :
      (fuel : ℕ) (node : Node S T) (status : EpochStatus)
      → (M.get_current_epoch_status node.machine).0 ≡ ok status
      → Past status
      → MayClaim sender state.current_phase
      → Accepts
      → ClaimSent
          (some tt)
          node.transactions
          (react beyond tx_manager contract sender config M (suc fuel) state node)
  react-ClaimSent fuel node status reported past may accepts =
      let (s, e) =
        react_reaches fuel node status _ reported past (claim_arm state.current_phase may) in
      let node' : Node S T = record { machine = s; transactions = node.transactions } in
      let (hash, s', got, done, sent) = make_claim-ClaimSent node' accepts in
      let all = e ∙ >>=-ok (make_claim beyond tx_manager contract sender config M n) _ node' done in
      (hash, s', got, rw all refl, rw all sent)

  -- Where the machine answers and is past the sealed epoch, the first that is not finalized, with
  -- no more inputs than the accumulating epoch has, which are fewer than 2^64, the transaction
  -- manager takes every call, the challenge period is over and the validator has claimed: `react`
  -- with some fuel ends well and has sent the finalization of the sealed epoch, whether or not the
  -- validator's claim is the one that the machine gives.
  pub react-finalize_epoch :
      (fuel : ℕ) (node : Node S T) (status : EpochStatus)
      → (M.get_current_epoch_status node.machine).0 ≡ ok status
      → Past status
      → MayFinalize sender state.current_phase
      → Accepts
      → ((react beyond tx_manager contract sender config M (suc fuel) state node).0 ≡ ok (some tt))
        × ((react beyond tx_manager contract sender config M (suc fuel) state node).1.transactions
            ≡ (send tx_manager contract sender config
                (Label.finalize_epoch n)
                Call.finalize_epoch
                node.transactions).1)
  unfolding send_finalize_tx
  react-finalize_epoch fuel node status reported past may accepts =
      let (s, e) =
        react_reaches fuel node status _ reported past (finalize_arm state.current_phase may) in
      let took = accepts (Label.finalize_epoch n) Call.finalize_epoch node.transactions in
      (rw (e, took) refl, rw (e, took) refl)
