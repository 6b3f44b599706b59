-- ===== src/Tests/Node.antt =====
-- The node over a machine whose state is the number of its epoch, with a transaction manager that
-- keeps the transactions sent.
use descartes_v.Base.{
  ℕ, ◌+◌, ◌<◌, ◌≡◌, ◌≢◌, refl, ◌⊎◌, inl, true, none, some, List, [], ◌∷◌, length, ◌++◌, ltb, arith,
}
use mathlib.Core.Path.{subst}
use descartes_v.Outcome.{Outcome, assertion, expect, ok, panic, index, todo, add_u256}
use descartes_v.Effect.{◌>>=◌}
use descartes_v.Fold.Types.{
  Input, AccumulatingEpoch, EpochWithClaims, DescartesV2State, PhaseState,
  epoch_sealed_awaiting_first_claim, awaiting_consensus_no_conflict, consensus_timeout,
}
use descartes_v.Fold.Types.Metadata.{Token}
use descartes_v.Fold.Claims.{get_sender_claim}
use descartes_v.Fold.Finalized.{next_epoch}
use descartes_v.HashMap.{contains}
use descartes_v.Machine.{Error, EpochStatus, MachineInterface}
use descartes_v.Machine.RollupMm.{
  GetEpochStatusResponse, Client, MachineManager, enqueue_inputs, claim_of_response,
}
use descartes_v.Machine.RollupMm.Laws.{
  requests, send_all, enqueue_inputs-eq-send_all, claim_of_response_cases,
}
use descartes_v.Logic.{
  Node, Call, Label, TxConfig, TransactionManager, slice_from, enqueue_inputs_of_finalized_epochs,
}
use descartes_v.Logic.Progress.{Advances, enqueue_inputs_of_finalized_epochs_ends}
use descartes_v.Logic.React.{on_machine, make_claim, react_phase, react}
use descartes_v.Logic.React.Transactions.{TransactionStep, react-TransactionStep}
use descartes_v.Logic.React.MachineCalls.{MachineCalls}
use descartes_v.Logic.React.MachineUse.{react-MachineCalls}
use descartes_v.Logic.React.Findings.{react_phase_own_claim, react_phase_stale_status}
use descartes_v.Tests.World.{no_epochs, inputs_of}
use descartes_v.Tests.Epochs.{constants}

abbrev pub beyond : List Input → ℕ → Outcome Error (List Input)
beyond _ _ = panic index

abbrev pub status_of : ℕ → EpochStatus
status_of n = record {
  epoch_number = n;
  processed_input_count = 0;
  pending_input_count = 0;
  is_active = true;
}

abbrev pub machine : MachineInterface ℕ
machine = record {
  get_current_epoch_status = λ s. (ok (status_of s), s);
  enqueue_inputs = λ _ _ _ s. (ok tt, s);
  finish_epoch = λ e _ s. (ok tt, e + 1);
  get_epoch_claim = λ e s. (ok 70, s);
}

pub machine-Advances : Advances machine
machine-Advances = record { later = λ e n s status _ reported. later_of e status reported }
  where
    later_of :
        (e : ℕ) (status : EpochStatus)
        → ◌≡◌ {A = Outcome Error EpochStatus} (ok (status_of (e + 1))) (ok status)
        → e < status.epoch_number
    later_of e status reported =
        let same : status_of (e + 1) ≡ status = cc in
        subst (λ st. e < st.epoch_number) same (omega arith)

abbrev pub manager : TransactionManager ℕ (List (Label × Call))
manager = record { send_transaction = λ label call _ _ _ _ sent. (true, (label, call) ∷ sent) }

abbrev pub config : TxConfig ℕ
config = record { gas_multiplier = none; gas_price_multiplier = none; rate = 50; confirmations = 7 }

abbrev pub input_of : ℕ → Input
input_of n = record { sender = n; timestamp = n; payload = n ∷ [] }

abbrev pub state_in : PhaseState → DescartesV2State
state_in phase = record {
  constants = constants;
  initial_epoch = 0;
  finalized_epochs = no_epochs;
  current_epoch = record {
    epoch_number = 1;
    inputs = record { epoch_number = 1; inputs = input_of 1 ∷ input_of 2 ∷ input_of 3 ∷ [] };
  };
  current_phase = phase;
}

abbrev pub claimed : EpochWithClaims
claimed = record {
  epoch_number = 0;
  claims = record { claims = (70, 9 ∷ []) ∷ []; first_claim_timestamp = 1500 };
  inputs = inputs_of 0;
}

abbrev pub node_at : ℕ → Node ℕ (List (Label × Call))
node_at s = record { machine = s; transactions = [] }

pub next_0 : next_epoch {E = Error} no_epochs ≡ ok 0
unfolding next_epoch add_u256
next_0 = refl

enqueue_inputs_of_finalized_epochs_ends_example :
    (enqueue_inputs_of_finalized_epochs beyond machine 3
      (state_in PhaseState.input_accumulation)
      (status_of 0)
      0).0
    ≢ ok none
enqueue_inputs_of_finalized_epochs_ends_example =
    enqueue_inputs_of_finalized_epochs_ends beyond machine machine-Advances
      (state_in PhaseState.input_accumulation) 0 next_0 3 (status_of 0) 0 (omega arith)

-- The challenge period is over, and the sender 9 has claimed.
react-TransactionStep_example :
    TransactionStep beyond manager 100 9 config machine
      (consensus_timeout claimed)
      0
      []
      (react beyond manager 100 9 config machine 3
        (state_in (consensus_timeout claimed))
        (node_at 0)).1.transactions
react-TransactionStep_example =
    react-TransactionStep beyond manager 100 9 config machine 3
      (state_in (consensus_timeout claimed)) 0 (node_at 0) next_0

react-MachineCalls_example :
    MachineCalls beyond machine
      (state_in (consensus_timeout claimed))
      0
      (react beyond manager 100 9 config machine 3
        (state_in (consensus_timeout claimed))
        (node_at 0)).1.machine
react-MachineCalls_example =
    react-MachineCalls beyond manager 100 9 config machine (state_in (consensus_timeout claimed)) 3
      (node_at 0)

pub own : get_sender_claim claimed.claims 9 ≡ some 70
unfolding get_sender_claim contains
own = refl

abbrev done_with_1 : EpochStatus
done_with_1 = record {
  epoch_number = 1;
  processed_input_count = 3;
  pending_input_count = 0;
  is_active = true;
}

react_phase_own_claim_example :
    react_phase beyond manager 100 9 config machine
      (state_in (awaiting_consensus_no_conflict claimed))
      done_with_1
      (awaiting_consensus_no_conflict claimed)
      (node_at 1)
    ≡ (panic todo, node_at 1)
react_phase_own_claim_example =
    react_phase_own_claim beyond manager 100 9 config machine
      (state_in (awaiting_consensus_no_conflict claimed)) 0 next_0
      (awaiting_consensus_no_conflict claimed) claimed 70 done_with_1 (node_at 1) (inl refl) own
      (λ e. omega (arith, e)) refl

abbrev pub sealed : AccumulatingEpoch
sealed = record { epoch_number = 0; inputs = record { epoch_number = 0; inputs = input_of 4 ∷ [] } }

abbrev done_with_0 : EpochStatus
done_with_0 = record {
  epoch_number = 0;
  processed_input_count = 1;
  pending_input_count = 0;
  is_active = true;
}

react_phase_stale_status_example :
    react_phase beyond manager 100 9 config machine
      (state_in (epoch_sealed_awaiting_first_claim sealed))
      done_with_0
      (epoch_sealed_awaiting_first_claim sealed)
      (node_at 0)
    ≡ (on_machine (machine.enqueue_inputs 0 1 (input_of 2 ∷ input_of 3 ∷ [])) >>= λ _.
          make_claim beyond manager 100 9 config machine 0)
        (node_at 1)
unfolding slice_from
react_phase_stale_status_example =
    react_phase_stale_status beyond manager 100 9 config machine
      (state_in (epoch_sealed_awaiting_first_claim sealed)) 0 next_0 sealed done_with_0 refl refl
      (node_at 0) 1 (input_of 2 ∷ input_of 3 ∷ []) refl (omega arith) (λ e. omega (arith, e)) refl
      refl

abbrev zeros_32 : List ℕ
zeros_32 =
    0 ∷ 0 ∷ 0 ∷ 0 ∷ 0 ∷ 0 ∷ 0 ∷ 0 ∷ 0 ∷ 0 ∷ 0 ∷ 0 ∷ 0 ∷ 0 ∷ 0 ∷ 0 ∷ 0 ∷ 0 ∷ 0 ∷ 0 ∷ 0 ∷ 0 ∷ 0 ∷ 0
    ∷ 0 ∷ 0 ∷ 0 ∷ 0 ∷ 0 ∷ 0 ∷ 0 ∷ 0 ∷ []

abbrev response : GetEpochStatusResponse
response = record {
  epoch_index = 0;
  processed_inputs = [];
  pending_input_count = 0;
  state = 0;
  most_recent_outputs_epoch_root_hash = some zeros_32;
  most_recent_messages_epoch_root_hash = some zeros_32;
  most_recent_machine_hash = some zeros_32;
}

-- A client that counts the inputs and refuses the third.
abbrev client : Client ℕ
client = record {
  get_session_status = λ _ s. (some (record { active_epoch_index = 0 }), s);
  get_epoch_status = λ _ s. (some response, s);
  enqueue_input = λ _ s. (ltb s 2, s + 1);
  finish_epoch = λ _ s. (true, s);
}

abbrev encode : List Token → List ℕ
encode _ = zeros_32 ++ zeros_32

abbrev mm : MachineManager
mm = record { session_id = "test"; storage_directory = "" }

enqueue_inputs-eq-send_all_example :
    enqueue_inputs client encode length mm 0 5 (input_of 1 ∷ input_of 2 ∷ input_of 3 ∷ []) 0
    ≡ send_all client (requests encode mm 0 5 (input_of 1 ∷ input_of 2 ∷ input_of 3 ∷ [])) 0
enqueue_inputs-eq-send_all_example =
    enqueue_inputs-eq-send_all client encode mm (λ _ _. refl) length 0 5
      (input_of 1 ∷ input_of 2 ∷ input_of 3 ∷ []) 0 (omega arith) (omega arith)

claim_of_response_cases_example :
    ((o g h : List ℕ) × (some zeros_32 ≡ some o)
      × (some zeros_32 ≡ some g)
      × (some zeros_32 ≡ some h)
      × (((length o ≡ 32)
            × (length g ≡ 32)
            × (length h ≡ 32)
            × (claim_of_response client encode length mm response 0
                ≡ (ok (length (o ++ (g ++ h))), 0)))
          ⊎ ((¬ ((length o ≡ 32) × (length g ≡ 32) × (length h ≡ 32)))
              × (claim_of_response client encode length mm response 0 ≡ (panic assertion, 0)))))
    ⊎ (((some zeros_32 ≡ none) ⊎ (some zeros_32 ≡ none) ⊎ (some zeros_32 ≡ none))
        × (claim_of_response client encode length mm response 0 ≡ (panic expect, 0)))
claim_of_response_cases_example = claim_of_response_cases client encode length mm response 0
