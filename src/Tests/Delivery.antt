-- ===== src/Tests/Delivery.antt =====
-- A machine that keeps the inputs of each epoch, over two blocks of an epoch that takes inputs.
use descartes_v.Base.{
  ℕ, ◌+◌, ◌≡◌, refl, true, some, List, [], ◌∷◌, ◌++◌, length, arith, ==_refl, ◌==◌, if◌then◌else◌,
}
use mathlib.Core.Path.{subst}
use descartes_v.Outcome.{ok, ok-injective}
use descartes_v.Fold.Types.{Input, DescartesV2State, input_accumulation}
use descartes_v.Fold.Access.{StateFold}
use descartes_v.Machine.{EpochStatus, MachineInterface}
use descartes_v.Logic.{Node, Call, Label}
use descartes_v.Logic.Instances.{Message, new_block}
use descartes_v.Logic.React.Liveness.{Serves}
use descartes_v.Logic.React.Delivery.{Receives, Reports, Has}
use descartes_v.Logic.MainLoop.{receive_loop}
use descartes_v.Logic.MainLoop.Delivery.{Growing, stay, grow, receive_loop-Has, receive_loop_served}
use descartes_v.Tests.World.{block_1, block_2, no_epochs}
use descartes_v.Tests.Epochs.{constants}
use descartes_v.Tests.Node.{beyond, manager, config, input_of, next_0}

abbrev pub Kept : Type 0
Kept = ℕ → List Input

abbrev status_of : Kept → EpochStatus
status_of s = record {
  epoch_number = 0;
  processed_input_count = 0;
  pending_input_count = length (s 0);
  is_active = true;
}

abbrev keeper : MachineInterface Kept
keeper = record {
  get_current_epoch_status = λ s. (ok (status_of s), s);
  enqueue_inputs = λ e _ inputs s. (ok tt, λ n. if n == e then s n ++ inputs else s n);
  finish_epoch = λ _ _ s. (ok tt, s);
  get_epoch_claim = λ _ s. (ok 70, s);
}

keeper-Receives : Receives keeper
keeper-Receives = record {
  received = λ s e. s e;
  enqueued = λ e k inputs s _. rw (==_refl e) refl;
  counted = λ s status e.
      subst
        (λ (st : EpochStatus).
          st.processed_input_count + st.pending_input_count ≡ length (s st.epoch_number))
        (ok-injective e) (omega arith);
  asked = λ s e. refl;
  current = λ s. 0;
  reported = λ s status e. subst (λ (st : EpochStatus). st.epoch_number ≡ 0) (ok-injective e) refl;
  enqueue_stays = λ e k inputs s _. refl;
  asked_stays = λ s. refl;
}

keeper-Serves : Serves keeper
keeper-Serves = record { enqueue_served = λ e k inputs s. refl; claim_served = λ n s. (70, refl) }

keeper-Reports : Reports keeper
keeper-Reports = record { answered = λ s. (status_of s, refl) }

abbrev pub taking : List Input → DescartesV2State
taking inputs = record {
  constants = constants;
  initial_epoch = 0;
  finalized_epochs = no_epochs;
  current_epoch = record {
    epoch_number = 0;
    inputs = record { epoch_number = 0; inputs = inputs };
  };
  current_phase = input_accumulation;
}

-- The second block adds two inputs.
abbrev pub inputs_at : ℕ → List Input
inputs_at hash = if hash == 11 then input_of 1 ∷ [] else input_of 1 ∷ input_of 2 ∷ input_of 3 ∷ []

abbrev pub states : StateFold DescartesV2State
states _ hash = ok (record { block = block_1; state = taking (inputs_at hash) })

abbrev pub messages : List Message
messages = new_block block_1 ∷ new_block block_2 ∷ []

abbrev pub empty : Node Kept (List (Label × Call))
empty = record { machine = λ _. []; transactions = [] }

growing :
    Growing beyond manager 100 9 config keeper keeper-Receives states 0 3 0 [] messages
      (inputs_at 12)
growing =
    grow (input_of 1 ∷ []) (record { block = block_1; state = taking (inputs_at 11) }) refl refl
      (omega arith) (refl, next_0, refl)
      (grow (input_of 2 ∷ input_of 3 ∷ [])
        (record { block = block_1; state = taking (inputs_at 12) }) refl refl (omega arith)
        (refl, next_0, refl) stay)

starts : Has keeper keeper-Receives empty.machine 0 []
unfolding keeper-Receives
starts = (refl, refl)

receive_loop_served_example :
    ((receive_loop beyond manager 100 9 config keeper states 0 4 messages empty).0 ≡ ok (some tt))
    × Has keeper keeper-Receives
        (receive_loop beyond manager 100 9 config keeper states 0 4 messages empty).1.machine
        0
        (inputs_at 12)
receive_loop_served_example =
    receive_loop_served beyond manager 100 9 config keeper keeper-Receives states 0 3 0 empty
      keeper-Serves keeper-Reports growing starts

run_ends :
    (receive_loop beyond manager 100 9 config keeper states 0 4 messages empty).0 ≡ ok (some tt)
run_ends =
    (receive_loop_served beyond manager 100 9 config keeper keeper-Receives states 0 3 0 empty
      keeper-Serves keeper-Reports growing starts).0

receive_loop-Has_example :
    Has keeper keeper-Receives
      (receive_loop beyond manager 100 9 config keeper states 0 4 messages empty).1.machine
      0
      (inputs_at 12)
receive_loop-Has_example =
    receive_loop-Has beyond manager 100 9 config keeper keeper-Receives states 0 3 0 empty growing
      starts run_ends
