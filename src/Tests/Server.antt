-- ===== src/Tests/Server.antt =====
-- A server that keeps the inputs that it is sent, behind `MachineManager`.
use descartes_v.Base.{
  ℕ, zero, suc, ◌+◌, ◌≡◌, refl, sym, ap, true, Option, none, some, List, [], ◌∷◌, ◌++◌, length,
  arith, ==_refl, ◌==◌, if◌then◌else◌,
}
use mathlib.Core.Path.{subst}
use descartes_v.Outcome.{ok, ok-injective, add_u256, as_u64}
use descartes_v.Fold.Types.{Input}
use descartes_v.Fold.Types.Metadata.{Token, address, uint, get_metadata}
use descartes_v.Machine.{Error}
use descartes_v.Machine.RollupMm.{
  Client, MachineManager, GetSessionStatusResponse, GetEpochStatusResponse, machine_manager,
}
use descartes_v.Machine.RollupMm.Keeps.{Keeps}
use descartes_v.Machine.RollupMm.{
  get_current_epoch_status, enqueue_inputs, enqueue_from, from_response,
}
use descartes_v.Machine.RollupMm.Keeps.{machine_manager-Receives}
use descartes_v.Logic.{
  enqueue_inputs_of_finalized_epochs, finalized_round, enqueue_remaning_inputs, slice_from,
}
use descartes_v.Logic.React.{react, react_from, react_phase}
use descartes_v.Logic.MainLoop.{receive_loop, react_to_block}
use descartes_v.Logic.MainLoop.Delivery.{Growing, grow, stay}
use descartes_v.Fold.Finalized.{next_epoch}
use descartes_v.Tests.World.{block_1}
use descartes_v.Logic.MainLoop.Server.{receive_loop-machine_manager}
use descartes_v.Tests.Node.{beyond, manager, config, input_of, next_0}
use descartes_v.Tests.Delivery.{Kept, taking, inputs_at, states, messages, empty}

abbrev zeros : ℕ → List ℕ
zeros zero = []
zeros (suc n) = 0 ∷ zeros n

-- The sender and the timestamp come first.
abbrev encode : List Token → List ℕ
encode (address a ∷ uint t ∷ []) = a ∷ t ∷ zeros 62
encode _ = []

abbrev first : List ℕ → ℕ
first [] = 0
first (x ∷ _) = x

abbrev second : List ℕ → ℕ
second (_ ∷ y ∷ _) = y
second _ = 0

abbrev decode : (metadata payload : List ℕ) → Input
decode metadata payload = record {
  sender = first metadata;
  timestamp = second metadata;
  payload = payload;
}

abbrev server : Client Kept
server = record {
  get_session_status = λ _ s. (some (record { active_epoch_index = 0 }), s);
  get_epoch_status = λ request s. (
    some (record {
      epoch_index = request.epoch_index;
      processed_inputs = [];
      pending_input_count = length (s request.epoch_index);
      state = 0;
      most_recent_outputs_epoch_root_hash = none;
      most_recent_messages_epoch_root_hash = none;
      most_recent_machine_hash = none;
    }),
    s,
  );
  enqueue_input = λ request s. (
    true,
    λ n.
        if n == request.active_epoch_index
        then s n ++ decode request.input_metadata request.input_payload ∷ []
        else s n,
  );
  finish_epoch = λ _ s. (true, s);
}

abbrev mm : MachineManager
mm = record { session_id = "node"; storage_directory = "" }

decoded :
    (input : Input) (metadata : List ℕ)
    → get_metadata encode {E = Error} input ≡ ok metadata
    → decode metadata input.payload ≡ input
unfolding get_metadata
decoded input metadata e = ap (λ l. decode l input.payload) (sym (ok-injective e))

abbrev SessionIs0 : Option GetSessionStatusResponse → Type 0
SessionIs0 none = Unit
SessionIs0 (some r) = r.active_epoch_index ≡ 0

abbrev Counts : Kept → ℕ → Option GetEpochStatusResponse → Type 0
Counts s e none = Unit
Counts s e (some r) =
    (r.epoch_index ≡ e) × (length r.processed_inputs + r.pending_input_count ≡ length (s e))

server-Keeps : Keeps server encode mm
server-Keeps = record {
  kept = λ s e. s e;
  active = λ s. 0;
  taken = λ epoch index metadata input s made _.
      rw (==_refl epoch) (ap (λ i. s epoch ++ i ∷ []) (decoded input metadata made));
  taken_active = λ epoch index metadata input s _. refl;
  session = λ s r got. subst SessionIs0 got refl;
  session_asked = λ s. refl;
  epoch = λ s e r got. subst (Counts s e) got (refl, omega arith);
  epoch_asked = λ s e. refl;
}

abbrev keccak256 : List ℕ → ℕ
keccak256 = length

growing :
    Growing beyond manager 100 9 config
      (machine_manager server encode keccak256 mm)
      (machine_manager-Receives server encode keccak256 mm server-Keeps)
      states
      0
      3
      0
      []
      messages
      (inputs_at 12)
growing =
    grow (input_of 1 ∷ []) (record { block = block_1; state = taking (inputs_at 11) }) refl refl
      (omega arith) (refl, next_0, refl)
      (grow (input_of 2 ∷ input_of 3 ∷ [])
        (record { block = block_1; state = taking (inputs_at 12) }) refl refl (omega arith)
        (refl, next_0, refl) stay)

run_ends :
    (receive_loop beyond manager 100 9 config
      (machine_manager server encode keccak256 mm)
      states
      0
      4
      messages
      empty).0
    ≡ ok (some tt)
unfolding receive_loop react_to_block react react_from react_phase
    enqueue_inputs_of_finalized_epochs finalized_round next_epoch add_u256 enqueue_remaning_inputs
    slice_from machine_manager get_current_epoch_status enqueue_inputs enqueue_from get_metadata
    as_u64 from_response
run_ends = refl

keeps_nothing : server-Keeps.active empty.machine ≡ 0 × (server-Keeps.kept empty.machine 0 ≡ [])
unfolding server-Keeps
keeps_nothing = (refl, refl)

receive_loop-machine_manager_example :
    (server-Keeps.active
        (receive_loop beyond manager 100 9 config
          (machine_manager server encode keccak256 mm)
          states
          0
          4
          messages
          empty).1.machine
      ≡ 0)
    × (server-Keeps.kept
          (receive_loop beyond manager 100 9 config
            (machine_manager server encode keccak256 mm)
            states
            0
            4
            messages
            empty).1.machine
          0
        ≡ inputs_at 12)
receive_loop-machine_manager_example =
    receive_loop-machine_manager beyond manager 100 9 config server encode keccak256 mm server-Keeps
      states 0 3 0 empty growing keeps_nothing.0 keeps_nothing.1 run_ends
