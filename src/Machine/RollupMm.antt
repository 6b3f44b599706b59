-- ===== src/Machine/RollupMm.antt =====
-- `MachineManager` (offchain/src/machine/rollup_mm.rs): the machine interface over the remote
-- procedure calls of a rollup machine manager. The client that the build generates from the
-- protocol files is a parameter, with keccak256 and the ABI encoder.
pub mod Laws
pub mod Session
pub mod Keeps
use descartes_v.Base.{
  ℕ, ◌+◌, String, Bool, true, false, Option, none, some, List, [], ◌∷◌, ◌++◌, length, ◌==◌,
  if◌then◌else◌,
}
use descartes_v.Outcome.{Outcome, ok, err, as_u64, u64_mod, assert, unwrap}
use descartes_v.Effect.{Effect, pure, lift, after, ◌>>=◌, ◌>>◌}
use descartes_v.Fold.Types.{Input}
use descartes_v.Fold.Types.Metadata.{Token, get_metadata}
use descartes_v.Machine.{
  Error, tonic_status_error, tonic_transport_error, EpochStatus, MachineInterface,
}
use Prim.Native.Nat.{◌%◌}

pub record GetSessionStatusRequest : Type 0 where
  pub session_id : String

pub record GetSessionStatusResponse : Type 0 where
  pub active_epoch_index : ℕ

pub record GetEpochStatusRequest : Type 0 where
  pub session_id : String
  pub epoch_index : ℕ

-- Of the processed inputs only the number is read. Hashes are lists of bytes.
pub record GetEpochStatusResponse : Type 0 where
  pub epoch_index : ℕ
  pub processed_inputs : List ℕ
  pub pending_input_count : ℕ
  pub state : ℕ
  pub most_recent_outputs_epoch_root_hash : Option (List ℕ)
  pub most_recent_messages_epoch_root_hash : Option (List ℕ)
  pub most_recent_machine_hash : Option (List ℕ)

pub record EnqueueInputRequest : Type 0 where
  pub session_id : String
  pub active_epoch_index : ℕ
  pub current_input_index : ℕ
  pub input_metadata : List ℕ
  pub input_payload : List ℕ

pub record FinishEpochRequest : Type 0 where
  pub session_id : String
  pub active_epoch_index : ℕ
  pub processed_input_count : ℕ
  pub storage_directory : String

-- `RollupMachineManagerClient`: a call answers, or fails with a status, which is `none`.
pub record Client (S : Type 0) : Type 0 where
  pub get_session_status : GetSessionStatusRequest → S → Option GetSessionStatusResponse × S
  pub get_epoch_status : GetEpochStatusRequest → S → Option GetEpochStatusResponse × S
  pub enqueue_input : EnqueueInputRequest → S → Bool × S
  pub finish_epoch : FinishEpochRequest → S → Bool × S

pub record MachineManager : Type 0 where
  pub session_id : String
  pub storage_directory : String

-- `impl From<GetEpochStatusResponse> for EpochStatus`
unfoldable pub from_response : GetEpochStatusResponse → EpochStatus
from_response r = record {
  epoch_number = r.epoch_index;
  processed_input_count = length r.processed_inputs;
  pending_input_count = r.pending_input_count;
  is_active = r.state == 0;
}

-- `.await.context(TonicStatusError)?`
abbrev pub answer : {S A : Type 0} → (S → Option A × S) → Effect Error S A
answer call s =
    let (r, s') = call s in elim r [ none ↦ (err tonic_status_error, s') | some a ↦ (ok a, s') ]

abbrev pub accepted : {S : Type 0} → (S → Bool × S) → Effect Error S (Unit {0})
accepted call s =
    let (r, s') = call s in elim r [ true ↦ (ok tt, s') | false ↦ (err tonic_status_error, s') ]

unfoldable pub compute_claim_hash :
    (keccak256 : List ℕ → ℕ)
    → (machine_state_hash outputs_metadata_hash messages_metadata_hash : List ℕ) → ℕ
compute_claim_hash keccak256 machine_state_hash outputs_metadata_hash messages_metadata_hash =
    keccak256 (machine_state_hash ++ (outputs_metadata_hash ++ messages_metadata_hash))

module _ {S : Type 0} (client : Client S) (encode : List Token → List ℕ) (keccak256 : List ℕ → ℕ)
    (m : MachineManager) where
  unfoldable pub get_current_epoch_status : Effect Error S EpochStatus
  get_current_epoch_status = do
    session ← answer (client.get_session_status (record { session_id = m.session_id }))
    response ← answer (
        client.get_epoch_status
          (record { session_id = m.session_id; epoch_index = session.active_epoch_index }))
    pure (from_response response)

  -- The loop of `enqueue_inputs` from the `i`-th input on. The sum of the indices is one of
  -- `u64`, which wraps in a release build.
  unfoldable pub enqueue_from :
      (epoch_number first_input_index i : ℕ) → List Input → Effect Error S (Unit {0})
  enqueue_from epoch_number first_input_index i [] = pure tt
  enqueue_from epoch_number first_input_index i (input ∷ inputs) = do
    epoch ← lift (as_u64 epoch_number)
    first ← lift (as_u64 first_input_index)
    metadata ← lift (get_metadata encode input)
    accepted (
        client.enqueue_input (record {
          session_id = m.session_id;
          active_epoch_index = epoch;
          current_input_index = (first + i) % u64_mod;
          input_metadata = metadata;
          input_payload = input.payload;
        }))
    enqueue_from epoch_number first_input_index (i + 1) inputs

  unfoldable pub enqueue_inputs :
      (epoch_number first_input_index : ℕ) → List Input → Effect Error S (Unit {0})
  enqueue_inputs epoch_number first_input_index inputs =
      enqueue_from epoch_number first_input_index 0 inputs

  unfoldable pub finish_epoch : (epoch_number input_count : ℕ) → Effect Error S (Unit {0})
  finish_epoch epoch_number input_count = do
    epoch ← lift (as_u64 epoch_number)
    count ← lift (as_u64 input_count)
    accepted (
        client.finish_epoch (record {
          session_id = m.session_id;
          active_epoch_index = epoch;
          processed_input_count = count;
          storage_directory = m.storage_directory;
        }))

  -- The part of `get_epoch_claim` that follows the answer.
  unfoldable pub claim_of_response : GetEpochStatusResponse → Effect Error S ℕ
  claim_of_response r = do
    outputs_metadata_hash ← lift (unwrap r.most_recent_outputs_epoch_root_hash)
    messages_metadata_hash ← lift (unwrap r.most_recent_messages_epoch_root_hash)
    machine_state_hash ← lift (unwrap r.most_recent_machine_hash)
    lift (assert (length outputs_metadata_hash == 32))
    lift (assert (length messages_metadata_hash == 32))
    lift (assert (length machine_state_hash == 32))
    pure (
        compute_claim_hash keccak256 outputs_metadata_hash messages_metadata_hash
          machine_state_hash)

  unfoldable pub get_epoch_claim : (epoch_number : ℕ) → Effect Error S ℕ
  get_epoch_claim epoch_number = do
    epoch ← lift (as_u64 epoch_number)
    response ←
        answer (client.get_epoch_status (record { session_id = m.session_id; epoch_index = epoch }))
    claim_of_response response

  -- `impl MachineInterface for MachineManager`
  unfoldable pub machine_manager : MachineInterface S
  machine_manager = record {
    get_current_epoch_status = get_current_epoch_status;
    enqueue_inputs = enqueue_inputs;
    finish_epoch = finish_epoch;
    get_epoch_claim = get_epoch_claim;
  }
