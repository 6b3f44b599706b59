-- ===== src/Machine.antt =====
-- The interface to the machine manager (offchain/src/machine/mod.rs) and the errors of the node
-- (offchain/src/error.rs).
pub mod RollupMm
use descartes_v.Base.{ℕ, Bool, List}
use descartes_v.Outcome.{panic, todo}
use descartes_v.Effect.{Effect}
use descartes_v.Fold.Types.{Input}
use descartes_v.Fold.Access.{FoldError}

-- The sources that the variants carry are left out, but for the state fold's.
pub data Error : Type 0 where
  url_parse_error middleware_factory_error empty_subscription : Error
  subscriber_receive_error tonic_status_error tonic_transport_error : Error
  state_fold_error : FoldError → Error

pub record EpochStatus : Type 0 where
  pub epoch_number : ℕ
  pub processed_input_count : ℕ
  pub pending_input_count : ℕ
  pub is_active : Bool

-- The trait, over the state `S` of whatever stands behind it.
pub record MachineInterface (S : Type 0) : Type 0 where
  pub get_current_epoch_status : Effect Error S EpochStatus
  pub enqueue_inputs : (epoch_number first_input_index : ℕ) → List Input → Effect Error S (Unit {0})
  pub finish_epoch : (epoch_number input_count : ℕ) → Effect Error S (Unit {0})
  pub get_epoch_claim : (epoch_number : ℕ) → Effect Error S ℕ

-- Every method of `MockMachine` is `todo!()`.
unfoldable pub mock_machine : {S : Type 0} → MachineInterface S
mock_machine = record {
  get_current_epoch_status = λ s. (panic todo, s);
  enqueue_inputs = λ _ _ _ s. (panic todo, s);
  finish_epoch = λ _ _ s. (panic todo, s);
  get_epoch_claim = λ _ s. (panic todo, s);
}
