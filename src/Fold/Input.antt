-- ===== src/Fold/Input.antt =====
-- `InputFoldDelegate` (offchain/src/fold/input_delegate.rs): the inputs of one epoch.
pub mod Replay
use descartes_v.Base.{ℕ, Bool, not, ◌&&◌, List, [], ◌∷◌, ◌++◌, if◌then◌else◌}
use descartes_v.Outcome.{ok, ok_or, ◌>>=◌}
use descartes_v.Fold.Types.{Input, EpochInputState}
use descartes_v.Fold.Access.{
  Access, Block, BlockState, Fold, InputAddedFilter, StateFoldDelegate, contract_error, signature,
  input_added,
}

pub record InputFoldDelegate : Type 0 where
  pub input_address : ℕ

-- `InputFoldDelegate::new`
unfoldable pub new_input_delegate : ℕ → InputFoldDelegate
new_input_delegate address = record { input_address = address }

-- `impl From<InputAddedFilter> for Input`
unfoldable pub from_event : InputAddedFilter → Input
from_event ev = record { sender = ev.sender; timestamp = ev.timestamp; payload = ev.input }

-- `for ev in events { inputs.push_back(ev.into()); }`
unfoldable pub push_events : List Input → List InputAddedFilter → List Input
unfolding from_event
push_events inputs [] = inputs
push_events inputs (ev ∷ events) = push_events (inputs ++ from_event ev ∷ []) events

module _ (d : InputFoldDelegate) where
  unfoldable pub sync_inputs : ℕ → Block → Access → Fold EpochInputState
  unfolding push_events
  sync_inputs epoch_number block access = do
    events ←
        ok_or (contract_error input_added)
          (access.input_added_until d.input_address block.number epoch_number)
    ok (record { epoch_number = epoch_number; inputs = push_events [] events })

  -- The test of the bloom filter that opens `fold`.
  abbrev pub may_have_inputs : Block → Access → Bool
  may_have_inputs block access =
      access.contains_address block.logs_bloom d.input_address
      && access.contains_topic block.logs_bloom (signature input_added)

  unfoldable pub fold_inputs : EpochInputState → Block → Access → Fold EpochInputState
  unfolding push_events
  fold_inputs previous block access =
      if not (may_have_inputs block access) then ok previous else (do
        events ←
            ok_or (contract_error input_added)
              (access.input_added_at d.input_address block.hash previous.epoch_number)
        ok (record {
          epoch_number = previous.epoch_number;
          inputs = push_events previous.inputs events;
        }))

  unfoldable pub input_delegate : StateFoldDelegate EpochInputState
  unfolding sync_inputs fold_inputs
  input_delegate = record { sync = sync_inputs; fold = fold_inputs; convert = λ s. s }
