-- ===== src/Fold/Accumulating.antt =====
-- `AccumulatingEpochFoldDelegate` (offchain/src/fold/accumulating_epoch_delegate.rs): the epoch
-- that receives inputs, which it takes from the input fold.
use descartes_v.Base.{ℕ}
use descartes_v.Outcome.{ok, map_err, ◌>>=◌}
use descartes_v.Fold.Types.{EpochInputState, AccumulatingEpoch}
use descartes_v.Fold.Access.{Access, Block, Fold, StateFold, StateFoldDelegate, substate_error}

pub record AccumulatingEpochFoldDelegate : Type 0 where
  pub input_fold : StateFold EpochInputState

-- `AccumulatingEpochFoldDelegate::new`
unfoldable pub new_accumulating_delegate : StateFold EpochInputState → AccumulatingEpochFoldDelegate
new_accumulating_delegate input_fold = record { input_fold = input_fold }

-- `get_inputs_sync` and `get_inputs_fold`, which differ in the type of their error alone; the
-- delegates of the sealed and the finalized epochs have the same two.
unfoldable pub get_inputs :
    StateFold EpochInputState → (epoch block_hash : ℕ) → Fold EpochInputState
get_inputs input_fold epoch block_hash = do
  found ← map_err substate_error (input_fold epoch block_hash)
  ok found.state

module _ (d : AccumulatingEpochFoldDelegate) where
  unfoldable pub sync_accumulating : ℕ → Block → Access → Fold AccumulatingEpoch
  unfolding get_inputs
  sync_accumulating epoch_number block access = do
    inputs ← get_inputs d.input_fold epoch_number block.hash
    ok (record { epoch_number = epoch_number; inputs = inputs })

  unfoldable pub fold_accumulating : AccumulatingEpoch → Block → Access → Fold AccumulatingEpoch
  unfolding get_inputs
  fold_accumulating previous block access = do
    inputs ← get_inputs d.input_fold previous.epoch_number block.hash
    ok (record { epoch_number = previous.epoch_number; inputs = inputs })

  unfoldable pub accumulating_delegate : StateFoldDelegate AccumulatingEpoch
  unfolding sync_accumulating fold_accumulating
  accumulating_delegate = record {
    sync = sync_accumulating;
    fold = fold_accumulating;
    convert = λ s. s;
  }
