-- ===== src/Fold/Finalized.antt =====
-- `FinalizedEpochs` (offchain/src/fold/types.rs): the epochs finalized so far, in order.
pub mod Laws
use descartes_v.Base.{
  ℕ, ◌-◌, Bool, true, false, not, Option, none, some, List, [], ◌∷◌, ◌++◌, length, leb, ltb, ◌==◌,
  if◌then◌else◌,
}
use descartes_v.Outcome.{Outcome, ok, ◌>>=◌, add_u256, as_u64, elem_at}
use descartes_v.Fold.Types.{FinalizedEpoch, FinalizedEpochs}

-- `FinalizedEpochs::new`
unfoldable pub new_finalized_epochs : ℕ → FinalizedEpochs
new_finalized_epochs initial_epoch = record { finalized_epochs = []; initial_epoch = initial_epoch }

module _ {E : Type 0} where
  unfoldable pub next_epoch : FinalizedEpochs → Outcome E ℕ
  next_epoch f = add_u256 f.initial_epoch (length f.finalized_epochs)

  unfoldable pub get_epoch : FinalizedEpochs → ℕ → Outcome E (Option FinalizedEpoch)
  unfolding next_epoch
  get_epoch f index = do
    initial ← as_u64 f.initial_epoch
    if leb initial index
        then (do
          next ← next_epoch f
          next' ← as_u64 next
          if ltb index next'
              then (do epoch ← elem_at f.finalized_epochs (index - initial); ok (some epoch))
              else ok none)
        else ok none

  unfoldable pub epoch_number_consistent : FinalizedEpochs → ℕ → Outcome E Bool
  unfolding next_epoch
  epoch_number_consistent f epoch_number = do next ← next_epoch f; ok (epoch_number == next)

  -- The result, and the epochs after the call.
  unfoldable pub insert_epoch :
      FinalizedEpochs → FinalizedEpoch → Outcome E (Bool × FinalizedEpochs)
  unfolding epoch_number_consistent
  insert_epoch f e = do
    consistent ← epoch_number_consistent f e.epoch_number
    if not consistent
        then ok (false, f)
        else ok (true, record f { finalized_epochs = f.finalized_epochs ++ e ∷ [] })
