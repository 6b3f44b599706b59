-- ===== src/Fold/Finalizing.antt =====
-- `FinalizedEpochFoldDelegate` (offchain/src/fold/finalized_epoch_delegate.rs): the epochs
-- finalized on the chain, from an initial epoch on.
pub mod Events
pub mod Replay
pub mod Lookup
use descartes_v.Base.{ℕ, Bool, not, ◌&&◌, List, [], ◌∷◌, length, drop, ltb, if◌then◌else◌}
use descartes_v.Outcome.{ok, ok_or, assert, as_u64, ◌>>=◌, ◌>>◌}
use descartes_v.Fold.Types.{EpochInputState, FinalizedEpoch, FinalizedEpochs}
use descartes_v.Fold.Finalized.{new_finalized_epochs, next_epoch, insert_epoch}
use descartes_v.Fold.Accumulating.{get_inputs}
use descartes_v.Fold.Access.{
  Access, Block, Fold, StateFold, FinalizeEpochFilter, LogMeta, StateFoldDelegate, contract_error,
  uint, signature, finalize_epoch,
}

pub record FinalizedEpochFoldDelegate : Type 0 where
  pub descartesv2_address : ℕ
  pub input_fold : StateFold EpochInputState

-- `FinalizedEpochFoldDelegate::new`
unfoldable pub new_finalized_delegate : ℕ → StateFold EpochInputState → FinalizedEpochFoldDelegate
new_finalized_delegate address input_fold = record {
  descartesv2_address = address;
  input_fold = input_fold;
}

-- The epoch that both loops build of an event.
abbrev pub to_epoch : FinalizeEpochFilter × LogMeta → EpochInputState → FinalizedEpoch
to_epoch (ev, meta) inputs = record {
  epoch_number = ev.epoch_number;
  hash = ev.epoch_hash;
  inputs = inputs;
  finalized_block_hash = meta.block_hash;
  finalized_block_number = meta.block_number;
}

module _ (d : FinalizedEpochFoldDelegate) where
  -- The body of both loops: `insert_epoch`, which must not refuse.
  unfoldable pub add_epoch :
      (block_hash : ℕ) → FinalizedEpochs → FinalizeEpochFilter × LogMeta → Fold FinalizedEpochs
  add_epoch block_hash epochs ev = do
    inputs ← get_inputs d.input_fold ev.0.epoch_number block_hash
    inserted ← insert_epoch epochs (to_epoch ev inputs)
    assert inserted.0
    ok inserted.1

  -- The loop of `sync`.
  unfoldable pub add_epochs_sync :
      (block_hash : ℕ)
      → FinalizedEpochs
      → List (FinalizeEpochFilter × LogMeta)
      → Fold FinalizedEpochs
  add_epochs_sync block_hash epochs [] = ok epochs
  add_epochs_sync block_hash epochs (ev ∷ events) = do
    epochs' ← add_epoch block_hash epochs ev
    add_epochs_sync block_hash epochs' events

  -- The loop of `fold`, which passes over the events before the next epoch.
  unfoldable pub add_epochs_fold :
      (block_hash : ℕ)
      → FinalizedEpochs
      → List (FinalizeEpochFilter × LogMeta)
      → Fold FinalizedEpochs
  add_epochs_fold block_hash epochs [] = ok epochs
  add_epochs_fold block_hash epochs (ev ∷ events) = do
    next ← next_epoch epochs
    epochs' ← if ltb ev.0.epoch_number next then ok epochs else add_epoch block_hash epochs ev
    add_epochs_fold block_hash epochs' events

  unfoldable pub sync_finalized : ℕ → Block → Access → Fold FinalizedEpochs
  sync_finalized initial_epoch block access = do
    events ←
        ok_or (contract_error finalize_epoch)
          (access.finalize_epoch_until d.descartesv2_address block.number)
    let finalized_epochs = new_finalized_epochs initial_epoch
    initial ← as_u64 initial_epoch
    if ltb (length events) initial
        then ok finalized_epochs
        else add_epochs_sync block.hash finalized_epochs (drop initial events)

  -- The test of the bloom filter that opens `fold`.
  abbrev pub may_have_finalized : (next : ℕ) → Block → Access → Bool
  may_have_finalized next block access =
      access.contains_address block.logs_bloom d.descartesv2_address
      && access.contains_topic block.logs_bloom (uint next)
      && access.contains_topic block.logs_bloom (signature finalize_epoch)

  -- The rest of `fold`, once the bloom filter has let the block through.
  unfoldable pub add_new_epochs : FinalizedEpochs → Block → Access → Fold FinalizedEpochs
  add_new_epochs previous block access = do
    events ←
        ok_or (contract_error finalize_epoch)
          (access.finalize_epoch_at d.descartesv2_address block.hash)
    add_epochs_fold block.hash previous events

  -- The next epoch is computed only where the address is in the bloom filter.
  unfoldable pub fold_finalized : FinalizedEpochs → Block → Access → Fold FinalizedEpochs
  fold_finalized previous block access =
      if not (access.contains_address block.logs_bloom d.descartesv2_address)
      then ok previous
      else (do
        next ← next_epoch previous
        if not (
              access.contains_topic block.logs_bloom (uint next)
              && access.contains_topic block.logs_bloom (signature finalize_epoch))
            then ok previous
            else add_new_epochs previous block access)

  unfoldable pub finalized_delegate : StateFoldDelegate FinalizedEpochs
  unfolding sync_finalized fold_finalized
  finalized_delegate = record { sync = sync_finalized; fold = fold_finalized; convert = λ s. s }
