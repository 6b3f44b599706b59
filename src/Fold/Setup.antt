-- ===== src/Fold/Setup.antt =====
-- How the folds are put together (offchain/src/fold/setup.rs). `StateFold::new` of the crate
-- state_fold is a parameter.
pub mod Wiring
pub mod Tower
pub mod Events
pub mod Obtained
pub mod Numbers
use descartes_v.Base.{ℕ}
use descartes_v.Fold.Types.{EpochInputState, AccumulatingEpoch, FinalizedEpochs, DescartesV2State}
use descartes_v.Fold.Access.{Access, StateFold, StateFoldDelegate}
use descartes_v.Fold.Input.{new_input_delegate, input_delegate}
use descartes_v.Fold.Accumulating.{new_accumulating_delegate, accumulating_delegate}
use descartes_v.Fold.Sealed.{SealedEpochState, new_sealed_delegate, sealed_delegate}
use descartes_v.Fold.Finalizing.{new_finalized_delegate, finalized_delegate}
use descartes_v.Fold.Epoch.{EpochState, new_epoch_delegate, epoch_delegate}
use descartes_v.Fold.Descartes.{new_descartes_delegate, descartes_delegate}

pub record SetupConfig : Type 0 where
  pub safety_margin : ℕ
  pub input_contract_address : ℕ
  pub descartes_contract_address : ℕ

-- The crate state_fold: `StateFold::new`, with the fold's `get_state_for_block`.
pub record StateFoldCrate : Type 1 where
  pub new_state_fold :
      {S : Type 0} → StateFoldDelegate S → Access → (safety_margin : ℕ) → StateFold S

module _ (crate : StateFoldCrate) (access : Access) (config : SetupConfig) where
  unfoldable pub create_input : StateFold EpochInputState
  create_input =
      crate.new_state_fold (input_delegate (new_input_delegate config.input_contract_address))
        access config.safety_margin

  unfoldable pub create_accumulating_epoch : StateFold EpochInputState → StateFold AccumulatingEpoch
  create_accumulating_epoch input_fold =
      crate.new_state_fold (accumulating_delegate (new_accumulating_delegate input_fold)) access
        config.safety_margin

  unfoldable pub create_sealed_epoch : StateFold EpochInputState → StateFold SealedEpochState
  create_sealed_epoch input_fold =
      crate.new_state_fold
        (sealed_delegate (new_sealed_delegate config.descartes_contract_address input_fold)) access
        config.safety_margin

  unfoldable pub create_finalized_epoch : StateFold EpochInputState → StateFold FinalizedEpochs
  create_finalized_epoch input_fold =
      crate.new_state_fold
        (finalized_delegate (new_finalized_delegate config.descartes_contract_address input_fold))
        access config.safety_margin

  unfoldable pub create_epoch : StateFold EpochState
  unfolding create_input create_accumulating_epoch create_sealed_epoch create_finalized_epoch
  create_epoch =
      let input_fold = create_input in
      crate.new_state_fold
        (epoch_delegate (
          new_epoch_delegate config.descartes_contract_address
            (create_accumulating_epoch input_fold) (create_sealed_epoch input_fold)
            (create_finalized_epoch input_fold)))
        access config.safety_margin

  unfoldable pub create_descartes_state_fold : StateFold DescartesV2State
  unfolding create_epoch
  create_descartes_state_fold =
      crate.new_state_fold
        (descartes_delegate (new_descartes_delegate config.descartes_contract_address create_epoch))
        access config.safety_margin
