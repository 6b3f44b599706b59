-- ===== src/Fold/Setup/Wiring.antt =====
-- The folds of the set-up together: which events reach the inputs of an epoch, and what the
-- epoch fold relies on of the folds below it.
use descartes_v.Base.{ℕ, ◌≡◌, refl, some, List}
use descartes_v.Outcome.{ok, ◌>>=◌}
use descartes_v.Fold.Access.{Access, Block, StateFoldDelegate, InputAddedFilter}
use descartes_v.Fold.Input.{new_input_delegate, input_delegate}
use descartes_v.Fold.Input.Replay.{collected, sync_inputs_lem}
use descartes_v.Fold.Accumulating.{
  new_accumulating_delegate, accumulating_delegate, sync_accumulating, get_inputs,
}
use descartes_v.Fold.Setup.{SetupConfig, StateFoldCrate, create_input, create_accumulating_epoch}

-- A state fold that has no state of an earlier block asks for a sync at the block itself.
pub record Syncs (crate : StateFoldCrate) (access : Access) : Type 1 where
  pub synced :
      {S : Type 0} (d : StateFoldDelegate S) (margin initial hash : ℕ) (b : Block)
      → access.get_block hash ≡ some (some b)
      → crate.new_state_fold d access margin initial hash
        ≡ (do s ← d.sync initial b access; ok (record { block = b; state = s }))

module _ (crate : StateFoldCrate) (access : Access) (config : SetupConfig)
    (syncs : Syncs crate access) where
  pub create_input_lem :
      (n hash : ℕ) (b : Block) (events : List InputAddedFilter)
      → access.get_block hash ≡ some (some b)
      → access.input_added_until config.input_contract_address b.number n ≡ some events
      → create_input crate access config n hash
        ≡ ok (record { block = b; state = collected n events })
  unfolding create_input input_delegate new_input_delegate
  create_input_lem n hash b events found added =
      rw
        (
          syncs.synced (input_delegate (new_input_delegate config.input_contract_address))
              config.safety_margin n hash b found,
          sync_inputs_lem access (new_input_delegate config.input_contract_address) n b events
              added,
        )
        refl

  -- Where every state is synced at its block, the accumulating epoch `n` of the set-up holds the
  -- events that the input contract of the configuration added for the epoch `n` up to the block,
  -- in order.
  pub create_accumulating_epoch-create_input :
      (n : ℕ) (b : Block) (events : List InputAddedFilter)
      → access.get_block b.hash ≡ some (some b)
      → access.input_added_until config.input_contract_address b.number n ≡ some events
      → create_accumulating_epoch crate access config (create_input crate access config) n b.hash
        ≡ ok
            (record { block = b; state = record { epoch_number = n; inputs = collected n events } })
  unfolding create_accumulating_epoch accumulating_delegate new_accumulating_delegate
      sync_accumulating get_inputs
  create_accumulating_epoch-create_input n b events found added =
      rw
        (
          syncs.synced
              (accumulating_delegate (new_accumulating_delegate (create_input crate access config)))
              config.safety_margin n b.hash b found,
          create_input_lem n b.hash b events found added,
        )
        refl
