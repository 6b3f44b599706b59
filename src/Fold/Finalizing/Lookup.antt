-- ===== src/Fold/Finalizing/Lookup.antt =====
-- The finalized epochs of `sync` (offchain/src/fold/finalized_epoch_delegate.rs), read back by
-- `FinalizedEpochs::get_epoch` (offchain/src/fold/types.rs).
use descartes_v.Base.{
  ℕ, ◌<◌, ◌≡◌, ◌∙◌, Bool-cases, inl, inr, none, some, length, get_elem?, get_elem?-drop,
  get_elem?-map, drop, leb, leb→le, if◌then◌else◌,
}
use mathlib.Core.Option
use descartes_v.Outcome.{ok, u64_mod, ◌>>=◌}
use descartes_v.Fold.Types.{EpochInputState}
use descartes_v.Fold.Finalized.{get_epoch}
use descartes_v.Fold.Finalized.Laws.{get_epoch_lem}
use descartes_v.Fold.Access.{Access, Block, FoldError}
use descartes_v.Fold.Finalizing.{FinalizedEpochFoldDelegate, sync_finalized}
use descartes_v.Fold.Finalizing.Events.{
  Events, NumberedEvents, epoch_of, epochs_from, HaveInputs, sync_finalized_lem, epochs_from_short,
}

module _ (d : FinalizedEpochFoldDelegate) (inputs_of : ℕ → EpochInputState) where
  get_epoch-epochs_from :
      (initial i : ℕ) (events : Events)
      → initial < u64_mod
      → length events < u64_mod
      → get_epoch {E = FoldError} (epochs_from d inputs_of initial events) i
        ≡ ok
            (if leb initial i then Option.map (epoch_of d inputs_of) (get_elem? events i) else none)
  get_epoch-epochs_from initial i events small short =
      get_epoch_lem (epochs_from d inputs_of initial events) i
        (epochs_from_short d inputs_of initial events small short)
      ∙ (elim (Bool-cases (leb initial i)) [
        | inl above ↦ rw (
          above,
          get_elem?-map (epoch_of d inputs_of) (drop initial events),
          get_elem?-drop initial i events (leb→le _ _ above),
        )
        | inr below ↦ rw below
      ])

  -- Where the events up to the block finalize the epochs 0, 1, … in order, and fewer than 2^64,
  -- and the inputs of these epochs are known, looking up an epoch in what a sync returns gives
  -- back its event: from the initial epoch on, the number `i` is found with the hash and the block
  -- of the event `i` and the inputs of that epoch; a number before the initial epoch, or without
  -- an event, is not found.
  pub get_epoch-sync_finalized :
      (A : Access) (initial : ℕ) (b : Block) (events : Events) (i : ℕ)
      → A.finalize_epoch_until d.descartesv2_address b.number ≡ some events
      → NumberedEvents 0 events
      → HaveInputs d inputs_of b.hash (length events)
      → initial < u64_mod
      → length events < u64_mod
      → (do epochs ← sync_finalized d initial b A; get_epoch epochs i)
        ≡ ok
            (if leb initial i then Option.map (epoch_of d inputs_of) (get_elem? events i) else none)
  get_epoch-sync_finalized A initial b events i answer numbered inputs small short =
      rw (sync_finalized_lem d inputs_of A initial b events answer numbered inputs small short)
        (get_epoch-epochs_from initial i events small short)
