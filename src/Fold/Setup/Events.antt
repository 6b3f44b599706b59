-- ===== src/Fold/Setup/Events.antt =====
-- The whole set-up of the folds (offchain/src/fold/setup.rs) at a block, as one function of the
-- events of the contracts.
use descartes_v.Base.{
  ℕ, ◌+◌, ◌<◌, ◌≡◌, refl, ◌∙◌, Option, none, some, List, [], ◌∷◌, length, max, get_last?, ◌==◌,
  if◌then◌else◌,
}
use descartes_v.Outcome.{ok, err, map_err, unwrap, u64_mod, panic, ◌>>=◌, >>=_assoc}
use descartes_v.Fold.Types.{AccumulatingEpoch}
use descartes_v.Fold.Sealed.{SealedEpochState}
use descartes_v.Fold.Input.Replay.{collected}
use descartes_v.Fold.Finalizing.Events.{epochs_from}
use descartes_v.Fold.Epoch.{
  ContractPhase, input_accumulation, awaiting_consensus, awaiting_dispute, EpochState, get_state,
  disputed, time_of_last, event_of, sync_epoch,
}
use descartes_v.Fold.Epoch.Answers.{phase_by}
use descartes_v.Fold.Epoch.Replay.{sync_epoch_lem, assemble}
use descartes_v.Fold.Access.{
  Access, Block, BlockState, Fold, PhaseChangeFilter, DescartesV2CreatedFilter, LogMeta,
  unknown_phase, substate_error,
}
use descartes_v.Fold.Descartes.{
  DescartesV2FoldDelegate, from_created, convert_raw_to_logical, sync_constants, sync_descartes,
  new_descartes_delegate, descartes_delegate,
}
use descartes_v.Fold.Setup.{SetupConfig, StateFoldCrate, create_epoch, create_descartes_state_fold}
use descartes_v.Fold.Setup.Wiring.{Syncs}
use descartes_v.Fold.Setup.Tower.{
  Answered, sealed_by, epoch_fold_delegate, finalizing, inputs_at, answers, create_epoch-Answers,
}

module _ (crate : StateFoldCrate) (access : Access) (config : SetupConfig)
    (syncs : Syncs crate access) (b : Block) (ans : Answered access config b) (initial : ℕ)
    (small : initial < u64_mod) where
  -- The accumulating epoch `n`, with the inputs added for it.
  abbrev pub accumulating_at : ℕ → AccumulatingEpoch
  accumulating_at n = record { epoch_number = n; inputs = collected n (ans.added n) }

  -- The sealed epoch `n`, with those inputs and the claims made for it.
  abbrev pub sealed_at : ℕ → SealedEpochState
  sealed_at n = sealed_by ans.block_of n (collected n (ans.added n)) (ans.claimed n)

  -- The first epoch that is not finalized.
  abbrev pub next_at : ℕ
  next_at = max (length ans.finalized) initial

  -- The phase and the accumulating epoch, by the last phase change and its time.
  abbrev pub phase_at :
      (timestamp : Option ℕ) → Option PhaseChangeFilter → Fold (ContractPhase × AccumulatingEpoch)
  phase_at timestamp none = ok (input_accumulation, accumulating_at next_at)
  phase_at timestamp (some ev) =
      if ev.new_phase == 0
      then ok (input_accumulation, accumulating_at next_at)
      else if ev.new_phase == 1
      then (do
        round_start ← unwrap timestamp
        ok (awaiting_consensus (sealed_at next_at) round_start, accumulating_at (next_at + 1)))
      else if ev.new_phase == 2
      then (do
        claimed ← disputed (sealed_at next_at)
        ok (awaiting_dispute claimed, accumulating_at (next_at + 1)))
      else err (unknown_phase ev.new_phase)

  -- The raw state of the contract, by the last phase change.
  abbrev pub raw_at : Option (PhaseChangeFilter × LogMeta) → Fold EpochState
  raw_at last = do
    timestamp ← time_of_last (epoch_fold_delegate crate access config) access last
    found ← phase_at timestamp (event_of (epoch_fold_delegate crate access config) last)
    ok (record {
      initial_epoch = initial;
      current_phase = found.0;
      finalized_epochs =
          epochs_from (finalizing crate access config syncs b ans)
            (inputs_at crate access config syncs b ans) initial ans.finalized;
      current_epoch = found.1;
      phase_change_timestamp = timestamp;
    })

  sync_epoch_at :
      (events : List (PhaseChangeFilter × LogMeta))
      → access.phase_change_until config.descartes_contract_address b.number ≡ some events
      → sync_epoch (epoch_fold_delegate crate access config) initial b access
        ≡ raw_at (get_last? events)
  sync_epoch_at events e =
      sync_epoch_lem access (epoch_fold_delegate crate access config) initial b events
        (answers crate access config syncs b ans initial small) e
      ∙ by_last (get_last? events)
    where
      by_last :
          (last : Option (PhaseChangeFilter × LogMeta))
          → (do
            timestamp ← time_of_last (epoch_fold_delegate crate access config) access last
            found ←
                phase_by
                  (epoch_fold_delegate crate access config)
                  initial
                  (answers crate access config syncs b ans initial small)
                  next_at
                  (unwrap timestamp)
                  (event_of (epoch_fold_delegate crate access config) last)
            ok (
                assemble access
                  (epoch_fold_delegate crate access config)
                  initial
                  (answers crate access config syncs b ans initial small).finalized
                  timestamp
                  found))
            ≡ raw_at last
      by_last none = refl
      by_last (some (ev, meta)) = refl

  create_epoch_at :
      (events : List (PhaseChangeFilter × LogMeta))
      → access.phase_change_until config.descartes_contract_address b.number ≡ some events
      → get_state (create_epoch crate access config) initial b.hash
        ≡ map_err substate_error (raw_at (get_last? events))
  unfolding get_state
  create_epoch_at events e =
      rw
        (
          (create_epoch-Answers crate access config syncs b ans initial small).1,
          sync_epoch_at events e,
        )
        (asked (raw_at (get_last? events)))
    where
      at_block : EpochState → Fold (BlockState EpochState)
      at_block s = ok (record { block = b; state = s })

      asked :
          (raw : Fold EpochState)
          → (map_err substate_error (raw >>= at_block) >>= λ found. ok found.state)
            ≡ map_err substate_error raw
      asked (ok s) = refl
      asked (err x) = refl
      asked (panic p) = refl

  sync_constants_at :
      (d : DescartesV2FoldDelegate) (ev : DescartesV2CreatedFilter) (meta : LogMeta)
      (creation : Block)
      → access.created_until d.descartesv2_address b.number ≡ some ((ev, meta) ∷ [])
      → access.get_block meta.block_hash ≡ some (some creation)
      → sync_constants d b access ≡ ok (from_created ev creation.timestamp)
  unfolding sync_constants
  sync_constants_at d ev meta creation created found = rw (created, found) refl

  -- Where every state is synced at its block, the initial epoch is below 2^64, and the access
  -- answers for the block, with epochs finalized in order from 0 on and fewer than 2^64, and with
  -- one event of the contract's creation in a known block, the fold of the set-up gives what the
  -- events say: the constants of the creation, the epochs finalized, the inputs added and the
  -- claims made for each epoch, and the phase by the last phase change, converted to the logical
  -- state by the time of the block. It fails exactly where that phase, or the conversion, does.
  pub create_descartes_state_fold-raw_at :
      (events : List (PhaseChangeFilter × LogMeta)) (ev : DescartesV2CreatedFilter) (meta : LogMeta)
      (creation : Block)
      → access.phase_change_until config.descartes_contract_address b.number ≡ some events
      → access.created_until config.descartes_contract_address b.number ≡ some ((ev, meta) ∷ [])
      → access.get_block meta.block_hash ≡ some (some creation)
      → create_descartes_state_fold crate access config initial b.hash ≡ (do
        raw ← map_err substate_error (raw_at (get_last? events))
        s ← convert_raw_to_logical raw (from_created ev creation.timestamp) b initial
        ok (record { block = b; state = s }))
  unfolding create_descartes_state_fold descartes_delegate new_descartes_delegate sync_descartes
  create_descartes_state_fold-raw_at events ev meta creation changes created found =
      let d =
        new_descartes_delegate config.descartes_contract_address
          (create_epoch crate access config) in
      rw
        (
          syncs.synced (descartes_delegate d) config.safety_margin initial b.hash b ans.found,
          sync_constants_at d ev meta creation created found,
          create_epoch_at events changes,
        )
        (>>=_assoc (map_err substate_error (raw_at (get_last? events))) _ _)
