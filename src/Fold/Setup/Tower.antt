-- ===== src/Fold/Setup/Tower.antt =====
-- The folds of the set-up answer the epoch fold as it expects.
use descartes_v.Base.{
  ℕ, ◌+◌, ◌<◌, ◌≡◌, refl, ◌∙◌, ap, true, false, inl, inr, Bool-cases, some, List, [], ◌∷◌, length,
  max, ltb, ltb→lt, arith,
}
use descartes_v.Outcome.{ok, ◌>>=◌, u256_mod, u64_mod}
use descartes_v.Fold.Types.{EpochInputState}
use descartes_v.Fold.Finalized.{next_epoch}
use descartes_v.Fold.Accumulating.{get_inputs}
use descartes_v.Fold.Access.{
  Access, Block, FoldError, StateFold, InputAddedFilter, ClaimFilter, LogMeta,
}
use descartes_v.Fold.Input.Replay.{collected}
use descartes_v.Fold.Sealed.{
  SealedEpochState, SealedEpochFoldDelegate, new_sealed_delegate, sealed_delegate, sync_sealed,
}
use descartes_v.Fold.Sealed
use descartes_v.Fold.Sealed.Replay.{no_claims, with_claims, first_claims, sync_sealed_cons}
use descartes_v.Fold.Finalizing.{
  FinalizedEpochFoldDelegate, new_finalized_delegate, finalized_delegate,
}
use descartes_v.Fold.Finalizing.Events.{
  Events, NumberedEvents, epochs_from, sync_finalized_lem, next_early, next_late,
}
use descartes_v.Fold.Epoch.{
  EpochFoldDelegate, new_epoch_delegate, get_state, epoch_delegate, sync_epoch,
}
use descartes_v.Fold.Epoch.Answers.{Answers}
use descartes_v.Fold.Setup.{
  SetupConfig, StateFoldCrate, create_input, create_accumulating_epoch, create_sealed_epoch,
  create_finalized_epoch, create_epoch,
}
use descartes_v.Fold.Setup.Wiring.{Syncs, create_input_lem, create_accumulating_epoch-create_input}

-- What the access answers up to a block: inputs and claims for each epoch, the block of
-- each first claim, and finalized epochs that are numbered from 0.
pub record Answered (access : Access) (config : SetupConfig) (b : Block) : Type 0 where
  pub found : access.get_block b.hash ≡ some (some b)
  pub added : ℕ → List InputAddedFilter
  pub added_answer :
      (n : ℕ) → access.input_added_until config.input_contract_address b.number n ≡ some (added n)
  pub claimed : ℕ → List (ClaimFilter × LogMeta)
  pub claimed_answer :
      (n : ℕ) → access.claim_until config.descartes_contract_address b.number n ≡ some (claimed n)
  pub block_of : ClaimFilter × LogMeta → Block
  pub block_answer :
      (n : ℕ) (ev : ClaimFilter × LogMeta) (rest : List (ClaimFilter × LogMeta))
      → claimed n ≡ ev ∷ rest
      → access.get_block ev.1.block_hash ≡ some (some (block_of ev))
  pub finalized : Events
  pub finalized_answer :
      access.finalize_epoch_until config.descartes_contract_address b.number ≡ some finalized
  pub numbered : NumberedEvents 0 finalized
  pub short : length finalized < u64_mod

-- The state of a sealed epoch with these inputs and claims.
abbrev pub sealed_by :
    (ClaimFilter × LogMeta → Block)
    → ℕ
    → EpochInputState
    → List (ClaimFilter × LogMeta)
    → SealedEpochState
sealed_by block_of n i [] = no_claims n i
sealed_by block_of n i (ev ∷ rest) = with_claims n (first_claims (block_of ev).timestamp ev rest) i

pub sealed_by_number :
    (block_of : ClaimFilter × LogMeta → Block) (n : ℕ) (i : EpochInputState)
    (events : List (ClaimFilter × LogMeta))
    → Sealed.epoch_number (sealed_by block_of n i events) ≡ n
unfolding Sealed.epoch_number
sealed_by_number block_of n i [] = refl
sealed_by_number block_of n i (ev ∷ rest) = refl

pub max_small : (n i : ℕ) → n < u64_mod → i < u64_mod → max n i + 1 < u256_mod
max_small n i p q = ground arith

module _ (crate : StateFoldCrate) (access : Access) (config : SetupConfig) where
  -- The delegate that `create_epoch` builds.
  abbrev pub epoch_fold_delegate : EpochFoldDelegate
  epoch_fold_delegate = record {
    descartesv2_address = config.descartes_contract_address;
    accumulating_epoch_fold =
        create_accumulating_epoch crate access config (create_input crate access config);
    sealed_epoch_fold = create_sealed_epoch crate access config (create_input crate access config);
    finalized_epoch_fold =
        create_finalized_epoch crate access config (create_input crate access config);
  }

module _ (crate : StateFoldCrate) (access : Access) (config : SetupConfig)
    (syncs : Syncs crate access) where
  abbrev pub input_fold : StateFold EpochInputState
  input_fold = create_input crate access config

  module _ (b : Block) (ans : Answered access config b) where
    inputs_lem : (n : ℕ) → get_inputs input_fold n b.hash ≡ ok (collected n (ans.added n))
    unfolding get_inputs
    inputs_lem n =
        rw
          (create_input_lem crate access config syncs n b.hash b (ans.added n) ans.found
            (ans.added_answer n))
          refl

    pub accumulating_lem :
        (n : ℕ)
        → get_state (create_accumulating_epoch crate access config input_fold) n b.hash
          ≡ ok (record { epoch_number = n; inputs = collected n (ans.added n) })
    unfolding get_state
    accumulating_lem n =
        rw
          (create_accumulating_epoch-create_input crate access config syncs n b (ans.added n)
            ans.found (ans.added_answer n))
          refl

    sealed_sync_lem :
        (n : ℕ) (d : SealedEpochFoldDelegate) (events : List (ClaimFilter × LogMeta))
        → d.input_fold ≡ input_fold
        → access.claim_until d.descartesv2_address b.number n ≡ some events
        → ((ev : ClaimFilter × LogMeta) (rest : List (ClaimFilter × LogMeta))
            → events ≡ ev ∷ rest
            → access.get_block ev.1.block_hash ≡ some (some (ans.block_of ev)))
        → sync_sealed d n b access
          ≡ ok (sealed_by ans.block_of n (collected n (ans.added n)) events)
    unfolding sync_sealed
    sealed_sync_lem n d [] same e first = rw (same, inputs_lem n, e) refl
    sealed_sync_lem n d (ev ∷ rest) same e first =
        sync_sealed_cons access d n b (collected n (ans.added n)) ev rest (ans.block_of ev)
          (rw same (inputs_lem n)) e (first ev rest refl)

    pub sealed_lem :
        (n : ℕ)
        → get_state (create_sealed_epoch crate access config input_fold) n b.hash
          ≡ ok (sealed_by ans.block_of n (collected n (ans.added n)) (ans.claimed n))
    unfolding get_state create_sealed_epoch sealed_delegate new_sealed_delegate
    sealed_lem n =
        rw
          (
            syncs.synced
                (sealed_delegate (new_sealed_delegate config.descartes_contract_address input_fold))
                config.safety_margin n b.hash b ans.found,
            sealed_sync_lem n (new_sealed_delegate config.descartes_contract_address input_fold)
                (ans.claimed n) refl (ans.claimed_answer n) (ans.block_answer n),
          )
          refl

    abbrev pub finalizing : FinalizedEpochFoldDelegate
    finalizing = record {
      descartesv2_address = config.descartes_contract_address;
      input_fold = input_fold;
    }

    abbrev pub inputs_at : ℕ → EpochInputState
    inputs_at n = collected n (ans.added n)

    pub finalized_lem :
        (initial : ℕ)
        → initial < u64_mod
        → get_state (create_finalized_epoch crate access config input_fold) initial b.hash
          ≡ ok (epochs_from finalizing inputs_at initial ans.finalized)
    unfolding get_state create_finalized_epoch finalized_delegate new_finalized_delegate
    finalized_lem initial small =
        rw
          (
            syncs.synced
                (finalized_delegate
                  (new_finalized_delegate config.descartes_contract_address input_fold))
                config.safety_margin initial b.hash b ans.found,
            sync_finalized_lem finalizing inputs_at access initial b ans.finalized
                ans.finalized_answer ans.numbered (λ k _. inputs_lem k) small ans.short,
          )
          refl

    pub next_lem :
        (initial : ℕ)
        → initial < u64_mod
        → next_epoch {E = FoldError} (epochs_from finalizing inputs_at initial ans.finalized)
          ≡ ok (max (length ans.finalized) initial)
    next_lem initial small = elim (Bool-cases (ltb (length ans.finalized) initial)) [
      | inl early ↦
          next_early finalizing inputs_at initial ans.finalized (ltb→lt _ _ early) small
          ∙ ap ok (max_early (length ans.finalized) initial early)
      | inr late ↦
          next_late finalizing inputs_at initial ans.finalized (ground arith) ans.short
          ∙ ap ok (max_late (length ans.finalized) initial late)
    ]
      where
        max_early : (n i : ℕ) → ltb n i ≡ true → i ≡ max n i
        max_early n i e = ground arith

        max_late : (n i : ℕ) → ltb n i ≡ false → n ≡ max n i
        max_late n i e = ground arith

    abbrev pub answers :
        (initial : ℕ)
        → initial < u64_mod
        → Answers (epoch_fold_delegate crate access config) initial b.hash
    answers initial small = record {
      finalized = epochs_from finalizing inputs_at initial ans.finalized;
      next = max (length ans.finalized) initial;
      accumulating = λ n. record { epoch_number = n; inputs = collected n (ans.added n) };
      sealed = λ n. sealed_by ans.block_of n (collected n (ans.added n)) (ans.claimed n);
      finalized_answer = finalized_lem initial small;
      next_answer = next_lem initial small;
      accumulating_answer = accumulating_lem;
      accumulating_number = λ n. refl;
      sealed_answer = sealed_lem;
      sealed_number =
          λ n. sealed_by_number ans.block_of n (collected n (ans.added n)) (ans.claimed n);
      room = max_small (length ans.finalized) initial ans.short small;
    }

    -- Where every state is synced at its block, and the access has an answer for it, the epoch
    -- fold of the set-up is the sync of a delegate whose folds answer as the statements on that
    -- delegate assume: each epoch under its number, with the finalized epochs of the chain.
    pub create_epoch-Answers :
        (initial : ℕ)
        → initial < u64_mod
        → Answers (epoch_fold_delegate crate access config) initial b.hash
          × (create_epoch crate access config initial b.hash ≡ (do
            s ← sync_epoch (epoch_fold_delegate crate access config) initial b access
            ok (record { block = b; state = s })))
    unfolding create_epoch epoch_delegate new_epoch_delegate
    create_epoch-Answers initial small = (
      answers initial small,
      syncs.synced (epoch_delegate (epoch_fold_delegate crate access config)) config.safety_margin
          initial b.hash b ans.found,
    )
