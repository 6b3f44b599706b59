-- ===== src/Fold/Setup/Numbers.antt =====
-- The numbers of the epochs in every state of the folds of the set-up.
use descartes_v.Base.{ℕ, ◌≡◌, refl, not, none, ◌∷◌}
use descartes_v.Outcome.{
  ok, ok_or, unwrap, Returns, Returns-ok, Returns-bind, Returns-if, Returns-list,
}
use descartes_v.Fold.Types.{DescartesV2State}
use descartes_v.Fold.Accumulating.{
  new_accumulating_delegate, get_inputs, sync_accumulating, fold_accumulating,
  accumulating_delegate,
}
use descartes_v.Fold.Sealed.{
  SealedEpochState, sealed_epoch_no_claims, sealed_epoch_with_claims, SealedEpochFoldDelegate,
  new_sealed_delegate, sync_sealed, fold_sealed, may_have_claims, add_claims_sync, add_claims_fold,
  sealed_delegate,
}
use descartes_v.Fold.Sealed
use descartes_v.Fold.Access.{Access, Block, BlockState, contract_error, claim}
use descartes_v.Fold.Epoch.{EpochState, get_state, epoch_delegate, new_epoch_delegate}
use descartes_v.Fold.Epoch.Numbers.{
  FoldsNumbered, EpochNumbers, sync_epoch-EpochNumbers, fold_epoch-EpochNumbers,
}
use descartes_v.Fold.Descartes.{new_descartes_delegate, descartes_delegate}
use descartes_v.Fold.Descartes.Numbers.{
  StateNumbers, sync_descartes-StateNumbers, fold_descartes-StateNumbers,
}
use descartes_v.Fold.Setup.{
  SetupConfig, StateFoldCrate, create_input, create_accumulating_epoch, create_sealed_epoch,
  create_epoch, create_descartes_state_fold,
}
use descartes_v.Fold.Setup.Tower.{epoch_fold_delegate}
use descartes_v.Fold.Setup.Obtained.{Obtains, Obtained_invariant, get_state-Obtained}

-- The state of a sealed epoch is that of the epoch `n`.
abbrev SealedNumber : ℕ → SealedEpochState → Type 0
SealedNumber n s = Sealed.epoch_number s ≡ n

module _ (d : SealedEpochFoldDelegate) (access : Access) (n : ℕ) where
  sync_sealed-number : (b : Block) → Returns (SealedNumber n) (sync_sealed d n b access)
  unfolding sync_sealed Sealed.epoch_number
  sync_sealed-number b =
      Returns-bind (SealedNumber n) (get_inputs d.input_fold n b.hash) _ (λ inputs _.
        Returns-bind (SealedNumber n)
          (ok_or (contract_error claim) (access.claim_until d.descartesv2_address b.number n)) _
          (λ events _.
            Returns-list (SealedNumber n) events _ _
              (Returns-ok (SealedNumber n)
                (sealed_epoch_no_claims (record { epoch_number = n; inputs = inputs })) refl)
              (λ ev rest.
                Returns-bind (SealedNumber n) (add_claims_sync access none (ev ∷ rest)) _
                  (λ added _.
                    Returns-bind (SealedNumber n) (unwrap added) _ (λ claims _.
                      Returns-ok (SealedNumber n) (sealed_epoch_with_claims _) refl)))))

  fold_sealed-number :
      (previous : SealedEpochState) (b : Block)
      → SealedNumber n previous
      → Returns (SealedNumber n) (fold_sealed d previous b access)
  unfolding fold_sealed Sealed.epoch_number
  fold_sealed-number previous b number =
      Returns-if (SealedNumber n) (not (may_have_claims d (Sealed.epoch_number previous) b access))
        _ _ (Returns-ok (SealedNumber n) previous number)
        (Returns-bind (SealedNumber n)
          (ok_or (contract_error claim)
            (access.claim_at d.descartesv2_address b.hash (Sealed.epoch_number previous)))
          _
          (λ events _.
            Returns-list (SealedNumber n) events _ _ (Returns-ok (SealedNumber n) previous number)
              (λ ev rest.
                Returns-bind (SealedNumber n)
                  (unwrap (add_claims_fold b.timestamp (Sealed.claims previous) (ev ∷ rest))) _
                  (λ added _. Returns-ok (SealedNumber n) (sealed_epoch_with_claims _) number))))

module _ (crate : StateFoldCrate) (access : Access) (config : SetupConfig)
    (obtains : Obtains crate access) where
  abbrev sealing : SealedEpochFoldDelegate
  sealing = new_sealed_delegate config.descartes_contract_address (create_input crate access config)

  -- The folds below the epoch fold give each epoch under its own number.
  create_epoch-FoldsNumbered : FoldsNumbered (epoch_fold_delegate crate access config)
  unfolding create_accumulating_epoch create_sealed_epoch accumulating_delegate sync_accumulating
      fold_accumulating sealed_delegate
  create_epoch-FoldsNumbered = record {
    accumulating_number = λ n.
        get_state-Obtained crate access obtains
          (accumulating_delegate (new_accumulating_delegate (create_input crate access config)))
          (λ s. refl) config.safety_margin n (λ s. s.epoch_number ≡ n)
          (λ b.
            Returns-bind (λ s. s.epoch_number ≡ n)
              (get_inputs (new_accumulating_delegate (create_input crate access config)).input_fold
                n b.hash)
              _ (λ inputs _. Returns-ok (λ s. s.epoch_number ≡ n) _ refl))
          (λ previous b same.
            Returns-bind (λ s. s.epoch_number ≡ n)
              (get_inputs (new_accumulating_delegate (create_input crate access config)).input_fold
                previous.epoch_number b.hash)
              _ (λ inputs _. Returns-ok (λ s. s.epoch_number ≡ n) _ same));
    sealed_number = λ n.
        get_state-Obtained crate access obtains (sealed_delegate sealing) (λ s. refl)
          config.safety_margin n (SealedNumber n) (sync_sealed-number sealing access n)
          (fold_sealed-number sealing access n);
  }

  create_epoch-EpochNumbers :
      (initial h : ℕ) (raw : EpochState)
      → get_state (create_epoch crate access config) initial h ≡ ok raw
      → EpochNumbers raw
  unfolding create_epoch epoch_delegate new_epoch_delegate
  create_epoch-EpochNumbers initial =
      let d = epoch_fold_delegate crate access config in
      get_state-Obtained crate access obtains (epoch_delegate d) (λ s. refl) config.safety_margin
        initial EpochNumbers
        (λ b. sync_epoch-EpochNumbers d create_epoch-FoldsNumbered initial b access)
        (λ previous b numbers raw.
          fold_epoch-EpochNumbers d create_epoch-FoldsNumbered previous b access raw numbers)

  -- Where the crate state_fold gets every state by a sync, or by the fold of a block into an
  -- earlier state, every state that the fold of the set-up gives has the numbers that the node
  -- relies on: the sealed epoch is the first that is not finalized, and the accumulating epoch is
  -- the one after it, or that one itself while none is sealed.
  pub create_descartes_state_fold-StateNumbers :
      (initial h : ℕ) (found : BlockState DescartesV2State)
      → create_descartes_state_fold crate access config initial h ≡ ok found
      → StateNumbers found.state
  unfolding create_descartes_state_fold descartes_delegate new_descartes_delegate
  create_descartes_state_fold-StateNumbers initial h found e =
      let d =
        new_descartes_delegate config.descartes_contract_address
          (create_epoch crate access config) in
      Obtained_invariant (descartes_delegate d) access initial StateNumbers
        (λ b. sync_descartes-StateNumbers d create_epoch-EpochNumbers initial b access)
        (λ previous b _. fold_descartes-StateNumbers d create_epoch-EpochNumbers previous b access)
        (obtains.obtained (descartes_delegate d) config.safety_margin initial h found (λ s. refl) e)
