-- ===== src/Fold/Sealed.antt =====
-- `SealedEpochFoldDelegate` (offchain/src/fold/sealed_epoch_delegate.rs): an epoch that takes no
-- more inputs, with the claims made for it.
pub mod Replay
pub mod Claimed
pub mod Order
use descartes_v.Base.{ℕ, Bool, not, ◌&&◌, Option, none, some, List, [], ◌∷◌, if◌then◌else◌}
use descartes_v.Outcome.{ok, ok_or, unwrap, ◌>>=◌}
use descartes_v.Fold.Types.{EpochInputState, Claims, AccumulatingEpoch, EpochWithClaims}
use descartes_v.Fold.Claims.{new_claims, insert_claim}
use descartes_v.Fold.Accumulating.{get_inputs}
use descartes_v.Fold.Access.{
  Access, Block, BlockState, Fold, StateFold, ClaimFilter, LogMeta, StateFoldDelegate,
  contract_error, access_error, block_not_found, uint, signature, claim,
}

pub data SealedEpochState : Type 0 where
  sealed_epoch_no_claims : AccumulatingEpoch → SealedEpochState
  sealed_epoch_with_claims : EpochWithClaims → SealedEpochState

-- `SealedEpochState::epoch_number`
unfoldable pub epoch_number : SealedEpochState → ℕ
epoch_number (sealed_epoch_no_claims e) = e.epoch_number
epoch_number (sealed_epoch_with_claims e) = e.epoch_number

-- `SealedEpochState::claims`
unfoldable pub claims : SealedEpochState → Option Claims
claims (sealed_epoch_no_claims e) = none
claims (sealed_epoch_with_claims e) = some e.claims

-- `SealedEpochState::inputs`
unfoldable pub inputs : SealedEpochState → EpochInputState
inputs (sealed_epoch_no_claims e) = e.inputs
inputs (sealed_epoch_with_claims e) = e.inputs

pub record SealedEpochFoldDelegate : Type 0 where
  pub descartesv2_address : ℕ
  pub input_fold : StateFold EpochInputState

-- `SealedEpochFoldDelegate::new`
unfoldable pub new_sealed_delegate : ℕ → StateFold EpochInputState → SealedEpochFoldDelegate
new_sealed_delegate address input_fold = record {
  descartesv2_address = address;
  input_fold = input_fold;
}

-- The loop of `sync`: the first claim looks up the time of its block.
unfoldable pub add_claims_sync :
    Access → Option Claims → List (ClaimFilter × LogMeta) → Fold (Option Claims)
add_claims_sync access claims [] = ok claims
add_claims_sync access none ((ev, meta) ∷ events) = do
  found ← ok_or access_error (access.get_block meta.block_hash)
  block ← ok_or block_not_found found
  add_claims_sync access (some (new_claims ev.epoch_hash ev.claimer block.timestamp)) events
add_claims_sync access (some c) ((ev, meta) ∷ events) =
    add_claims_sync access (some (insert_claim c ev.epoch_hash ev.claimer)) events

-- The loop of `fold`: a first claim has the time of the block.
unfoldable pub add_claims_fold :
    (timestamp : ℕ) → Option Claims → List (ClaimFilter × LogMeta) → Option Claims
add_claims_fold timestamp claims [] = claims
add_claims_fold timestamp none ((ev, _) ∷ events) =
    add_claims_fold timestamp (some (new_claims ev.epoch_hash ev.claimer timestamp)) events
add_claims_fold timestamp (some c) ((ev, _) ∷ events) =
    add_claims_fold timestamp (some (insert_claim c ev.epoch_hash ev.claimer)) events

module _ (d : SealedEpochFoldDelegate) where
  unfoldable pub sync_sealed : ℕ → Block → Access → Fold SealedEpochState
  unfolding get_inputs add_claims_sync
  sync_sealed epoch block access = do
    inputs ← get_inputs d.input_fold epoch block.hash
    events ←
        ok_or (contract_error claim) (access.claim_until d.descartesv2_address block.number epoch)
    elim events [
      | [] ↦ ok (sealed_epoch_no_claims (record { epoch_number = epoch; inputs = inputs }))
      | ev ∷ rest ↦ do
        added ← add_claims_sync access none (ev ∷ rest)
        claims ← unwrap added
        ok (
            sealed_epoch_with_claims
              (record { epoch_number = epoch; claims = claims; inputs = inputs }))
    ]

  -- The test of the bloom filter that opens `fold`.
  abbrev pub may_have_claims : (epoch : ℕ) → Block → Access → Bool
  may_have_claims epoch block access =
      access.contains_address block.logs_bloom d.descartesv2_address
      && access.contains_topic block.logs_bloom (uint epoch)
      && access.contains_topic block.logs_bloom (signature claim)

  unfoldable pub fold_sealed : SealedEpochState → Block → Access → Fold SealedEpochState
  unfolding epoch_number claims inputs add_claims_fold
  fold_sealed previous block access =
      if not (may_have_claims (epoch_number previous) block access) then ok previous else (do
        events ←
            ok_or (contract_error claim)
              (access.claim_at d.descartesv2_address block.hash (epoch_number previous))
        elim events [
          | [] ↦ ok previous
          | ev ∷ rest ↦ do
            added ← unwrap (add_claims_fold block.timestamp (claims previous) (ev ∷ rest))
            ok (
                sealed_epoch_with_claims (record {
                  epoch_number = epoch_number previous;
                  claims = added;
                  inputs = inputs previous;
                }))
        ])

  unfoldable pub sealed_delegate : StateFoldDelegate SealedEpochState
  unfolding sync_sealed fold_sealed
  sealed_delegate = record { sync = sync_sealed; fold = fold_sealed; convert = λ s. s }
