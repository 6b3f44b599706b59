-- ===== src/Fold/Descartes/Total.antt =====
-- When `convert_raw_to_logical` (offchain/src/fold/descartesv2_delegate.rs) returns a state.
use descartes_v.Base.{
  ℕ, ◌+◌, ◌<◌, ◌≡◌, ◌≢◌, refl, inl, inr, Option, none, some, Bool-cases, ltb, max, ◌==◌,
  if◌then◌else◌,
}
use descartes_v.Outcome.{ok, u256_mod, add_u256_lem}
use descartes_v.Fold.Types.{
  EpochWithClaims, DescartesV2State, ImmutableState, PhaseState, epoch_sealed_awaiting_first_claim,
  awaiting_consensus_no_conflict, awaiting_consensus_after_conflict, consensus_timeout,
}
use descartes_v.Fold.Sealed.{sealed_epoch_no_claims, sealed_epoch_with_claims}
use descartes_v.Fold.Epoch.{ContractPhase, awaiting_consensus, awaiting_dispute, EpochState}
use descartes_v.Fold.Access.{Block}
use descartes_v.Fold.Descartes.{claimed_phase, logical_phase, convert_raw_to_logical}
use descartes_v.Fold.Descartes.Phases.{accumulation_start, current_of}

module _ (constants : ImmutableState) (block : Block) (raw : EpochState) where
  -- No sum of a time and a duration, and no epoch number, leaves the range of `U256`.
  pub record Fits : Type 0 where
    pub accumulation : accumulation_start constants raw + constants.input_duration < u256_mod
    pub following : raw.current_epoch.epoch_number + 1 < u256_mod
    pub challenge :
        (claimed : EpochWithClaims) (round_start : ℕ)
        → raw.current_phase ≡ awaiting_consensus (sealed_epoch_with_claims claimed) round_start
        → max claimed.claims.first_claim_timestamp round_start + constants.challenge_period
          < u256_mod

  abbrev by_clock : EpochWithClaims → (round_start : ℕ) → PhaseState
  by_clock claimed round_start =
      let first = claimed.claims.first_claim_timestamp in
      let last_move = max first round_start in
      if ltb (last_move + constants.challenge_period) block.timestamp
      then consensus_timeout claimed
      else if last_move == first
      then awaiting_consensus_no_conflict claimed
      else awaiting_consensus_after_conflict claimed round_start

  logical_phase_total :
      (p : ContractPhase)
      → raw.current_phase ≡ p
      → Fits
      → ((claimed : EpochWithClaims) → p ≢ awaiting_dispute claimed)
      → (found : PhaseState × Option ℕ) × (logical_phase constants block raw p ≡ ok found)
  unfolding logical_phase claimed_phase
  logical_phase_total ContractPhase.input_accumulation e fits calm =
      elim (Bool-cases
        (ltb (accumulation_start constants raw + constants.input_duration) block.timestamp)) [
          | inl late ↦ (
            (
              epoch_sealed_awaiting_first_claim raw.current_epoch,
              some (raw.current_epoch.epoch_number + 1),
            ),
            rw
                (
                  add_u256_lem (accumulation_start constants raw) constants.input_duration
                      fits.accumulation,
                  late,
                  add_u256_lem raw.current_epoch.epoch_number 1 fits.following,
                )
                refl,
          )
          | inr early ↦ (
            (PhaseState.input_accumulation, none),
            rw
                (
                  add_u256_lem (accumulation_start constants raw) constants.input_duration
                      fits.accumulation,
                  early,
                )
                refl,
          )
        ]
  logical_phase_total (awaiting_consensus (sealed_epoch_no_claims sealed) round_start) e fits calm =
      ((epoch_sealed_awaiting_first_claim sealed, none), refl)
  logical_phase_total (awaiting_consensus (sealed_epoch_with_claims claimed) round_start) e fits
        calm =
      (
        (by_clock claimed round_start, none),
        rw
            (add_u256_lem (max claimed.claims.first_claim_timestamp round_start)
              constants.challenge_period (fits.challenge claimed round_start e))
            refl,
      )
  logical_phase_total (awaiting_dispute claimed) e fits calm = absurd (calm claimed refl)

  -- The conversion returns a state, unless a sum overflows or the contract is in a dispute.
  pub convert_raw_to_logical_total :
      (initial_epoch : ℕ)
      → Fits
      → ((claimed : EpochWithClaims) → raw.current_phase ≢ awaiting_dispute claimed)
      → (s : DescartesV2State) × (convert_raw_to_logical raw constants block initial_epoch ≡ ok s)
  unfolding convert_raw_to_logical
  convert_raw_to_logical_total initial_epoch fits calm =
      let (found, p) = logical_phase_total raw.current_phase refl fits calm in
      (
        record {
          constants = constants;
          initial_epoch = initial_epoch;
          finalized_epochs = raw.finalized_epochs;
          current_epoch = current_of constants block raw found.1;
          current_phase = found.0;
        },
        rw p refl,
      )
