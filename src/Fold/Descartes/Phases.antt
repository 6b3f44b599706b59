-- ===== src/Fold/Descartes/Phases.antt =====
-- The logical phase by the clock: which phase `convert_raw_to_logical` gives, and when.
use descartes_v.Base.{
  ℕ, ◌+◌, ◌≤◌, ◌<◌, ◌≡◌, refl, inl, inr, Option, none, some, Bool-cases, arith, ltb, max,
}
use descartes_v.Outcome.{ok, add_u256, add_u256-eq-ok, >>=-eq-ok}
use descartes_v.Fold.Types.{
  AccumulatingEpoch, EpochWithClaims, DescartesV2State, ImmutableState, PhaseState,
  epoch_sealed_awaiting_first_claim, awaiting_consensus_no_conflict,
  awaiting_consensus_after_conflict, consensus_timeout, new_accumulating_epoch,
}
use descartes_v.Fold.Sealed.{sealed_epoch_no_claims, sealed_epoch_with_claims}
use descartes_v.Fold.Epoch.{ContractPhase, awaiting_consensus, awaiting_dispute, EpochState}
use descartes_v.Fold.Access.{Block, FoldError}
use descartes_v.Fold.Descartes.{claimed_phase, logical_phase, convert_raw_to_logical}

-- The start of the input accumulation: the last phase change, or the contract's creation.
abbrev pub accumulation_start : ImmutableState → EpochState → ℕ
accumulation_start constants raw = elim raw.phase_change_timestamp [
  | none ↦ constants.contract_creation_timestamp
  | some ts ↦ ts
]

module _ (constants : ImmutableState) (now : ℕ) (raw : EpochState) where
  -- The phases as the comments of `PhaseState` describe them, at the time `now`.
  pub data PhaseAt (phase : PhaseState) (current : AccumulatingEpoch) : Type 0 where
    accumulating :
        raw.current_phase ≡ ContractPhase.input_accumulation
        → now ≤ accumulation_start constants raw + constants.input_duration
        → phase ≡ PhaseState.input_accumulation
        → current ≡ raw.current_epoch
        → PhaseAt phase current
    expired :
        raw.current_phase ≡ ContractPhase.input_accumulation
        → accumulation_start constants raw + constants.input_duration < now
        → phase ≡ epoch_sealed_awaiting_first_claim raw.current_epoch
        → current ≡ new_accumulating_epoch (raw.current_epoch.epoch_number + 1)
        → PhaseAt phase current
    unclaimed :
        (sealed : AccumulatingEpoch) (round_start : ℕ)
        → raw.current_phase ≡ awaiting_consensus (sealed_epoch_no_claims sealed) round_start
        → phase ≡ epoch_sealed_awaiting_first_claim sealed
        → current ≡ raw.current_epoch
        → PhaseAt phase current
    timed_out :
        (claimed : EpochWithClaims) (round_start : ℕ)
        → raw.current_phase ≡ awaiting_consensus (sealed_epoch_with_claims claimed) round_start
        → claimed.claims.first_claim_timestamp + constants.challenge_period < now
        → round_start + constants.challenge_period < now
        → phase ≡ consensus_timeout claimed
        → current ≡ raw.current_epoch
        → PhaseAt phase current
    first_round :
        (claimed : EpochWithClaims) (round_start : ℕ)
        → raw.current_phase ≡ awaiting_consensus (sealed_epoch_with_claims claimed) round_start
        → round_start ≤ claimed.claims.first_claim_timestamp
        → now ≤ claimed.claims.first_claim_timestamp + constants.challenge_period
        → phase ≡ awaiting_consensus_no_conflict claimed
        → current ≡ raw.current_epoch
        → PhaseAt phase current
    later_round :
        (claimed : EpochWithClaims) (round_start : ℕ)
        → raw.current_phase ≡ awaiting_consensus (sealed_epoch_with_claims claimed) round_start
        → claimed.claims.first_claim_timestamp < round_start
        → now ≤ round_start + constants.challenge_period
        → phase ≡ awaiting_consensus_after_conflict claimed round_start
        → current ≡ raw.current_epoch
        → PhaseAt phase current

module _ (constants : ImmutableState) (block : Block) (raw : EpochState) where
  abbrev pub current_of : Option ℕ → AccumulatingEpoch
  current_of o = elim o [ none ↦ raw.current_epoch | some n ↦ new_accumulating_epoch n ]

  phase_of_claimed :
      (claimed : EpochWithClaims) (round_start : ℕ) {phase : PhaseState}
      → raw.current_phase ≡ awaiting_consensus (sealed_epoch_with_claims claimed) round_start
      → claimed_phase constants block round_start claimed ≡ ok phase
      → PhaseAt constants block.timestamp raw phase raw.current_epoch
  unfolding claimed_phase
  phase_of_claimed claimed round_start {phase} e h =
      let (deadline, sum, rest) =
        >>=-eq-ok {E = FoldError}
          (add_u256 (max claimed.claims.first_claim_timestamp round_start)
            constants.challenge_period)
          _ h in
      let (eq, bound) =
        add_u256-eq-ok {E = FoldError} (max claimed.claims.first_claim_timestamp round_start)
          constants.challenge_period sum in
      elim (Bool-cases (ltb deadline block.timestamp)) [
        | inl late ↦
            timed_out claimed round_start e (ground arith) (ground arith) (ground arith) refl
        | inr early ↦ elim (Bool-cases (ltb claimed.claims.first_claim_timestamp round_start)) [
          | inl after ↦
              later_round claimed round_start e (ground arith) (ground arith) (ground arith) refl
          | inr before ↦
              first_round claimed round_start e (ground arith) (ground arith) (ground arith) refl
        ]
      ]

  phase_of_raw :
      (p : ContractPhase) (found : PhaseState × Option ℕ)
      → raw.current_phase ≡ p
      → logical_phase constants block raw p ≡ ok found
      → PhaseAt constants block.timestamp raw found.0 (current_of found.1)
  unfolding logical_phase
  phase_of_raw ContractPhase.input_accumulation found e h =
      let (deadline, sum, rest) =
        >>=-eq-ok {E = FoldError}
          (add_u256 (accumulation_start constants raw) constants.input_duration) _ h in
      let (eq, bound) =
        add_u256-eq-ok {E = FoldError} (accumulation_start constants raw) constants.input_duration
          sum in
      elim (Bool-cases (ltb deadline block.timestamp)) [
        | inl late ↦
            let (following, next, last) =
              >>=-eq-ok {E = FoldError} (add_u256 raw.current_epoch.epoch_number 1) _
                (rw late at rest) in
            let (one, _) = add_u256-eq-ok {E = FoldError} raw.current_epoch.epoch_number 1 next in
            let same : (epoch_sealed_awaiting_first_claim raw.current_epoch, some following)
                ≡ found =
              cc in
            rw (← same, one) (expired e (ground arith) refl refl)
        | inr early ↦
            let same : (PhaseState.input_accumulation, none) ≡ found = cc (rw early at rest) in
            rw (← same) (accumulating e (ground arith) refl refl)
      ]
  phase_of_raw (awaiting_consensus (sealed_epoch_no_claims sealed) round_start) found e h =
      let same : (epoch_sealed_awaiting_first_claim sealed, none) ≡ found = cc in
      rw (← same) (unclaimed sealed round_start e refl refl)
  phase_of_raw (awaiting_consensus (sealed_epoch_with_claims claimed) round_start) found e h =
      let (phase, p, rest) =
        >>=-eq-ok {E = FoldError} (claimed_phase constants block round_start claimed) _ h in
      let same : (phase, none) ≡ found = cc in
      rw (← same) (phase_of_claimed claimed round_start e p)
  phase_of_raw (awaiting_dispute claimed) found e h = cc

  -- Whatever `convert_raw_to_logical` returns, the phase and the accumulating epoch are those
  -- that the times call for; the constants and the finalized epochs are passed on.
  pub convert_raw_to_logical-PhaseAt :
      (initial_epoch : ℕ) (s : DescartesV2State)
      → convert_raw_to_logical raw constants block initial_epoch ≡ ok s
      → PhaseAt constants block.timestamp raw s.current_phase s.current_epoch
        × (s.constants ≡ constants)
        × (s.initial_epoch ≡ initial_epoch)
        × (s.finalized_epochs ≡ raw.finalized_epochs)
  unfolding convert_raw_to_logical
  convert_raw_to_logical-PhaseAt initial_epoch s h =
      let (found, p, rest) =
        >>=-eq-ok {E = FoldError} (logical_phase constants block raw raw.current_phase) _ h in
      let same : record {
        constants = constants;
        initial_epoch = initial_epoch;
        finalized_epochs = raw.finalized_epochs;
        current_epoch = current_of found.1;
        current_phase = found.0;
      }
          ≡ s =
        cc in
      rw (← same) (phase_of_raw raw.current_phase found refl p, refl, refl, refl)
