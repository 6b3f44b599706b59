-- ===== src/Fold/Sealed/Replay.antt =====
-- The fold of a sealed epoch gathers the same claims by sync and by fold.
use descartes_v.Base.{
  ℕ, ◌≡◌, ◌≢◌, refl, ◌∙◌, ap, true, false, inl, inr, Option, none, some, List, [], ◌∷◌, ◌++◌,
  Bool-cases, Option-cases, All,
}
use descartes_v.Outcome.{ok, >>=-eq-ok}
use descartes_v.Fold.Types.{EpochInputState, Claims}
use descartes_v.Fold.Claims.{new_claims, insert_claim}
use descartes_v.Fold.Accumulating.{get_inputs}
use descartes_v.Fold.Access.{Access, Block, ClaimFilter, LogMeta}
use descartes_v.Fold.Replay.{Grows, Linked, last_block, replay, Agree, replay-eq-sync}
use descartes_v.Fold.Sealed.{
  SealedEpochFoldDelegate, SealedEpochState, sealed_epoch_no_claims, sealed_epoch_with_claims,
  epoch_number, add_claims_sync, add_claims_fold, sync_sealed, fold_sealed, may_have_claims,
}

-- The claims with those of the events added in order.
abbrev pub insert_all : Claims → List (ClaimFilter × LogMeta) → Claims
insert_all c [] = c
insert_all c ((ev, _) ∷ events) = insert_all (insert_claim c ev.epoch_hash ev.claimer) events

-- The claims of a list of events whose first was mined at `timestamp`.
abbrev pub first_claims :
    (timestamp : ℕ) → ClaimFilter × LogMeta → List (ClaimFilter × LogMeta) → Claims
first_claims timestamp (ev, _) events =
    insert_all (new_claims ev.epoch_hash ev.claimer timestamp) events

insert_all-append :
    (c : Claims) (xs ys : List (ClaimFilter × LogMeta))
    → insert_all c (xs ++ ys) ≡ insert_all (insert_all c xs) ys
insert_all-append c [] ys = refl
insert_all-append c ((ev, _) ∷ xs) ys =
    insert_all-append (insert_claim c ev.epoch_hash ev.claimer) xs ys

pub add_claims_sync-some :
    (A : Access) (c : Claims) (events : List (ClaimFilter × LogMeta))
    → add_claims_sync A (some c) events ≡ ok (some (insert_all c events))
unfolding add_claims_sync
add_claims_sync-some A c [] = refl
add_claims_sync-some A c ((ev, _) ∷ events) =
    add_claims_sync-some A (insert_claim c ev.epoch_hash ev.claimer) events

pub add_claims_fold-some :
    (timestamp : ℕ) (c : Claims) (events : List (ClaimFilter × LogMeta))
    → add_claims_fold timestamp (some c) events ≡ some (insert_all c events)
unfolding add_claims_fold
add_claims_fold-some timestamp c [] = refl
add_claims_fold-some timestamp c ((ev, _) ∷ events) =
    add_claims_fold-some timestamp (insert_claim c ev.epoch_hash ev.claimer) events

abbrev pub with_claims : ℕ → Claims → EpochInputState → SealedEpochState
with_claims epoch c i =
    sealed_epoch_with_claims (record { epoch_number = epoch; claims = c; inputs = i })

abbrev pub no_claims : ℕ → EpochInputState → SealedEpochState
no_claims epoch i = sealed_epoch_no_claims (record { epoch_number = epoch; inputs = i })

module _ (A : Access) (d : SealedEpochFoldDelegate) (epoch : ℕ) where
  -- What is assumed of a block and its child: the access answers as documented, the logs of a
  -- block bear its hash, by which the block is found, and the epoch is sealed, so its inputs stay.
  pub record ClaimLink (b c : Block) : Type 0 where
    pub grows :
        Grows
          (λ n. A.claim_until d.descartesv2_address n epoch)
          (λ h. A.claim_at d.descartesv2_address h epoch)
          b
          c
    pub bloom : may_have_claims d epoch c A ≡ false → grows.new ≡ []
    pub mined : All (λ (e : ClaimFilter × LogMeta). e.1.block_hash ≡ c.hash) grows.new
    pub found : A.get_block c.hash ≡ some (some c)
    pub inputs_stay : get_inputs d.input_fold epoch c.hash ≡ get_inputs d.input_fold epoch b.hash

  sync_sealed_nil :
      (b : Block) (i : EpochInputState)
      → get_inputs d.input_fold epoch b.hash ≡ ok i
      → A.claim_until d.descartesv2_address b.number epoch ≡ some []
      → sync_sealed d epoch b A ≡ ok (no_claims epoch i)
  unfolding sync_sealed
  sync_sealed_nil b i p q = rw (p, q)

  -- The state of an epoch with claims: each claim is recorded for its claimer, and the time is
  -- that of the block of the first one.
  pub sync_sealed_cons :
      (b : Block) (i : EpochInputState) (ev : ClaimFilter × LogMeta)
      (rest : List (ClaimFilter × LogMeta)) (first : Block)
      → get_inputs d.input_fold epoch b.hash ≡ ok i
      → A.claim_until d.descartesv2_address b.number epoch ≡ some (ev ∷ rest)
      → A.get_block ev.1.block_hash ≡ some (some first)
      → sync_sealed d epoch b A ≡ ok (with_claims epoch (first_claims first.timestamp ev rest) i)
  unfolding sync_sealed add_claims_sync
  sync_sealed_cons b i ev rest first p q r = rw (p, q, r, add_claims_sync-some A)

  fold_sealed_nil :
      (s : SealedEpochState) (c : Block)
      → A.claim_at d.descartesv2_address c.hash (epoch_number s) ≡ some []
      → fold_sealed d s c A ≡ ok s
  unfolding fold_sealed
  fold_sealed_nil s c e = elim (Bool-cases (may_have_claims d (epoch_number s) c A)) [
    | inl hit ↦ rw (hit, e)
    | inr miss ↦ rw miss
  ]

  fold_sealed_first :
      (i : EpochInputState) (c : Block) (ev : ClaimFilter × LogMeta)
      (rest : List (ClaimFilter × LogMeta))
      → A.claim_at d.descartesv2_address c.hash epoch ≡ some (ev ∷ rest)
      → may_have_claims d epoch c A ≡ true
      → fold_sealed d (no_claims epoch i) c A
        ≡ ok (with_claims epoch (first_claims c.timestamp ev rest) i)
  unfolding fold_sealed add_claims_fold
  fold_sealed_first i c ev rest e hit = rw (hit, e, add_claims_fold-some c.timestamp)

  fold_sealed_more :
      (cl : Claims) (i : EpochInputState) (c : Block) (ev : ClaimFilter × LogMeta)
      (rest : List (ClaimFilter × LogMeta))
      → A.claim_at d.descartesv2_address c.hash epoch ≡ some (ev ∷ rest)
      → may_have_claims d epoch c A ≡ true
      → fold_sealed d (with_claims epoch cl i) c A
        ≡ ok (with_claims epoch (insert_all cl (ev ∷ rest)) i)
  unfolding fold_sealed add_claims_fold
  fold_sealed_more cl i c ev rest e hit = rw (hit, e, add_claims_fold-some c.timestamp)

  fold_sealed_all :
      (cl : Claims) (i : EpochInputState) (c : Block) (new : List (ClaimFilter × LogMeta))
      → A.claim_at d.descartesv2_address c.hash epoch ≡ some new
      → (new ≢ [] → may_have_claims d epoch c A ≡ true)
      → fold_sealed d (with_claims epoch cl i) c A ≡ ok (with_claims epoch (insert_all cl new) i)
  unfolding epoch_number
  fold_sealed_all cl i c [] e hit = fold_sealed_nil (with_claims epoch cl i) c e
  fold_sealed_all cl i c (ev ∷ rest) e hit = fold_sealed_more cl i c ev rest e (hit (λ p. cc))

  inputs_of_synced :
      (b : Block) (s : SealedEpochState)
      → sync_sealed d epoch b A ≡ ok s
      → (i : EpochInputState) × (get_inputs d.input_fold epoch b.hash ≡ ok i)
  unfolding sync_sealed
  inputs_of_synced b s synced =
      let (i, p, _) = >>=-eq-ok (get_inputs d.input_fold epoch b.hash) _ synced in (i, p)

  first_added :
      (ev : ClaimFilter × LogMeta) (rest : List (ClaimFilter × LogMeta)) {r : Option Claims}
      → add_claims_sync A none (ev ∷ rest) ≡ ok r
      → (first : Block) × (A.get_block ev.1.block_hash ≡ some (some first))
  unfolding add_claims_sync
  first_added ev rest h = elim (Option-cases (A.get_block ev.1.block_hash)) [
    | inl failed ↦ cc (rw failed at h)
    | inr (answer, p) ↦ elim (Option-cases answer) [
      | inl missing ↦ cc (rw (p, missing) at h)
      | inr (first, q) ↦ (first, p ∙ ap some q)
    ]
  ]

  -- A sync that succeeds has found the block of its first claim.
  first_block :
      (b : Block) (s : SealedEpochState) (ev : ClaimFilter × LogMeta)
      (rest : List (ClaimFilter × LogMeta))
      → A.claim_until d.descartesv2_address b.number epoch ≡ some (ev ∷ rest)
      → sync_sealed d epoch b A ≡ ok s
      → (first : Block) × (A.get_block ev.1.block_hash ≡ some (some first))
  unfolding sync_sealed
  first_block b s ev rest q synced =
      let (i, p, after) = >>=-eq-ok (get_inputs d.input_fold epoch b.hash) _ synced in
      let (r, added, _) = >>=-eq-ok (add_claims_sync A none (ev ∷ rest)) _ (rw q at after) in
      first_added ev rest added

  -- The step, by whether there were claims at `b` and whether `c` brings any.
  claims_step_by :
      (b c : Block) (s : SealedEpochState) (i : EpochInputState)
      (old new : List (ClaimFilter × LogMeta))
      → get_inputs d.input_fold epoch b.hash ≡ ok i
      → get_inputs d.input_fold epoch c.hash ≡ ok i
      → A.claim_until d.descartesv2_address b.number epoch ≡ some old
      → A.claim_until d.descartesv2_address c.number epoch ≡ some (old ++ new)
      → A.claim_at d.descartesv2_address c.hash epoch ≡ some new
      → (new ≢ [] → may_have_claims d epoch c A ≡ true)
      → All (λ (e : ClaimFilter × LogMeta). e.1.block_hash ≡ c.hash) new
      → A.get_block c.hash ≡ some (some c)
      → sync_sealed d epoch b A ≡ ok s
      → Agree (λ b. sync_sealed d epoch b A) (λ s b. fold_sealed d s b A) s c
  unfolding epoch_number
  claims_step_by b c s i [] [] ib ic ub uc at hit mined found synced =
      let same : no_claims epoch i ≡ s = cc (sync_sealed_nil b i ib ub, synced) in
      (
        no_claims epoch i,
        rw (← same) (fold_sealed_nil (no_claims epoch i) c at),
        sync_sealed_nil c i ic uc,
      )
  claims_step_by b c s i [] (ev ∷ rest) ib ic ub uc at hit mined found synced =
      let same : no_claims epoch i ≡ s = cc (sync_sealed_nil b i ib ub, synced) in
      (
        with_claims epoch (first_claims c.timestamp ev rest) i,
        rw (← same) (fold_sealed_first i c ev rest at (hit (λ e. cc))),
        sync_sealed_cons c i ev rest c ic uc (ap A.get_block mined.0 ∙ found),
      )
  claims_step_by b c s i (o ∷ old) new ib ic ub uc at hit mined found synced =
      let (first, f) = first_block b s o old ub synced in
      let cl : Claims = first_claims first.timestamp o old in
      let same : with_claims epoch cl i ≡ s =
        cc (sync_sealed_cons b i o old first ib ub f, synced) in
      let last = sync_sealed_cons c i o (old ++ new) first ic uc f in
      (
        with_claims epoch (insert_all cl new) i,
        rw (← same) (fold_sealed_all cl i c new at hit),
        last ∙ ap (λ (x : Claims). ok (with_claims epoch x i)) (insert_all-append _ old new),
      )

  claims_step :
      (b c : Block) (s : SealedEpochState)
      → ClaimLink b c
      → sync_sealed d epoch b A ≡ ok s
      → Agree (λ b. sync_sealed d epoch b A) (λ s b. fold_sealed d s b A) s c
  claims_step b c s link synced =
      let (i, ib) = inputs_of_synced b s synced in
      let g = link.grows in
      claims_step_by b c s i g.old g.new ib (link.inputs_stay ∙ ib) g.until_parent g.until_child
        g.at_child hit link.mined link.found synced
    where
      hit : link.grows.new ≢ [] → may_have_claims d epoch c A ≡ true
      hit some_claims = elim (Bool-cases (may_have_claims d epoch c A)) [
        | inl h ↦ h
        | inr miss ↦ absurd (some_claims (link.bloom miss))
      ]

  -- After a sync of a sealed epoch at a block, folding over any blocks that follow it, each linked
  -- to the one before, gives the claims, their time and the inputs that a sync at the last of them
  -- gives.
  pub replay_claims-eq-sync :
      (b : Block) (bs : List Block) (s : SealedEpochState)
      → Linked ClaimLink b bs
      → sync_sealed d epoch b A ≡ ok s
      → (s' : SealedEpochState) × (replay (λ s b. fold_sealed d s b A) s bs ≡ ok s')
        × (sync_sealed d epoch (last_block b bs) A ≡ ok s')
  replay_claims-eq-sync =
      replay-eq-sync ClaimLink (λ b. sync_sealed d epoch b A) (λ s b. fold_sealed d s b A)
        claims_step
