-- ===== src/Fold/Input/Replay.antt =====
-- The input fold collects the epoch's events in order, by sync and by fold alike.
use descartes_v.Base.{
  ℕ, ◌≡◌, refl, ◌∙◌, sym, ap, false, inl, inr, some, List, [], ◌∷◌, ◌++◌, map, append-nil,
  append_assoc, map-append, Bool-cases,
}
use descartes_v.Outcome.{ok}
use descartes_v.Fold.Types.{Input, EpochInputState}
use descartes_v.Fold.Access.{Access, Block, InputAddedFilter}
use descartes_v.Fold.Replay.{Grows, Linked, last_block, replay, Agree, replay-eq-sync}
use descartes_v.Fold.Input.{
  InputFoldDelegate, from_event, push_events, sync_inputs, fold_inputs, may_have_inputs,
}

pub push_events_lem :
    (inputs : List Input) (events : List InputAddedFilter)
    → push_events inputs events ≡ inputs ++ map from_event events
unfolding push_events
push_events_lem inputs [] = sym (append-nil inputs)
push_events_lem inputs (ev ∷ events) =
    push_events_lem (inputs ++ from_event ev ∷ []) events ∙ append_assoc inputs _ _

-- The inputs of an epoch with these events.
abbrev pub collected : ℕ → List InputAddedFilter → EpochInputState
collected epoch events = record { epoch_number = epoch; inputs = map from_event events }

module _ (A : Access) (d : InputFoldDelegate) (epoch : ℕ) where
  -- What the access documents of a block and its child: `Grows`, and a bloom filter that has no
  -- false negatives.
  pub record InputLink (b c : Block) : Type 0 where
    pub grows :
        Grows
          (λ n. A.input_added_until d.input_address n epoch)
          (λ h. A.input_added_at d.input_address h epoch)
          b
          c
    pub bloom : may_have_inputs d c A ≡ false → grows.new ≡ []

  -- A sync returns the events up to the block as inputs, none lost, added or moved.
  pub sync_inputs_lem :
      (b : Block) (events : List InputAddedFilter)
      → A.input_added_until d.input_address b.number epoch ≡ some events
      → sync_inputs d epoch b A ≡ ok (collected epoch events)
  unfolding sync_inputs
  sync_inputs_lem b events e = rw e (
      ap (λ (l : List Input). ok (record { epoch_number = epoch; inputs = l }))
        (push_events_lem [] events))

  fold_inputs_lem :
      (b c : Block) (old new : List InputAddedFilter)
      → A.input_added_at d.input_address c.hash epoch ≡ some new
      → (may_have_inputs d c A ≡ false → new ≡ [])
      → fold_inputs d (collected epoch old) c A ≡ ok (collected epoch (old ++ new))
  unfolding fold_inputs
  fold_inputs_lem b c old new e bloom = elim (Bool-cases (may_have_inputs d c A)) [
    | inl hit ↦ rw (hit, e) (rw (push_events_lem, map-append))
    | inr miss ↦ rw (miss, bloom miss, append-nil) refl
  ]

  inputs_step :
      (b c : Block) (s : EpochInputState)
      → InputLink b c
      → sync_inputs d epoch b A ≡ ok s
      → Agree (λ b. sync_inputs d epoch b A) (λ s b. fold_inputs d s b A) s c
  inputs_step b c s link synced =
      let g = link.grows in
      let same : collected epoch g.old ≡ s = cc (sync_inputs_lem b g.old g.until_parent, synced) in
      (
        collected epoch (g.old ++ g.new),
        rw (← same) (fold_inputs_lem b c g.old g.new g.at_child link.bloom),
        sync_inputs_lem c (g.old ++ g.new) g.until_child,
      )

  -- After a sync at a block, folding over any blocks that follow it, each linked to the one
  -- before, gives the inputs that a sync at the last of them gives.
  pub replay_inputs-eq-sync :
      (b : Block) (bs : List Block) (s : EpochInputState)
      → Linked InputLink b bs
      → sync_inputs d epoch b A ≡ ok s
      → (s' : EpochInputState) × (replay (λ s b. fold_inputs d s b A) s bs ≡ ok s')
        × (sync_inputs d epoch (last_block b bs) A ≡ ok s')
  replay_inputs-eq-sync =
      replay-eq-sync InputLink (λ b. sync_inputs d epoch b A) (λ s b. fold_inputs d s b A)
        inputs_step
