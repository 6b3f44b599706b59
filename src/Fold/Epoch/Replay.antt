-- ===== src/Fold/Epoch/Replay.antt =====
-- The raw state of the contract by fold against the one by sync: they agree as long as the bloom
-- filter lets no block through that has no phase change, and differ on such a block.
use descartes_v.Base.{
  ℕ, ◌+◌, ◌≡◌, ◌≢◌, refl, ◌∙◌, sym, ap, true, false, inl, inr, Option, none, some, List, [], ◌∷◌,
  ◌++◌, map, append-nil, get_last?, get_last?-append, Bool-cases, All, All-last, get_last?-map,
}
use mathlib.Core.Path.{fun_ext, subst}
use descartes_v.Outcome.{ok, unwrap, >>=-eq-ok, ◌>>=◌}
use descartes_v.Fold.Types.{AccumulatingEpoch, FinalizedEpochs}
use descartes_v.Fold.Access.{Access, Block, Fold, PhaseChangeFilter, LogMeta}
use descartes_v.Fold.Epoch.{
  ContractPhase, input_accumulation, awaiting_consensus, EpochState, EpochFoldDelegate, get_state,
  time_of_last, event_of, sync_epoch, may_have_changed, update_phase, fold_unchanged, fold_changed,
  fold_epoch,
}
use descartes_v.Fold.Epoch.Answers.{Answers, phase_by, phase_of_event_lem, updated_lem, seq_lem}

module _ (A : Access) (d : EpochFoldDelegate) (initial : ℕ) where
  -- What is assumed of a block and its child: the access answers as documented, logs bear the
  -- hash of their block, the folds below answer, and no epoch is finalized without a phase
  -- change, as in the contract. Of the bloom filter nothing is assumed here.
  pub record PhaseLink (b c : Block) : Type 0 where
    pub old : List (PhaseChangeFilter × LogMeta)
    pub new : List (PhaseChangeFilter × LogMeta)
    pub until_parent : A.phase_change_until d.descartesv2_address b.number ≡ some old
    pub until_child : A.phase_change_until d.descartesv2_address c.number ≡ some (old ++ new)
    pub at_child : A.phase_change_at d.descartesv2_address c.hash ≡ some (map (λ e. e.0) new)
    pub mined : All (λ (e : PhaseChangeFilter × LogMeta). e.1.block_hash ≡ c.hash) new
    pub found : A.get_block c.hash ≡ some (some c)
    pub parent : Answers d initial b.hash
    pub child : Answers d initial c.hash
    pub finalized_stay : new ≡ [] → child.finalized ≡ parent.finalized

  abbrev pub assemble : FinalizedEpochs → Option ℕ → ContractPhase × AccumulatingEpoch → EpochState
  assemble finalized timestamp found = record {
    initial_epoch = initial;
    current_phase = found.0;
    finalized_epochs = finalized;
    current_epoch = found.1;
    phase_change_timestamp = timestamp;
  }

  -- A sync by its parts.
  pub sync_epoch_lem :
      (b : Block) (events : List (PhaseChangeFilter × LogMeta)) (a : Answers d initial b.hash)
      → A.phase_change_until d.descartesv2_address b.number ≡ some events
      → sync_epoch d initial b A ≡ (do
        timestamp ← time_of_last d A (get_last? events)
        found ← phase_by d initial a a.next (unwrap timestamp) (event_of d (get_last? events))
        ok (assemble a.finalized timestamp found))
  unfolding sync_epoch
  sync_epoch_lem b events a e =
      rw (a.finalized_answer, a.next_answer, e)
        (ap (λ (k : Option ℕ → Fold EpochState). time_of_last d A (get_last? events) >>= k)
          (fun_ext (λ t.
            ap
              (λ (m : Fold (ContractPhase × AccumulatingEpoch)).
                m >>= λ f. ok (assemble a.finalized t f))
              (phase_of_event_lem d initial b.hash a a.next (unwrap t) _ a.room))))

  unchanged_lem :
      (b c : Block) (s : EpochState) (link : PhaseLink b c)
      → link.new ≡ []
      → sync_epoch d initial b A ≡ ok s
      → fold_unchanged d s c ≡ sync_epoch d initial c A
  unfolding fold_unchanged
  unchanged_lem b c s link quiet synced =
      let parts = sync_epoch_lem b link.old link.parent link.until_parent in
      let (t, time, rest) =
        >>=-eq-ok (time_of_last d A (get_last? link.old)) _ (sym parts ∙ synced) in
      let (found, phase, rest') =
        >>=-eq-ok
          (phase_by d initial link.parent link.parent.next (unwrap t)
            (event_of d (get_last? link.old)))
          _ rest in
      let same : assemble link.parent.finalized t found ≡ s = cc in
      let until : A.phase_change_until d.descartesv2_address c.number ≡ some link.old =
        link.until_child ∙ rw (quiet, append-nil) in
      let stay = link.finalized_stay quiet in
      let next_same : link.child.next ≡ link.parent.next =
        cc (link.child.next_answer, link.parent.next_answer, stay) in
      let last = get_last? link.old in
      rw (← same) (
        sym (
          seq_lem (get_state d.accumulating_epoch_fold found.1.epoch_number c.hash)
            (update_phase d c.hash found.0) (λ f. ok (assemble link.parent.finalized t f)))
        ∙ ap
            (λ (m : Fold (ContractPhase × AccumulatingEpoch)).
              m >>= λ f. ok (assemble link.parent.finalized t f))
            (updated_lem d initial b.hash c.hash link.parent link.child link.parent.next (unwrap t)
              (event_of d last) found phase)
        ∙ sym (
            sync_epoch_lem c link.old link.child until ∙ rw time refl ∙ λ i.
            phase_by d initial link.child (next_same i) (unwrap t) (event_of d last) >>= λ f.
            ok (assemble (stay i) t f)))

  time_of_last_found :
      (b : Block) (e : PhaseChangeFilter × LogMeta)
      → A.get_block e.1.block_hash ≡ some (some b)
      → time_of_last d A (some e) ≡ ok (some b.timestamp)
  unfolding time_of_last
  time_of_last_found b e found = rw found

  changed_lem :
      (c : Block) (s : EpochState) (a : Answers d initial c.hash)
      (old : List (PhaseChangeFilter × LogMeta)) (e : PhaseChangeFilter × LogMeta)
      (es : List (PhaseChangeFilter × LogMeta))
      → A.phase_change_until d.descartesv2_address c.number ≡ some (old ++ e ∷ es)
      → A.phase_change_at d.descartesv2_address c.hash ≡ some (map (λ e. e.0) (e ∷ es))
      → All (λ (e : PhaseChangeFilter × LogMeta). e.1.block_hash ≡ c.hash) (e ∷ es)
      → A.get_block c.hash ≡ some (some c)
      → s.initial_epoch ≡ initial
      → fold_changed d s c A ≡ sync_epoch d initial c A
  unfolding fold_changed
  changed_lem c s a old e es until at mined found start =
      let (l, last, m) =
        All-last (λ (e : PhaseChangeFilter × LogMeta). e.1.block_hash ≡ c.hash) e es mined in
      let synced =
        sync_epoch_lem c (old ++ e ∷ es) a until
        ∙ rw (get_last?-append old e es, last, time_of_last_found c l (ap A.get_block m ∙ found))
            refl in
      rw
        (
          start,
          a.finalized_answer,
          a.next_answer,
          at,
          get_last?-map {A = PhaseChangeFilter × LogMeta} (λ e. e.0) (e ∷ es),
          last,
          phase_of_event_lem d initial c.hash a a.next (ok c.timestamp) (some l.0) a.room,
        )
        (sym synced)

  initial_of_synced :
      (b : Block) (s : EpochState) (events : List (PhaseChangeFilter × LogMeta))
      (a : Answers d initial b.hash)
      → A.phase_change_until d.descartesv2_address b.number ≡ some events
      → sync_epoch d initial b A ≡ ok s
      → s.initial_epoch ≡ initial
  initial_of_synced b s events a e synced =
      let parts = sync_epoch_lem b events a e in
      let (t, time, rest) =
        >>=-eq-ok (time_of_last d A (get_last? events)) _ (sym parts ∙ synced) in
      let (found, phase, rest') =
        >>=-eq-ok (phase_by d initial a a.next (unwrap t) (event_of d (get_last? events))) _ rest in
      let same : assemble a.finalized t found ≡ s = cc in
      sym (ap (λ (s : EpochState). s.initial_epoch) same)

  -- On a child of a synced block fold and sync give the same state, or the same error, if the
  -- bloom filter of the child lets the phase change through exactly when there is one.
  pub fold_epoch-eq-sync_epoch :
      (b c : Block) (s : EpochState) (link : PhaseLink b c)
      → (may_have_changed d c A ≡ false → link.new ≡ [])
      → (may_have_changed d c A ≡ true → link.new ≢ [])
      → sync_epoch d initial b A ≡ ok s
      → fold_epoch d s c A ≡ sync_epoch d initial c A
  unfolding fold_epoch
  fold_epoch-eq-sync_epoch b c s link no_miss exact synced =
      elim (Bool-cases (may_have_changed d c A)) [
        | inl hit ↦ rw hit (by_news link.new refl (exact hit))
        | inr miss ↦ rw miss (unchanged_lem b c s link (no_miss miss) synced)
      ]
    where
      by_news :
          (new : List (PhaseChangeFilter × LogMeta))
          → link.new ≡ new
          → new ≢ []
          → fold_changed d s c A ≡ sync_epoch d initial c A
      by_news [] same some_news = absurd (some_news refl)
      by_news (e ∷ es) same some_news =
          changed_lem c s link.child link.old e es
            (link.until_child
              ∙ ap (λ (l : List (PhaseChangeFilter × LogMeta)). some (link.old ++ l)) same)
            (link.at_child
              ∙ ap (λ (l : List (PhaseChangeFilter × LogMeta)). some (map (λ e. e.0) l)) same)
            (subst (All (λ (e : PhaseChangeFilter × LogMeta). e.1.block_hash ≡ c.hash)) same
              link.mined)
            link.found (initial_of_synced b s link.old link.parent link.until_parent synced)

  -- A linked block whose bloom filter lets the phase change through though it has none resets the
  -- phase of a fold: if the last change, before it, was to awaiting consensus, in a block that is
  -- found, the fold goes to input accumulation, where the sync stays in awaiting consensus.
  pub fold_epoch_false_positive :
      (b c : Block) (s : EpochState) (link : PhaseLink b c) (ev : PhaseChangeFilter)
      (meta : LogMeta) (changed : Block)
      → may_have_changed d c A ≡ true
      → link.new ≡ []
      → get_last? link.old ≡ some (ev, meta)
      → ev.new_phase ≡ 1
      → A.get_block meta.block_hash ≡ some (some changed)
      → sync_epoch d initial b A ≡ ok s
      → (t u : EpochState) × (fold_epoch d s c A ≡ ok t)
        × (sync_epoch d initial c A ≡ ok u)
        × (t.current_phase ≡ input_accumulation)
        × (u.current_phase
            ≡ awaiting_consensus (link.child.sealed link.child.next) changed.timestamp)
  unfolding fold_epoch fold_changed
  fold_epoch_false_positive b c s link ev meta changed hit quiet last consensus found synced =
      let a = link.child in
      let quiet_at : A.phase_change_at d.descartesv2_address c.hash ≡ some [] =
        link.at_child ∙ rw quiet in
      let quiet_until : A.phase_change_until d.descartesv2_address c.number ≡ some link.old =
        link.until_child ∙ rw (quiet, append-nil) in
      let start = initial_of_synced b s link.old link.parent link.until_parent synced in
      (
        record {
          initial_epoch = initial;
          current_phase = input_accumulation;
          finalized_epochs = a.finalized;
          current_epoch = a.accumulating a.next;
          phase_change_timestamp = s.phase_change_timestamp;
        },
        assemble a.finalized (some changed.timestamp)
            (awaiting_consensus (a.sealed a.next) changed.timestamp, a.accumulating (a.next + 1)),
        rw (
          hit,
          start,
          a.finalized_answer,
          a.next_answer,
          quiet_at,
          phase_of_event_lem d initial c.hash a a.next (ok c.timestamp) none a.room,
        ),
        sync_epoch_lem c link.old a quiet_until
            ∙ rw (last, time_of_last_found changed (ev, meta) found, consensus) refl,
        refl,
        refl,
      )
