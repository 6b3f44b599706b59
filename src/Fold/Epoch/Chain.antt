-- ===== src/Fold/Epoch/Chain.antt =====
-- The raw state along a chain of blocks (offchain/src/fold/epoch_delegate.rs), by fold and by sync.
use descartes_v.Base.{ℕ, ◌≡◌, ◌≢◌, ◌∙◌, true, false, List, []}
use descartes_v.Outcome.{ok}
use descartes_v.Fold.Access.{Access, Block}
use descartes_v.Fold.Replay.{Linked, last_block, replay, Agree, replay-eq-sync}
use descartes_v.Fold.Epoch.{EpochState, EpochFoldDelegate, sync_epoch, may_have_changed, fold_epoch}
use descartes_v.Fold.Epoch.Replay.{PhaseLink, fold_epoch-eq-sync_epoch}

module _ (A : Access) (d : EpochFoldDelegate) (initial : ℕ) where
  -- A block and its child, whose bloom filter lets a phase change through exactly when there is
  -- one, and on which a sync succeeds.
  pub record EpochLink (b c : Block) : Type 0 where
    pub link : PhaseLink A d initial b c
    pub no_miss : may_have_changed d c A ≡ false → link.new ≡ []
    pub exact : may_have_changed d c A ≡ true → link.new ≢ []
    pub state : EpochState
    pub synced : sync_epoch d initial c A ≡ ok state

  epoch_step :
      (b c : Block) (s : EpochState)
      → EpochLink b c
      → sync_epoch d initial b A ≡ ok s
      → Agree (λ b. sync_epoch d initial b A) (λ s b. fold_epoch d s b A) s c
  epoch_step b c s l synced = (
    l.state,
    fold_epoch-eq-sync_epoch A d initial b c s l.link l.no_miss l.exact synced ∙ l.synced,
    l.synced,
  )

  -- After a sync at a block, folding over any blocks that follow it gives the raw state that a
  -- sync at the last of them gives, if each block is linked to the one before, its bloom filter
  -- lets a phase change through exactly when there is one, and a sync at it succeeds.
  pub replay_epoch-eq-sync :
      (b : Block) (bs : List Block) (s : EpochState)
      → Linked EpochLink b bs
      → sync_epoch d initial b A ≡ ok s
      → (s' : EpochState) × (replay (λ s b. fold_epoch d s b A) s bs ≡ ok s')
        × (sync_epoch d initial (last_block b bs) A ≡ ok s')
  replay_epoch-eq-sync =
      replay-eq-sync EpochLink (λ b. sync_epoch d initial b A) (λ s b. fold_epoch d s b A)
        epoch_step
