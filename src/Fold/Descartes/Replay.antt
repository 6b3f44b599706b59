-- ===== src/Fold/Descartes/Replay.antt =====
-- The logical state by fold and by sync. The constants are read once and kept.
use descartes_v.Base.{ℕ, ◌≡◌, refl}
use descartes_v.Outcome.{ok, >>=-eq-ok}
use descartes_v.Fold.Types.{DescartesV2State, ImmutableState}
use descartes_v.Fold.Epoch.{get_state}
use descartes_v.Fold.Access.{Access, Block, FoldError}
use descartes_v.Fold.Descartes.{
  DescartesV2FoldDelegate, sync_constants, sync_descartes, fold_descartes,
}
use descartes_v.Fold.Descartes.Phases.{convert_raw_to_logical-PhaseAt}

-- If a later block shows the same creation event, folding from a synced state gives what a sync
-- at the later block gives, an error or a panic included.
pub fold_descartes-eq-sync_descartes :
    (A : Access) (d : DescartesV2FoldDelegate) (initial : ℕ) (b c : Block) (s : DescartesV2State)
    → A.created_until d.descartesv2_address c.number
      ≡ A.created_until d.descartesv2_address b.number
    → sync_descartes d initial b A ≡ ok s
    → fold_descartes d s c A ≡ sync_descartes d initial c A
unfolding sync_descartes fold_descartes
fold_descartes-eq-sync_descartes A d initial b c s created synced =
    let (constants, read, rest) = >>=-eq-ok {E = FoldError} (sync_constants d b A) _ synced in
    let (raw, asked, converted) =
      >>=-eq-ok {E = FoldError} (get_state d.epoch_fold initial b.hash) _ rest in
    let (_, kept, start, _) = convert_raw_to_logical-PhaseAt constants b raw initial s converted in
    let again : sync_constants d c A ≡ ok constants = constants_stay constants read in
    rw (again, kept, start) refl
  where
    constants_stay :
        (k : ImmutableState) → sync_constants d b A ≡ ok k → sync_constants d c A ≡ ok k
    constants_stay k read = unfold sync_constants in (rw created read)
