-- ===== src/Rollback/PublishSafety.antt =====
-- What a rollback that is stopped anywhere leaves behind.
use quarters.Prelude.{
  ◌≡◌, refl, true, false, not, Option, none, some, arith, Bytes, nat_eq, bytes_eq,
}
use quarters.Error.{corrupt_state}
use quarters.Rollback.Model.{
  SpaceTree, IsOpenable, RollbackState, prepared, retired, published, RollbackMarker, manifest_beq,
  manifest_beq_refl, marker_beq, marker_beq_refl, staging_name, retired_name,
}
use quarters.Rollback.Disk.{Files, rename, renamed}
use quarters.Rollback.Publish.{
  write_marker_new, publish_marker, exchange, reclaim_old, publish_rollback, revalidate_publication,
}
use quarters.Machine.CrashLogic.{
  Triple, Triple-effect, Triple-bind, Triple-passes, Triple-then, Triple-absent, Triple-given,
}
use quarters.Rollback.Shapes.{Apart, Shape, shape, Clean, retires_target, publishes_staging}
use quarters.Rollback.Steps.{
  Clean-safe, sync-Triple, exists-Triple, replace_marker-Triple, remove_marker-Triple,
  retire_old-Triple, read_marker-Triple, open-Triple, anchors-Triple, verify-Triple, unlock-Triple,
  remove_trashed-Triple,
}
use quarters.Rollback.States.{
  IsNew, mark, Recoverable, untouched, marked, moved, noted, placed, confirmed, reclaimed, done,
}

module _ (old : SpaceTree) (home id snapshot_id recovery_id : Bytes)
    (apart : Apart old.identity.name id) (anchored : IsOpenable old) where
  abbrev R : Files → Type 0
  R = Recoverable old home id snapshot_id recovery_id

  abbrev m : RollbackState → RollbackMarker
  m = mark old id snapshot_id recovery_id

  abbrev C : Shape → Files → Type 0
  C = Clean old.identity.name id

  -- The trees that stand at the target, the staging and the retired name, and the marker.
  abbrev Stands :
      Option SpaceTree → Option SpaceTree → Option SpaceTree → Option RollbackState → Files → Type 0
  Stands t s o k = C (shape t s o (elim k [ none ↦ none | some state ↦ some (m state) ]))

  module _ (n : SpaceTree) (new : IsNew old home n) where
    revalidate-Triple :
        Triple R
          (Stands (some old) (some n) none none)
          (revalidate_publication old true (staging_name id))
          (λ _. Stands (some old) (some n) none none)
    unfolding revalidate_publication
    revalidate-Triple =
        let safe = λ (s : Files). untouched {s = s} new in
        Triple-bind _ _ (open-Triple apart R _ _ _ old anchored refl safe (λ s c. c.target))
          λ current. Triple-given λ same.
            Triple-then _ _
              (Triple-passes (not (manifest_beq current old)) corrupt_state
                (rw same (ground (arith, manifest_beq_refl old))))
              (Triple-then _ _ (Triple-passes false corrupt_state refl)
                (anchors-Triple apart R _ _ n _ new.anchors safe))

    publish_marker-Triple :
        Triple R
          (Stands (some old) (some n) none none)
          (publish_marker old true id (m prepared))
          (λ _. Stands (some old) (some n) none (some prepared))
    unfolding publish_marker write_marker_new
    publish_marker-Triple =
        let before = λ (s : Files). untouched {s = s} new in
        let after = λ (s : Files). marked {s = s} new in
        Triple-then _ _ revalidate-Triple (
          Triple-then _ _
            (Triple-bind _ _ (exists-Triple apart R _ _ none before (λ s c. c.mark)) λ b.
              Triple-then _ _ (Triple-absent b corrupt_state)
                (replace_marker-Triple apart R _ _ _ none (m prepared) before after))
            (Triple-then _ _ (sync-Triple apart R _ after) (
              Triple-bind _ _ (read_marker-Triple apart R _ _ _ (m prepared) refl after) λ x.
                Triple-given λ same.
                  Triple-passes (not (marker_beq x (m prepared))) corrupt_state
                    (rw same (rw (marker_beq_refl (m prepared)))))))

    retire_target-Triple :
        Triple R
          (Stands (some old) (some n) none (some prepared))
          (rename old.identity.name (retired_name id))
          (λ _. Stands none (some n) (some old) (some prepared))
    unfolding rename
    retire_target-Triple =
        Triple-effect (renamed old.identity.name (retired_name id))
          (Clean-safe apart R _ (λ s. marked {s = s} new))
          (retires_target apart old (some n) (some (m prepared)))

    publish_staging-Triple :
        Triple R
          (Stands none (some n) (some old) (some retired))
          (rename (staging_name id) old.identity.name)
          (λ _. Stands (some n) none (some old) (some retired))
    unfolding rename
    publish_staging-Triple =
        Triple-effect (renamed (staging_name id) old.identity.name)
          (Clean-safe apart R _ (λ s. noted {s = s} new))
          (publishes_staging apart n (some old) (some (m retired)))

    reclaim_old-Triple :
        Triple R
          (Stands (some n) none (some old) (some published))
          (reclaim_old id)
          (λ _. Stands (some n) none none none)
    unfolding reclaim_old
    reclaim_old-Triple =
        let before = λ (s : Files). confirmed {s = s} new in
        let between = λ (s : Files). reclaimed {s = s} new in
        let after = λ (s : Files). done {s = s} new in
        Triple-then _ _ (sync-Triple apart R _ before) (
          Triple-then _ _ (retire_old-Triple apart R _ _ _ _ before) (
            Triple-then _ _ (sync-Triple apart R _ between) (
              Triple-then _ _ (sync-Triple apart R _ between) (
                Triple-then _ _ (remove_marker-Triple apart R _ _ _ _ between) (
                  Triple-then _ _ (sync-Triple apart R _ after) (
                    Triple-then _ _ (remove_trashed-Triple apart R _ after)
                      (sync-Triple apart R _ after)))))))

  -- A new tree without its creation lock is as new.
  unlocked-IsNew : (n : SpaceTree) → IsNew old home n → IsNew old home (record n { locked = false })
  unlocked-IsNew n new = record {
    identity = new.identity;
    anchors = new.anchors;
    home_is = new.home_is;
  }

  module _ (n : SpaceTree) (new : IsNew old home n) (lock : n.locked ≡ true) where
    exchange-Triple :
        Triple R
          (Stands (some old) (some n) none (some prepared))
          (exchange old id (m prepared))
          (λ _. Stands (some (record n { locked = false })) none (some old) (some published))
    unfolding exchange
    exchange-Triple =
        let open_lock = record n { locked = false } in
        let new' = unlocked-IsNew n new in
        let moved' = λ (s : Files). moved {s = s} new in
        let noted' = λ (s : Files). noted {s = s} new in
        let free = λ (s : Files). noted {s = s} new' in
        let placed' = λ (s : Files). placed {s = s} new' in
        let confirmed' = λ (s : Files). confirmed {s = s} new' in
        Triple-then _ _ (retire_target-Triple n new) (
          Triple-then _ _ (sync-Triple apart R _ moved') (
            Triple-then _ _
              (replace_marker-Triple apart R _ _ _ (some (m prepared)) (m retired) moved' noted')
              (Triple-then _ _ (verify-Triple apart R _ _ n _ lock noted') (
                Triple-then _ _ (unlock-Triple apart R _ _ n _ lock noted') (
                  Triple-then _ _ (sync-Triple apart R _ free) (
                    Triple-then _ _ (anchors-Triple apart R _ _ open_lock _ new'.anchors free) (
                      Triple-then _ _ (publish_staging-Triple open_lock new') (
                        Triple-then _ _ (sync-Triple apart R _ placed') (
                          replace_marker-Triple apart R _ _ _ (some (m retired)) (m published)
                            placed' confirmed')))))))))

    pub publish-Triple :
        Triple R
          (Stands (some old) (some n) none none)
          (publish_rollback old true id snapshot_id recovery_id)
          (λ _. Stands (some (record n { locked = false })) none none none)
    unfolding publish_rollback
    publish-Triple = Triple-then _ _ (sync-Triple apart R _ (λ s. untouched {s = s} new)) (
        Triple-then _ _ (publish_marker-Triple n new) (
          Triple-then _ _ exchange-Triple
            (reclaim_old-Triple (record n { locked = false }) (unlocked-IsNew n new))))
