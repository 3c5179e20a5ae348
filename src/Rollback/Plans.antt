-- ===== src/Rollback/Plans.antt =====
-- The three plans of a recovery, step by step.
use quarters.Prelude.{
  ◌≡◌, refl, ◌∙◌, Bool, true, false, Option, none, some, is_some, Bytes, nat_eq, bytes_eq, lookup,
}
use quarters.Rollback.Model.{
  SpaceTree, IsOpenable, RollbackState, prepared, published, RollbackMarker, retired_name,
}
use quarters.Rollback.Disk.{Files, rename, renamed}
use quarters.Machine.CrashLogic.{
  Triple, Triple-return, Triple-effect, Triple-bind, Triple-then, Triple-given,
}
use quarters.Rollback.Shapes.{Apart, Shape, shape, Clean, tree_entry, restores_target}
use quarters.Rollback.Steps.{
  Safe, Clean-safe, sync-Triple, exists-Triple, remove_marker-Triple, retire_old-Triple,
  retire_staging-Triple,
}
use quarters.Rollback.States.{
  IsNew, mark, Recoverable, untouched, marked, moved, confirmed, reclaimed, done,
}
use quarters.Rollback.Recovery.{
  transition_marker, remove_marker_durable, recover_abort, recover_restore_old, retire_old,
  recover_complete_new,
}

-- The old tree, if it is still there.
abbrev pub left : SpaceTree → Bool → Option SpaceTree
left old true = some old
left old false = none

module _ (old : SpaceTree) (home id snapshot_id recovery_id : Bytes)
    (apart : Apart old.identity.name id) (anchored : IsOpenable old) where
  abbrev R : Files → Type 0
  R = Recoverable old home id snapshot_id recovery_id

  abbrev m : RollbackState → RollbackMarker
  m = mark old id snapshot_id recovery_id

  abbrev form :
      Option SpaceTree → Option SpaceTree → Option SpaceTree → Option RollbackState → Shape
  form t s o k = shape t s o (elim k [ none ↦ none | some state ↦ some (m state) ])

  abbrev Stands :
      Option SpaceTree → Option SpaceTree → Option SpaceTree → Option RollbackState → Files → Type 0
  Stands t s o k = Clean old.identity.name id (form t s o k)

  -- The three plans.
  module _ (n : SpaceTree) (new : IsNew old home n) where
    pub abort-Triple :
        Triple R
          (Stands (some old) (some n) none (some prepared))
          (recover_abort id (m prepared))
          (λ _. Stands (some old) none none none)
    unfolding recover_abort remove_marker_durable
    abort-Triple =
        let before = λ (s : Files). marked {s = s} new in
        let between = λ (s : Files). untouched {s = s} new in
        Triple-then _ _
          (Triple-then _ _ (remove_marker-Triple apart R _ _ _ (m prepared) before)
            (sync-Triple apart R _ between))
          (Triple-then _ _ (retire_staging-Triple apart R _ _ n _ between)
            (Triple-return 1 (λ s c. c)))

    pub restore-Triple :
        (state : RollbackState)
        → Safe apart R (form none (some n) (some old) (some state))
        → Triple R
            (Stands none (some n) (some old) (some state))
            (transition_marker id (m state) prepared)
            (λ _. Stands none (some n) (some old) (some prepared))
        → Triple R
            (Stands none (some n) (some old) (some state))
            (recover_restore_old id (m state))
            (λ _. Stands (some old) none none none)
    unfolding recover_restore_old remove_marker_durable rename
    restore-Triple state safe transition =
        let before = λ (s : Files). moved {s = s} new in
        let restored = λ (s : Files). marked {s = s} new in
        let unmarked = λ (s : Files). untouched {s = s} new in
        Triple-then _ _ transition (
          Triple-then _ _
            (Triple-effect (renamed (retired_name id) old.identity.name)
              (Clean-safe apart R _ before)
              (restores_target apart old (some n) (some (m prepared))))
            (Triple-then _ _ (sync-Triple apart R _ restored) (
              Triple-then _ _
                (Triple-then _ _ (remove_marker-Triple apart R _ _ _ (m prepared) restored)
                  (sync-Triple apart R _ unmarked))
                (Triple-then _ _ (retire_staging-Triple apart R _ _ n _ unmarked)
                  (Triple-return 1 (λ s c. c))))))

    left-Safe : (b : Bool) → Safe apart R (form (some n) none (left old b) (some published))
    left-Safe true s c = confirmed new c
    left-Safe false s c = reclaimed new c

    pub left-found :
        (b : Bool) (s : Files)
        → Stands (some n) none (left old b) (some published) s
        → lookup (retired_name id) s.spaces ≡ tree_entry (left old b)
    left-found true s c = c.old
    left-found false s c = c.old

    left-exists : (b : Bool) → is_some (tree_entry (left old b)) ≡ b
    left-exists true = refl
    left-exists false = refl

    retire_left-Triple :
        (state : RollbackState) (b : Bool)
        → Triple R
            (Stands (some n) none (left old b) (some published))
            (retire_old (m state) b)
            (λ _. Stands (some n) none none (some published))
    unfolding retire_old
    retire_left-Triple state true =
        let after = λ (s : Files). reclaimed {s = s} new in
        Triple-then _ _ (retire_old-Triple apart R _ _ old _ (λ s. confirmed {s = s} new)) (
          Triple-then _ _ (sync-Triple apart R _ after)
            (Triple-then _ _ (sync-Triple apart R _ after) (Triple-return 1 (λ s c. c))))
    retire_left-Triple state false = Triple-return 0 (λ s c. c)

    pub complete-Triple :
        (b : Bool) (state : RollbackState)
        → Triple R
            (Stands (some n) none (left old b) (some state))
            (transition_marker id (m state) published)
            (λ _. Stands (some n) none (left old b) (some published))
        → Triple R
            (Stands (some n) none (left old b) (some state))
            (recover_complete_new id (m state))
            (λ _. Stands (some n) none none none)
    unfolding recover_complete_new remove_marker_durable
    complete-Triple b state transition = Triple-then _ _ transition (
        Triple-bind _ _
          (exists-Triple apart R _ _ (tree_entry (left old b)) (left-Safe b) (left-found b))
          λ found. Triple-given λ is.
            Triple-bind _ _ (retire_found found (is ∙ left-exists b)) λ count.
              Triple-then _ _
                (Triple-then _ _
                  (remove_marker-Triple apart R _ _ _ (m published) (λ s. reclaimed {s = s} new))
                  (sync-Triple apart R _ (λ s. done {s = s} new)))
                (Triple-return count (λ s c. c)))
      where
        retire_found :
            (found : Bool)
            → found ≡ b
            → Triple R
                (Stands (some n) none (left old b) (some published))
                (retire_old (m state) found)
                (λ _. Stands (some n) none none (some published))
        retire_found found e = rw e (retire_left-Triple state b)
