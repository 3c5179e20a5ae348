-- ===== src/Rollback/Passes.antt =====
-- The passes of a recovery around its plan: orphaned staging trees, the search for the marker.
use quarters.Prelude.{
  ℕ, ◌+◌, ◌≡◌, refl, Bool, true, false, ◌||◌, not, Option, none, some, if◌then◌else◌, Bytes, nat_eq,
  bytes_eq,
}
use quarters.Rollback.Model.{
  SpaceTree, IsOpenable, RollbackState, RollbackMarker, space, marker, staging_name,
}
use quarters.Rollback.Disk.{Files, return, ◌>>◌, sync_directory, retire_recovery_path}
use quarters.Machine.CrashLogic.{
  Triple, Triple-return, Triple-effect, Triple-bind, Triple-then, Triple-given,
}
use quarters.Rollback.Shapes.{Apart, Shape, shape, At, Clean}
use quarters.Rollback.Steps.{Safe, sync-Triple, exists-Triple, retire_staging-Triple}
use quarters.Rollback.States.{IsNew, mark, Recoverable, untouched}
use quarters.Rollback.Recovery.{
  recover_transaction, reclaim_orphan_staging, recover_marked, recover_rollback,
}
use quarters.Rollback.Cleanup.{clear-Triple, remove_reclaimed-Triple}

module _ (old : SpaceTree) (home id snapshot_id recovery_id : Bytes)
    (apart : Apart old.identity.name id) (anchored : IsOpenable old) where
  abbrev R : Files → Type 0
  R = Recoverable old home id snapshot_id recovery_id

  abbrev m : RollbackState → RollbackMarker
  m = mark old id snapshot_id recovery_id

  abbrev form :
      Option SpaceTree → Option SpaceTree → Option SpaceTree → Option RollbackState → Shape
  form t s o k = shape t s o (elim k [ none ↦ none | some state ↦ some (m state) ])

  abbrev Stands :
      Option SpaceTree → Option SpaceTree → Option SpaceTree → Option RollbackState → Files → Type 0
  Stands t s o k = Clean old.identity.name id (form t s o k)

  -- The passes of a recovery around the plan.
  spared :
      (sh : Shape) (present owned : Bool)
      → not present || owned || false ≡ true
      → Triple {A = ℕ} R
          (Clean old.identity.name id sh)
          (if not present || owned || false
            then return 0
            else (do retire_recovery_path (staging_name id); return 1))
          (λ _. Clean old.identity.name id sh)
  spared sh present owned e = rw e (Triple-return 0 (λ s c. c))

  -- Nothing is at the staging name.
  pub nothing_orphaned :
      (tg : Option SpaceTree)
      → Safe apart R (form tg none none none)
      → Triple R
          (Stands tg none none none)
          (reclaim_orphan_staging id false)
          (λ _. Stands tg none none none)
  unfolding reclaim_orphan_staging
  nothing_orphaned tg safe =
      Triple-bind _ _ (exists-Triple apart R _ _ none safe (λ s c. c.staging)) λ present.
        Triple-given λ absent.
          Triple-bind _ _ (exists-Triple apart R _ _ none safe (λ s c. c.mark))
            λ owned. Triple-given λ free. spared _ present owned (rw absent refl)

  orphaned :
      (n : SpaceTree) (present owned : Bool)
      → IsNew old home n
      → not present || owned || false ≡ false
      → Triple {A = ℕ} R
          (Stands (some old) (some n) none none)
          (if not present || owned || false
            then return 0
            else (do retire_recovery_path (staging_name id); return 1))
          (λ _. Stands (some old) none none none)
  orphaned n present owned new e = rw e (
      Triple-then _ _ (retire_staging-Triple apart R _ _ n _ (λ s. untouched {s = s} new))
        (Triple-return 1 (λ s c. c)))

  pub staging_orphaned :
      (n : SpaceTree)
      → IsNew old home n
      → Triple R
          (Stands (some old) (some n) none none)
          (reclaim_orphan_staging id false)
          (λ _. Stands (some old) none none none)
  unfolding reclaim_orphan_staging
  staging_orphaned n new =
      let safe = λ (s : Files). untouched {s = s} new in
      Triple-bind _ _ (exists-Triple apart R _ _ (some (space n)) safe (λ s c. c.staging))
        λ present. Triple-given λ there.
          Triple-bind _ _ (exists-Triple apart R _ _ none safe (λ s c. c.mark))
            λ owned. Triple-given λ free. orphaned n present owned new (rw there (rw free refl))

  pub unmarked-Triple :
      (tg st : Option SpaceTree)
      → Safe apart R (form tg st none none)
      → Triple R (Stands tg st none none) (recover_marked id) (λ _. Stands tg st none none)
  unfolding recover_marked
  unmarked-Triple tg st safe =
      Triple-bind _ _ (exists-Triple apart R _ _ none safe (λ s c. c.mark))
        λ found. Triple-given λ e. skipped found e
    where
      skipped :
          (found : Bool)
          → found ≡ false
          → Triple R
              (Stands tg st none none)
              (if found then recover_transaction id else return 0)
              (λ _. Stands tg st none none)
      skipped found e = rw e (Triple-return 0 (λ s c. c))

  pub marked-Triple :
      (tg st o : Option SpaceTree) (state : RollbackState) (Q : Files → Type 0)
      → Safe apart R (form tg st o (some state))
      → Triple R (Stands tg st o (some state)) (recover_transaction id) (λ _. Q)
      → Triple R (Stands tg st o (some state)) (recover_marked id) (λ _. Q)
  unfolding recover_marked
  marked-Triple tg st o state Q safe t =
      Triple-bind _ _ (exists-Triple apart R _ _ (some (marker (m state))) safe (λ s c. c.mark))
        λ found. Triple-given λ e. taken found e
    where
      taken :
          (found : Bool)
          → found ≡ true
          → Triple R
              (Stands tg st o (some state))
              (if found then recover_transaction id else return 0)
              (λ _. Q)
      taken found e = rw e t

  -- A recovery is its plan and the passes around it.
  pub passes-Triple :
      (start mid last : Shape)
      → Safe apart R start
      → Safe apart R last
      → Triple R
          (Clean old.identity.name id start)
          (recover_marked id)
          (λ _. Clean old.identity.name id mid)
      → Triple R
          (Clean old.identity.name id mid)
          (reclaim_orphan_staging id false)
          (λ _. Clean old.identity.name id last)
      → Triple R
          (At old.identity.name id start)
          (recover_rollback id false)
          (λ _. Clean old.identity.name id last)
  unfolding recover_rollback sync_directory
  passes-Triple start mid last safe settled plan orphans =
      Triple-then _ _ (Triple-effect _ safe (λ s c. c)) (
        Triple-then _ _ (clear-Triple apart R start safe) (
          Triple-bind _ _ plan λ finished. Triple-bind _ _ orphans λ retired_trees.
            Triple-then _ _ (sync-Triple apart R last settled) (
              Triple-then _ _ (sync-Triple apart R last settled) (
                Triple-then _ _
                  (remove_reclaimed-Triple apart R (finished + retired_trees) last settled)
                  (sync-Triple apart R last settled)))))
