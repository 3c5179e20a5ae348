-- ===== src/Rollback/Settling.antt =====
-- Recovery from every state in which a rollback can stop.
use quarters.Prelude.{
  ◌≡◌, refl, Bool, true, false, Option, none, some, is_some, Bytes, nat_eq, bytes_eq, ok,
}
use quarters.Rollback.Model.{
  SpaceTree, IsOpenable, RollbackState, prepared, retired, published, RollbackMarker,
}
use quarters.Rollback.Disk.{Files, Disk, Action}
use quarters.Machine.CrashLogic.{Post, Triple, Triple-return, Triple-follow}
use quarters.Rollback.Shapes.{Apart, Shape, shape, At, Clean, tree_entry}
use quarters.Rollback.Steps.{Safe, replace_marker-Triple}
use quarters.Rollback.States.{
  IsNew, mark, Recoverable, untouched, dropped, marked, moved, noted, placed, confirmed, reclaimed,
  done, Settled, kept, replaced,
}
use quarters.Rollback.Recovery.{
  abort, restore_old, complete_new, recovery_table, transition_marker, apply_recovery_plan,
  recover_marked, recover_rollback,
}
use quarters.Rollback.RecoverySafety.{transaction-Triple}
use quarters.Rollback.Plans.{abort-Triple, restore-Triple, complete-Triple, left}
use quarters.Rollback.Passes.{
  nothing_orphaned, staging_orphaned, unmarked-Triple, marked-Triple, passes-Triple,
}

module _ (old : SpaceTree) (home id snapshot_id recovery_id : Bytes)
    (apart : Apart old.identity.name id) (anchored : IsOpenable old) where
  abbrev R : Files → Type 0
  R = Recoverable old home id snapshot_id recovery_id

  abbrev m : RollbackState → RollbackMarker
  m = mark old id snapshot_id recovery_id

  abbrev form :
      Option SpaceTree → Option SpaceTree → Option SpaceTree → Option RollbackState → Shape
  form t s o k = shape t s o (elim k [ none ↦ none | some state ↦ some (m state) ])

  abbrev Stands :
      Option SpaceTree → Option SpaceTree → Option SpaceTree → Option RollbackState → Files → Type 0
  Stands t s o k = Clean old.identity.name id (form t s o k)

  -- How the plan goes in each state.
  kept-Safe : Safe apart R (form (some old) none none none)
  kept-Safe s c = dropped c

  module _ (n : SpaceTree) (new : IsNew old home n) where
    done-Safe : Safe apart R (form (some n) none none none)
    done-Safe s c = done new c

    aborts :
        Triple R
          (Stands (some old) (some n) none (some prepared))
          (recover_marked id)
          (λ _. Stands (some old) none none none)
    unfolding apply_recovery_plan recovery_table
    aborts =
        marked-Triple old home id snapshot_id recovery_id apart anchored _ _ _ prepared _
          (λ s c. marked new c)
          (transaction-Triple old home id snapshot_id recovery_id apart anchored _ _ _ prepared
            abort old _ refl anchored refl (λ s c. marked new c) (λ s c. c.target)
            (abort-Triple old home id snapshot_id recovery_id apart anchored n new))

    restores :
        (state : RollbackState)
        → recovery_table state false true true ≡ ok restore_old
        → Safe apart R (form none (some n) (some old) (some state))
        → Triple R
            (Stands none (some n) (some old) (some state))
            (transition_marker id (m state) prepared)
            (λ _. Stands none (some n) (some old) (some prepared))
        → Triple R
            (Stands none (some n) (some old) (some state))
            (recover_marked id)
            (λ _. Stands (some old) none none none)
    unfolding apply_recovery_plan
    restores state table safe transition =
        marked-Triple old home id snapshot_id recovery_id apart anchored _ _ _ state _ safe (
          transaction-Triple old home id snapshot_id recovery_id apart anchored _ _ _ state
            restore_old old _ table anchored refl safe (λ s c. c.old)
            (restore-Triple old home id snapshot_id recovery_id apart anchored n new state safe
              transition))

    left-exists : (b : Bool) → is_some (tree_entry (left old b)) ≡ b
    left-exists true = refl
    left-exists false = refl

    completes :
        (b : Bool) (state : RollbackState)
        → recovery_table state true false b ≡ ok complete_new
        → Safe apart R (form (some n) none (left old b) (some state))
        → Triple R
            (Stands (some n) none (left old b) (some state))
            (transition_marker id (m state) published)
            (λ _. Stands (some n) none (left old b) (some published))
        → Triple R
            (Stands (some n) none (left old b) (some state))
            (recover_marked id)
            (λ _. Stands (some n) none none none)
    unfolding apply_recovery_plan
    completes b state table safe transition =
        marked-Triple old home id snapshot_id recovery_id apart anchored _ _ _ state _ safe (
          transaction-Triple old home id snapshot_id recovery_id apart anchored _ _ _ state
            complete_new n _ (rw (left-exists b) table) new.anchors new.identity safe
            (λ s c. c.target)
            (complete-Triple old home id snapshot_id recovery_id apart anchored n new b state
              transition))

  to_old :
      (tg st o : Option SpaceTree) (k : Option RollbackState)
      → Safe apart R (form tg st o k)
      → Triple R (Stands tg st o k) (recover_marked id) (λ _. Stands (some old) none none none)
      → Triple R
          (At old.identity.name id (form tg st o k))
          (recover_rollback id false)
          (λ _. Stands (some old) none none none)
  to_old tg st o k safe plan =
      passes-Triple old home id snapshot_id recovery_id apart anchored _ _ _ safe (λ s c. dropped c)
        plan
        (nothing_orphaned old home id snapshot_id recovery_id apart anchored _ (λ s c. dropped c))

  to_new :
      (n : SpaceTree) (o : Option SpaceTree) (k : Option RollbackState)
      → IsNew old home n
      → Safe apart R (form (some n) none o k)
      → Triple R
          (Stands (some n) none o k)
          (recover_marked id)
          (λ _. Stands (some n) none none none)
      → Triple R
          (At old.identity.name id (form (some n) none o k))
          (recover_rollback id false)
          (λ _. Stands (some n) none none none)
  to_new n o k new safe plan =
      passes-Triple old home id snapshot_id recovery_id apart anchored _ _ _ safe
        (λ s c. done new c) plan
        (nothing_orphaned old home id snapshot_id recovery_id apart anchored _ (λ s c. done new c))

  as_kept :
      {P : Files → Type 0} {a : Action (Unit {0})}
      → Triple R P a (λ _. Stands (some old) none none none)
      → Triple R P a (λ _. Settled old home id)
  as_kept t = Triple-follow (λ _ s c. kept c) t

  as_replaced :
      {P : Files → Type 0} {a : Action (Unit {0})} {n : SpaceTree}
      → IsNew old home n
      → Triple R P a (λ _. Stands (some n) none none none)
      → Triple R P a (λ _. Settled old home id)
  as_replaced new t = Triple-follow (λ _ s c. replaced new c) t

  -- A triple for every state.
  from_untouched :
      (n : SpaceTree)
      → IsNew old home n
      → Triple R
          (At old.identity.name id (form (some old) (some n) none none))
          (recover_rollback id false)
          (λ _. Settled old home id)
  from_untouched n new =
      let safe = λ (s : Files). untouched {s = s} new in
      as_kept (
        passes-Triple old home id snapshot_id recovery_id apart anchored _ _ _ safe
          (λ s c. dropped c)
          (unmarked-Triple old home id snapshot_id recovery_id apart anchored _ _ safe)
          (staging_orphaned old home id snapshot_id recovery_id apart anchored n new))

  from_dropped :
      Triple R
        (At old.identity.name id (form (some old) none none none))
        (recover_rollback id false)
        (λ _. Settled old home id)
  from_dropped = as_kept (
      to_old _ _ _ none kept-Safe
        (unmarked-Triple old home id snapshot_id recovery_id apart anchored _ _ kept-Safe))

  from_moved :
      (n : SpaceTree)
      → IsNew old home n
      → Triple R
          (At old.identity.name id (form none (some n) (some old) (some prepared)))
          (recover_rollback id false)
          (λ _. Settled old home id)
  unfolding recovery_table transition_marker
  from_moved n new =
      let safe = λ (s : Files). moved {s = s} new in
      as_kept (
        to_old _ _ _ (some prepared) safe
          (restores n new prepared refl safe (Triple-return tt (λ s c. c))))

  from_noted :
      (n : SpaceTree)
      → IsNew old home n
      → Triple R
          (At old.identity.name id (form none (some n) (some old) (some retired)))
          (recover_rollback id false)
          (λ _. Settled old home id)
  unfolding recovery_table transition_marker
  from_noted n new =
      let safe = λ (s : Files). noted {s = s} new in
      as_kept (
        to_old _ _ _ (some retired) safe (
          restores n new retired refl safe (
            replace_marker-Triple apart R _ _ _ (some (m retired)) (m prepared) safe
              (λ s. moved {s = s} new))))

  from_placed :
      (n : SpaceTree)
      → IsNew old home n
      → Triple R
          (At old.identity.name id (form (some n) none (some old) (some retired)))
          (recover_rollback id false)
          (λ _. Settled old home id)
  unfolding recovery_table transition_marker
  from_placed n new =
      let safe = λ (s : Files). placed {s = s} new in
      as_replaced new (
        to_new n _ (some retired) new safe (
          completes n new true retired refl safe (
            replace_marker-Triple apart R _ _ _ (some (m retired)) (m published) safe
              (λ s. confirmed {s = s} new))))

  from_confirmed :
      (n : SpaceTree)
      → IsNew old home n
      → Triple R
          (At old.identity.name id (form (some n) none (some old) (some published)))
          (recover_rollback id false)
          (λ _. Settled old home id)
  unfolding recovery_table transition_marker
  from_confirmed n new =
      let safe = λ (s : Files). confirmed {s = s} new in
      as_replaced new (
        to_new n _ (some published) new safe
          (completes n new true published refl safe (Triple-return tt (λ s c. c))))

  from_reclaimed :
      (n : SpaceTree)
      → IsNew old home n
      → Triple R
          (At old.identity.name id (form (some n) none none (some published)))
          (recover_rollback id false)
          (λ _. Settled old home id)
  unfolding recovery_table transition_marker
  from_reclaimed n new =
      let safe = λ (s : Files). reclaimed {s = s} new in
      as_replaced new (
        to_new n _ (some published) new safe
          (completes n new false published refl safe (Triple-return tt (λ s c. c))))

  -- A recovery of a transaction that stopped anywhere is safe at each of its own steps, and one that
  -- is not disturbed settles it.
  pub recovery-Triple : Triple R R (recover_rollback id false) (λ _. Settled old home id)
  recovery-Triple = record { at = λ d p. go d p }
    where
      go :
          (d : Disk)
          → R d.files
          → Post R (λ _. Settled old home id) d.fate (recover_rollback id false d)
      go d (untouched {n} new c) = (from_untouched n new).at d c
      go d (dropped c) = from_dropped.at d c
      go d (marked {n} new c) =
          (as_kept (to_old _ _ _ (some prepared) (λ s. marked {s = s} new) (aborts n new))).at d c
      go d (moved {n} new c) = (from_moved n new).at d c
      go d (noted {n} new c) = (from_noted n new).at d c
      go d (placed {n} new c) = (from_placed n new).at d c
      go d (confirmed {n} new c) = (from_confirmed n new).at d c
      go d (reclaimed {n} new c) = (from_reclaimed n new).at d c
      go d (done {n} new c) =
          (as_replaced new (
              to_new n _ none new (done-Safe n new) (
                unmarked-Triple old home id snapshot_id recovery_id apart anchored _ _
                  (done-Safe n new)))).at
            d c
