-- ===== src/Rollback/RecoverySafety.antt =====
-- The part of a recovery that reads: the marker, its check, and the action it calls for.
use quarters.Prelude.{
  ◌≡◌, refl, ap, not, Option, none, some, is_some, ==-refl, Bytes, nat_eq, bytes_eq, lookup, ok,
}
use quarters.Error.{corrupt_state}
use quarters.Rollback.Model.{
  SourceIdentity, SpaceTree, IsOpenable, RollbackState, RollbackMarker, space, matches,
  matches_refl, staging_name, retired_name,
}
use quarters.Rollback.Disk.{Files}
use quarters.Machine.CrashLogic.{
  Triple-attempt, Caught, Triple-return, Triple, Triple-return, Triple-bind, Triple-lift,
  Triple-passes, Triple-then, Triple-given, Triple-ok,
}
use quarters.Rollback.Shapes.{Apart, Shape, shape, Clean, tree_entry}
use quarters.Rollback.Steps.{Safe, exists-Triple, read_marker-Triple, open-Triple}
use quarters.Rollback.States.{mark, Recoverable}
use quarters.Rollback.Recovery.{
  RollbackRecoveryAction, load_plan, inspect_marker, run_plan, RollbackRecoveryAction, abort,
  restore_old, complete_new, recovery_table, open_for, recovery_action, validate_marker_components,
  apply_recovery_plan, recover_transaction,
}

module _ (old : SpaceTree) (home id snapshot_id recovery_id : Bytes)
    (apart : Apart old.identity.name id) (anchored : IsOpenable old) where
  abbrev R : Files → Type 0
  R = Recoverable old home id snapshot_id recovery_id

  abbrev m : RollbackState → RollbackMarker
  m = mark old id snapshot_id recovery_id

  abbrev form :
      Option SpaceTree → Option SpaceTree → Option SpaceTree → Option RollbackState → Shape
  form t s o k = shape t s o (elim k [ none ↦ none | some state ↦ some (m state) ])

  abbrev Stands :
      Option SpaceTree → Option SpaceTree → Option SpaceTree → Option RollbackState → Files → Type 0
  Stands t s o k = Clean old.identity.name id (form t s o k)

  -- The name under which `recovery_action` opens the space.
  abbrev place : RollbackRecoveryAction → Bytes
  place restore_old = retired_name id
  place _ = old.identity.name

  open_for-Triple :
      (sh : Shape) (a : RollbackRecoveryAction) (state : RollbackState) (x : SpaceTree)
      → IsOpenable x
      → x.identity ≡ old.identity
      → Safe apart R sh
      → ((s : Files) → Clean old.identity.name id sh s → lookup (place a) s.spaces ≡ some (space x))
      → Triple R
          (Clean old.identity.name id sh)
          (open_for a (m state))
          (λ y s. (y ≡ x) × Clean old.identity.name id sh s)
  unfolding open_for
  open_for-Triple sh abort state x a i safe h =
      open-Triple apart R sh _ _ x a (ap (λ (z : SourceIdentity). z.name) i) safe h
  open_for-Triple sh restore_old state x a i safe h =
      open-Triple apart R sh _ _ x a (ap (λ (z : SourceIdentity). z.name) i) safe h
  open_for-Triple sh complete_new state x a i safe h =
      open-Triple apart R sh _ _ x a (ap (λ (z : SourceIdentity). z.name) i) safe h

  open_same-Triple :
      (sh : Shape) (a b : RollbackRecoveryAction) (state : RollbackState) (x : SpaceTree)
      → b ≡ a
      → IsOpenable x
      → x.identity ≡ old.identity
      → Safe apart R sh
      → ((s : Files) → Clean old.identity.name id sh s → lookup (place a) s.spaces ≡ some (space x))
      → Triple R
          (Clean old.identity.name id sh)
          (open_for b (m state))
          (λ y s. (y ≡ x) × Clean old.identity.name id sh s)
  open_same-Triple sh a b state x e anchors same safe h =
      rw e (open_for-Triple sh a state x anchors same safe h)

  pub action-Triple :
      (tg st o : Option SpaceTree) (state : RollbackState) (a : RollbackRecoveryAction)
      (x : SpaceTree)
      → recovery_table state
          (is_some (tree_entry tg))
          (is_some (tree_entry st))
          (is_some (tree_entry o))
        ≡ ok a
      → IsOpenable x
      → x.identity ≡ old.identity
      → Safe apart R (form tg st o (some state))
      → ((s : Files) → Stands tg st o (some state) s → lookup (place a) s.spaces ≡ some (space x))
      → Triple R
          (Stands tg st o (some state))
          (recovery_action (m state))
          (λ b s. (b ≡ a) × Stands tg st o (some state) s)
  unfolding recovery_action
  action-Triple tg st o state a x table anchors same safe h =
      Triple-bind _ _ (exists-Triple apart R _ _ (tree_entry tg) safe (λ s c. c.target)) λ b.
        Triple-given λ eb.
          Triple-bind _ _ (exists-Triple apart R _ _ (tree_entry st) safe (λ s c. c.staging)) λ c.
            Triple-given λ ec.
              Triple-bind _ _ (exists-Triple apart R _ _ (tree_entry o) safe (λ s c. c.old)) λ d.
                Triple-given λ ed.
                  Triple-bind _ _
                    (Triple-lift (recovery_table state b c d) a (rw (eb, ec, ed) table))
                    λ action. Triple-given λ is.
                      Triple-bind _ _ (open_same-Triple _ a action state x is anchors same safe h)
                        λ found. Triple-given λ at_place.
                          Triple-then _ _
                            (Triple-passes (not (matches old.identity found.identity)) corrupt_state
                              (rw at_place (rw same (rw (matches_refl old.identity)))))
                            (Triple-return action (λ s p. (is, p)))

  components_fit : (state : RollbackState) → validate_marker_components (m state) id ≡ ok tt
  unfolding validate_marker_components
  components_fit state = simp (==-refl id, ==-refl (staging_name id), ==-refl (retired_name id))

  pub transaction-Triple :
      (tg st o : Option SpaceTree) (state : RollbackState) (a : RollbackRecoveryAction)
      (x : SpaceTree) (Q : Files → Type 0)
      → recovery_table state
          (is_some (tree_entry tg))
          (is_some (tree_entry st))
          (is_some (tree_entry o))
        ≡ ok a
      → IsOpenable x
      → x.identity ≡ old.identity
      → Safe apart R (form tg st o (some state))
      → ((s : Files) → Stands tg st o (some state) s → lookup (place a) s.spaces ≡ some (space x))
      → Triple R (Stands tg st o (some state)) (apply_recovery_plan id (m state) a) (λ _. Q)
      → Triple R (Stands tg st o (some state)) (recover_transaction id) (λ _. Q)
  unfolding recover_transaction load_plan inspect_marker
  transaction-Triple tg st o state a x Q table anchors same safe h applied =
      Triple-bind _ _
        (Triple-attempt (
          Triple-bind _ _ (read_marker-Triple apart R tg st o (m state) refl safe) λ read.
            Triple-given λ is.
              Triple-then _ _
                (Triple-ok (validate_marker_components read id) (rw is (components_fit state)))
                (Triple-bind _ _ (act read is) λ action.
                  Triple-given λ chosen. Triple-return (read, action) (λ s c. ((is, chosen), c)))))
        finish
    where
      act :
          (read : RollbackMarker)
          → read ≡ m state
          → Triple R
              (Stands tg st o (some state))
              (recovery_action read)
              (λ b s. (b ≡ a) × Stands tg st o (some state) s)
      act read is = rw is (action-Triple tg st o state a x table anchors same safe h)

      finish :
          (plan : Option (RollbackMarker × RollbackRecoveryAction))
          → Triple R
              (Caught
                (λ (p : RollbackMarker × RollbackRecoveryAction) s.
                  ((p.0 ≡ m state) × (p.1 ≡ a)) × Stands tg st o (some state) s)
                plan)
              (run_plan id plan)
              (λ _. Q)
      finish none = record { at = λ d p. absurd p }
      finish (some (read, action)) = Triple-given λ (is, chosen). rw is (rw chosen applied)
