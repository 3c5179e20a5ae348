-- ===== src/Rollback/Crash.antt =====
-- What a stop at any point of a rollback can do, and how it ends.
use quarters.Prelude.{
  ◌≡◌, refl, Bool, true, false, none, some, List, [], ◌∷◌, Bytes, nat_eq, bytes_eq, Result, ok, err,
  is_ok,
}
use quarters.Rollback.Model.{IsOpenable, SpaceTree}
use quarters.Rollback.Disk.{Stop, Files, Disk}
use quarters.Rollback.Publish.{publish_rollback}
use quarters.Machine.CrashLogic.{Post}
use quarters.Rollback.Shapes.{Apart, shape, With-At, Clean}
use quarters.Rollback.States.{
  IsNew, Recoverable, untouched, dropped, marked, moved, noted, placed, confirmed, reclaimed, done,
  Settled, kept, replaced, Present, at_target, at_retired, as_new, Ready,
}
use quarters.Rollback.Recovery.{recover_rollback}
use quarters.Rollback.PublishSafety.{publish-Triple}
use quarters.Rollback.Settling.{recovery-Triple}
use quarters.Rollback.Names.{names-Apart}

Post-safe :
    (I Q : Files → Type 0) (fate : List Bool) (x : Disk × Result Stop (Unit {0}))
    → ((s : Files) → Q s → I s)
    → Post I (λ _. Q) fate x
    → I x.0.files
Post-safe I Q fate (d, ok a) h (q, e) = h d.files q
Post-safe I Q fate (d, err k) h (i, e) = i

Post-returns :
    (I Q : Files → Type 0) (x : Disk × Result Stop (Unit {0}))
    → Post I (λ _. Q) [] x
    → (is_ok x.1 ≡ true) × Q x.0.files
Post-returns I Q (d, ok a) (q, e) = (refl, q)
Post-returns I Q (d, err k) (i, (e, c)) = absurd (e refl)

-- The staged tree, without its creation lock, is at the target, and nothing else of the transaction is
-- there.
abbrev pub Published : SpaceTree → SpaceTree → Bytes → Files → Type 0
Published old n id =
    Clean old.identity.name id (shape (some (record n { locked = false })) none none none)

-- `publish_rollback`, with `fate` for its file operations.
unfoldable pub publish_run :
    SpaceTree → Bytes → Bytes → Bytes → List Bool → Files → Disk × Result Stop (Unit {0})
publish_run old id snapshot_id recovery_id fate s =
    publish_rollback old true id snapshot_id recovery_id (record { files = s; fate = fate })

-- A recovery for each fate of the list, on what the one before it left.
unfoldable pub recover_runs : Bytes → List (List Bool) → Files → Files
recover_runs id [] s = s
recover_runs id (fate ∷ fates) s =
    recover_runs id fates (recover_rollback id false (record { files = s; fate = fate })).0.files

Settled-Recoverable :
    (old : SpaceTree) (home id snapshot_id recovery_id : Bytes) (s : Files)
    → Settled old home id s
    → Recoverable old home id snapshot_id recovery_id s
Settled-Recoverable old home id snapshot_id recovery_id s (kept c) = dropped (With-At _ s tt c)
Settled-Recoverable old home id snapshot_id recovery_id s (replaced new c) =
    done new (With-At _ s tt c)

Ready-IsNew : (old n : SpaceTree) (id : Bytes) (s : Files) → Ready old n id s → IsNew old n.home n
Ready-IsNew old n id s r = record {
  identity = r.new_identity;
  anchors = r.new_anchors;
  home_is = refl;
}

publish-Post :
    (old n : SpaceTree) (id snapshot_id recovery_id : Bytes) (fate : List Bool) (s : Files)
    → Ready old n id s
    → Post
        (Recoverable old n.home id snapshot_id recovery_id)
        (λ _. Published old n id)
        fate
        (publish_run old id snapshot_id recovery_id fate s)
unfolding publish_run
publish-Post old n id snapshot_id recovery_id fate s r =
    (publish-Triple old n.home id snapshot_id recovery_id
        (names-Apart _ id r.id_length r.name_length) r.old_anchors n (Ready-IsNew old n id s r)
        r.new_locked).at
      _ r.found

publish_safe :
    (old n : SpaceTree) (id snapshot_id recovery_id : Bytes) (fate : List Bool) (s : Files)
    → Ready old n id s
    → Recoverable old n.home id snapshot_id recovery_id
        (publish_run old id snapshot_id recovery_id fate s).0.files
publish_safe old n id snapshot_id recovery_id fate s r =
    let new = Ready-IsNew old n id s r in
    Post-safe (Recoverable old n.home id snapshot_id recovery_id) (Published old n id) fate _
      (λ s c.
        done (record { identity = new.identity; anchors = new.anchors; home_is = new.home_is })
          (With-At _ s tt c))
      (publish-Post old n id snapshot_id recovery_id fate s r)

recover-Post :
    (old : SpaceTree) (home id snapshot_id recovery_id : Bytes) (fate : List Bool) (s : Files)
    → Apart old.identity.name id
    → IsOpenable old
    → Recoverable old home id snapshot_id recovery_id s
    → Post
        (Recoverable old home id snapshot_id recovery_id)
        (λ _. Settled old home id)
        fate
        (recover_rollback id false (record { files = s; fate = fate }))
recover-Post old home id snapshot_id recovery_id fate s apart a r =
    (recovery-Triple old home id snapshot_id recovery_id apart a).at _ r

recover_runs_safe :
    (old : SpaceTree) (home id snapshot_id recovery_id : Bytes) (fates : List (List Bool))
    (s : Files)
    → Apart old.identity.name id
    → IsOpenable old
    → Recoverable old home id snapshot_id recovery_id s
    → Recoverable old home id snapshot_id recovery_id (recover_runs id fates s)
unfolding recover_runs
recover_runs_safe old home id snapshot_id recovery_id [] s apart a r = r
recover_runs_safe old home id snapshot_id recovery_id (fate ∷ fates) s apart a r =
    recover_runs_safe old home id snapshot_id recovery_id fates _ apart a (
      Post-safe (Recoverable old home id snapshot_id recovery_id) (Settled old home id) fate _
        (Settled-Recoverable old home id snapshot_id recovery_id)
        (recover-Post old home id snapshot_id recovery_id fate s apart a r))

-- Wherever the publication of a ready rollback crashes, and wherever any number of recoveries after
-- it crash, a complete tree is there: the old one at the target or at the retired name, or the new
-- one at the target.
pub publish-keeps_tree :
    (old n : SpaceTree) (id snapshot_id recovery_id : Bytes) (fate : List Bool)
    (fates : List (List Bool)) (s : Files)
    → Ready old n id s
    → Present old n.home id
        (recover_runs id fates (publish_run old id snapshot_id recovery_id fate s).0.files)
publish-keeps_tree old n id snapshot_id recovery_id fate fates s r = there (
    recover_runs_safe old n.home id snapshot_id recovery_id fates _
      (names-Apart _ id r.id_length r.name_length) r.old_anchors
      (publish_safe old n id snapshot_id recovery_id fate s r))
  where
    there :
        {s : Files} → Recoverable old n.home id snapshot_id recovery_id s → Present old n.home id s
    there (untouched new c) = at_target c.target
    there (dropped c) = at_target c.target
    there (marked new c) = at_target c.target
    there (moved new c) = at_retired c.old
    there (noted new c) = at_retired c.old
    there (placed new c) = as_new new c.target
    there (confirmed new c) = as_new new c.target
    there (reclaimed new c) = as_new new c.target
    there (done new c) = as_new new c.target

-- The publication of a ready rollback that does not crash returns without an error, and leaves the
-- staged tree, without its creation lock, at the target and nothing else of the transaction.
pub publish-publishes :
    (old n : SpaceTree) (id snapshot_id recovery_id : Bytes) (s : Files)
    → Ready old n id s
    → let after = publish_run old id snapshot_id recovery_id [] s in
      (is_ok after.1 ≡ true) × Published old n id after.0.files
publish-publishes old n id snapshot_id recovery_id s r =
    Post-returns (Recoverable old n.home id snapshot_id recovery_id) (Published old n id) _
      (publish-Post old n id snapshot_id recovery_id [] s r)
