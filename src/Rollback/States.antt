-- ===== src/Rollback/States.antt =====
-- The states of one rollback that a stop at any point can leave behind.
use quarters.Prelude.{◌≤◌, ◌≡◌, true, Option, none, some, length, Bytes, nat_eq, bytes_eq, lookup}
use quarters.Rollback.Model.{
  SpaceTree, IsOpenable, RollbackState, prepared, retired, published, RollbackMarker, space,
  retired_name,
}
use quarters.Rollback.Disk.{Files}
use quarters.Rollback.Publish.{new_marker}
use quarters.Rollback.Shapes.{shape, At, Clean}

-- The tree that takes the target's place: it carries the target's manifest, and the given home.
pub record IsNew (old : SpaceTree) (home : Bytes) (n : SpaceTree) : Type 0 where
  pub identity : n.identity ≡ old.identity
  pub anchors : IsOpenable n
  pub home_is : n.home ≡ home

-- The marker of the transaction in a state.
abbrev pub mark : SpaceTree → Bytes → Bytes → Bytes → RollbackState → RollbackMarker
mark old id snapshot_id recovery_id state = record (new_marker old id snapshot_id recovery_id) {
  state = state;
}

abbrev pub Shows :
    SpaceTree
    → Bytes
    → Option SpaceTree
    → Option SpaceTree
    → Option SpaceTree
    → Option RollbackMarker
    → Files
    → Type 0
Shows old id t s o m = At old.identity.name id (shape t s o m)

module _ (old : SpaceTree) (home id snapshot_id recovery_id : Bytes) where
  -- The states of a rollback: whose tree stands at the target, the staging and the retired name, and
  -- the marker. In each of them the old tree or a complete new tree is there.
  pub data Recoverable : Files → Type 0 where
    untouched :
        {n : SpaceTree} {s : Files}
        → IsNew old home n
        → Shows old id (some old) (some n) none none s
        → Recoverable s
    dropped : {s : Files} → Shows old id (some old) none none none s → Recoverable s
    marked :
        {n : SpaceTree} {s : Files}
        → IsNew old home n
        → Shows old id
            (some old)
            (some n)
            none
            (some (mark old id snapshot_id recovery_id prepared))
            s
        → Recoverable s
    moved :
        {n : SpaceTree} {s : Files}
        → IsNew old home n
        → Shows old id none
            (some n)
            (some old)
            (some (mark old id snapshot_id recovery_id prepared))
            s
        → Recoverable s
    noted :
        {n : SpaceTree} {s : Files}
        → IsNew old home n
        → Shows old id none
            (some n)
            (some old)
            (some (mark old id snapshot_id recovery_id retired))
            s
        → Recoverable s
    placed :
        {n : SpaceTree} {s : Files}
        → IsNew old home n
        → Shows old id
            (some n)
            none
            (some old)
            (some (mark old id snapshot_id recovery_id retired))
            s
        → Recoverable s
    confirmed :
        {n : SpaceTree} {s : Files}
        → IsNew old home n
        → Shows old id
            (some n)
            none
            (some old)
            (some (mark old id snapshot_id recovery_id published))
            s
        → Recoverable s
    reclaimed :
        {n : SpaceTree} {s : Files}
        → IsNew old home n
        → Shows old id (some n) none none (some (mark old id snapshot_id recovery_id published)) s
        → Recoverable s
    done :
        {n : SpaceTree} {s : Files}
        → IsNew old home n
        → Shows old id (some n) none none none s
        → Recoverable s

-- What is left when a rollback is over: one tree at the target, and no trace of the transaction.
pub data Settled (old : SpaceTree) (home id : Bytes) : Files → Type 0 where
  kept :
      {s : Files}
      → Clean old.identity.name id (shape (some old) none none none) s
      → Settled old home id s
  replaced :
      {n : SpaceTree} {s : Files}
      → IsNew old home n
      → Clean old.identity.name id (shape (some n) none none none) s
      → Settled old home id s

-- Neither tree is lost: the old one stands at the target or at the retired name, or the new one at the
-- target.
pub data Present (old : SpaceTree) (home id : Bytes) : Files → Type 0 where
  at_target :
      {s : Files} → lookup old.identity.name s.spaces ≡ some (space old) → Present old home id s
  at_retired :
      {s : Files} → lookup (retired_name id) s.spaces ≡ some (space old) → Present old home id s
  as_new :
      {n : SpaceTree} {s : Files}
      → IsNew old home n
      → lookup old.identity.name s.spaces ≡ some (space n)
      → Present old home id s

-- A rollback is ready to be published: `n` is the staged copy of the snapshot, under its creation lock.
pub record Ready (old n : SpaceTree) (id : Bytes) (s : Files) : Type 0 where
  pub id_length : length id ≡ 32
  pub name_length : length old.identity.name ≤ 32
  pub old_anchors : IsOpenable old
  pub new_identity : n.identity ≡ old.identity
  pub new_anchors : IsOpenable n
  pub new_locked : n.locked ≡ true
  pub found : Clean old.identity.name id (shape (some old) (some n) none none) s
