-- ===== src/Rollback/Steps.antt =====
-- A triple for each operation of a rollback, between the shapes of its entries. `I` is the crash
-- invariant; an operation needs it at every shape in which it may be stopped.
use quarters.Prelude.{
  ◌≡◌, refl, ap, true, false, Option, none, some, ◌∷◌, arith, is_some, drop, ==-refl, Bytes, nat_eq,
  bytes_eq, lookup, ok,
}
use quarters.Error.{corrupt_state}
use quarters.Rollback.Model.{
  SpaceTree, IsOpenable, RollbackMarker, Entry, space, marker, damaged, marker_schema_version,
  marker_name, temporary_name, staging_name, retired_name,
}
use quarters.Rollback.Disk.{
  Files, entry_exists, sync_directory, rename, retire_recovery_path, remove_file,
  write_private_file, written, read_marker, open_space,
}
use quarters.Rollback.Publish.{
  replace_marker, validate_space_anchors, verify_staging, remove_creation_lock, remove_trashed,
}
use quarters.Machine.CrashLogic.{Triple, Triple-effect, Triple-bind, Triple-then, Triple-absent}
use quarters.Rollback.Shapes.{
  Apart, Shape, shape, At, With, With-At, Clean, IsFile, creates_temporary, writes_temporary,
  replaces_marker, removes_marker, retires_staging, retires_old, unlocks_staging,
}

module _ {t id : Bytes} (apart : Apart t id) (I : Files → Type 0) where
  abbrev pub Safe : Shape → Type 0
  Safe sh = (s : Files) → At t id sh s → I s

  pub With-safe :
      (sh : Shape) (x : Option Entry) → IsFile x → Safe sh → (s : Files) → With t id x sh s → I s
  With-safe sh x f safe s c = safe s (With-At sh s f c)

  pub Clean-safe : (sh : Shape) → Safe sh → (s : Files) → Clean t id sh s → I s
  Clean-safe sh = With-safe sh none tt

  pub sync-Triple :
      (sh : Shape) → Safe sh → Triple I (Clean t id sh) sync_directory (λ _. Clean t id sh)
  unfolding sync_directory
  sync-Triple sh safe = Triple-effect _ (Clean-safe sh safe) (λ s c. c)

  pub exists-Triple :
      (sh : Shape) (name : Bytes) (x : Option Entry)
      → Safe sh
      → ((s : Files) → Clean t id sh s → lookup name s.spaces ≡ x)
      → Triple I (Clean t id sh) (entry_exists name) (λ b s. (b ≡ is_some x) × Clean t id sh s)
  unfolding entry_exists
  exists-Triple sh name x safe h =
      Triple-effect _ (Clean-safe sh safe) (λ s c. (ap is_some (h s c), c))

  module _ (tg st o : Option SpaceTree) (m : Option RollbackMarker) (n : RollbackMarker) where
    write-Triple :
        Safe (shape tg st o m)
        → Triple I
            (Clean t id (shape tg st o m))
            (write_private_file (temporary_name id) n)
            (λ _. With t id (some (marker n)) (shape tg st o m))
    unfolding write_private_file
    write-Triple safe =
        Triple-then _ _
          (Triple-effect _ (Clean-safe _ safe) (creates_temporary apart (shape tg st o m)))
          (Triple-effect (written (temporary_name id) n) (With-safe _ (some damaged) tt safe)
            (writes_temporary apart (shape tg st o m) n))

    pub replace_marker-Triple :
        Safe (shape tg st o m)
        → Safe (shape tg st o (some n))
        → Triple I
            (Clean t id (shape tg st o m))
            (replace_marker id n)
            (λ _. Clean t id (shape tg st o (some n)))
    unfolding replace_marker rename
    replace_marker-Triple before after =
        Triple-bind _ _ (exists-Triple _ _ none before (λ s c. c.temporary)) λ b.
          Triple-then _ _ (Triple-absent b corrupt_state) (
            Triple-then _ _ (write-Triple before) (
              Triple-then _ _
                (Triple-effect _ (With-safe _ (some (marker n)) tt before)
                  (replaces_marker apart tg st o m n))
                (sync-Triple _ after)))

  pub remove_marker-Triple :
      (tg st o : Option SpaceTree) (m : RollbackMarker)
      → Safe (shape tg st o (some m))
      → Triple I
          (Clean t id (shape tg st o (some m)))
          (remove_file (marker_name id))
          (λ _. Clean t id (shape tg st o none))
  unfolding remove_file
  remove_marker-Triple tg st o m safe =
      Triple-effect _ (Clean-safe _ safe) (λ s c. rw c.mark (removes_marker apart tg st o m s c))

  pub retire_old-Triple :
      (tg st : Option SpaceTree) (x : SpaceTree) (m : Option RollbackMarker)
      → Safe (shape tg st (some x) m)
      → Triple I
          (Clean t id (shape tg st (some x) m))
          (retire_recovery_path (retired_name id))
          (λ _. Clean t id (shape tg st none m))
  unfolding retire_recovery_path
  retire_old-Triple tg st x m safe =
      Triple-effect _ (Clean-safe _ safe)
        (λ s c. rw c.old (retires_old apart tg st (some x) m s (space x ∷ s.trash) c))

  pub retire_staging-Triple :
      (tg o : Option SpaceTree) (x : SpaceTree) (m : Option RollbackMarker)
      → Safe (shape tg (some x) o m)
      → Triple I
          (Clean t id (shape tg (some x) o m))
          (retire_recovery_path (staging_name id))
          (λ _. Clean t id (shape tg none o m))
  unfolding retire_recovery_path
  retire_staging-Triple tg o x m safe =
      Triple-effect _ (Clean-safe _ safe)
        (λ s c. rw c.staging (retires_staging apart tg (some x) o m s (space x ∷ s.trash) c))

  pub read_marker-Triple :
      (tg st o : Option SpaceTree) (m : RollbackMarker)
      → m.schema_version ≡ marker_schema_version
      → Safe (shape tg st o (some m))
      → Triple I
          (Clean t id (shape tg st o (some m)))
          (read_marker (marker_name id))
          (λ x s. (x ≡ m) × Clean t id (shape tg st o (some m)) s)
  unfolding read_marker
  read_marker-Triple tg st o m v safe =
      Triple-effect _ (Clean-safe _ safe) (λ s c. rw c.mark (rw v (ground (arith, c))))

  pub open-Triple :
      (sh : Shape) (name expected : Bytes) (x : SpaceTree)
      → IsOpenable x
      → x.identity.name ≡ expected
      → Safe sh
      → ((s : Files) → Clean t id sh s → lookup name s.spaces ≡ some (space x))
      → Triple I (Clean t id sh) (open_space name expected) (λ y s. (y ≡ x) × Clean t id sh s)
  unfolding open_space
  open-Triple sh name expected x a n safe h =
      Triple-effect _ (Clean-safe _ safe)
        (λ s c. rw (h s c) (rw a.0 (rw a.1 (rw n (rw (==-refl expected) (refl, c))))))

  pub anchors-Triple :
      (tg o : Option SpaceTree) (x : SpaceTree) (m : Option RollbackMarker)
      → IsOpenable x
      → Safe (shape tg (some x) o m)
      → Triple I
          (Clean t id (shape tg (some x) o m))
          (validate_space_anchors (staging_name id))
          (λ _. Clean t id (shape tg (some x) o m))
  unfolding validate_space_anchors
  anchors-Triple tg o x m a safe =
      Triple-effect _ (Clean-safe _ safe) (λ s c. rw c.staging (simp a.0 c))

  pub verify-Triple :
      (tg o : Option SpaceTree) (x : SpaceTree) (m : Option RollbackMarker)
      → x.locked ≡ true
      → Safe (shape tg (some x) o m)
      → Triple I
          (Clean t id (shape tg (some x) o m))
          (verify_staging (staging_name id))
          (λ _. Clean t id (shape tg (some x) o m))
  unfolding verify_staging
  verify-Triple tg o x m l safe =
      Triple-effect _ (Clean-safe _ safe) (λ s c. rw c.staging (simp l c))

  pub unlock-Triple :
      (tg o : Option SpaceTree) (x : SpaceTree) (m : Option RollbackMarker)
      → x.locked ≡ true
      → Safe (shape tg (some x) o m)
      → Triple I
          (Clean t id (shape tg (some x) o m))
          (remove_creation_lock (staging_name id))
          (λ _. Clean t id (shape tg (some (record x { locked = false })) o m))
  unfolding remove_creation_lock
  unlock-Triple tg o x m l safe =
      Triple-effect _ (Clean-safe _ safe) (λ s c. unlocks_staging apart tg o x m s l c)

  pub remove_trashed-Triple :
      (sh : Shape) → Safe sh → Triple I (Clean t id sh) remove_trashed (λ _. Clean t id sh)
  unfolding remove_trashed
  remove_trashed-Triple sh safe =
      Triple-effect (λ s. (record s { trash = drop 1 s.trash }, ok tt)) (Clean-safe sh safe)
        λ s c. record {
          target = c.target;
          staging = c.staging;
          old = c.old;
          mark = c.mark;
          temporary = c.temporary;
        }
