-- ===== src/Rollback/Cleanup.antt =====
-- The parts of a recovery before and behind the plan: temporary marker files, and the trash.
use quarters.Prelude.{
  ℕ, zero, suc, ◌≡◌, refl, sym, Bool, true, false, Option, none, some, arith, if◌then◌else◌,
  is_some, Bytes, nat_eq, bytes_eq, lookup, remove, ok, err,
}
use quarters.Error.{system}
use quarters.Rollback.Model.{Entry, space, marker, damaged, temporary_name}
use quarters.Rollback.Disk.{Files, return, ◌>>◌, entry_exists, sync_directory, remove_file}
use quarters.Machine.CrashLogic.{
  Does, Triple, Triple-return, Triple-effect, Triple-bind, Triple-then,
}
use quarters.Rollback.Shapes.{Apart, Shape, At, With-scratch, Clean, IsFile, removes_temporary}
use quarters.Rollback.Steps.{Safe, Clean-safe, sync-Triple}
use quarters.Rollback.Recovery.{reclaim_marker_temporary, remove_reclaimed, remove_index}

module _ {t id : Bytes} (apart : Apart t id) (I : Files → Type 0) where
  removes_scratch :
      (sh : Shape) (s : Files) (x : Option Entry)
      → lookup (temporary_name id) s.spaces ≡ x
      → IsFile x
      → is_some x ≡ true
      → At t id sh s
      → Does {A = Unit {0}}
          (λ _. Clean t id sh)
          (elim x [
            | none ↦ (s, err system)
            | some e ↦ elim e [
              | space _ ↦ (s, err system)
              | _ ↦ (record s { spaces = remove (temporary_name id) s.spaces }, ok tt)
            ]
          ])
  removes_scratch sh s none e f h c = cc
  removes_scratch sh s (some (space _)) e f h c = absurd f
  removes_scratch sh s (some (marker k)) e f h c =
      removes_temporary apart sh (some (marker k)) s (With-scratch sh s c e)
  removes_scratch sh s (some damaged) e f h c =
      removes_temporary apart sh (some damaged) s (With-scratch sh s c e)

  abbrev Found : Shape → Bool → Files → Type 0
  Found sh b s = (b ≡ is_some (lookup (temporary_name id) s.spaces)) × At t id sh s

  clear-Found :
      (sh : Shape) (b : Bool)
      → Safe apart I sh
      → Triple I
          (Found sh b)
          (if b then (do remove_file (temporary_name id); sync_directory) else return tt)
          (λ _. Clean t id sh)
  unfolding remove_file
  clear-Found sh true safe =
      Triple-then _ _
        (Triple-effect _ (λ s (e, c). safe s c)
          (λ s (e, c).
            removes_scratch sh s (lookup (temporary_name id) s.spaces) refl c.scratch (sym e) c))
        (sync-Triple apart I sh safe)
  clear-Found sh false safe = Triple-return tt (λ s (e, c). With-scratch sh s c (ground arith))

  -- Before the plan the temporary name is cleared.
  pub clear-Triple :
      (sh : Shape)
      → Safe apart I sh
      → Triple I (At t id sh) (reclaim_marker_temporary id) (λ _. Clean t id sh)
  unfolding reclaim_marker_temporary entry_exists
  clear-Triple sh safe =
      Triple-bind _ _ (Triple-effect _ safe (λ s c. (refl, c))) (λ b. clear-Found sh b safe)

  pub remove_reclaimed-Triple :
      (k : ℕ) (sh : Shape)
      → Safe apart I sh
      → Triple I (Clean t id sh) (remove_reclaimed k) (λ _. Clean t id sh)
  unfolding remove_reclaimed
  remove_reclaimed-Triple zero sh safe = Triple-return tt (λ s c. c)
  remove_reclaimed-Triple (suc k) sh safe =
      Triple-then _ _
        (Triple-effect (λ s. (record s { trash = remove_index k s.trash }, ok tt))
          (Clean-safe apart I sh safe)
          λ s c. record {
            target = c.target;
            staging = c.staging;
            old = c.old;
            mark = c.mark;
            temporary = c.temporary;
          })
        (remove_reclaimed-Triple k sh safe)
