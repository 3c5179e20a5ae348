-- ===== src/Rollback/Shapes.antt =====
-- The entries of one transaction, and what each operation makes of them.
use quarters.Prelude.{
  ◌≡◌, true, false, Option, none, some, List, ◌==◌, ==-refl, Bytes, nat_eq, bytes_eq, lookup,
  remove, insert, lookup-remove, lookup-insert,
}
use quarters.Rollback.Model.{
  SpaceTree, RollbackMarker, Entry, space, marker, damaged, marker_name, temporary_name,
  staging_name, retired_name,
}
use quarters.Rollback.Disk.{Files, renamed, created, written}
use quarters.Rollback.Publish.{unlocked}
use quarters.Machine.CrashLogic.{Does}

-- The five names of a transaction are different.
pub record Apart (t id : Bytes) : Type 0 where
  pub ts : (t == staging_name id) ≡ false
  pub tr : (t == retired_name id) ≡ false
  pub tm : (t == marker_name id) ≡ false
  pub tp : (t == temporary_name id) ≡ false
  pub st : (staging_name id == t) ≡ false
  pub sr : (staging_name id == retired_name id) ≡ false
  pub sm : (staging_name id == marker_name id) ≡ false
  pub sp : (staging_name id == temporary_name id) ≡ false
  pub rt : (retired_name id == t) ≡ false
  pub rs : (retired_name id == staging_name id) ≡ false
  pub rm : (retired_name id == marker_name id) ≡ false
  pub rp : (retired_name id == temporary_name id) ≡ false
  pub mt : (marker_name id == t) ≡ false
  pub ms : (marker_name id == staging_name id) ≡ false
  pub mr : (marker_name id == retired_name id) ≡ false
  pub mp : (marker_name id == temporary_name id) ≡ false
  pub pt : (temporary_name id == t) ≡ false
  pub ps : (temporary_name id == staging_name id) ≡ false
  pub pr : (temporary_name id == retired_name id) ≡ false
  pub pm : (temporary_name id == marker_name id) ≡ false

pub record Shape : Type 0 where
  pub target : Option SpaceTree
  pub staging : Option SpaceTree
  pub old : Option SpaceTree
  pub mark : Option RollbackMarker

abbrev pub tree_entry : Option SpaceTree → Option Entry
tree_entry none = none
tree_entry (some t) = some (space t)

abbrev pub marker_entry : Option RollbackMarker → Option Entry
marker_entry none = none
marker_entry (some m) = some (marker m)

abbrev pub IsFile : Option Entry → Type 0
IsFile none = Unit
IsFile (some (space _)) = ⊥
IsFile (some (marker _)) = Unit
IsFile (some damaged) = Unit

abbrev pub shape :
    Option SpaceTree → Option SpaceTree → Option SpaceTree → Option RollbackMarker → Shape
shape t s o m = record { target = t; staging = s; old = o; mark = m }

-- The directory shows the shape, and the temporary name is free or a file.
pub record At (t id : Bytes) (sh : Shape) (s : Files) : Type 0 where
  pub target : lookup t s.spaces ≡ tree_entry sh.target
  pub staging : lookup (staging_name id) s.spaces ≡ tree_entry sh.staging
  pub old : lookup (retired_name id) s.spaces ≡ tree_entry sh.old
  pub mark : lookup (marker_name id) s.spaces ≡ marker_entry sh.mark
  pub scratch : IsFile (lookup (temporary_name id) s.spaces)

-- The same with `scratch` at the temporary name.
pub record With (t id : Bytes) (scratch : Option Entry) (sh : Shape) (s : Files) : Type 0 where
  pub target : lookup t s.spaces ≡ tree_entry sh.target
  pub staging : lookup (staging_name id) s.spaces ≡ tree_entry sh.staging
  pub old : lookup (retired_name id) s.spaces ≡ tree_entry sh.old
  pub mark : lookup (marker_name id) s.spaces ≡ marker_entry sh.mark
  pub temporary : lookup (temporary_name id) s.spaces ≡ scratch

abbrev pub Clean : Bytes → Bytes → Shape → Files → Type 0
Clean t id = With t id none

pub With-At :
    {t id : Bytes} {x : Option Entry} (sh : Shape) (s : Files)
    → IsFile x
    → With t id x sh s
    → At t id sh s
With-At sh s f c = record {
  target = c.target;
  staging = c.staging;
  old = c.old;
  mark = c.mark;
  scratch = rw c.temporary f;
}

pub With-scratch :
    {t id : Bytes} {x : Option Entry} (sh : Shape) (s : Files)
    → At t id sh s
    → lookup (temporary_name id) s.spaces ≡ x
    → With t id x sh s
With-scratch sh s c e = record {
  target = c.target;
  staging = c.staging;
  old = c.old;
  mark = c.mark;
  temporary = e;
}

module _ {t id : Bytes} (apart : Apart t id) where
  pub retires_target :
      (x : SpaceTree) (n : Option SpaceTree) (m : Option RollbackMarker) (s : Files)
      → Clean t id (shape (some x) n none m) s
      → Does (λ _. Clean t id (shape none n (some x) m)) (renamed t (retired_name id) s)
  retires_target x n m s c =
      rw (c.target, renamed)
        (rw (c.old, renamed)
          (record {
            target = simp (lookup-insert, lookup-remove, apart.rt, ==-refl);
            staging = simp (lookup-insert, lookup-remove, apart.rs, apart.ts) c.staging;
            old = simp (lookup-insert, ==-refl);
            mark = simp (lookup-insert, lookup-remove, apart.rm, apart.tm) c.mark;
            temporary = simp (lookup-insert, lookup-remove, apart.rp, apart.tp) c.temporary;
          }))

  pub restores_target :
      (x : SpaceTree) (n : Option SpaceTree) (m : Option RollbackMarker) (s : Files)
      → Clean t id (shape none n (some x) m) s
      → Does (λ _. Clean t id (shape (some x) n none m)) (renamed (retired_name id) t s)
  restores_target x n m s c =
      rw (c.old, renamed)
        (rw (c.target, renamed)
          (record {
            target = simp (lookup-insert, ==-refl);
            staging = simp (lookup-insert, lookup-remove, apart.ts, apart.rs) c.staging;
            old = simp (lookup-insert, lookup-remove, apart.tr, ==-refl);
            mark = simp (lookup-insert, lookup-remove, apart.tm, apart.rm) c.mark;
            temporary = simp (lookup-insert, lookup-remove, apart.tp, apart.rp) c.temporary;
          }))

  pub publishes_staging :
      (x : SpaceTree) (o : Option SpaceTree) (m : Option RollbackMarker) (s : Files)
      → Clean t id (shape none (some x) o m) s
      → Does (λ _. Clean t id (shape (some x) none o m)) (renamed (staging_name id) t s)
  publishes_staging x o m s c =
      rw (c.staging, renamed)
        (rw (c.target, renamed)
          (record {
            target = simp (lookup-insert, ==-refl);
            staging = simp (lookup-insert, lookup-remove, apart.ts, ==-refl);
            old = simp (lookup-insert, lookup-remove, apart.tr, apart.sr) c.old;
            mark = simp (lookup-insert, lookup-remove, apart.tm, apart.sm) c.mark;
            temporary = simp (lookup-insert, lookup-remove, apart.tp, apart.sp) c.temporary;
          }))

  pub creates_temporary :
      (sh : Shape) (s : Files)
      → Clean t id sh s
      → Does (λ _. With t id (some damaged) sh) (created (temporary_name id) s)
  creates_temporary sh s c =
      rw (c.temporary, created)
        (record {
          target = simp (lookup-insert, apart.pt) c.target;
          staging = simp (lookup-insert, apart.ps) c.staging;
          old = simp (lookup-insert, apart.pr) c.old;
          mark = simp (lookup-insert, apart.pm) c.mark;
          temporary = simp (lookup-insert, ==-refl);
        })

  pub writes_temporary :
      (sh : Shape) (n : RollbackMarker) (s : Files)
      → With t id (some damaged) sh s
      → Does (λ _. With t id (some (marker n)) sh) (written (temporary_name id) n s)
  writes_temporary sh n s c = record {
    target = simp (lookup-insert, apart.pt) c.target;
    staging = simp (lookup-insert, apart.ps) c.staging;
    old = simp (lookup-insert, apart.pr) c.old;
    mark = simp (lookup-insert, apart.pm) c.mark;
    temporary = simp (lookup-insert, ==-refl);
  }

  marker_moved :
      (tg st o : Option SpaceTree) (m : Option RollbackMarker) (n : RollbackMarker) (s : Files)
      → With t id (some (marker n)) (shape tg st o m) s
      → Clean t id (shape tg st o (some n)) (record s {
        spaces = insert (marker_name id) (marker n) (remove (temporary_name id) s.spaces);
      })
  marker_moved tg st o m n s c = record {
    target = simp (lookup-insert, lookup-remove, apart.mt, apart.pt) c.target;
    staging = simp (lookup-insert, lookup-remove, apart.ms, apart.ps) c.staging;
    old = simp (lookup-insert, lookup-remove, apart.mr, apart.pr) c.old;
    mark = simp (lookup-insert, ==-refl);
    temporary = simp (lookup-insert, lookup-remove, apart.mp, ==-refl);
  }

  pub replaces_marker :
      (tg st o : Option SpaceTree) (m : Option RollbackMarker) (n : RollbackMarker) (s : Files)
      → With t id (some (marker n)) (shape tg st o m) s
      → Does
          (λ _. Clean t id (shape tg st o (some n)))
          (renamed (temporary_name id) (marker_name id) s)
  replaces_marker tg st o none n s c =
      rw (c.temporary, renamed) (rw (c.mark, renamed) (marker_moved tg st o none n s c))
  replaces_marker tg st o (some m) n s c =
      rw (c.temporary, renamed) (rw (c.mark, renamed) (marker_moved tg st o (some m) n s c))

  pub removes_marker :
      (tg st o : Option SpaceTree) (m : RollbackMarker) (s : Files)
      → Clean t id (shape tg st o (some m)) s
      → Clean t id (shape tg st o none) (record s { spaces = remove (marker_name id) s.spaces })
  removes_marker tg st o m s c = record {
    target = simp (lookup-remove, apart.mt) c.target;
    staging = simp (lookup-remove, apart.ms) c.staging;
    old = simp (lookup-remove, apart.mr) c.old;
    mark = simp (lookup-remove, ==-refl);
    temporary = simp (lookup-remove, apart.mp) c.temporary;
  }

  pub removes_temporary :
      (sh : Shape) (x : Option Entry) (s : Files)
      → With t id x sh s
      → Clean t id sh (record s { spaces = remove (temporary_name id) s.spaces })
  removes_temporary sh x s c = record {
    target = simp (lookup-remove, apart.pt) c.target;
    staging = simp (lookup-remove, apart.ps) c.staging;
    old = simp (lookup-remove, apart.pr) c.old;
    mark = simp (lookup-remove, apart.pm) c.mark;
    temporary = simp (lookup-remove, ==-refl);
  }

  pub retires_staging :
      (tg st o : Option SpaceTree) (m : Option RollbackMarker) (s : Files) (trash : List Entry)
      → Clean t id (shape tg st o m) s
      → Clean t id
          (shape tg none o m)
          (record { spaces = remove (staging_name id) s.spaces; trash = trash })
  retires_staging tg st o m s trash c = record {
    target = simp (lookup-remove, apart.st) c.target;
    staging = simp (lookup-remove, ==-refl);
    old = simp (lookup-remove, apart.sr) c.old;
    mark = simp (lookup-remove, apart.sm) c.mark;
    temporary = simp (lookup-remove, apart.sp) c.temporary;
  }

  pub retires_old :
      (tg st o : Option SpaceTree) (m : Option RollbackMarker) (s : Files) (trash : List Entry)
      → Clean t id (shape tg st o m) s
      → Clean t id
          (shape tg st none m)
          (record { spaces = remove (retired_name id) s.spaces; trash = trash })
  retires_old tg st o m s trash c = record {
    target = simp (lookup-remove, apart.rt) c.target;
    staging = simp (lookup-remove, apart.rs) c.staging;
    old = simp (lookup-remove, ==-refl);
    mark = simp (lookup-remove, apart.rm) c.mark;
    temporary = simp (lookup-remove, apart.rp) c.temporary;
  }

  pub unlocks_staging :
      (tg o : Option SpaceTree) (x : SpaceTree) (m : Option RollbackMarker) (s : Files)
      → x.locked ≡ true
      → Clean t id (shape tg (some x) o m) s
      → Does
          (λ _. Clean t id (shape tg (some (record x { locked = false })) o m))
          (unlocked (staging_name id) s)
  unlocks_staging tg o x m s l c =
      rw (c.staging, unlocked)
        (rw l (record {
          target = simp (lookup-insert, apart.st) c.target;
          staging = simp (lookup-insert, ==-refl);
          old = simp (lookup-insert, apart.sr) c.old;
          mark = simp (lookup-insert, apart.sm) c.mark;
          temporary = simp (lookup-insert, apart.sp) c.temporary;
        }))
