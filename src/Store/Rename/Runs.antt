-- ===== src/Store/Rename/Runs.antt =====
-- Runs of the rename and of its recovery, with crashes.
use quarters.Prelude.{
  ◌≡◌, refl, ◌⊎◌, inl, inr, Bool, none, some, List, [], ◌∷◌, Bytes, nat_eq, bytes_eq, Result, ok,
  err,
}
use quarters.Machine.{Disk, Stop}
use quarters.Machine.CrashLogic.{Post}
use quarters.Store.Rename.{
  Space, space, damaged, Files, marker_name, rename_space, recover_rename, absent,
}
use quarters.Store.Rename.Places.{place}
use quarters.Store.Rename.States
use quarters.Store.Rename.States.{
  Phase, idle, begun, marked, moved, done, Renames, mark, with_temporary, new_space, files_of, Is,
  Recoverable, Triple-value,
}
use quarters.Store.Rename.Moves.{rename_space-Triple}
use quarters.Store.Rename.Settles.{settled, recover_rename-Triple}

-- A run of the rename, from a directory with the old space and neither the new name nor a marker.
abbrev pub start_files : Space → Bytes → Bytes → Files → Files
start_files old name id base =
    place old.identity.name name (marker_name id) base
      (some (space (with_temporary old name id base absent))) none none

abbrev pub rename_run :
    Space → Bytes → Bytes → Files → List Bool → Disk Files × Result Stop (Unit {0})
rename_run old name id base fate =
    rename_space (ok tt) id old.identity.name name
      (record { files = start_files old name id base; fate = fate })

abbrev pub recover_run : Bytes → List Bool → Files → Disk Files × Result Stop (Unit {0})
recover_run id fate f = recover_rename id (record { files = f; fate = fate })

-- The files after a recovery for each fate.
abbrev pub recover_all : Bytes → List (List Bool) → Files → Files
recover_all id [] f = f
recover_all id (fate ∷ fates) f = recover_all id fates (recover_run id fate f).0.files

-- The old space under its name and at most a damaged marker, or the new space under the new name and no
-- marker; and nothing else is changed.
abbrev pub Unchanged : Space → Bytes → Bytes → Files → Files → Type 0
Unchanged old name id base f =
    let put = place old.identity.name name (marker_name id) base in
    let here = some (space (with_temporary old name id base absent)) in
    (f ≡ put here none none) ⊎ (f ≡ put here none (some damaged))

abbrev pub Changed : Space → Bytes → Bytes → Files → Files → Type 0
Changed old name id base f =
    f
    ≡ place old.identity.name name (marker_name id) base none
        (some (space (new_space old name id base))) none

abbrev pub Settled : Space → Bytes → Bytes → Files → Disk Files × Result Stop (Unit {0}) → Type 0
Settled old name id base (d, ok _) =
    Unchanged old name id base d.files ⊎ Changed old name id base d.files
Settled old name id base (d, err k) = ⊥

module _ (old : Space) (name id : Bytes) (base : Files) (r : Renames old name id) where
  recoverable :
      (q : Phase) (fate : List Bool) (x : Disk Files × Result Stop (Unit {0}))
      → Post (Recoverable old name id base) (λ _. Is old name id base q) fate x
      → Recoverable old name id base x.0.files
  recoverable q fate (d, ok a) (i, l) = (q, i)
  recoverable q fate (d, err k) (i, l) = i

  recover_run-Recoverable :
      (fate : List Bool) (f : Files)
      → Recoverable old name id base f
      → Recoverable old name id base (recover_run id fate f).0.files
  recover_run-Recoverable fate f (p, i) =
      recoverable (settled p) fate (recover_run id fate f)
        ((recover_rename-Triple old name id base r p).at (record { files = f; fate = fate }) i)

  recover_all-Recoverable :
      (fates : List (List Bool)) (f : Files)
      → Recoverable old name id base f
      → Recoverable old name id base (recover_all id fates f)
  recover_all-Recoverable [] f h = h
  recover_all-Recoverable (fate ∷ fates) f h =
      recover_all-Recoverable fates _ (recover_run-Recoverable fate f h)

  settled_files :
      (p : Phase) (f : Files)
      → Is old name id base (settled p) f
      → Unchanged old name id base f ⊎ Changed old name id base f
  settled_files idle f i = inl (inl i)
  settled_files begun f i = inl (inr i)
  settled_files marked f i = inl (inl i)
  settled_files moved f i = inr i
  settled_files States.created f i = inr i
  settled_files States.written f i = inr i
  settled_files States.renamed f i = inr i
  settled_files done f i = inr i

  ended :
      (p : Phase) (x : Disk Files × Result Stop (Unit {0}))
      → Post (Recoverable old name id base) (λ _. Is old name id base (settled p)) [] x
      → Settled old name id base x
  ended p (d, ok a) (i, l) = settled_files p d.files i
  ended p (d, err k) (i, (n, c)) = n refl

  last_recovery :
      (f : Files) → Recoverable old name id base f → Settled old name id base (recover_run id [] f)
  last_recovery f (p, i) =
      ended p (recover_run id [] f)
        ((recover_rename-Triple old name id base r p).at (record { files = f; fate = [] }) i)

-- Wherever the rename of a space crashes, and wherever any number of recoveries after it crash, a
-- recovery without a crash ends without an error in one of two complete states: the old space is under
-- its name with its manifest and home as they were and nothing under the new name, or a space with the
-- new name in its manifest and the rest as it was is under the new name and nothing under the old one;
-- at most a marker that was never written is left, no temporary manifest is, and every other entry of
-- the directory is untouched.
pub rename_space-recover_settles :
    (old : Space) (name id : Bytes) (base : Files) (fate : List Bool) (fates : List (List Bool))
    → Renames old name id
    → Settled old name id base
        (recover_run id [] (recover_all id fates (rename_run old name id base fate).0.files))
rename_space-recover_settles old name id base fate fates r = last_recovery old name id base r _ (
    recover_all-Recoverable old name id base r fates _ (
      recoverable old name id base r done fate (rename_run old name id base fate) (
        (rename_space-Triple old name id base r).at
          (record { files = start_files old name id base; fate = fate }) refl)))

abbrev pub Renamed : Space → Bytes → Bytes → Files → Disk Files × Result Stop (Unit {0}) → Type 0
Renamed old name id base (d, ok _) = Changed old name id base d.files
Renamed old name id base (d, err k) = ⊥

-- A rename that does not crash returns without an error, and the space is under the new name, with that
-- name in its manifest and all else as it was; no marker and no temporary manifest is left, and no
-- other entry of the directory is touched.
pub rename_space-Renamed :
    (old : Space) (name id : Bytes) (base : Files)
    → Renames old name id
    → Renamed old name id base (rename_run old name id base [])
rename_space-Renamed old name id base r = final (rename_run old name id base []) (
    (rename_space-Triple old name id base r).at
      (record { files = start_files old name id base; fate = [] }) refl)
  where
    final :
        (x : Disk Files × Result Stop (Unit {0}))
        → Post (Recoverable old name id base) (λ _. Is old name id base done) [] x
        → Renamed old name id base x
    final (d, ok a) (i, l) = i
    final (d, err k) (i, (n, c)) = n refl
