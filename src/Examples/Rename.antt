-- ===== src/Examples/Rename.antt =====
-- The theorems on the rename of a space at a concrete space, and a run that crashes.
use quarters.Prelude.{refl, true, false, none, some, [], ◌∷◌, nat_eq, bytes_eq, codes}
use quarters.Store.Rename.{Space, Files, absent, marker_name}
use quarters.Store.Rename.States.{Renames}
use quarters.Store.Rename.Runs.{
  Settled, Renamed, rename_run, recover_run, recover_all, rename_space-recover_settles,
  rename_space-Renamed,
}

abbrev work : Space
work = record {
  identity = record {
    schema_version = 3;
    name = codes "work";
    created_unix_ms = 7;
    space_id = some (codes "0123456789abcdef0123456789abcdef");
  };
  stored = true;
  anchors = true;
  home = codes "home";
  temporary = absent;
}

abbrev nothing_else : Files
nothing_else = record { at = λ n. none }

work-Renames : Renames work (codes "play") (codes "1")
unfolding marker_name
work-Renames = record {
  anchors = (refl, refl);
  stable = refl;
  names = record {
    moves = refl;
    back = refl;
    previous_path = refl;
    path_previous = refl;
    name_path = refl;
    path_name = refl;
  };
}

-- The process crashes when it replaces the manifest, and again in its first recovery.
rename_space-recover_settles_example : Settled work (codes "play") (codes "1") nothing_else (
    recover_run (codes "1") [] (
      recover_all
        (codes "1")
        ((true ∷ true ∷ false ∷ []) ∷ [])
        (rename_run work
          (codes "play")
          (codes "1")
          nothing_else
          (true ∷ true ∷ true ∷ true ∷ true ∷ true ∷ true ∷ true ∷ true ∷ false ∷ [])).0.files))
rename_space-recover_settles_example =
    rename_space-recover_settles work (codes "play") (codes "1") nothing_else
      (true ∷ true ∷ true ∷ true ∷ true ∷ true ∷ true ∷ true ∷ true ∷ false ∷ [])
      ((true ∷ true ∷ false ∷ []) ∷ []) work-Renames

rename_space-Renamed_example :
    Renamed work
      (codes "play")
      (codes "1")
      nothing_else
      (rename_run work (codes "play") (codes "1") nothing_else [])
rename_space-Renamed_example =
    rename_space-Renamed work (codes "play") (codes "1") nothing_else work-Renames
