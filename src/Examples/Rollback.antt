-- ===== src/Examples/Rollback.antt =====
-- A rollback of one small space, at concrete files.
use quarters.Prelude.{
  ◌≡◌, refl, Bool, true, false, none, some, List, [], ◌∷◌, arith, Bytes, nat_eq, bytes_eq, lookup,
  remove, insert, is_ok, codes,
}
use quarters.Rollback.Model.{
  SourceIdentity, SpaceTree, space, marker_name, temporary_name, staging_name, retired_name,
}
use quarters.Rollback.Disk.{
  Files, ◌>>=◌, effect, entry_exists, sync_directory, rename, retire_recovery_path, remove_file,
  write_private_file, read_marker, open_space,
}
use quarters.Rollback.Publish.{
  replace_marker, write_marker_new, validate_space_anchors, verify_staging, remove_creation_lock,
  remove_trashed, publish_marker, exchange, reclaim_old, publish_rollback, revalidate_publication,
}
use quarters.Rollback.States.{Present, Ready}
use quarters.Rollback.Crash.{
  publish_run, recover_runs, Published, publish-keeps_tree, publish-publishes,
}

abbrev identity_of_work : SourceIdentity
identity_of_work = record {
  schema_version = 2;
  name = codes "work";
  created_unix_ms = 1700;
  space_id = some (codes "0123456789abcdef0123456789abcdef");
}

abbrev old_work : SpaceTree
old_work = record {
  identity = identity_of_work;
  settings = codes "bash";
  stored = true;
  anchors = true;
  locked = false;
  home = codes "old";
}

abbrev new_work : SpaceTree
new_work = record {
  identity = identity_of_work;
  settings = codes "bash";
  stored = true;
  anchors = true;
  locked = true;
  home = codes "snapshot";
}

abbrev transaction : Bytes
transaction = codes "aaaabbbbccccddddeeeeffff00001111"

unfoldable before : Files
unfolding staging_name
before = record {
  spaces = (codes "work", space old_work) ∷ (staging_name transaction, space new_work) ∷ [];
  trash = [];
}

work-Ready : Ready old_work new_work transaction before
unfolding before staging_name retired_name marker_name temporary_name lookup
work-Ready = record {
  id_length = refl;
  name_length = omega arith;
  old_anchors = (refl, refl);
  new_identity = refl;
  new_anchors = (refl, refl);
  new_locked = refl;
  found = record { target = refl; staging = refl; old = refl; mark = refl; temporary = refl };
}

-- The publication stops after the target was retired, and the first recovery at its fifth operation.
abbrev stopped : List Bool
stopped =
    true ∷ true ∷ true ∷ true ∷ true ∷ true ∷ true ∷ true ∷ true ∷ true ∷ true ∷ true ∷ false ∷ []

abbrev stopped_recovery : List (List Bool)
stopped_recovery = (true ∷ true ∷ true ∷ true ∷ false ∷ []) ∷ []

publish-keeps_tree_example : Present old_work (codes "snapshot") transaction (
    recover_runs transaction stopped_recovery
      (publish_run old_work transaction (codes "s") (codes "r") stopped before).0.files)
publish-keeps_tree_example =
    publish-keeps_tree old_work new_work transaction (codes "s") (codes "r") stopped
      stopped_recovery before work-Ready

publish-publishes_example :
    (is_ok (publish_run old_work transaction (codes "s") (codes "r") [] before).1 ≡ true)
    × Published old_work new_work transaction
        (publish_run old_work transaction (codes "s") (codes "r") [] before).0.files
publish-publishes_example =
    publish-publishes old_work new_work transaction (codes "s") (codes "r") before work-Ready

-- The publication stops with the old tree retired, and the recovery brings it back.
stopped_target :
    lookup
      (codes "work")
      (publish_run old_work transaction (codes "s") (codes "r") stopped before).0.files.spaces
    ≡ none
unfolding publish_run publish_rollback before publish_marker exchange reclaim_old
    revalidate_publication write_marker_new replace_marker validate_space_anchors verify_staging
    remove_creation_lock remove_trashed effect entry_exists sync_directory rename
    retire_recovery_path remove_file write_private_file read_marker open_space marker_name
    temporary_name staging_name retired_name ◌>>=◌ lookup insert remove
stopped_target = refl
