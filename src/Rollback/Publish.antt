-- ===== src/Rollback/Publish.antt =====
-- `publish_rollback`: the sequence of durable steps that puts a prepared staging tree in the place
-- of the target, with the marker telling at each point how far it has come.
use quarters.Prelude.{
  Bool, false, not, none, some, if◌then◌else◌, drop, Bytes, nat_eq, bytes_eq, lookup, insert,
  Result, ok, err, reject_if,
}
use quarters.Error.{ErrorKind, corrupt_state, system}
use quarters.Rollback.Model.{
  SpaceTree, prepared, retired, published, RollbackMarker, space, marker_schema_version,
  manifest_beq, marker_beq, marker_name, temporary_name, staging_name, retired_name,
}
use quarters.Rollback.Disk.{
  Files, Action, ◌>>=◌, ◌>>◌, effect, entry_exists, sync_directory, rename, retire_recovery_path,
  remove_file, write_private_file, read_marker, open_space, lift,
}

-- `write_marker_new` and `replace_marker`, for the marker of transaction `id`.
unfoldable pub replace_marker : Bytes → RollbackMarker → Action (Unit {0})
unfolding ◌>>=◌
replace_marker id m = do
  exists ← entry_exists (temporary_name id)
  lift (reject_if exists corrupt_state)
  write_private_file (temporary_name id) m
  rename (temporary_name id) (marker_name id)
  sync_directory

unfoldable pub write_marker_new : Bytes → RollbackMarker → Action (Unit {0})
unfolding ◌>>=◌
write_marker_new id m = do
  exists ← entry_exists (marker_name id)
  lift (reject_if exists corrupt_state)
  replace_marker id m

-- `validate_space_anchors`.
unfoldable pub validate_space_anchors : Bytes → Action (Unit {0})
validate_space_anchors name = effect (λ s. (
  s,
  elim (lookup name s.spaces) [
    | none ↦ err system
    | some e ↦ elim e [
      | space t ↦ if t.anchors then ok tt else err corrupt_state
      | _ ↦ err corrupt_state
    ]
  ],
))

-- `StagingIdentity::verify`: the staging tree still holds the creation lock.
unfoldable pub verify_staging : Bytes → Action (Unit {0})
verify_staging name = effect (λ s. (
  s,
  elim (lookup name s.spaces) [
    | none ↦ err system
    | some e ↦ elim e [
      | space t ↦ if t.locked then ok tt else err corrupt_state
      | _ ↦ err corrupt_state
    ]
  ],
))

-- `fs::remove_file(&staging.creation_lock_path)`.
abbrev pub unlocked : Bytes → Files → Files × Result ErrorKind (Unit {0})
unlocked name s = elim (lookup name s.spaces) [
  | none ↦ (s, err system)
  | some e ↦ elim e [
    | space t ↦
        if t.locked
        then (
          record s { spaces = insert name (space (record t { locked = false })) s.spaces },
          ok tt,
        )
        else (s, err system)
    | _ ↦ (s, err system)
  ]
]

unfoldable pub remove_creation_lock : Bytes → Action (Unit {0})
remove_creation_lock name = effect (unlocked name)

-- `revalidate_publication`; `snapshot_current` says that the snapshot's manifest is unchanged.
unfoldable pub revalidate_publication : SpaceTree → Bool → Bytes → Action (Unit {0})
unfolding ◌>>=◌
revalidate_publication target snapshot_current staging = do
  current ← open_space target.identity.name target.identity.name
  lift (reject_if (not (manifest_beq current target)) corrupt_state)
  lift (reject_if (not snapshot_current) corrupt_state)
  validate_space_anchors staging

abbrev pub new_marker : SpaceTree → Bytes → Bytes → Bytes → RollbackMarker
new_marker target id snapshot_id recovery_id = record {
  schema_version = marker_schema_version;
  transaction_id = id;
  state = prepared;
  target = target.identity.name;
  target_identity = target.identity;
  staging_entry = staging_name id;
  retired_entry = retired_name id;
  snapshot_id = snapshot_id;
  recovery_snapshot_id = recovery_id;
}

-- `remove_tree_restoring_owner_access` of the tree that was retired last.
unfoldable pub remove_trashed : Action (Unit {0})
remove_trashed = effect (λ s. (record s { trash = drop 1 s.trash }, ok tt))

-- The part up to the first change of the target.
unfoldable pub publish_marker : SpaceTree → Bool → Bytes → RollbackMarker → Action (Unit {0})
unfolding ◌>>=◌
publish_marker target snapshot_current id m = do
  revalidate_publication target snapshot_current (staging_name id)
  write_marker_new id m
  sync_directory
  written_marker ← read_marker (marker_name id)
  lift (reject_if (not (marker_beq written_marker m)) corrupt_state)

-- From the retirement of the target to the publication of the staging tree in its place.
unfoldable pub exchange : SpaceTree → Bytes → RollbackMarker → Action (Unit {0})
unfolding ◌>>=◌
exchange target id m = do
  rename target.identity.name (retired_name id)
  sync_directory
  replace_marker id (record m { state = retired })
  verify_staging (staging_name id)
  remove_creation_lock (staging_name id)
  sync_directory
  validate_space_anchors (staging_name id)
  rename (staging_name id) target.identity.name
  sync_directory
  replace_marker id (record m { state = published })

-- The reclaim of the old tree, the removal of the marker, and the cleanup behind it.
unfoldable pub reclaim_old : Bytes → Action (Unit {0})
unfolding ◌>>=◌
reclaim_old id = do
  sync_directory
  retire_recovery_path (retired_name id)
  sync_directory
  sync_directory
  remove_file (marker_name id)
  sync_directory
  remove_trashed
  sync_directory

-- `publish_rollback`. Its first operation is `begin_mutation`, its `create_private_dir` of the trash
-- is the first `sync_directory` of `reclaim_old`: both may fail and change nothing modelled.
unfoldable pub publish_rollback : SpaceTree → Bool → Bytes → Bytes → Bytes → Action (Unit {0})
unfolding ◌>>=◌
publish_rollback target snapshot_current id snapshot_id recovery_id = do
  sync_directory
  let m = new_marker target id snapshot_id recovery_id
  publish_marker target snapshot_current id m
  exchange target id m
  reclaim_old id
