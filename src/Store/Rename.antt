-- ===== src/Store/Rename.antt =====
-- crates/quarters-core/src/store/rename.rs: the rename of a space and its recovery, as actions on the
-- spaces directory of a machine that can crash. The marker's identifier is an argument, and so is
-- `others`, the outcome of the checks that look outside the directory's entries of this rename: other
-- transactions, a freeze, bindings of legacy artifacts, the lease and the runtime directory.
pub mod Places
pub mod States
pub mod Moves
pub mod Recovers
pub mod Settles
pub mod Runs
use quarters.Prelude.{
  ◌≡◌, ℕ, Option, none, some, Bool, true, false, ◌&&◌, not, ◌++◌, if◌then◌else◌, is_some, ◌==◌,
  Bytes, nat_eq, bytes_eq, nat_beq, Result, ok, err, reject_if, codes,
}
use quarters.Error.{ErrorKind, corrupt_state, system, invalid_input, unsupported, already_exists}
use quarters.Machine.{Action, return, ◌>>=◌, ◌>>◌, attempt, lift, effect}
use quarters.Rollback.Model.{SourceIdentity, matches}

-- The file `.quarters-rename.tmp` of a space.
pub data Temporary : Type 0 where
  absent : Temporary
  partial : Temporary
  complete : SourceIdentity → Temporary

-- A space directory: the identity in its manifest, whether the store accepts the schema and the contents
-- of the manifest, which do not depend on the name, whether its anchors are valid, its home as an
-- opaque value, and the temporary manifest.
pub record Space : Type 0 where
  pub identity : SourceIdentity
  pub stored : Bool
  pub anchors : Bool
  pub home : Bytes
  pub temporary : Temporary

-- A space that can be opened under its name.
abbrev pub IsOpenable : Space → Type 0
IsOpenable s = (s.anchors ≡ true) × (s.stored ≡ true)

pub record RenameMarker : Type 0 where
  pub schema_version : ℕ
  pub transaction_id : Bytes
  pub previous : Bytes
  pub name : Bytes
  pub source_identity : SourceIdentity

-- An entry of the spaces directory; `damaged` is a file that is no valid marker.
pub data Entry : Type 0 where
  space : Space → Entry
  marker : RenameMarker → Entry
  damaged : Entry

-- The spaces directory, by what stands under a name.
pub record Files : Type 0 where
  pub at : Bytes → Option Entry

abbrev pub set : Bytes → Option Entry → Files → Files
set name entry f = record { at = λ n. if n == name then entry else f.at n }

abbrev pub Outcome : Type 0 → Type 0
Outcome A = Files × Result ErrorKind A

abbrev pub rename_schema_version : ℕ
rename_schema_version = 1

unfoldable pub marker_name : Bytes → Bytes
marker_name id = codes ".rename-" ++ id ++ codes ".json"

abbrev pub entry_exists : Bytes → Action Files Bool
entry_exists name = effect (λ f. (f, ok (is_some (f.at name))))

abbrev pub sync_directory : Action Files (Unit {0})
sync_directory = effect (λ f. (f, ok tt))

-- `Store::open_relocated_path`, and `Store::open` with the entry's own name.
abbrev pub opened : Bytes → Option Entry → Result ErrorKind Space
opened expected_name (some (space s)) =
    if s.anchors && (s.stored && s.identity.name == expected_name) then ok s else err corrupt_state
opened expected_name none = err system
opened expected_name _ = err corrupt_state

abbrev pub open_relocated_path : Bytes → Bytes → Action Files Space
open_relocated_path name expected_name = effect (λ f. (f, opened expected_name (f.at name)))

-- `fs::rename` of a directory, to a name that has no entry.
abbrev pub renamed : Bytes → Bytes → Files → Option Entry → Option Entry → Outcome (Unit {0})
renamed from to f (some (space s)) none = (set to (some (space s)) (set from none f), ok tt)
renamed from to f _ _ = (f, err system)

abbrev pub rename : Bytes → Bytes → Action Files (Unit {0})
rename from to = effect (λ f. renamed from to f (f.at from) (f.at to))

abbrev pub removed : Bytes → Files → Option Entry → Outcome (Unit {0})
removed name f (some (marker m)) = (set name none f, ok tt)
removed name f (some damaged) = (set name none f, ok tt)
removed name f _ = (f, err system)

abbrev pub remove_file : Bytes → Action Files (Unit {0})
remove_file name = effect (λ f. removed name f (f.at name))

-- `write_private_file`: the file is created and then written.
abbrev pub created : Bytes → Files → Option Entry → Outcome (Unit {0})
created name f none = (set name (some damaged) f, ok tt)
created name f (some e) = (f, err system)

unfoldable pub write_marker : Bytes → RenameMarker → Action Files (Unit {0})
write_marker name m = do
  effect (λ f. created name f (f.at name))
  effect (λ f. (set name (some (marker m)) f, ok tt))

-- A change of the temporary manifest or the manifest of the space under `name`.
abbrev pub in_space :
    Bytes → (Space → Result ErrorKind Space) → Files → Option Entry → Outcome (Unit {0})
in_space name change f (some (space s)) = elim (change s) [
  | ok after ↦ (set name (some (space after)) f, ok tt)
  | err k ↦ (f, err k)
]
in_space name change f _ = (f, err system)

abbrev pub change_space : Bytes → (Space → Result ErrorKind Space) → Action Files (Unit {0})
change_space name change = effect (λ f. in_space name change f (f.at name))

abbrev pub created_temporary : Space → Result ErrorKind Space
created_temporary s = elim s.temporary [
  | absent ↦ ok (record s { temporary = partial })
  | _ ↦ err system
]

abbrev pub written_temporary : SourceIdentity → Space → Result ErrorKind Space
written_temporary identity s = ok (record s { temporary = complete identity })

abbrev pub installed_temporary : Space → Result ErrorKind Space
installed_temporary s = elim s.temporary [
  | complete identity ↦ ok (record s { identity = identity; temporary = absent })
  | _ ↦ err system
]

abbrev pub removed_temporary : Space → Result ErrorKind Space
removed_temporary s = ok (record s { temporary = absent })

unfoldable pub after_install : Bytes → Option (Unit {0}) → Action Files (Unit {0})
after_install name none = do
  cleaned ← attempt (change_space name removed_temporary)
  lift (err system)
after_install name (some _) = sync_directory

-- `replace_manifest` of store/create.rs, on the identity; `stored` is the outcome of
-- `validate_stored_manifest` for the manifest.
unfoldable pub replace_manifest : Bytes → Bool → SourceIdentity → Action Files (Unit {0})
unfolding after_install
replace_manifest name stored identity = do
  lift (reject_if (not stored) corrupt_state)
  change_space name created_temporary
  change_space name (written_temporary identity)
  installed ← attempt (change_space name installed_temporary)
  after_install name installed

-- `cleanup_manifest_temporary`.
unfoldable pub cleanup_manifest_temporary : Bytes → Action Files (Unit {0})
cleanup_manifest_temporary name = change_space name removed_temporary

unfoldable pub complete_moved_rename : Bytes → RenameMarker → Action Files (Unit {0})
unfolding replace_manifest
complete_moved_rename destination m = do
  moved ← open_relocated_path destination m.previous
  lift (reject_if (not (matches m.source_identity moved.identity)) corrupt_state)
  replace_manifest destination moved.stored (record moved.identity { name = m.name })

unfoldable pub after_move : Bytes → RenameMarker → Option (Unit {0}) → Action Files (Unit {0})
unfolding complete_moved_rename
after_move id m none = do
  removed_marker ← attempt (remove_file (marker_name id))
  synced ← attempt sync_directory
  lift (err system)
after_move id m (some _) = do
  sync_directory
  complete_moved_rename m.name m
  remove_file (marker_name id)
  sync_directory
  reopened ← open_relocated_path m.name m.name
  return tt

abbrev pub new_marker : Bytes → Bytes → Bytes → SourceIdentity → RenameMarker
new_marker id previous name identity = record {
  schema_version = rename_schema_version;
  transaction_id = id;
  previous = previous;
  name = name;
  source_identity = identity;
}

-- `rename_space`.
unfoldable pub rename_space :
    Result ErrorKind (Unit {0}) → Bytes → Bytes → Bytes → Action Files (Unit {0})
unfolding write_marker after_move
rename_space others id previous name = do
  lift (reject_if (previous == name) invalid_input)
  lift others
  source ← open_relocated_path previous previous
  lift (reject_if (not (is_some source.identity.space_id)) unsupported)
  destination ← entry_exists name
  lift (reject_if destination already_exists)
  write_marker (marker_name id) (new_marker id previous name source.identity)
  sync_directory
  moved ← attempt (rename previous name)
  after_move id (new_marker id previous name source.identity) moved

-- `open(..).or_else(|_| open(..))`.
unfoldable pub open_either : Bytes → Bytes → Bytes → Action Files Space
open_either destination previous name = do
  first ← attempt (open_relocated_path destination previous)
  elim first [ some s ↦ return s | none ↦ open_relocated_path destination name ]

unfoldable pub recover_moved : RenameMarker → Action Files (Unit {0})
unfolding open_either cleanup_manifest_temporary complete_moved_rename
recover_moved m = do
  moved ← open_either m.name m.previous m.name
  lift (reject_if (not (matches m.source_identity moved.identity)) corrupt_state)
  if moved.identity.name == m.previous
      then (do cleanup_manifest_temporary m.name; complete_moved_rename m.name m)
      else return tt

unfoldable pub recover_places : RenameMarker → Bool → Bool → Action Files (Unit {0})
unfolding recover_moved
recover_places m true false = do
  source ← open_relocated_path m.previous m.previous
  lift (reject_if (not (matches m.source_identity source.identity)) corrupt_state)
recover_places m false true = recover_moved m
recover_places m _ _ = lift (err corrupt_state)

unfoldable pub recover_one : Bytes → RenameMarker → Action Files (Unit {0})
unfolding recover_places
recover_one marker_path m = do
  source_exists ← entry_exists m.previous
  destination_exists ← entry_exists m.name
  recover_places m source_exists destination_exists
  remove_file marker_path

unfoldable pub validate_marker : RenameMarker → Bytes → Bool
validate_marker m id =
    nat_beq m.schema_version rename_schema_version
    && m.transaction_id == id
    && not (m.previous == m.name)
    && is_some m.source_identity.space_id

-- `valid_marker_entry`, for the entry of this transaction.
abbrev pub valid_marker : Bytes → Option Entry → Option RenameMarker
valid_marker id (some (marker m)) = if validate_marker m id then some m else none
valid_marker id _ = none

-- `recover_renames` for this transaction: whether it was recovered.
unfoldable pub recover_rename : Bytes → Action Files (Unit {0})
unfolding recover_one validate_marker
recover_rename id = do
  found ← effect (λ f. (f, ok (valid_marker id (f.at (marker_name id)))))
  elim found [
    | none ↦ return tt
    | some m ↦ (do recovered ← attempt (recover_one (marker_name id) m); return tt)
  ]
  sync_directory
