-- ===== src/Rollback/Disk.antt =====
-- The spaces directory as a state, and the file operations of a rollback as actions on it, on a machine
-- that can crash.
use quarters.Prelude.{
  Bool, ◌&&◌, none, some, List, ◌∷◌, if◌then◌else◌, is_some, ◌==◌, Bytes, nat_eq, bytes_eq, Map,
  lookup, remove, insert, Result, ok, err,
}
use quarters.Machine
pub use quarters.Machine.{Stop, crashed, failed, outcome, return, ◌>>◌, caught, lift}
unfoldable pub use quarters.Machine.{◌>>=◌, attempt, effect}
use quarters.Error.{ErrorKind, corrupt_state, system}
use quarters.Rollback.Model.{
  SpaceTree, RollbackMarker, Entry, space, marker, damaged, marker_schema_version,
}

pub record Files : Type 0 where
  pub spaces : Map Bytes Entry
  pub trash : List Entry

abbrev pub Disk : Type 0
Disk = Machine.Disk Files

abbrev pub Action : Type 0 → Type 0
Action A = Machine.Action Files A

-- `entry_exists`.
unfoldable pub entry_exists : Bytes → Action Bool
entry_exists name = effect (λ s. (s, ok (is_some (lookup name s.spaces))))

-- `sync_directory`, and other operations that leave the directory as it is.
unfoldable pub sync_directory : Action (Unit {0})
sync_directory = effect (λ s. (s, ok tt))

-- `fs::rename` inside the spaces directory: a file replaces a file, a directory replaces nothing.
abbrev pub renamed : Bytes → Bytes → Files → Files × Result ErrorKind (Unit {0})
renamed from to s =
    let moved = λ (e : Entry). record s { spaces = insert to e (remove from s.spaces) } in
    elim (lookup from s.spaces) [
      | none ↦ (s, err system)
      | some e ↦ elim e [
        | space t ↦
            if is_some (lookup to s.spaces) then (s, err system) else (moved (space t), ok tt)
        | marker m ↦ elim (lookup to s.spaces) [
          | none ↦ (moved (marker m), ok tt)
          | some old ↦ elim old [ space _ ↦ (s, err system) | _ ↦ (moved (marker m), ok tt) ]
        ]
        | damaged ↦ elim (lookup to s.spaces) [
          | none ↦ (moved damaged, ok tt)
          | some old ↦ elim old [ space _ ↦ (s, err system) | _ ↦ (moved damaged, ok tt) ]
        ]
      ]
    ]

unfoldable pub rename : Bytes → Bytes → Action (Unit {0})
rename from to = effect (renamed from to)

-- `fs::rename` of an entry to a fresh name in the trash directory.
unfoldable pub retire_recovery_path : Bytes → Action (Unit {0})
retire_recovery_path name = effect (λ s. elim (lookup name s.spaces) [
  | none ↦ (s, err system)
  | some e ↦ (record { spaces = remove name s.spaces; trash = e ∷ s.trash }, ok tt)
])

-- `fs::remove_file`.
unfoldable pub remove_file : Bytes → Action (Unit {0})
remove_file name = effect (λ s. elim (lookup name s.spaces) [
  | none ↦ (s, err system)
  | some e ↦ elim e [
    | space _ ↦ (s, err system)
    | _ ↦ (record s { spaces = remove name s.spaces }, ok tt)
  ]
])

-- `write_private_file`: creates the file and then writes it, so that a crash may leave it damaged.
abbrev pub created : Bytes → Files → Files × Result ErrorKind (Unit {0})
created name s =
    if is_some (lookup name s.spaces)
    then (s, err system)
    else (record s { spaces = insert name damaged s.spaces }, ok tt)

abbrev pub written : Bytes → RollbackMarker → Files → Files × Result ErrorKind (Unit {0})
written name m s = (record s { spaces = insert name (marker m) s.spaces }, ok tt)

unfoldable pub write_private_file : Bytes → RollbackMarker → Action (Unit {0})
unfolding ◌>>=◌
write_private_file name m = do effect (created name); effect (written name m)

-- `read_marker`.
unfoldable pub read_marker : Bytes → Action RollbackMarker
read_marker name = effect (λ s. (
  s,
  elim (lookup name s.spaces) [
    | none ↦ err system
    | some e ↦ elim e [
      | marker m ↦ if m.schema_version == marker_schema_version then ok m else err corrupt_state
      | _ ↦ err corrupt_state
    ]
  ],
))

-- `Store::open_path` and `open_relocated_path`: the space at `name`, if its anchors are valid,
-- the store accepts its manifest, and that carries `expected_name`.
unfoldable pub open_space : Bytes → Bytes → Action SpaceTree
open_space name expected_name = effect (λ s. (
  s,
  elim (lookup name s.spaces) [
    | none ↦ err system
    | some e ↦ elim e [
      | space t ↦
          if t.anchors && t.stored && t.identity.name == expected_name
          then ok t
          else err corrupt_state
      | _ ↦ err corrupt_state
    ]
  ],
))
