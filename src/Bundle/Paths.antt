-- ===== src/Bundle/Paths.antt =====
-- Paths of a bundle: `split_path`, `ParseState::validate_path`, and the target of a symbolic link.
use quarters.Prelude.{
  ℕ, ◌+◌, ◌-◌, Bool, true, false, ◌&&◌, ◌||◌, not, Option, none, some, List, [], ◌∷◌, ◌++◌, ltb,
  leb, nat_beq, if◌then◌else◌, is_some, length, take, any, ◌==◌, Bytes, nat_eq, bytes_eq, Result,
  ok, err, ◌>>=◌, ◌>>◌, reject_if, codes, starts_with,
}
use quarters.Error.{ErrorKind, corrupt_state}

-- `CloneLimits::ALPHA`, of store/lifecycle/policy.rs.
abbrev pub limit_depth : ℕ
limit_depth = 64

abbrev pub limit_component_bytes : ℕ
limit_component_bytes = 255

abbrev pub slash : ℕ
slash = 47

-- `path.split(|byte| *byte == b'/')`.
abbrev pub cons_first : ℕ → List Bytes → List Bytes
cons_first x [] = (x ∷ []) ∷ []
cons_first x (component ∷ rest) = (x ∷ component) ∷ rest

abbrev pub split_slash : Bytes → List Bytes
split_slash [] = [] ∷ []
split_slash (x ∷ xs) =
    let rest = split_slash xs in if nat_beq x slash then [] ∷ rest else cons_first x rest

abbrev pub is_dots : Bytes → Bool
is_dots component = component == codes "." || component == codes ".."

abbrev pub is_bad_component : Bytes → Bool
is_bad_component component =
    component == [] || is_dots component || ltb limit_component_bytes (length component)

-- Empty, absolute, or with a NUL byte.
abbrev pub is_unsafe_path : Bytes → Bool
is_unsafe_path path = path == [] || starts_with (slash ∷ []) path || any (λ b. nat_beq b 0) path

unfoldable pub split_path : Bytes → Result ErrorKind (List Bytes)
split_path path =
    if is_unsafe_path path
    then err corrupt_state
    else if any is_bad_component (split_slash path)
    then err corrupt_state
    else ok (split_slash path)

pub data EntryKind : Type 0 where
  directory_entry file_entry symlink_entry : EntryKind

abbrev pub is_directory : EntryKind → Bool
is_directory directory_entry = true
is_directory _ = false

pub record OpenDirectory : Type 0 where
  pub path : Bytes
  pub component : Bytes
  pub last_child : Option Bytes

-- `Vec<u8>` order.
abbrev pub bytes_ltb : Bytes → Bytes → Bool
bytes_ltb [] [] = false
bytes_ltb [] (y ∷ ys) = true
bytes_ltb (x ∷ xs) [] = false
bytes_ltb (x ∷ xs) (y ∷ ys) = let rest = bytes_ltb xs ys in if nat_beq x y then rest else ltb x y

-- The directories of a `ParseState`, the innermost first: its last is the root, which `ParseState::new`
-- puts there.
abbrev pub root_directory : OpenDirectory
root_directory = record { path = []; component = []; last_child = none }

-- The components of the open directories behind the root, the outermost first.
abbrev pub open_path : List OpenDirectory → List Bytes
open_path [] = []
open_path (d ∷ []) = []
open_path (d ∷ e ∷ ds) = open_path (e ∷ ds) ++ (d.component ∷ [])

-- `parent.iter().zip(open).all(|(a, b)| a == b)`.
abbrev pub zip_all : List Bytes → List Bytes → Bool
zip_all [] ys = true
zip_all (x ∷ xs) [] = true
zip_all (x ∷ xs) (y ∷ ys) = let rest = zip_all xs ys in x == y && rest

-- The loop that pops directories while more than `depth` of them are open behind the root, and the
-- paths that it closes.
abbrev pub close_to : ℕ → List OpenDirectory → List Bytes × List OpenDirectory
close_to depth [] = ([], [])
close_to depth (d ∷ ds) =
    let (closed, left) = close_to depth ds in
    if ltb depth (length ds) then (d.path ∷ closed, left) else ([], d ∷ ds)

abbrev pub parent_of : List Bytes → List Bytes
parent_of components = take (length components - 1) components

abbrev pub last_of : List Bytes → Option Bytes
last_of [] = none
last_of (c ∷ []) = some c
last_of (c ∷ d ∷ cs) = last_of (d ∷ cs)

-- `previous.is_some_and(|previous| final <= previous)`, negated.
abbrev pub is_after : Option Bytes → Bytes → Bool
is_after none final = true
is_after (some previous) final = bytes_ltb previous final

-- The end of `validate_path`, in the innermost directory that is left open.
abbrev pub enter :
    Bytes → Bytes → EntryKind → List OpenDirectory → Result ErrorKind (List OpenDirectory)
enter path final kind [] = err corrupt_state
enter path final kind (d ∷ ds) =
    if not (is_after d.last_child final)
    then err corrupt_state
    else (let noted = record d { last_child = some final } ∷ ds in
        ok (
          if is_directory kind
          then (record { path = path; component = final; last_child = none } ∷ noted)
          else noted))

abbrev pub depth_limit : EntryKind → ℕ
depth_limit kind = limit_depth + (if is_directory kind then 0 else 1)

abbrev pub enter_last :
    Bytes → Option Bytes → EntryKind → List OpenDirectory → Result ErrorKind (List OpenDirectory)
enter_last path none kind ds = err corrupt_state
enter_last path (some final) kind ds = enter path final kind ds

-- `ParseState::validate_path` on the directories: the paths it closes, and the directories after it.
abbrev pub validate_components :
    List OpenDirectory
    → Bytes
    → EntryKind
    → List Bytes
    → Result ErrorKind (List Bytes × List OpenDirectory)
validate_components ds path kind components = do
  reject_if (ltb (depth_limit kind) (length components)) corrupt_state
  let parent = parent_of components
  reject_if (leb (length ds) (length parent) || not (zip_all parent (open_path ds))) corrupt_state
  let (closed, left) = close_to (length parent) ds
  after ← enter_last path (last_of components) kind left
  ok (closed, after)

unfoldable pub validate_path :
    List OpenDirectory → Bytes → EntryKind → Result ErrorKind (List Bytes × List OpenDirectory)
unfolding split_path
validate_path ds path kind = split_path path >>= validate_components ds path kind

-- `ParseState::close_all`.
unfoldable pub close_all : List OpenDirectory → List Bytes
close_all ds = (close_to 0 ds).0

-- `validate_path` for entry after entry.
unfoldable pub accept :
    List OpenDirectory → List (Bytes × EntryKind) → Result ErrorKind (List OpenDirectory)
unfolding validate_path
accept ds [] = ok ds
accept ds ((path, kind) ∷ rest) = do entered ← validate_path ds path kind; accept entered.1 rest

-- `resolve_relative_link_target` of store/lifecycle/walk.rs, on the target's components; an empty
-- component and `.` are no step.
abbrev pub resolve_step : List Bytes → Bytes → Option (List Bytes)
resolve_step resolved c =
    if c == [] || c == codes "."
    then some resolved
    else if c == codes ".."
    then (if leb (length resolved) 0 then none else some (parent_of resolved))
    else some (resolved ++ (c ∷ []))

unfoldable pub resolve_components : List Bytes → List Bytes → Option (List Bytes)
resolve_components resolved [] = some resolved
resolve_components resolved (c ∷ cs) = elim (resolve_step resolved c) [
  | none ↦ none
  | some next ↦ resolve_components next cs
]

unfoldable pub resolve_relative_link_target : List Bytes → Bytes → Option (List Bytes)
unfolding resolve_components
resolve_relative_link_target parent target =
    if starts_with (slash ∷ []) target then none else resolve_components parent (split_slash target)

unfoldable pub validate_link_target : Bytes → Bytes → Result ErrorKind (Unit {0})
unfolding split_path resolve_relative_link_target
validate_link_target path target = do
  reject_if (is_unsafe_path target) corrupt_state
  components ← split_path path
  reject_if (not (is_some (resolve_relative_link_target (parent_of components) target)))
      corrupt_state
