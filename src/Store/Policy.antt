-- ===== src/Store/Policy.antt =====
-- crates/quarters-core/src/store_policy.rs: what the store asks of its files and directories, and of
-- the names it removes. The metadata of a path is an argument.
use quarters.Prelude.{
  ℕ, ◌/◌, ◌%◌, ◌^◌, Bool, true, false, ◌&&◌, ◌||◌, not, Option, none, some, [], ◌∷◌, leb, nat_beq,
  if◌then◌else◌, saturating_add, any, ◌==◌, Bytes, nat_eq, bytes_eq, Result, ok, err, starts_with,
}
use quarters.Error.{ErrorKind, corrupt_state, invalid_input, resource_limit}

pub data FileType : Type 0 where
  regular_file directory symbolic_link other_file : FileType

-- What `fs::Metadata` says of a path.
pub record Metadata : Type 0 where
  pub file_type : FileType
  pub uid : ℕ
  pub mode : ℕ
  pub nlink : ℕ

abbrev pub is_dir : FileType → Bool
is_dir directory = true
is_dir _ = false

abbrev pub is_file : FileType → Bool
is_file regular_file = true
is_file _ = false

-- `mode & 0o777`, `mode & 0o022 == 0` and `mode & 0o111 != 0`.
abbrev pub permissions : ℕ → ℕ
permissions mode = mode % 512

abbrev pub bit : ℕ → ℕ → Bool
bit n value = nat_beq (value / 2 ^ n % 2) 1

abbrev pub is_writable_by_others : ℕ → Bool
is_writable_by_others mode = bit 1 mode || bit 4 mode

abbrev pub is_executable : ℕ → Bool
is_executable mode = bit 0 mode || bit 3 mode || bit 6 mode

module _ (current_uid : ℕ) where
  unfoldable pub validate_store_root : Metadata → Result ErrorKind (Unit {0})
  validate_store_root m =
      if is_dir m.file_type && nat_beq m.uid current_uid && not (is_writable_by_others m.mode)
      then ok tt
      else err corrupt_state

  unfoldable pub validate_private_dir : Metadata → Result ErrorKind (Unit {0})
  validate_private_dir m =
      if is_dir m.file_type && nat_beq m.uid current_uid && nat_beq (permissions m.mode) 0o700
      then ok tt
      else err corrupt_state

  unfoldable pub validate_private_file : Metadata → Result ErrorKind (Unit {0})
  validate_private_file m =
      if is_file m.file_type
        && nat_beq m.uid current_uid
        && nat_beq (permissions m.mode) 0o600
        && nat_beq m.nlink 1
      then ok tt
      else err corrupt_state

-- `Path::is_absolute`.
abbrev pub is_absolute : Bytes → Bool
is_absolute path = starts_with (47 ∷ []) path

-- `fs::metadata(shell)` is an argument: `none` if it fails.
unfoldable pub validate_shell : Bytes → Option Metadata → Result ErrorKind (Unit {0})
validate_shell shell none = err invalid_input
validate_shell shell (some m) =
    if is_absolute shell && is_file m.file_type && is_executable m.mode
    then ok tt
    else err invalid_input

unfoldable pub validate_removal_entry_name : Bytes → Result ErrorKind (Unit {0})
validate_removal_entry_name name =
    if not (name == [])
      && not (starts_with (46 ∷ []) name)
      && not (any (λ b. nat_beq b 47) name)
      && not (any (λ b. nat_beq b 0) name)
    then ok tt
    else err invalid_input

-- `ScanBudget` of store/scan.rs: the entries that were examined.
abbrev pub max_directory_scan_entries : ℕ
max_directory_scan_entries = 131072

unfoldable pub observe : ℕ → Result ErrorKind ℕ
observe examined =
    let next = saturating_add examined 1 in
    if leb next max_directory_scan_entries then ok next else err resource_limit
