-- ===== src/Bundle/Parse.antt =====
-- `parse_bundle` and its entries. The sink is one that takes every entry and records it as events. The
-- MAC (keyed BLAKE3 under a derived key) and the JSON of the header are parameters. Reading is by
-- `read_exact`; a failing read of the file is not modelled apart from its end.
pub mod Sound
pub mod Entries
pub mod Authentic
use quarters.Prelude.{
  ℕ, zero, suc, ◌+◌, ◌-◌, ◌*◌, min, not, Option, none, some, List, [], ◌∷◌, ◌++◌, map, ltb, leb,
  nat_beq, if◌then◌else◌, length, take, drop, ◌==◌, Bytes, nat_eq, bytes_eq, Result, ok, err,
  reject_if, is_ok, codes,
}
use quarters.Error.{ErrorKind, corrupt_state, resource_limit}
use quarters.Bundle.Paths.{
  EntryKind, directory_entry, file_entry, symlink_entry, OpenDirectory, root_directory,
  validate_path, close_all, validate_link_target,
}
use quarters.Bundle.Counts.{ArtifactCounts, no_counts, note_directory, note_file, note_symlink}
use quarters.Bundle.Header.{BundleHeader, validate_header}

pub data ParseError : Type 0 where
  failed : ErrorKind → ParseError
  out_of_fuel : ParseError

-- The calls of the sink.
pub data Event : Type 0 where
  close_event : Bytes → Event
  directory_event : Bytes → ℕ → Event
  file_start_event : Bytes → ℕ → ℕ → Event
  file_chunk_event : Bytes → Event
  file_end_event : Event
  symlink_event : Bytes → Bytes → Event

-- The reader and the state of a parse: the bytes to come, the bytes that the MAC has seen, the counts,
-- the open directories, and the calls of the sink so far.
pub record Session : Type 0 where
  pub rest : Bytes
  pub seen : Bytes
  pub counts : ArtifactCounts
  pub directories : List OpenDirectory
  pub events : List Event

abbrev pub Parse : Type 0 → Type 0
Parse A = Session → Result ParseError (A × Session)

infixl 5 ◌>>=◌ ◌>>◌
unfoldable pub ◌>>=◌ : {A B : Type 0} → Parse A → (A → Parse B) → Parse B
◌>>=◌ m f s = elim (m s) [ ok (a, after) ↦ f a after | err e ↦ err e ]

abbrev pub ◌>>◌ : {B : Type 0} → Parse (Unit {0}) → Parse B → Parse B
m >> k = m >>= λ _. k

abbrev pub done_with : {A : Type 0} → A → Parse A
done_with a s = ok (a, s)

abbrev pub lifted : {A : Type 0} → Result ErrorKind A → Parse A
lifted (ok a) s = ok (a, s)
lifted (err k) s = err (failed k)

abbrev pub emit : Event → Parse (Unit {0})
emit event s = ok (tt, record s { events = s.events ++ (event ∷ []) })

-- `AuthReader::read_into`, `fixed` and `bytes`.
unfoldable pub read_bytes : ℕ → Parse Bytes
read_bytes n s =
    if ltb (length s.rest) n
    then err (failed corrupt_state)
    else ok (take n s.rest, record s { rest = drop n s.rest; seen = s.seen ++ take n s.rest })

-- `from_be_bytes`.
abbrev pub from_be_bytes : ℕ → Bytes → ℕ
from_be_bytes acc [] = acc
from_be_bytes acc (b ∷ bs) = from_be_bytes (256 * acc + b) bs

unfoldable pub read_number : ℕ → Parse ℕ
unfolding ◌>>=◌ read_bytes
read_number width = do bytes ← read_bytes width; done_with (from_be_bytes 0 bytes)

abbrev pub limit_relative_path_bytes : ℕ
limit_relative_path_bytes = 4096

abbrev pub limit_symlink_target_bytes : ℕ
limit_symlink_target_bytes = 4096

abbrev pub header_limit : ℕ
header_limit = 16 * 1024

abbrev pub chunk_bytes : ℕ
chunk_bytes = 64 * 1024

-- `sink.close_directory` for each path.
abbrev pub emit_all : List Bytes → Parse (Unit {0})
emit_all paths s = ok (tt, record s { events = s.events ++ map close_event paths })

abbrev pub set_directories : List OpenDirectory → Parse (Unit {0})
set_directories ds s = ok (tt, record s { directories = ds })

unfoldable pub entered : Bytes → EntryKind → Parse (Unit {0})
unfolding validate_path
entered path kind s = elim (validate_path s.directories path kind) [
  | ok (closed, after) ↦
      ok (tt, record s { directories = after; events = s.events ++ map close_event closed })
  | err k ↦ err (failed k)
]

unfoldable pub counted : (ArtifactCounts → Result ErrorKind ArtifactCounts) → Parse (Unit {0})
counted note s = elim (note s.counts) [
  | ok counts ↦ ok (tt, record s { counts = counts })
  | err k ↦ err (failed k)
]

unfoldable pub read_path : EntryKind → Parse Bytes
unfolding ◌>>=◌ read_bytes read_number entered
read_path kind = do
  size ← read_number 4
  lifted (reject_if (ltb limit_relative_path_bytes size) resource_limit)
  path ← read_bytes size
  entered path kind
  done_with path

-- `mode & !0o777 != 0` of a `u32`.
unfoldable pub read_mode : Parse ℕ
unfolding ◌>>=◌ read_number
read_mode = do mode ← read_number 4; lifted (reject_if (leb 512 mode) corrupt_state); done_with mode

unfoldable pub parse_directory : Parse (Unit {0})
unfolding ◌>>=◌ read_path read_mode counted note_directory
parse_directory = do
  path ← read_path directory_entry
  mode ← read_mode
  counted note_directory
  emit (directory_event path mode)

-- The loop over the chunks of a file, on `fuel` turns.
unfoldable pub read_chunks : ℕ → ℕ → Parse (Unit {0})
unfolding ◌>>=◌ read_bytes
read_chunks fuel zero s = ok (tt, s)
read_chunks zero (suc remaining) s = err out_of_fuel
read_chunks (suc fuel) (suc remaining) s =
    (do
      chunk ← read_bytes (min (suc remaining) chunk_bytes)
      emit (file_chunk_event chunk)
      read_chunks fuel (suc remaining - min (suc remaining) chunk_bytes))
      s

unfoldable pub parse_file : Parse (Unit {0})
unfolding ◌>>=◌ read_path read_mode counted note_file read_number read_chunks
parse_file = do
  path ← read_path file_entry
  mode ← read_mode
  size ← read_number 8
  counted (note_file size)
  emit (file_start_event path mode size)
  read_chunks size size
  emit file_end_event

unfoldable pub parse_symlink : Parse (Unit {0})
unfolding ◌>>=◌ read_path read_number read_bytes validate_link_target counted note_symlink
parse_symlink = do
  path ← read_path symlink_entry
  size ← read_number 4
  lifted (reject_if (ltb limit_symlink_target_bytes size) resource_limit)
  target ← read_bytes size
  lifted (validate_link_target path target)
  counted (note_symlink size)
  emit (symlink_event path target)

pub data Tag : Type 0 where
  tag_directory tag_file tag_symlink tag_terminal tag_unknown : Tag

abbrev pub tag_of_byte : ℕ → Tag
tag_of_byte b =
    if nat_beq b 68
    then tag_directory
    else if nat_beq b 70
    then tag_file
    else if nat_beq b 76
    then tag_symlink
    else if nat_beq b 0
    then tag_terminal
    else tag_unknown

abbrev pub tag_of : Bytes → Tag
tag_of [] = tag_unknown
tag_of (b ∷ bs) = tag_of_byte b

-- The loop over the entries, on `fuel` turns.
unfoldable pub parse_entries : ℕ → Parse (Unit {0})
unfolding ◌>>=◌ read_bytes parse_directory parse_file parse_symlink
parse_entries zero s = err out_of_fuel
parse_entries (suc fuel) s =
    (do
      tag ← read_bytes 1
      elim (tag_of tag) [
        | tag_directory ↦ (do parse_directory; parse_entries fuel)
        | tag_file ↦ (do parse_file; parse_entries fuel)
        | tag_symlink ↦ (do parse_symlink; parse_entries fuel)
        | tag_terminal ↦ done_with tt
        | tag_unknown ↦ lifted (err corrupt_state)
      ])
      s

-- b"QTRS-BUNDLE\0\0\0\0\x01"
abbrev pub magic : Bytes
magic = codes "QTRS-BUNDLE" ++ (0 ∷ 0 ∷ 0 ∷ 0 ∷ 1 ∷ [])

-- `parse_bundle` up to the tag: the bytes of the header, with the session behind the terminal tag.
unfoldable pub parse_content : Parse Bytes
unfolding ◌>>=◌ read_bytes read_number parse_entries
parse_content = do
  found ← read_bytes 16
  lifted (reject_if (not (found == magic)) corrupt_state)
  size ← read_number 4
  lifted (reject_if (ltb header_limit size) resource_limit)
  header ← read_bytes size
  (λ s. parse_entries (length s.rest + 1) s)
  done_with header

abbrev pub start : Bytes → Session
start input = record {
  rest = input;
  seen = [];
  counts = no_counts;
  directories = root_directory ∷ [];
  events = [];
}

-- What `parse_bundle` does behind the terminal tag: the tag of the MAC, the end of the file, and the
-- header, whose counts have to be those of the entries.
module _ (mac : Bytes → Bytes → Bytes) (parse_header : Bytes → Option BundleHeader) where
  abbrev pub check_header :
      Bytes → Session → Option BundleHeader → Result ParseError (BundleHeader × Session)
  check_header tag s none = err (failed corrupt_state)
  check_header tag s (some header) =
      if is_ok (validate_header header s.counts)
      then ok (
        header,
        record s {
          rest = [];
          directories = root_directory ∷ [];
          events = s.events ++ map close_event (close_all s.directories);
        },
      )
      else err (failed corrupt_state)

  abbrev pub check_tag : Bytes → Bytes → Session → Result ParseError (BundleHeader × Session)
  check_tag key header s =
      if ltb (length s.rest) 32
      then err (failed corrupt_state)
      else (if not (mac key s.seen == take 32 s.rest)
          then err (failed corrupt_state)
          else (if ltb 32 (length s.rest)
              then err (failed corrupt_state)
              else check_header (take 32 s.rest) s (parse_header header)))

  -- `parse_bundle`: the header, and the session at the end, with the calls of the sink.
  unfoldable pub parse_bundle : Bytes → Bytes → Result ParseError (BundleHeader × Session)
  unfolding parse_content validate_header close_all
  parse_bundle key input = elim (parse_content (start input)) [
    | ok (header, s) ↦ check_tag key header s
    | err e ↦ err e
  ]
