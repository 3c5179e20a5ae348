-- ===== src/Bundle/Writer/Replay.antt =====
-- What a list of entries means, apart from their bytes: the checks that the format asks for, in order,
-- and the calls of the sink. This is the specification of the reader on what a writer writes.
use quarters.Prelude.{
  ℕ, zero, suc, ◌-◌, ◌%◌, min, List, [], ◌∷◌, ◌++◌, map, length, take, drop, Bytes, nat_eq,
  bytes_eq, Result, ok, err, ◌>>=◌, ◌>>◌,
}
use quarters.Error.{ErrorKind}
use quarters.Bundle.Paths.{
  EntryKind, directory_entry, file_entry, symlink_entry, OpenDirectory, validate_path,
  validate_link_target, root_directory,
}
use quarters.Bundle.Counts.{ArtifactCounts, no_counts, note_directory, note_file, note_symlink}
use quarters.Bundle.Parse.{
  Event, close_event, directory_event, file_start_event, file_chunk_event, file_end_event,
  symlink_event, chunk_bytes,
}
use quarters.Bundle.Writer.{Entry, directory_of, file_of, symlink_of}

pub record Progress : Type 0 where
  pub counts : ArtifactCounts
  pub directories : List OpenDirectory
  pub events : List Event

abbrev pub Replayed : Type 0
Replayed = Result ErrorKind Progress

abbrev pub nothing_read : Progress
nothing_read = record { counts = no_counts; directories = root_directory ∷ []; events = [] }

abbrev pub emitted : Event → Progress → Progress
emitted event p = record p { events = p.events ++ (event ∷ []) }

abbrev pub emitted_chunks : List Bytes → Progress → Progress
emitted_chunks [] p = p
emitted_chunks (c ∷ cs) p = emitted_chunks cs (emitted (file_chunk_event c) p)

-- A content in chunks of 64 KiB, the last one shorter; `fuel` is the size.
unfoldable pub chunks : ℕ → ℕ → Bytes → List Bytes
chunks fuel zero source = []
chunks zero (suc remaining) source = []
chunks (suc fuel) (suc remaining) source =
    let size = min (suc remaining) chunk_bytes in
    take size source ∷ chunks fuel (suc remaining - size) (drop size source)

abbrev pub with_path : Progress → Result ErrorKind (List Bytes × List OpenDirectory) → Replayed
with_path p (ok (closed, after)) =
    ok (record p { directories = after; events = p.events ++ map close_event closed })
with_path p (err k) = err k

unfoldable pub replay_enter : Bytes → EntryKind → Progress → Replayed
unfolding validate_path
replay_enter path kind p = with_path p (validate_path p.directories path kind)

abbrev pub with_counts : Progress → Result ErrorKind ArtifactCounts → Replayed
with_counts p (ok counts) = ok (record p { counts = counts })
with_counts p (err k) = err k

abbrev pub replay_count : (ArtifactCounts → Result ErrorKind ArtifactCounts) → Progress → Replayed
replay_count note p = with_counts p (note p.counts)

unfoldable pub replay_entry : Entry → Progress → Replayed
unfolding replay_enter note_directory note_file note_symlink validate_link_target chunks
replay_entry (directory_of path mode) p = do
  entered ← replay_enter path directory_entry p
  counted ← replay_count note_directory entered
  ok (emitted (directory_event path (mode % 512)) counted)
replay_entry (file_of path mode size source) p = do
  entered ← replay_enter path file_entry p
  counted ← replay_count (note_file size) entered
  ok (
      emitted file_end_event (
        emitted_chunks (chunks size size source)
          (emitted (file_start_event path (mode % 512) size) counted)))
replay_entry (symlink_of path target) p = do
  entered ← replay_enter path symlink_entry p
  validate_link_target path target
  counted ← replay_count (note_symlink (length target)) entered
  ok (emitted (symlink_event path target) counted)

unfoldable pub replay : List Entry → Progress → Replayed
unfolding replay_entry
replay [] p = ok p
replay (e ∷ es) p = replay_entry e p >>= replay es
