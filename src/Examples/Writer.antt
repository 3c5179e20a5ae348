-- ===== src/Examples/Writer.antt =====
-- The theorems on the writer and the reader at a bundle of a directory, a file and a link.
use quarters.Prelude.{
  ◌≡◌, refl, true, Option, some, List, [], ◌∷◌, map, arith, length, All, Bytes, nat_eq, bytes_eq,
  ok, is_ok, codes,
}
use quarters.Examples.Bundle.{tag_bytes, small_header}
use quarters.Bundle.Paths.{
  root_directory, split_path, validate_path, resolve_relative_link_target, resolve_components,
  validate_link_target,
}
use quarters.Bundle.Counts.{
  ArtifactCounts, note_directory, note_file, note_symlink, note_entry, add_bytes, validate_counts,
}
use quarters.Bundle.Header.{
  BundleHeader, validate_header, valid_source_identity, valid_digest, validate_content_integrity,
}
use quarters.Bundle.Parse.{
  Session, directory_event, file_start_event, file_chunk_event, file_end_event, symlink_event,
  close_event, parse_bundle,
}
use quarters.Bundle.Writer.{Entry, directory_of, file_of, symlink_of, write_bundle}
use quarters.Bundle.Writer.Printed.{IsWritable}
use quarters.Bundle.Writer.Replay.{
  Progress, nothing_read, replay, replay_entry, replay_enter, chunks,
}
use quarters.Bundle.Writer.ReadsContent.{content_bytes}
use quarters.Bundle.Writer.RoundTrip.{bundle_bytes, verdict, parse_bundle-write_bundle}
use quarters.Bundle.Writer.Recovered.{entries_of, masked, parse_bundle-gives_back}

abbrev sample : List Entry
sample =
    directory_of (codes "d") 0o40755
    ∷ file_of (codes "d/f") 0o100644 2 (1 ∷ 2 ∷ [])
    ∷ symlink_of (codes "l") (codes "d/f")
    ∷ []

abbrev sample_counts : ArtifactCounts
sample_counts = record { directories = 1; files = 1; symlinks = 1; entries = 3; logical_bytes = 5 }

abbrev sample_header : BundleHeader
sample_header = record small_header {
  content_integrity = record {
    algorithm = codes "blake3-256:quarters-canonical-v1";
    digest = codes "0000000000000000000000000000000000000000000000000000000000000000";
    counts = sample_counts;
  };
}

abbrev read_sample_header : Bytes → Option BundleHeader
read_sample_header bytes = some sample_header

abbrev sample_progress : Progress
sample_progress = record {
  counts = sample_counts;
  directories = record root_directory { last_child = some (codes "l") } ∷ [];
  events =
      directory_event (codes "d") 0o755
      ∷ file_start_event (codes "d/f") 0o644 2
      ∷ file_chunk_event (1 ∷ 2 ∷ [])
      ∷ file_end_event
      ∷ close_event (codes "d")
      ∷ symlink_event (codes "l") (codes "d/f")
      ∷ [];
}

sample_replays : replay sample nothing_read ≡ ok sample_progress
unfolding replay replay_entry replay_enter chunks validate_path split_path note_directory note_file
    note_symlink note_entry add_bytes validate_link_target resolve_relative_link_target
    resolve_components
sample_replays = refl

sample_header_valid : is_ok (validate_header sample_header sample_counts) ≡ true
unfolding validate_header valid_source_identity validate_content_integrity valid_digest
    validate_counts
sample_header_valid = refl

sample-IsWritable : All IsWritable sample
sample-IsWritable =
    (omega arith, ((omega arith, (refl, omega arith)), ((omega arith, omega arith), tt)))

tag_sized : (k b : Bytes) → length (tag_bytes k b) ≡ 32
tag_sized k b = refl

abbrev header_text : Bytes
header_text = codes "{}"

parse_bundle-write_bundle_example :
    (write_bundle tag_bytes [] header_text sample
      ≡ ok (bundle_bytes tag_bytes [] header_text sample))
    × (parse_bundle tag_bytes read_sample_header [] (bundle_bytes tag_bytes [] header_text sample)
        ≡ verdict read_sample_header
            (content_bytes header_text sample)
            header_text
            (replay sample nothing_read))
parse_bundle-write_bundle_example =
    parse_bundle-write_bundle tag_bytes read_sample_header [] header_text sample tag_sized
      (omega arith) sample-IsWritable

parse_bundle-gives_back_example :
    (s : Session) × ((parse_bundle tag_bytes read_sample_header []
          (bundle_bytes tag_bytes [] header_text sample)
        ≡ ok (sample_header, s))
      × (entries_of s.events ≡ map masked sample))
parse_bundle-gives_back_example =
    parse_bundle-gives_back tag_bytes read_sample_header [] header_text sample sample_header
      sample_progress tag_sized (omega arith) sample-IsWritable sample_replays refl
      sample_header_valid
