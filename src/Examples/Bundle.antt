-- ===== src/Examples/Bundle.antt =====
-- The theorems on the bundle format at a small bundle.
use quarters.Prelude.{
  ℕ, zero, suc, ◌%◌, ◌≡◌, refl, true, false, Option, none, some, List, [], ◌∷◌, ◌++◌, arith,
  is_some, length, Bytes, nat_eq, bytes_eq, ok, is_ok, codes, starts_with,
}
use quarters.Bundle.Paths.{
  slash, split_slash, split_path, EntryKind, directory_entry, file_entry, root_directory, parent_of,
  validate_path, accept, resolve_components, resolve_relative_link_target, validate_link_target,
}
use quarters.Bundle.Counts.{
  ArtifactCounts, no_counts, note, note_all, note_directory, note_file, note_entry, add_bytes,
  validate_counts, IsBounded, note_all-IsBounded,
}
use quarters.Bundle.Header.{BundleHeader, snapshot, profile}
use quarters.Bundle.Links.{
  depth_after, option_length, resolve_components-depth, validate_link_target-inside,
}
use quarters.Bundle.Order.Canonical.{
  Ascending, NoRepeat, all_components, accept-IsCanonical, accept-NoRepeat,
}
use quarters.Bundle.Parse.{magic, parse_bundle, parse_content}
use quarters.Bundle.Parse.Authentic.{Authentic, parse_bundle-Authentic}

-- `.ssh`, `.ssh/config` and `.ssh-backup`, in this order.
abbrev small_tree : List (Bytes × EntryKind)
small_tree =
    (codes ".ssh", directory_entry)
    ∷ (codes ".ssh/config", file_entry)
    ∷ (codes ".ssh-backup", directory_entry)
    ∷ []

accept-NoRepeat_example : NoRepeat (all_components small_tree)
unfolding accept validate_path split_path
accept-NoRepeat_example = accept-NoRepeat small_tree refl

accept-IsCanonical_example : Ascending [] (all_components small_tree)
unfolding accept validate_path split_path
accept-IsCanonical_example = accept-IsCanonical small_tree refl

-- Siblings out of order are refused.
siblings_out_of_order :
    is_ok (accept (root_directory ∷ []) ((codes "b", file_entry) ∷ (codes "a", file_entry) ∷ []))
    ≡ false
unfolding accept validate_path split_path
siblings_out_of_order = refl

no_counts-IsBounded : IsBounded no_counts
no_counts-IsBounded = record { sum = refl; entries_limit = omega arith; bytes_limit = omega arith }

abbrev two_counts : ArtifactCounts
two_counts = record { directories = 1; files = 1; symlinks = 0; entries = 2; logical_bytes = 10 }

note_all-IsBounded_example : IsBounded two_counts × (validate_counts two_counts ≡ ok tt)
unfolding note_all note note_directory note_file note_entry add_bytes
note_all-IsBounded_example =
    note_all-IsBounded ((directory_entry, 0) ∷ (file_entry, 10) ∷ []) no_counts two_counts
      no_counts-IsBounded refl

validate_link_target-inside_example :
    (starts_with (slash ∷ []) (codes "../c") ≡ false)
    × (is_some (
          depth_after (length (parent_of (split_slash (codes "a/b")))) (split_slash (codes "../c")))
        ≡ true)
unfolding validate_link_target split_path resolve_relative_link_target resolve_components
validate_link_target-inside_example = validate_link_target-inside (codes "a/b") (codes "../c") refl

resolve_components-depth_example :
    option_length (resolve_components (codes "a" ∷ []) (codes ".." ∷ codes ".." ∷ []))
    ≡ depth_after 1 (codes ".." ∷ codes ".." ∷ [])
resolve_components-depth_example =
    resolve_components-depth (codes "a" ∷ []) (codes ".." ∷ codes ".." ∷ [])

-- A bundle of one file, `a` with the bytes 1 and 2, under a MAC that gives 32 bytes.
abbrev pub zeros : ℕ → Bytes
zeros zero = []
zeros (suc n) = 0 ∷ zeros n

abbrev pub tag_bytes : Bytes → Bytes → Bytes
tag_bytes key content = length content % 256 ∷ zeros 31

abbrev content_bytes : Bytes
content_bytes =
    magic
    ++ (0 ∷ 0 ∷ 0 ∷ 2 ∷ 123 ∷ 125 ∷ 70 ∷ 0 ∷ 0 ∷ 0 ∷ 1 ∷ 97 ∷ 0 ∷ 0 ∷ 1 ∷ 128 ∷ [])
    ++ (0 ∷ 0 ∷ 0 ∷ 0 ∷ 0 ∷ 0 ∷ 0 ∷ 2 ∷ 1 ∷ 2 ∷ 0 ∷ [])

abbrev small_bundle : Bytes
small_bundle = content_bytes ++ tag_bytes [] content_bytes

abbrev pub small_header : BundleHeader
small_header = record {
  schema_version = 1;
  export_id = codes "0123456789abcdef0123456789abcdef";
  created_unix_ms = 5;
  source_kind = snapshot;
  source_artifact_id = codes "fedcba9876543210fedcba9876543210";
  source_name = codes "daily";
  source_identity = record {
    schema_version = 1;
    name = codes "work";
    created_unix_ms = 4;
    space_id = none;
  };
  source_layout = profile;
  source_platform = codes "linux";
  default_shell = codes "/bin/sh";
  include_cache = false;
  includes_sensitive_state = true;
  content_integrity = record {
    algorithm = codes "blake3-256:quarters-canonical-v1";
    digest = codes "0000000000000000000000000000000000000000000000000000000000000000";
    counts = record { directories = 0; files = 1; symlinks = 0; entries = 1; logical_bytes = 2 };
  };
  authentication = codes "blake3-keyed-256:quarters-bundle-v1";
}

abbrev pub read_header : Bytes → Option BundleHeader
read_header bytes = some small_header

parse_bundle-Authentic_example :
    Authentic tag_bytes [] small_bundle (parse_bundle tag_bytes read_header [] small_bundle)
parse_bundle-Authentic_example = parse_bundle-Authentic tag_bytes read_header [] small_bundle

-- This bundle is accepted, and without its tag it is not.
small_bundle_accepted : is_ok (parse_bundle tag_bytes read_header [] small_bundle) ≡ true
unfolding parse_bundle parse_content
small_bundle_accepted = refl

small_bundle_truncated : is_ok (parse_bundle tag_bytes read_header [] content_bytes) ≡ false
unfolding parse_bundle parse_content
small_bundle_truncated = refl
