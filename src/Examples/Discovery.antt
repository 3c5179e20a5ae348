-- ===== src/Examples/Discovery.antt =====
-- The theorems on discovery at concrete scans.
use quarters.Prelude.{
  ◌↔◌, ℕ, ◌≡◌, refl, ◌≢◌, ◌⊎◌, true, false, none, some, [], ◌∷◌, Bytes, nat_eq, bytes_eq, Map,
  lookup, remove, insert, ok, codes,
}
use quarters.Discovery.{
  runtime, home, cache, credential_shaped, classify, credential_shaped_components,
  joined_ascii_lowercase, credential_shaped_value,
}
use quarters.Discovery.Below.{classify-below}
use quarters.Discovery.Case.{classify_any_case}
use quarters.Discovery.Report.{EntryRecord, Snapshot, no_class_counts, diff}
use quarters.Discovery.Report.Counted.{Shows, diff-Shows}
use quarters.Discovery.Merge.{
  merge, merge_fields, merge_entries, insert_entry, IsDisjointUnion, merge-complete,
}
use quarters.Discovery.Summary.{report, measured, IsMeasured, report-Measured}

abbrev entry_of : ℕ → ℕ → EntryRecord
entry_of inode size = record {
  class = cache;
  identity = record {
    kind = 32768;
    device = 1;
    inode = inode;
    mode = 0o600;
    uid = 1000;
    gid = 1000;
    links = 1;
    size = size;
    modified_seconds = 5;
    modified_nanoseconds = 0;
    changed_seconds = 5;
    changed_nanoseconds = 0;
  };
}

abbrev scan_of : Map Bytes EntryRecord → Snapshot
scan_of found = record {
  entries = found;
  roots = record { at_home = some 3; at_runtime = none };
  root_identities = record {
    at_home = some (record {
      root_device = 1;
      root_inode = 7;
      root_kind = 16384;
      root_uid = 1000;
      root_gid = 1000;
    });
    at_runtime = none;
  };
  root_complete = record { at_home = some true; at_runtime = none };
  root_bounds_exceeded = record { at_home = some false; at_runtime = none };
  complete = true;
  bounds_exceeded = false;
  unreadable_directories = 0;
  unreadable_classes = no_class_counts;
  unstable_entries = 0;
  foreign_owned = 0;
  non_local_filesystems = 0;
  metadata_errors = 0;
  entry_key_collisions = 0;
}

abbrev before_run : Snapshot
before_run =
    scan_of ((1 ∷ [], entry_of 1 10) ∷ (2 ∷ [], entry_of 2 10) ∷ (3 ∷ [], entry_of 3 10) ∷ [])

abbrev after_run : Snapshot
after_run =
    scan_of ((4 ∷ [], entry_of 4 10) ∷ (2 ∷ [], entry_of 9 10) ∷ (1 ∷ [], entry_of 1 11) ∷ [])

diff-Shows_example : Shows cache (diff before_run after_run) 1 1 1 1
unfolding lookup
diff-Shows_example = diff-Shows cache before_run after_run

report-Measured_example :
    ((q : Snapshot) × (some after_run ≡ some q)
      × IsMeasured before_run q
      × ((report before_run (some after_run)).delta ≡ some (diff before_run q))
      × ((report before_run (some after_run)).complete ≡ true)
      × ((report before_run (some after_run)).state ≡ measured))
    ⊎ (((q : Snapshot) → some after_run ≡ some q → ¬ IsMeasured before_run q)
        × ((report before_run (some after_run)).delta ≡ none)
        × ((report before_run (some after_run)).totals ≡ none)
        × ((report before_run (some after_run)).complete ≡ false)
        × ((report before_run (some after_run)).state ≢ measured))
report-Measured_example = report-Measured before_run (some after_run)

abbrev runtime_scan : Snapshot
runtime_scan = scan_of ((8 ∷ [], entry_of 8 10) ∷ [])

abbrev both_roots : Snapshot
both_roots = scan_of (
    (8 ∷ [], entry_of 8 10)
    ∷ (1 ∷ [], entry_of 1 10)
    ∷ (2 ∷ [], entry_of 2 10)
    ∷ (3 ∷ [], entry_of 3 10)
    ∷ [])

merges : merge true before_run runtime_scan ≡ ok both_roots
unfolding merge merge_fields merge_entries insert_entry insert remove lookup
merges = refl

merge-complete_example :
    (before_run.complete ≡ true)
    × (runtime_scan.complete ≡ true)
    × IsDisjointUnion runtime_scan.entries before_run.entries both_roots.entries
merge-complete_example = merge-complete true before_run runtime_scan both_roots merges refl

shaped : classify [] home (codes ".SSH" ∷ []) 16384 ≡ credential_shaped
unfolding classify credential_shaped_components credential_shaped_value joined_ascii_lowercase
shaped = refl

classify-below_example :
    classify [] home (codes ".SSH" ∷ codes "keys" ∷ codes "public" ∷ []) 32768 ≡ credential_shaped
classify-below_example =
    classify-below [] home home (codes ".SSH" ∷ []) (codes "keys" ∷ codes "public" ∷ []) 16384 32768
      shaped

classify_any_case_example :
    (classify [] home (codes ".SSH" ∷ []) 16384 ≡ credential_shaped)
    ↔ (classify [] runtime (codes ".ssh" ∷ []) 32768 ≡ credential_shaped)
classify_any_case_example =
    classify_any_case [] home runtime (codes ".SSH" ∷ []) (codes ".ssh" ∷ []) 16384 32768 refl
