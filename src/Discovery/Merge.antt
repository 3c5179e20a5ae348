-- ===== src/Discovery/Merge.antt =====
-- `merge` of crates/quarters-core/src/discovery/scan.rs: the scan of a root is added to those before it.
use quarters.Prelude.{
  ◌≡◌, refl, ap, subst, Bool, true, false, ◌&&◌, ◌||◌, not, [], ◌∷◌, arith, if◌then◌else◌, is_some,
  saturating_add, &&-true, if-split, Bytes, bytes_beq_iff, nat_eq, bytes_eq, Map, lookup, insert,
  lookup-insert, Result, ok, err, ◌>>◌, reject_if,
}
use quarters.Error.{ErrorKind, resource_limit}
use quarters.Discovery.Report.{EntryRecord, saturating_add_assign, extend_roots, Snapshot}

-- The loop over the entries; `HashMap::insert` gives back whether the key was there.
unfoldable pub insert_entry : Bytes → EntryRecord → Snapshot → Snapshot
insert_entry key entry combined =
    let inserted = record combined { entries = insert key entry combined.entries } in
    if is_some (lookup key combined.entries)
    then record inserted {
      entry_key_collisions = saturating_add combined.entry_key_collisions 1;
      complete = false;
    }
    else inserted

unfoldable pub merge_entries : Map Bytes EntryRecord → Snapshot → Snapshot
merge_entries [] combined = combined
merge_entries ((key, entry) ∷ rest) combined = merge_entries rest (insert_entry key entry combined)

unfoldable pub merge_fields : Snapshot → Snapshot → Snapshot
merge_fields combined part = record combined {
  roots = extend_roots combined.roots part.roots;
  root_identities = extend_roots combined.root_identities part.root_identities;
  root_complete = extend_roots combined.root_complete part.root_complete;
  root_bounds_exceeded = extend_roots combined.root_bounds_exceeded part.root_bounds_exceeded;
  complete = combined.complete && part.complete;
  bounds_exceeded = combined.bounds_exceeded || part.bounds_exceeded;
  unreadable_directories =
      saturating_add combined.unreadable_directories part.unreadable_directories;
  unreadable_classes = saturating_add_assign combined.unreadable_classes part.unreadable_classes;
  unstable_entries = saturating_add combined.unstable_entries part.unstable_entries;
  foreign_owned = saturating_add combined.foreign_owned part.foreign_owned;
  non_local_filesystems = saturating_add combined.non_local_filesystems part.non_local_filesystems;
  metadata_errors = saturating_add combined.metadata_errors part.metadata_errors;
  entry_key_collisions = saturating_add combined.entry_key_collisions part.entry_key_collisions;
}

-- `reserved` tells whether the allocator has the space.
unfoldable pub merge : Bool → Snapshot → Snapshot → Result ErrorKind Snapshot
merge reserved combined part = do
  reject_if (not reserved) resource_limit
  ok (merge_fields (merge_entries part.entries combined) part)

insert_entry-complete :
    (key : Bytes) (entry : EntryRecord) (combined : Snapshot)
    → (insert_entry key entry combined).complete ≡ true
    → (combined.complete ≡ true) × (is_some (lookup key combined.entries) ≡ false)
unfolding insert_entry
insert_entry-complete key entry combined h = ground arith

insert_entry-entries :
    (key : Bytes) (entry : EntryRecord) (combined : Snapshot)
    → (insert_entry key entry combined).entries ≡ insert key entry combined.entries
unfolding insert_entry
insert_entry-entries key entry combined =
    if-split (λ (s : Snapshot). s.entries ≡ insert key entry combined.entries)
      (is_some (lookup key combined.entries)) (λ e. refl) (λ e. refl)

-- The key is in at most one of the two maps, and the third has what they have.
abbrev pub IsDisjointUnion :
    Map Bytes EntryRecord → Map Bytes EntryRecord → Map Bytes EntryRecord → Type 0
IsDisjointUnion part before merged =
    (key : Bytes)
    → ((is_some (lookup key part) && is_some (lookup key before)) ≡ false)
      × (lookup key merged
          ≡ (if is_some (lookup key part) then lookup key part else lookup key before))

merge_entries-complete :
    (part : Map Bytes EntryRecord) (combined : Snapshot)
    → (merge_entries part combined).complete ≡ true
    → (combined.complete ≡ true)
      × IsDisjointUnion part combined.entries (merge_entries part combined).entries
unfolding merge_entries lookup
merge_entries-complete [] combined h = (h, λ key. (refl, refl))
merge_entries-complete ((k, entry) ∷ part) combined h =
    let (complete_then, union) = merge_entries-complete part (insert_entry k entry combined) h in
    let (was_complete, absent) = insert_entry-complete k entry combined complete_then in
    (
      was_complete,
      λ key. ground (
        arith,
        union key,
        ap (lookup key) (insert_entry-entries k entry combined),
        lookup-insert k key entry combined.entries,
        bytes_beq_iff k key,
        absent,
      ),
    )

merge_fields-complete :
    (part combined : Snapshot)
    → (merge_fields (merge_entries part.entries combined) part).complete ≡ true
    → (combined.complete ≡ true)
      × (part.complete ≡ true)
      × IsDisjointUnion part.entries combined.entries
          (merge_fields (merge_entries part.entries combined) part).entries
unfolding merge_fields
merge_fields-complete part combined h =
    let (merged_complete, part_complete) =
      &&-true (merge_entries part.entries combined).complete part.complete h in
    let (was_complete, union) = merge_entries-complete part.entries combined merged_complete in
    (was_complete, part_complete, union)

-- When the merge of two scans does not fail and its result calls itself complete, then both scans
-- call themselves complete, no key has an entry in both, and the result has exactly the entries of
-- the two.
pub merge-complete :
    (reserved : Bool) (combined part merged : Snapshot)
    → merge reserved combined part ≡ ok merged
    → merged.complete ≡ true
    → (combined.complete ≡ true)
      × (part.complete ≡ true)
      × IsDisjointUnion part.entries combined.entries merged.entries
unfolding merge
merge-complete false combined part merged h c = absurd (ground arith)
merge-complete true combined part merged h c =
    subst
      (λ (s : Snapshot).
        s.complete ≡ true
        → (combined.complete ≡ true)
          × (part.complete ≡ true)
          × IsDisjointUnion part.entries combined.entries s.entries)
      (ap (λ r. elim r [ ok x ↦ x | err e ↦ merged ]) h) (merge_fields-complete part combined) c
