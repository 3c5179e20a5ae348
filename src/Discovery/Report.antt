-- ===== src/Discovery/Report.antt =====
-- crates/quarters-core/src/discovery/mod.rs and report.rs: the records of entries and the counts of
-- changes. A signed field of a file's
-- metadata is its 64-bit word, since only equality is asked of it.
pub mod Counted
use quarters.Prelude.{
  ℕ, Bool, true, false, ◌&&◌, Option, none, some, [], ◌∷◌, nat_beq, if◌then◌else◌, is_some,
  saturating_add, Bytes, nat_eq, bytes_eq, Map, lookup,
}
use quarters.Discovery.{
  DiscoverySelector, home, runtime, DiscoveryClass, configuration, personal_data, state, cache,
  credential_shaped, runtime_socket, runtime_other, unclassified,
}

pub record EntryIdentity : Type 0 where
  pub kind : ℕ
  pub device : ℕ
  pub inode : ℕ
  pub mode : ℕ
  pub uid : ℕ
  pub gid : ℕ
  pub links : ℕ
  pub size : ℕ
  pub modified_seconds : ℕ
  pub modified_nanoseconds : ℕ
  pub changed_seconds : ℕ
  pub changed_nanoseconds : ℕ

abbrev pub same_object : EntryIdentity → EntryIdentity → Bool
same_object i j = nat_beq i.kind j.kind && nat_beq i.device j.device && nat_beq i.inode j.inode

abbrev pub entry_identity_beq : EntryIdentity → EntryIdentity → Bool
entry_identity_beq i j =
    same_object i j
    && nat_beq i.mode j.mode
    && nat_beq i.uid j.uid
    && nat_beq i.gid j.gid
    && nat_beq i.links j.links
    && nat_beq i.size j.size
    && nat_beq i.modified_seconds j.modified_seconds
    && nat_beq i.modified_nanoseconds j.modified_nanoseconds
    && nat_beq i.changed_seconds j.changed_seconds
    && nat_beq i.changed_nanoseconds j.changed_nanoseconds

pub record EntryRecord : Type 0 where
  pub class : DiscoveryClass
  pub identity : EntryIdentity

pub record DiscoveryClassCounts : Type 0 where
  pub configuration_count : ℕ
  pub data_count : ℕ
  pub state_count : ℕ
  pub cache_count : ℕ
  pub credential_shaped_count : ℕ
  pub runtime_socket_count : ℕ
  pub runtime_count : ℕ
  pub unclassified_count : ℕ

abbrev pub no_class_counts : DiscoveryClassCounts
no_class_counts = record {
  configuration_count = 0;
  data_count = 0;
  state_count = 0;
  cache_count = 0;
  credential_shaped_count = 0;
  runtime_socket_count = 0;
  runtime_count = 0;
  unclassified_count = 0;
}

unfoldable pub increment : DiscoveryClass → DiscoveryClassCounts → DiscoveryClassCounts
increment configuration n = record n {
  configuration_count = saturating_add n.configuration_count 1;
}
increment personal_data n = record n { data_count = saturating_add n.data_count 1 }
increment state n = record n { state_count = saturating_add n.state_count 1 }
increment cache n = record n { cache_count = saturating_add n.cache_count 1 }
increment credential_shaped n = record n {
  credential_shaped_count = saturating_add n.credential_shaped_count 1;
}
increment runtime_socket n = record n {
  runtime_socket_count = saturating_add n.runtime_socket_count 1;
}
increment runtime_other n = record n { runtime_count = saturating_add n.runtime_count 1 }
increment unclassified n = record n { unclassified_count = saturating_add n.unclassified_count 1 }

unfoldable pub total : DiscoveryClassCounts → ℕ
total n =
    saturating_add
      (saturating_add
        (saturating_add
          (saturating_add
            (saturating_add
              (saturating_add (saturating_add n.configuration_count n.data_count) n.state_count)
              n.cache_count)
            n.credential_shaped_count)
          n.runtime_socket_count)
        n.runtime_count)
      n.unclassified_count

abbrev pub saturating_add_assign :
    DiscoveryClassCounts → DiscoveryClassCounts → DiscoveryClassCounts
saturating_add_assign n m = record {
  configuration_count = saturating_add n.configuration_count m.configuration_count;
  data_count = saturating_add n.data_count m.data_count;
  state_count = saturating_add n.state_count m.state_count;
  cache_count = saturating_add n.cache_count m.cache_count;
  credential_shaped_count = saturating_add n.credential_shaped_count m.credential_shaped_count;
  runtime_socket_count = saturating_add n.runtime_socket_count m.runtime_socket_count;
  runtime_count = saturating_add n.runtime_count m.runtime_count;
  unclassified_count = saturating_add n.unclassified_count m.unclassified_count;
}

pub record DiscoveryDelta : Type 0 where
  pub created : DiscoveryClassCounts
  pub modified : DiscoveryClassCounts
  pub replaced : DiscoveryClassCounts
  pub deleted : DiscoveryClassCounts

abbrev pub no_delta : DiscoveryDelta
no_delta = record {
  created = no_class_counts;
  modified = no_class_counts;
  replaced = no_class_counts;
  deleted = no_class_counts;
}

-- A `BTreeMap` keyed by the two selectors, and `extend`.
pub record PerRoot (A : Type 0) : Type 0 where
  pub at_home : Option A
  pub at_runtime : Option A

abbrev pub at_selector : {A : Type 0} → DiscoverySelector → PerRoot A → Option A
at_selector home m = m.at_home
at_selector runtime m = m.at_runtime

abbrev pub extend_option : {A : Type 0} → Option A → Option A → Option A
extend_option old none = old
extend_option old (some new) = some new

abbrev pub extend_roots : {A : Type 0} → PerRoot A → PerRoot A → PerRoot A
extend_roots m part = record {
  at_home = extend_option m.at_home part.at_home;
  at_runtime = extend_option m.at_runtime part.at_runtime;
}

pub record RootIdentity : Type 0 where
  pub root_device : ℕ
  pub root_inode : ℕ
  pub root_kind : ℕ
  pub root_uid : ℕ
  pub root_gid : ℕ

abbrev pub root_identity_beq : RootIdentity → RootIdentity → Bool
root_identity_beq i j =
    nat_beq i.root_device j.root_device
    && nat_beq i.root_inode j.root_inode
    && nat_beq i.root_kind j.root_kind
    && nat_beq i.root_uid j.root_uid
    && nat_beq i.root_gid j.root_gid

abbrev pub root_option_beq : Option RootIdentity → Option RootIdentity → Bool
root_option_beq none none = true
root_option_beq (some i) (some j) = root_identity_beq i j
root_option_beq _ _ = false

abbrev pub same_roots : PerRoot RootIdentity → PerRoot RootIdentity → Bool
same_roots m n = root_option_beq m.at_home n.at_home && root_option_beq m.at_runtime n.at_runtime

pub record Snapshot : Type 0 where
  pub entries : Map Bytes EntryRecord
  pub roots : PerRoot ℕ
  pub root_identities : PerRoot RootIdentity
  pub root_complete : PerRoot Bool
  pub root_bounds_exceeded : PerRoot Bool
  pub complete : Bool
  pub bounds_exceeded : Bool
  pub unreadable_directories : ℕ
  pub unreadable_classes : DiscoveryClassCounts
  pub unstable_entries : ℕ
  pub foreign_owned : ℕ
  pub non_local_filesystems : ℕ
  pub metadata_errors : ℕ
  pub entry_key_collisions : ℕ

-- The two loops of `diff`, an entry at a time.
unfoldable pub note_found : Option EntryRecord → EntryRecord → DiscoveryDelta → DiscoveryDelta
note_found none after delta = record delta { created = increment after.class delta.created }
note_found (some before) after delta =
    if entry_identity_beq before.identity after.identity
    then delta
    else if same_object before.identity after.identity
    then record delta { modified = increment after.class delta.modified }
    else record delta { replaced = increment after.class delta.replaced }

unfoldable pub note_all_after :
    Map Bytes EntryRecord → Map Bytes EntryRecord → DiscoveryDelta → DiscoveryDelta
note_all_after pre [] delta = delta
note_all_after pre ((key, after) ∷ rest) delta =
    note_all_after pre rest (note_found (lookup key pre) after delta)

unfoldable pub note_before :
    Map Bytes EntryRecord → Bytes → EntryRecord → DiscoveryDelta → DiscoveryDelta
note_before post key before delta =
    if is_some (lookup key post)
    then delta
    else record delta { deleted = increment before.class delta.deleted }

unfoldable pub note_all_before :
    Map Bytes EntryRecord → Map Bytes EntryRecord → DiscoveryDelta → DiscoveryDelta
note_all_before post [] delta = delta
note_all_before post ((key, before) ∷ rest) delta =
    note_all_before post rest (note_before post key before delta)

unfoldable pub diff : Snapshot → Snapshot → DiscoveryDelta
diff pre post =
    note_all_before post.entries pre.entries (note_all_after pre.entries post.entries no_delta)
