-- ===== src/Discovery/Report/Counted.antt =====
-- What the counts of `diff` are, by the class of the entries.
use quarters.Prelude.{
  ℕ, ◌+◌, min, ◌≡◌, refl, ap, ◌∙◌, Bool, true, false, ◌&&◌, not, Option, none, some, [], ◌∷◌, arith,
  nat_beq, if◌then◌else◌, is_some, u64_max, saturating_add, Bytes, nat_eq, bytes_eq, Map, lookup,
}
use quarters.Discovery.{
  DiscoveryClass, configuration, personal_data, state, cache, credential_shaped, runtime_socket,
  runtime_other, unclassified,
}
use quarters.Discovery.Report.{
  same_object, entry_identity_beq, EntryRecord, DiscoveryClassCounts, increment, DiscoveryDelta,
  no_delta, Snapshot, note_found, note_all_after, note_before, note_all_before, diff,
}

abbrev class_index : DiscoveryClass → ℕ
class_index configuration = 0
class_index personal_data = 1
class_index state = 2
class_index cache = 3
class_index credential_shaped = 4
class_index runtime_socket = 5
class_index runtime_other = 6
class_index unclassified = 7

-- The count that is shown for a class.
abbrev pub count_of : DiscoveryClass → DiscoveryClassCounts → ℕ
count_of configuration n = n.configuration_count
count_of personal_data n = n.data_count
count_of state n = n.state_count
count_of cache n = n.cache_count
count_of credential_shaped n = n.credential_shaped_count
count_of runtime_socket n = n.runtime_socket_count
count_of runtime_other n = n.runtime_count
count_of unclassified n = n.unclassified_count

abbrev pub is_class : DiscoveryClass → DiscoveryClass → Bool
is_class c d = nat_beq (class_index c) (class_index d)

count_of-increment :
    (c d : DiscoveryClass) (n : DiscoveryClassCounts)
    → count_of c (increment d n)
      ≡ (if is_class c d then saturating_add (count_of c n) 1 else count_of c n)
unfolding increment
count_of-increment c d n = ground arith

-- What an entry after the run is, by the entry that was there before it, if any.
abbrev pub is_created : Option EntryRecord → EntryRecord → Bool
is_created found after = not (is_some found)

abbrev pub is_modified : Option EntryRecord → EntryRecord → Bool
is_modified none after = false
is_modified (some before) after =
    same_object before.identity after.identity
    && not (entry_identity_beq before.identity after.identity)

abbrev pub is_replaced : Option EntryRecord → EntryRecord → Bool
is_replaced none after = false
is_replaced (some before) after = not (same_object before.identity after.identity)

abbrev bit : Bool → ℕ
bit false = 0
bit true = 1

-- How many entries of a class pass a test of the entry and what the other map has at its key.
abbrev pub count_class :
    DiscoveryClass
    → (Option EntryRecord → EntryRecord → Bool)
    → Map Bytes EntryRecord
    → Map Bytes EntryRecord
    → ℕ
count_class c test others [] = 0
count_class c test others ((key, entry) ∷ entries) =
    bit (test (lookup key others) entry && is_class c entry.class)
    + count_class c test others entries

-- The counts of a class in a delta, up to the saturation at `u64::MAX`.
abbrev pub Shows : DiscoveryClass → DiscoveryDelta → ℕ → ℕ → ℕ → ℕ → Type 0
Shows c delta created modified replaced deleted =
    (count_of c delta.created ≡ min u64_max created)
    × (count_of c delta.modified ≡ min u64_max modified)
    × (count_of c delta.replaced ≡ min u64_max replaced)
    × (count_of c delta.deleted ≡ min u64_max deleted)

counted :
    (c d : DiscoveryClass) (n : DiscoveryClassCounts) (k : ℕ)
    → count_of c n ≡ min u64_max k
    → count_of c (increment d n) ≡ min u64_max (bit (is_class c d) + k)
counted c d n k h = rw (count_of-increment c d n, h) (ground arith)

Shows-same :
    {a m r d b n s e : ℕ} (c : DiscoveryClass) (delta : DiscoveryDelta)
    → a ≡ b
    → m ≡ n
    → r ≡ s
    → d ≡ e
    → Shows c delta a m r d
    → Shows c delta b n s e
Shows-same c delta p q t u (ha, hm, hr, hd) = (
  ha ∙ ap (min u64_max) p,
  hm ∙ ap (min u64_max) q,
  hr ∙ ap (min u64_max) t,
  hd ∙ ap (min u64_max) u,
)

changed-Shows :
    (c : DiscoveryClass) (after : EntryRecord) (exact same : Bool) (delta : DiscoveryDelta)
    (a m r d : ℕ)
    → (exact ≡ true → same ≡ true)
    → Shows c delta a m r d
    → Shows c
        (if exact
          then delta
          else if same
          then record delta { modified = increment after.class delta.modified }
          else record delta { replaced = increment after.class delta.replaced })
        a
        (bit ((same && not exact) && is_class c after.class) + m)
        (bit (not same && is_class c after.class) + r)
        d
changed-Shows c after true true delta a m r d imp (ha, hm, hr, hd) =
    (ha, omega arith, omega arith, hd)
changed-Shows c after true false delta a m r d imp h = absurd (ground (arith, imp refl))
changed-Shows c after false true delta a m r d imp (ha, hm, hr, hd) =
    (ha, counted c after.class delta.modified m hm, omega arith, hd)
changed-Shows c after false false delta a m r d imp (ha, hm, hr, hd) =
    (ha, omega arith, counted c after.class delta.replaced r hr, hd)

note_found-Shows :
    (c : DiscoveryClass) (found : Option EntryRecord) (after : EntryRecord) (delta : DiscoveryDelta)
    (a m r d : ℕ)
    → Shows c delta a m r d
    → Shows c
        (note_found found after delta)
        (bit (is_created found after && is_class c after.class) + a)
        (bit (is_modified found after && is_class c after.class) + m)
        (bit (is_replaced found after && is_class c after.class) + r)
        d
unfolding note_found
note_found-Shows c none after delta a m r d (ha, hm, hr, hd) =
    (counted c after.class delta.created a ha, omega arith, omega arith, hd)
note_found-Shows c (some before) after delta a m r d h =
    Shows-same c (note_found (some before) after delta) (omega arith) refl refl refl (
      changed-Shows c after (entry_identity_beq before.identity after.identity)
        (same_object before.identity after.identity) delta a m r d (λ exact. ground arith) h)

note_all_after-Shows :
    (c : DiscoveryClass) (pre post : Map Bytes EntryRecord) (delta : DiscoveryDelta) (a m r d : ℕ)
    → Shows c delta a m r d
    → Shows c
        (note_all_after pre post delta)
        (count_class c is_created pre post + a)
        (count_class c is_modified pre post + m)
        (count_class c is_replaced pre post + r)
        d
unfolding note_all_after
note_all_after-Shows c pre [] delta a m r d h = ground arith
note_all_after-Shows c pre ((key, after) ∷ post) delta a m r d h =
    Shows-same c (note_all_after pre ((key, after) ∷ post) delta) (omega arith) (omega arith)
      (omega arith) refl
      (note_all_after-Shows c pre post (note_found (lookup key pre) after delta) _ _ _ d
        (note_found-Shows c (lookup key pre) after delta a m r d h))

nothing_shown : (c : DiscoveryClass) → Shows c no_delta 0 0 0 0
nothing_shown c = ground arith

note_before-Shows :
    (c : DiscoveryClass) (post : Map Bytes EntryRecord) (key : Bytes) (before : EntryRecord)
    (delta : DiscoveryDelta) (a m r d : ℕ)
    → Shows c delta a m r d
    → Shows c
        (note_before post key before delta)
        a
        m
        r
        (bit (is_created (lookup key post) before && is_class c before.class) + d)
unfolding note_before
note_before-Shows c post key before delta a m r d h = gone (lookup key post)
  where
    gone :
        (found : Option EntryRecord)
        → Shows c
            (if is_some found
              then delta
              else record delta { deleted = increment before.class delta.deleted })
            a
            m
            r
            (bit (is_created found before && is_class c before.class) + d)
    gone none = (h.0, h.1, h.2, counted c before.class delta.deleted d h.3)
    gone (some found) = Shows-same c delta refl refl refl (omega arith) h

note_all_before-Shows :
    (c : DiscoveryClass) (post pre : Map Bytes EntryRecord) (delta : DiscoveryDelta) (a m r d : ℕ)
    → Shows c delta a m r d
    → Shows c (note_all_before post pre delta) a m r (count_class c is_created post pre + d)
unfolding note_all_before
note_all_before-Shows c post [] delta a m r d h = ground arith
note_all_before-Shows c post ((key, before) ∷ pre) delta a m r d h =
    Shows-same c (note_all_before post ((key, before) ∷ pre) delta) refl refl refl (omega arith) (
      note_all_before-Shows c post pre (note_before post key before delta) a m r
        (bit (is_created (lookup key post) before && is_class c before.class) + d)
        (note_before-Shows c post key before delta a m r d h))

-- For each class, the delta of two snapshots counts the entries of that class after the run whose
-- key is new, those whose object is the same with other metadata, those whose object is another,
-- and the entries before the run whose key is gone; a count stops at u64::MAX.
pub diff-Shows :
    (c : DiscoveryClass) (pre post : Snapshot)
    → Shows c
        (diff pre post)
        (count_class c is_created pre.entries post.entries)
        (count_class c is_modified pre.entries post.entries)
        (count_class c is_replaced pre.entries post.entries)
        (count_class c is_created post.entries pre.entries)
unfolding diff
diff-Shows c pre post =
    Shows-same c (diff pre post) (omega arith) (omega arith) (omega arith) (omega arith) (
      note_all_before-Shows c post.entries pre.entries _ _ _ _ 0
        (note_all_after-Shows c pre.entries post.entries no_delta 0 0 0 0 (nothing_shown c)))
