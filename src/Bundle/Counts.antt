-- ===== src/Bundle/Counts.antt =====
-- The counts of a bundle: `ParseState::note_directory`, `note_file`, `note_symlink`.
use quarters.Prelude.{
  ℕ, ◌+◌, ◌*◌, ◌≤◌, ◌<◌, ◌≡◌, refl, subst, ◌⊎◌, inl, inr, ◌&&◌, List, [], ◌∷◌, arith, ltb, leb,
  nat_beq, if◌then◌else◌, Bool-cases, u64_max, saturating_add, nat_eq, bytes_eq, Result, ok, err,
  ◌>>=◌, ◌>>◌, reject_if,
}
use quarters.Error.{ErrorKind, corrupt_state, resource_limit}
use quarters.Bundle.Paths.{EntryKind, directory_entry, file_entry, symlink_entry, is_directory}

-- `CloneLimits::ALPHA`, of store/lifecycle/policy.rs.
abbrev pub limit_entries : ℕ
limit_entries = 100000

abbrev pub limit_logical_bytes : ℕ
limit_logical_bytes = 10 * 1024 * 1024 * 1024

abbrev pub limit_file_bytes : ℕ
limit_file_bytes = 2 * 1024 * 1024 * 1024

-- `ArtifactCounts` of store/artifact/model.rs.
pub record ArtifactCounts : Type 0 where
  pub directories : ℕ
  pub files : ℕ
  pub symlinks : ℕ
  pub entries : ℕ
  pub logical_bytes : ℕ

abbrev pub no_counts : ArtifactCounts
no_counts = record { directories = 0; files = 0; symlinks = 0; entries = 0; logical_bytes = 0 }

unfoldable pub note_entry : ArtifactCounts → Result ErrorKind ArtifactCounts
note_entry c =
    let next = record c { entries = saturating_add c.entries 1 } in
    if ltb limit_entries next.entries then err resource_limit else ok next

unfoldable pub add_bytes : ℕ → ArtifactCounts → Result ErrorKind ArtifactCounts
add_bytes n c =
    if ltb u64_max (c.logical_bytes + n)
    then err resource_limit
    else (if ltb limit_logical_bytes (c.logical_bytes + n)
        then err resource_limit
        else ok (record c { logical_bytes = c.logical_bytes + n }))

unfoldable pub note_directory : ArtifactCounts → Result ErrorKind ArtifactCounts
unfolding note_entry
note_directory c = do
  noted ← note_entry c
  ok (record noted { directories = saturating_add noted.directories 1 })

unfoldable pub note_file : ℕ → ArtifactCounts → Result ErrorKind ArtifactCounts
unfolding note_entry add_bytes
note_file size c = do
  reject_if (ltb limit_file_bytes size) resource_limit
  noted ← note_entry c
  added ← add_bytes size noted
  ok (record added { files = saturating_add added.files 1 })

unfoldable pub note_symlink : ℕ → ArtifactCounts → Result ErrorKind ArtifactCounts
unfolding note_entry add_bytes
note_symlink size c = do
  noted ← note_entry c
  added ← add_bytes size noted
  ok (record added { symlinks = saturating_add added.symlinks 1 })

-- `validate_counts` of store/artifact/model.rs.
unfoldable pub validate_counts : ArtifactCounts → Result ErrorKind (Unit {0})
validate_counts c =
    let entries = c.directories + c.files + c.symlinks in
    if leb (c.directories + c.files) u64_max && leb entries u64_max && nat_beq entries c.entries
    then ok tt
    else err corrupt_state

-- An entry with its size, and all of a bundle's entries.
unfoldable pub note : EntryKind → ℕ → ArtifactCounts → Result ErrorKind ArtifactCounts
unfolding note_directory note_file note_symlink
note directory_entry size c = note_directory c
note file_entry size c = note_file size c
note symlink_entry size c = note_symlink size c

unfoldable pub note_all : List (EntryKind × ℕ) → ArtifactCounts → Result ErrorKind ArtifactCounts
unfolding note
note_all [] c = ok c
note_all ((kind, size) ∷ rest) c = note kind size c >>= note_all rest

-- The counts are consistent, and within the limits.
pub record IsBounded (c : ArtifactCounts) : Type 0 where
  pub sum : c.entries ≡ c.directories + c.files + c.symlinks
  pub entries_limit : c.entries ≤ limit_entries
  pub bytes_limit : c.logical_bytes ≤ limit_logical_bytes

-- What one entry makes of bounded counts.
abbrev pub Noted : EntryKind → ℕ → ArtifactCounts → Result ErrorKind ArtifactCounts → Type 0
Noted kind size c (err k) =
    (limit_entries < c.entries + 1)
    ⊎ ((limit_file_bytes < size) ⊎ (limit_logical_bytes < c.logical_bytes + size))
Noted kind size c (ok d) =
    IsBounded d
    × ((d.entries ≡ c.entries + 1)
        × (d.logical_bytes ≡ c.logical_bytes + (if is_directory kind then 0 else size)))

entry_noted :
    (c : ArtifactCounts)
    → IsBounded c
    → ((note_entry c ≡ err resource_limit) × (limit_entries < c.entries + 1))
      ⊎ ((note_entry c ≡ ok (record c { entries = c.entries + 1 }))
          × (c.entries + 1 ≤ limit_entries))
unfolding note_entry
entry_noted c b = ground arith

bytes_added :
    (n : ℕ) (c : ArtifactCounts)
    → ((add_bytes n c ≡ err resource_limit) × (limit_logical_bytes < c.logical_bytes + n))
      ⊎ ((add_bytes n c ≡ ok (record c { logical_bytes = c.logical_bytes + n }))
          × (c.logical_bytes + n ≤ limit_logical_bytes))
unfolding add_bytes
bytes_added n c = ground arith

capped : (n : ℕ) → n ≤ limit_entries → saturating_add n 1 ≡ n + 1
capped n h = ground arith

-- One entry on counts within the limits: it is counted and the counts stay within the limits and
-- consistent, or a limit is exceeded.
pub note-Noted :
    (kind : EntryKind) (size : ℕ) (c : ArtifactCounts)
    → IsBounded c
    → Noted kind size c (note kind size c)
unfolding note note_directory note_file note_symlink
note-Noted directory_entry size c b = elim (entry_noted c b) [
  | inl (e, l) ↦ rw (e, Noted) (inl l)
  | inr (e, l) ↦
      rw (e, Noted)
        (
          record {
            sum = ground (arith, b.sum, capped c.directories);
            entries_limit = l;
            bytes_limit = b.bytes_limit;
          },
          (refl, omega arith),
        )
]
note-Noted file_entry size c b = elim (Bool-cases (ltb limit_file_bytes size)) [
  | inl t ↦ rw (t, Noted) (inr (inl (ground (arith, t))))
  | inr f ↦ elim (entry_noted c b) [
    | inl (e, l) ↦ rw (f, Noted) (rw (e, Noted) (inl l))
    | inr (e, l) ↦ elim (bytes_added size (record c { entries = c.entries + 1 })) [
      | inl (g, m) ↦ rw (f, Noted) (rw (e, Noted) (rw (g, Noted) (inr (inr m))))
      | inr (g, m) ↦
          rw (f, Noted)
            (rw (e, Noted)
              (rw (g, Noted)
                (
                  record {
                    sum = ground (arith, b.sum, capped c.files);
                    entries_limit = l;
                    bytes_limit = m;
                  },
                  (refl, refl),
                )))
    ]
  ]
]
note-Noted symlink_entry size c b = elim (entry_noted c b) [
  | inl (e, l) ↦ rw (e, Noted) (inl l)
  | inr (e, l) ↦ elim (bytes_added size (record c { entries = c.entries + 1 })) [
    | inl (g, m) ↦ rw (e, Noted) (rw (g, Noted) (inr (inr m)))
    | inr (g, m) ↦
        rw (e, Noted)
          (rw (g, Noted)
            (
              record {
                sum = ground (arith, b.sum, capped c.symlinks);
                entries_limit = l;
                bytes_limit = m;
              },
              (refl, refl),
            ))
  ]
]

abbrev Valid : ArtifactCounts → Type 0
Valid c = IsBounded c × (validate_counts c ≡ ok tt)

IsBounded-Valid : (c : ArtifactCounts) → IsBounded c → Valid c
unfolding validate_counts
IsBounded-Valid c b = (b, ground (arith, b.sum, b.entries_limit))

ok_injective :
    (c d : ArtifactCounts) → ◌≡◌ {A = Result ErrorKind ArtifactCounts} (ok c) (ok d) → c ≡ d
ok_injective c d h = cc

-- However many entries are counted, from counts within the limits the counts that come out are
-- within the limits and consistent, so that validate_counts accepts them.
pub note_all-IsBounded :
    (entries : List (EntryKind × ℕ)) (c d : ArtifactCounts)
    → IsBounded c
    → note_all entries c ≡ ok d
    → IsBounded d × (validate_counts d ≡ ok tt)
unfolding note_all
note_all-IsBounded [] c d b h = subst Valid (ok_injective c d h) (IsBounded-Valid c b)
note_all-IsBounded ((kind, size) ∷ rest) c d b h =
    next (λ x q e. note_all-IsBounded rest x d q e) (note kind size c) (note-Noted kind size c b) h
  where
    next :
        ((x : ArtifactCounts)
          → IsBounded x
          → note_all rest x ≡ ok d
          → IsBounded d × (validate_counts d ≡ ok tt))
        → (r : Result ErrorKind ArtifactCounts) → Noted kind size c r
        → (r >>= note_all rest) ≡ ok d
        → IsBounded d × (validate_counts d ≡ ok tt)
    next ih (err k) n e = cc
    next ih (ok x) (q, _) e = ih x q e
