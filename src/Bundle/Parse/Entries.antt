-- ===== src/Bundle/Parse/Entries.antt =====
-- The invariant of a parse at each of its entries.
use quarters.Prelude.{
  ℕ, zero, suc, ◌-◌, ◌≤◌, min, arith, ltb, leb, Bytes, nat_eq, bytes_eq, err, reject_if,
}
use quarters.Error.{corrupt_state, resource_limit}
use quarters.Bundle.Paths.{
  EntryKind, directory_entry, file_entry, symlink_entry, validate_link_target,
}
use quarters.Bundle.Counts.{note}
use quarters.Bundle.Parse.{
  directory_event, file_start_event, file_chunk_event, file_end_event, symlink_event, Session,
  ◌>>=◌, ◌>>◌, done_with, lifted, emit, read_bytes, read_number, limit_relative_path_bytes,
  limit_symlink_target_bytes, chunk_bytes, read_path, read_mode, parse_directory, read_chunks,
  parse_file, parse_symlink, Tag, tag_directory, tag_file, tag_symlink, tag_terminal, tag_unknown,
  tag_of, parse_entries,
}
use quarters.Bundle.Parse.Sound.{
  Good, Short, Parses, Parses-bind, Parses-done, Parses-weaken, emit-Parses, lifted-Parses,
  read_exactly, read_bytes-Parses, entered-Parses, counted-Parses,
}

module _ (input : Bytes) (m : ℕ) where
  abbrev S : Session → Type 0
  S = Short input m

  pub read_number-Parses : (width : ℕ) → Parses S (read_number width) (λ _. S)
  unfolding read_number
  read_number-Parses width =
      Parses-bind _ _ (read_bytes-Parses input m width) (λ bytes. Parses-done _ (λ s p. p))

  read_path-Parses : (kind : EntryKind) → Parses S (read_path kind) (λ _. S)
  unfolding read_path
  read_path-Parses kind = Parses-bind _ _ (read_number-Parses 4) λ size.
      Parses-bind _ _
        (lifted-Parses input m (reject_if (ltb limit_relative_path_bytes size) resource_limit))
        λ _. Parses-bind _ _ (read_bytes-Parses input m size) λ path.
          Parses-bind _ _ (entered-Parses input m path kind) λ _. Parses-done path (λ s p. p)

  read_mode-Parses : Parses S read_mode (λ _. S)
  unfolding read_mode
  read_mode-Parses = Parses-bind _ _ (read_number-Parses 4) λ mode.
      Parses-bind _ _ (lifted-Parses input m (reject_if (leb 512 mode) corrupt_state))
        λ _. Parses-done mode (λ s p. p)

  directory-Parses : Parses S parse_directory (λ _. S)
  unfolding parse_directory note
  directory-Parses = Parses-bind _ _ (read_path-Parses directory_entry) λ path.
      Parses-bind _ _ read_mode-Parses λ mode.
        Parses-bind _ _ (counted-Parses input m directory_entry 0)
          λ _. emit-Parses input m (directory_event path mode)

  read_chunks-Parses :
      (fuel remaining : ℕ) → remaining ≤ fuel → Parses S (read_chunks fuel remaining) (λ _. S)
  unfolding read_chunks
  read_chunks-Parses fuel zero h = record { at = λ s p. p }
  read_chunks-Parses zero (suc remaining) h = absurd (omega arith)
  read_chunks-Parses (suc fuel) (suc remaining) h =
      let size = min (suc remaining) chunk_bytes in
      let turn : Parses S
          (read_bytes size >>= λ (chunk : Bytes).
            emit (file_chunk_event chunk) >> read_chunks fuel (suc remaining - size))
          (λ _. S) =
        Parses-bind _ _ (read_bytes-Parses input m size) λ chunk.
          Parses-bind _ _ (emit-Parses input m (file_chunk_event chunk))
            λ _. read_chunks-Parses fuel (suc remaining - size) (omega arith) in
      record { at = λ s p. turn.at s p }

  file-Parses : Parses S parse_file (λ _. S)
  unfolding parse_file note
  file-Parses = Parses-bind _ _ (read_path-Parses file_entry) λ path.
      Parses-bind _ _ read_mode-Parses λ mode. Parses-bind _ _ (read_number-Parses 8) λ size.
        Parses-bind _ _ (counted-Parses input m file_entry size) λ _.
          Parses-bind _ _ (emit-Parses input m (file_start_event path mode size)) λ _.
            Parses-bind _ _ (read_chunks-Parses size size (omega arith))
              λ _. emit-Parses input m file_end_event

  symlink-Parses : Parses S parse_symlink (λ _. S)
  unfolding parse_symlink note
  symlink-Parses = Parses-bind _ _ (read_path-Parses symlink_entry) λ path.
      Parses-bind _ _ (read_number-Parses 4) λ size.
        Parses-bind _ _
          (lifted-Parses input m (reject_if (ltb limit_symlink_target_bytes size) resource_limit))
          λ _. Parses-bind _ _ (read_bytes-Parses input m size) λ target.
            Parses-bind _ _ (lifted-Parses input m (validate_link_target path target)) λ _.
              Parses-bind _ _ (counted-Parses input m symlink_entry size)
                λ _. emit-Parses input m (symlink_event path target)

-- The loop over the entries has enough fuel if it is more than the bytes to come, since each entry
-- takes at least its tag.
pub parse_entries-Parses :
    (input : Bytes) (fuel : ℕ) → Parses (Short input fuel) (parse_entries fuel) (λ _. Good input)
unfolding parse_entries
parse_entries-Parses input zero = record { at = λ s (g, l). absurd (omega arith) }
parse_entries-Parses input (suc fuel) = record {
  at = λ s p. (turn (parse_entries-Parses input fuel)).at s p;
}
  where
    rest :
        Parses (Short input fuel) (parse_entries fuel) (λ _. Good input)
        → (t : Tag)
        → Parses
            (Short input fuel)
            (elim t [
              | tag_directory ↦ (do parse_directory; parse_entries fuel)
              | tag_file ↦ (do parse_file; parse_entries fuel)
              | tag_symlink ↦ (do parse_symlink; parse_entries fuel)
              | tag_terminal ↦ done_with tt
              | tag_unknown ↦ lifted (err corrupt_state)
            ])
            (λ _. Good input)
    rest ih tag_directory = Parses-bind _ _ (directory-Parses input fuel) (λ _. ih)
    rest ih tag_file = Parses-bind _ _ (file-Parses input fuel) (λ _. ih)
    rest ih tag_symlink = Parses-bind _ _ (symlink-Parses input fuel) (λ _. ih)
    rest ih tag_terminal = Parses-done tt (λ s (g, l). g)
    rest ih tag_unknown = record { at = λ s p. λ e. cc }

    turn :
        Parses (Short input fuel) (parse_entries fuel) (λ _. Good input)
        → Parses
            (Short input (suc fuel))
            (read_bytes 1 >>= λ (tag : Bytes). elim (tag_of tag) [
              | tag_directory ↦ (do parse_directory; parse_entries fuel)
              | tag_file ↦ (do parse_file; parse_entries fuel)
              | tag_symlink ↦ (do parse_symlink; parse_entries fuel)
              | tag_terminal ↦ done_with tt
              | tag_unknown ↦ lifted (err corrupt_state)
            ])
            (λ _. Good input)
    turn ih =
        Parses-bind _ _ (read_exactly input (suc fuel) 1)
          λ tag. Parses-weaken (λ s (g, l). (g, omega arith)) (rest ih (tag_of tag))
