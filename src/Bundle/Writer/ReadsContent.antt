-- ===== src/Bundle/Writer/ReadsContent.antt =====
-- The reader on the entries of a writer, and on all that the MAC covers.
use quarters.Prelude.{
  ℕ, zero, suc, ◌+◌, ◌≤◌, ◌<◌, refl, sym, ap, ◌∙◌, not, List, [], ◌∷◌, ◌++◌, arith, length, All,
  length-append, append_assoc, append-nil, ◌==◌, Bytes, nat_eq, bytes_eq, Result, ok, err,
  reject_if,
}
use quarters.Error.{ErrorKind, corrupt_state}
use quarters.Bundle.Parse.{
  Parse, ◌>>◌, done_with, lifted, header_limit, parse_directory, parse_file, parse_symlink, tag_of,
  tag_directory, tag_file, tag_symlink, tag_terminal, tag_unknown, parse_entries, magic,
  parse_content,
}
use quarters.Bundle.Writer.{to_be_bytes, Entry, directory_of, file_of, symlink_of}
use quarters.Bundle.Writer.Printed.{path_bytes, entry_bytes, entries_bytes, IsWritable}
use quarters.Bundle.Writer.Replay.{Progress, replay_entry, replay}
use quarters.Bundle.Writer.Reads.{
  Reads, and_so, Reads-bind, Reads-then, Reads-next, Reads-as, done-Reads, lifted-Reads, passed,
  read_bytes-Reads, read_number-Reads,
}
use quarters.Bundle.Writer.ReadsEntries.{
  within_limit, after_step, parse_directory-Reads, parse_file-Reads, parse_symlink-Reads,
}

abbrev after_tag : ℕ → Bytes → Parse (Unit {0})
after_tag fuel tag = elim (tag_of tag) [
  | tag_directory ↦ (do parse_directory; parse_entries fuel)
  | tag_file ↦ (do parse_file; parse_entries fuel)
  | tag_symlink ↦ (do parse_symlink; parse_entries fuel)
  | tag_terminal ↦ done_with tt
  | tag_unknown ↦ lifted (err corrupt_state)
]

abbrev pub terminal : Bytes
terminal = 0 ∷ []

-- One turn of the loop over the entries.
turn-Reads :
    (fuel t : ℕ) (body : Bytes) (p : Progress) (r : Result ErrorKind (Unit {0} × Progress))
    → Reads (after_tag fuel (t ∷ [])) body p r
    → Reads (parse_entries (suc fuel)) (t ∷ body) p r
unfolding parse_entries
turn-Reads fuel t body p r h =
    let whole = Reads-then (after_tag fuel) (read_bytes-Reads 1 (t ∷ []) p refl) h in
    record { at = λ tail seen. whole.at tail seen }

parse_entries-Reads :
    (es : List Entry) (fuel : ℕ) (p : Progress)
    → All IsWritable es
    → length es < fuel
    → Reads (parse_entries fuel) (entries_bytes es ++ terminal) p (passed (replay es p))
unfolding entries_bytes entry_bytes replay
parse_entries-Reads [] (suc fuel) p h l = turn-Reads fuel 0 [] p _ (done-Reads tt p)
parse_entries-Reads (directory_of path mode ∷ es) (suc fuel) p (h, hs) l =
    Reads-as (sym (append_assoc (entry_bytes (directory_of path mode)) (entries_bytes es) terminal))
      (after_step (replay_entry (directory_of path mode) p) _ _ (λ q. refl))
      (turn-Reads fuel 68 _ p _ (
        Reads-bind (parse_directory-Reads path mode p h)
          (λ _ q. parse_entries-Reads es fuel q hs (omega arith))))
parse_entries-Reads (file_of path mode size source ∷ es) (suc fuel) p (h, hs) l =
    Reads-as
      (sym (append_assoc (entry_bytes (file_of path mode size source)) (entries_bytes es) terminal))
      (after_step (replay_entry (file_of path mode size source) p) _ _ (λ q. refl))
      (turn-Reads fuel 70 _ p _ (
        Reads-bind (parse_file-Reads path mode size source p h)
          (λ _ q. parse_entries-Reads es fuel q hs (omega arith))))
parse_entries-Reads (symlink_of path target ∷ es) (suc fuel) p (h, hs) l =
    Reads-as (sym (append_assoc (entry_bytes (symlink_of path target)) (entries_bytes es) terminal))
      (after_step (replay_entry (symlink_of path target) p) _ _ (λ q. refl))
      (turn-Reads fuel 76 _ p _ (
        Reads-bind (parse_symlink-Reads path target p h)
          (λ _ q. parse_entries-Reads es fuel q hs (omega arith))))
parse_entries-Reads es zero p h l = absurd (omega arith)

-- All that the MAC covers: the magic, the header, the entries and the terminal tag.
unfoldable pub content_bytes : Bytes → List Entry → Bytes
content_bytes header es = magic ++ (path_bytes header ++ (entries_bytes es ++ terminal))

entries_longer : (es : List Entry) → length es ≤ length (entries_bytes es)
unfolding entries_bytes entry_bytes
entries_longer [] = omega arith
entries_longer (e ∷ es) =
    omega (arith, length-append (entry_bytes e) (entries_bytes es), taken e, entries_longer es)
  where
    taken : (e : Entry) → 1 ≤ length (entry_bytes e)
    taken (directory_of path mode) = omega arith
    taken (file_of path mode size source) = omega arith
    taken (symlink_of path target) = omega arith

-- The fuel that parse_content gives to the loop is enough.
loop-Reads :
    (es : List Entry) (p : Progress)
    → All IsWritable es
    → Reads
        (λ s. parse_entries (length s.rest + 1) s)
        (entries_bytes es ++ terminal)
        p
        (passed (replay es p))
loop-Reads es p h = record {
  at = λ tail seen.
      (parse_entries-Reads es (length ((entries_bytes es ++ terminal) ++ tail) + 1) p h (
          omega (
            arith,
            length-append (entries_bytes es ++ terminal) tail,
            length-append (entries_bytes es) terminal,
            entries_longer es,
          ))).at
        tail seen;
}

pub parse_content-Reads :
    (header : Bytes) (es : List Entry) (p : Progress)
    → length header ≤ header_limit
    → All IsWritable es
    → Reads parse_content
        (content_bytes header es)
        p
        (and_so (passed (replay es p)) (λ _ q. ok (header, q)))
unfolding parse_content content_bytes
parse_content-Reads header es p l h =
    Reads-as
      (ap (λ z. magic ++ (to_be_bytes 4 (length header) ++ (header ++ z))) (append-nil _)
        ∙ ap (λ z. magic ++ z) (sym (append_assoc (to_be_bytes 4 (length header)) header _)))
      refl
      (Reads-then _ (read_bytes-Reads 16 magic p refl) (
        Reads-next _ (lifted-Reads (reject_if (not (magic == magic)) corrupt_state) p) (
          Reads-then _ (read_number-Reads 4 (length header) p (omega arith)) (
            Reads-next _ (within_limit header_limit (length header) p l) (
              Reads-then _ (read_bytes-Reads (length header) header p refl)
                (Reads-bind (loop-Reads es p h) (λ _ q. done-Reads header q)))))))
