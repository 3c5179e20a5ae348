-- ===== src/Bundle/Writer/ReadsEntries.antt =====
-- The reader on the bytes of an entry.
use quarters.Prelude.{
  ℕ, zero, suc, ◌-◌, ◌%◌, ◌≤◌, min, ◌≡◌, refl, sym, ap, ◌∙◌, false, [], ◌∷◌, ◌++◌, arith, ltb, leb,
  length, take, drop, length-take, length-drop, take-append-drop, append-nil, Bytes, nat_eq,
  bytes_eq, Result, ok, err, ◌>>=◌, ◌>>◌, reject_if,
}
use quarters.Error.{ErrorKind, corrupt_state, resource_limit}
use quarters.Bundle.Paths.{
  EntryKind, directory_entry, file_entry, symlink_entry, validate_link_target,
}
use quarters.Bundle.Counts.{note_directory, note_file, note_symlink}
use quarters.Bundle.Parse
use quarters.Bundle.Parse.{
  ParseError, failed, out_of_fuel, Event, close_event, directory_event, file_start_event,
  file_chunk_event, file_end_event, symlink_event, Session, Parse, done_with, lifted, emit,
  read_bytes, from_be_bytes, read_number, entered, counted, limit_relative_path_bytes,
  limit_symlink_target_bytes, chunk_bytes, read_path, read_mode, parse_directory, read_chunks,
  parse_file, parse_symlink, Tag, tag_of, tag_directory, tag_file, tag_symlink, tag_terminal,
  tag_unknown, parse_entries,
}
use quarters.Bundle.Writer.{to_be_bytes, mode_bytes, directory_of, file_of, symlink_of}
use quarters.Bundle.Writer.Printed.{path_bytes, IsWritable}
use quarters.Bundle.Writer.Replay.{
  Progress, Replayed, emitted, emitted_chunks, chunks, replay_enter, replay_count, replay_entry,
}
use quarters.Bundle.Writer.Reads.{
  Reads, and_so, Reads-bind, Reads-then, Reads-next, Reads-as, Reads-nothing, done-Reads,
  emit-Reads, staying, lifted-Reads, passed, entered-Reads, counted-Reads, read_bytes-Reads,
  read_number-Reads,
}

pub within_limit :
    (limit n : ℕ) (p : Progress)
    → n ≤ limit
    → Reads (lifted (reject_if (ltb limit n) resource_limit)) [] p (ok (tt, p))
within_limit limit n p h =
    Reads-as refl (ap (λ b. staying p (reject_if b resource_limit)) (fits limit n h))
      (lifted-Reads (reject_if (ltb limit n) resource_limit) p)
  where
    fits : (limit n : ℕ) → n ≤ limit → ltb limit n ≡ false
    fits limit n h = ground (arith, h)

abbrev named : Bytes → Replayed → Result ErrorKind (Bytes × Progress)
named path x = and_so (passed x) (λ _ q. ok (path, q))

read_path-Reads :
    (path : Bytes) (kind : EntryKind) (p : Progress)
    → length path ≤ limit_relative_path_bytes
    → Reads (read_path kind) (path_bytes path) p (named path (replay_enter path kind p))
unfolding read_path
read_path-Reads path kind p h =
    Reads-as (ap (λ z. to_be_bytes 4 (length path) ++ z) (append-nil path)) refl (
      Reads-then _ (read_number-Reads 4 (length path) p (omega arith)) (
        Reads-next _ (within_limit limit_relative_path_bytes (length path) p h) (
          Reads-then _ (read_bytes-Reads (length path) path p refl)
            (Reads-bind (entered-Reads path kind p) (λ _ q. done-Reads path q)))))

read_mode-Reads :
    (mode : ℕ) (p : Progress) → Reads read_mode (mode_bytes mode) p (ok (mode % 512, p))
unfolding read_mode
read_mode-Reads mode p = Reads-as (append-nil (mode_bytes mode)) refl (
    Reads-then _ (read_number-Reads 4 (mode % 512) p (omega arith)) (
      Reads-then _
        (Reads-as refl (ap (λ b. staying p (reject_if b corrupt_state)) small)
          (lifted-Reads (reject_if (leb 512 (mode % 512)) corrupt_state) p))
        (done-Reads (mode % 512) p)))
  where
    small : leb 512 (mode % 512) ≡ false
    small = ground arith

abbrev pub Step : Type 0
Step = Result ErrorKind (Unit {0} × Progress)

after_name :
    (path : Bytes) (x : Replayed) (g : Bytes → Progress → Step) (f : Progress → Replayed)
    → ((q : Progress) → g path q ≡ passed (f q))
    → and_so (named path x) g ≡ passed (x >>= f)
after_name path (ok q) g f h = h q
after_name path (err k) g f h = refl

pub after_step :
    (x : Replayed) (g : Progress → Step) (f : Progress → Replayed)
    → ((q : Progress) → g q ≡ passed (f q))
    → and_so (passed x) (λ _ q. g q) ≡ passed (x >>= f)
after_step (ok q) g f h = h q
after_step (err k) g f h = refl

pub parse_directory-Reads :
    (path : Bytes) (mode : ℕ) (p : Progress)
    → length path ≤ limit_relative_path_bytes
    → Reads parse_directory
        (path_bytes path ++ mode_bytes mode)
        p
        (passed (replay_entry (directory_of path mode) p))
unfolding parse_directory replay_entry
parse_directory-Reads path mode p h =
    Reads-as refl
      (after_name path (replay_enter path directory_entry p) _ _
        λ q. after_step (replay_count note_directory q) _ _ (λ r. refl))
      (Reads-bind (read_path-Reads path directory_entry p h) λ a q.
        Reads-then _ (read_mode-Reads mode q) (
          Reads-bind (counted-Reads note_directory q)
            (λ _ r. emit-Reads (directory_event a (mode % 512)) r)))

read_chunks-Reads :
    (fuel remaining : ℕ) (source : Bytes) (p : Progress)
    → remaining ≤ fuel
    → length source ≡ remaining
    → Reads
        (read_chunks fuel remaining)
        source
        p
        (ok (tt, emitted_chunks (chunks fuel remaining source) p))
unfolding read_chunks chunks
read_chunks-Reads fuel zero [] p h e = Reads-nothing (λ tail seen. refl)
read_chunks-Reads fuel zero (b ∷ bs) p h e = absurd (omega (arith, e))
read_chunks-Reads zero (suc remaining) source p h e = absurd (omega arith)
read_chunks-Reads (suc fuel) (suc remaining) source p h e =
    let size = min (suc remaining) chunk_bytes in
    let chunk = take size source in
    let rest = drop size source in
    let turn =
      Reads-then
        (λ c. Parse.◌>>◌ (emit (file_chunk_event c)) (read_chunks fuel (suc remaining - size)))
        (read_bytes-Reads size chunk p (length-take size source ∙ omega (arith, e)))
        (Reads-next _ (emit-Reads (file_chunk_event chunk) p) (
          read_chunks-Reads fuel (suc remaining - size) rest (emitted (file_chunk_event chunk) p)
            (omega arith) (length-drop size source ∙ ap (λ n. n - size) e))) in
    Reads-as (take-append-drop size source) refl (record { at = λ tail seen. turn.at tail seen })

pub parse_file-Reads :
    (path : Bytes) (mode size : ℕ) (source : Bytes) (p : Progress)
    → IsWritable (file_of path mode size source)
    → Reads parse_file
        (path_bytes path ++ (mode_bytes mode ++ (to_be_bytes 8 size ++ source)))
        p
        (passed (replay_entry (file_of path mode size source) p))
unfolding parse_file replay_entry
parse_file-Reads path mode size source p (h, (e, l)) =
    Reads-as refl
      (after_name path (replay_enter path file_entry p) _ _
        λ q. after_step (replay_count (note_file size) q) _ _ (λ r. refl))
      (Reads-bind (read_path-Reads path file_entry p h) λ a q.
        Reads-then _ (read_mode-Reads mode q) (
          Reads-then _ (read_number-Reads 8 size q (omega arith)) (
            Reads-bind (counted-Reads (note_file size) q) λ _ r.
              Reads-next _ (emit-Reads (file_start_event a (mode % 512) size) r) (
                Reads-as (append-nil source) refl (
                  Reads-next _ (read_chunks-Reads size size source _ (omega arith) (sym e))
                    (emit-Reads file_end_event _))))))

after_check :
    (c : Result ErrorKind (Unit {0})) (q : Progress) (g : Progress → Step) (y : Replayed)
    → g q ≡ passed y
    → and_so (staying q c) (λ _ r. g r) ≡ passed (c >> y)
after_check (ok _) q g y h = h
after_check (err k) q g y h = refl

pub parse_symlink-Reads :
    (path target : Bytes) (p : Progress)
    → IsWritable (symlink_of path target)
    → Reads parse_symlink
        (path_bytes path ++ path_bytes target)
        p
        (passed (replay_entry (symlink_of path target) p))
unfolding parse_symlink replay_entry
parse_symlink-Reads path target p (h, l) =
    Reads-as refl
      (after_name path (replay_enter path symlink_entry p) _ _ λ q.
        after_check (validate_link_target path target) q _ _
          (after_step (replay_count (note_symlink (length target)) q) _ _ (λ r. refl)))
      (Reads-bind (read_path-Reads path symlink_entry p h) λ a q.
        Reads-then _ (read_number-Reads 4 (length target) q (omega arith)) (
          Reads-next _ (within_limit limit_symlink_target_bytes (length target) q l) (
            Reads-as (append-nil target) refl (
              Reads-then _ (read_bytes-Reads (length target) target q refl) (
                Reads-bind (lifted-Reads (validate_link_target a target) q) λ _ r.
                  Reads-bind (counted-Reads (note_symlink (length target)) r)
                    (λ _ s. emit-Reads (symlink_event a target) s))))))
