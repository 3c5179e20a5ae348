-- ===== src/Bundle/Writer/Recovered.antt =====
-- The entries that the calls of a sink stand for, and that a bundle gives back those it was made of.
use quarters.Prelude.{
  ℕ, zero, suc, ◌-◌, ◌%◌, ◌≤◌, min, ◌≡◌, refl, sym, ap, ◌∙◌, subst, true, Option, some, List, [],
  ◌∷◌, ◌++◌, map, arith, if-true, length, take, drop, All, length-drop, take-append-drop,
  append_assoc, append-nil, Bytes, nat_eq, bytes_eq, Result, ok, err, ◌>>=◌, ◌>>◌, is_ok,
}
use quarters.Error.{ErrorKind}
use quarters.Bundle.Paths.{
  EntryKind, directory_entry, file_entry, symlink_entry, OpenDirectory, validate_path,
  validate_link_target, close_all,
}
use quarters.Bundle.Counts.{ArtifactCounts, note_directory, note_file, note_symlink}
use quarters.Bundle.Header.{BundleHeader, validate_header}
use quarters.Bundle.Parse.{
  Event, close_event, directory_event, file_start_event, file_chunk_event, file_end_event,
  symlink_event, Session, header_limit, chunk_bytes, parse_bundle,
}
use quarters.Bundle.Writer.{Entry, directory_of, file_of, symlink_of}
use quarters.Bundle.Writer.Printed.{IsWritable}
use quarters.Bundle.Writer.Replay.{
  Progress, Replayed, nothing_read, emitted, emitted_chunks, chunks, with_path, replay_enter,
  with_counts, replay_count, replay_entry, replay,
}
use quarters.Bundle.Writer.ReadsContent.{content_bytes}
use quarters.Bundle.Writer.RoundTrip.{bundle_bytes, judged, verdict, parse_bundle-write_bundle}

-- The entries that are complete, and the file that is being read.
record Collected : Type 0 where
  done : List Entry
  path : Bytes
  mode : ℕ
  size : ℕ
  content : Bytes

abbrev collect : Collected → Event → Collected
collect c (close_event path) = c
collect c (directory_event path mode) = record c { done = c.done ++ (directory_of path mode ∷ []) }
collect c (file_start_event path mode size) = record c {
  path = path;
  mode = mode;
  size = size;
  content = [];
}
collect c (file_chunk_event bytes) = record c { content = c.content ++ bytes }
collect c file_end_event = record c {
  done = c.done ++ (file_of c.path c.mode c.size c.content ∷ []);
}
collect c (symlink_event path target) = record c { done = c.done ++ (symlink_of path target ∷ []) }

abbrev collect_all : Collected → List Event → Collected
collect_all c [] = c
collect_all c (e ∷ es) = collect_all (collect c e) es

abbrev none_collected : Collected
none_collected = record { done = []; path = []; mode = 0; size = 0; content = [] }

-- The entries of the calls of a sink, each file with its chunks joined.
pub entries_of : List Event → List Entry
entries_of events = (collect_all none_collected events).done

collect_all-append :
    (c : Collected) (xs ys : List Event)
    → collect_all c (xs ++ ys) ≡ collect_all (collect_all c xs) ys
collect_all-append c [] ys = refl
collect_all-append c (x ∷ xs) ys = collect_all-append (collect c x) xs ys

collect_all-close : (c : Collected) (paths : List Bytes) → collect_all c (map close_event paths) ≡ c
collect_all-close c [] = refl
collect_all-close c (p ∷ ps) = collect_all-close c ps

abbrev collected : Progress → Collected
collected p = collect_all none_collected p.events

collected-emitted : (e : Event) (p : Progress) → collected (emitted e p) ≡ collect (collected p) e
collected-emitted e p = collect_all-append none_collected p.events (e ∷ [])

abbrev with_content : Bytes → Collected → Collected
with_content bytes c = record c { content = c.content ++ bytes }

content_eq :
    (c : Collected) (a b : Bytes)
    → a ≡ b
    → ◌≡◌ {A = Collected} (record c { content = a }) (record c { content = b })
content_eq c a b e = cc

collected-chunks :
    (fuel remaining : ℕ) (source : Bytes) (p : Progress)
    → remaining ≤ fuel
    → length source ≡ remaining
    → collected (emitted_chunks (chunks fuel remaining source) p)
      ≡ with_content source (collected p)
unfolding chunks
collected-chunks fuel zero [] p h e =
    content_eq (collected p) _ _ (sym (append-nil (collected p).content))
collected-chunks fuel zero (b ∷ bs) p h e = absurd (omega (arith, e))
collected-chunks zero (suc remaining) source p h e = absurd (omega arith)
collected-chunks (suc fuel) (suc remaining) source p h e =
    let size = min (suc remaining) chunk_bytes in
    let chunk = take size source in
    let rest = drop size source in
    collected-chunks fuel (suc remaining - size) rest (emitted (file_chunk_event chunk) p)
      (omega arith) (length-drop size source ∙ ap (λ n. n - size) e)
    ∙ (ap (with_content rest) (collected-emitted (file_chunk_event chunk) p)
        ∙ content_eq (collected p) _ _ (
            append_assoc (collected p).content chunk rest
            ∙ ap (λ z. (collected p).content ++ z) (take-append-drop size source)))

abbrev Each : (Progress → Type 0) → Replayed → Type 0
Each P (ok q) = P q
Each P (err k) = Unit

Each-bind :
    (P Q : Progress → Type 0) (x : Replayed) (f : Progress → Replayed)
    → Each P x
    → ((q : Progress) → P q → Each Q (f q))
    → Each Q (x >>= f)
Each-bind P Q (ok q) f h g = g q h
Each-bind P Q (err k) f h g = tt

abbrev Same : Progress → Progress → Type 0
Same p q = collected q ≡ collected p

enter-Same :
    (path : Bytes) (kind : EntryKind) (p : Progress) → Each (Same p) (replay_enter path kind p)
unfolding replay_enter
enter-Same path kind p = step (validate_path p.directories path kind)
  where
    step : (x : Result ErrorKind (List Bytes × List OpenDirectory)) → Each (Same p) (with_path p x)
    step (ok (closed, after)) =
        collect_all-append none_collected p.events (map close_event closed)
        ∙ collect_all-close (collected p) closed
    step (err k) = tt

count-Same :
    (note : ArtifactCounts → Result ErrorKind ArtifactCounts) (p : Progress)
    → Each (Same p) (replay_count note p)
count-Same note p = step (note p.counts)
  where
    step : (x : Result ErrorKind ArtifactCounts) → Each (Same p) (with_counts p x)
    step (ok counts) = refl
    step (err k) = tt

-- An entry as the reader has it: the writer keeps the permission bits of a mode only.
abbrev pub masked : Entry → Entry
masked (directory_of path mode) = directory_of path (mode % 512)
masked (file_of path mode size source) = file_of path (mode % 512) size source
masked (symlink_of path target) = symlink_of path target

abbrev Added : Entry → Progress → Progress → Type 0
Added e p q = (collected q).done ≡ (collected p).done ++ (masked e ∷ [])

abbrev done_of : Collected → List Entry
done_of c = c.done

replay_entry-Added : (e : Entry) (p : Progress) → IsWritable e → Each (Added e p) (replay_entry e p)
unfolding replay_entry
replay_entry-Added (directory_of path mode) p h =
    Each-bind (Same p) _ _ _ (enter-Same path directory_entry p) λ q s.
      Each-bind (Same q) _ _ _ (count-Same note_directory q) λ r t.
        ap done_of (collected-emitted (directory_event path (mode % 512)) r)
        ∙ ap (λ c. done_of c ++ (directory_of path (mode % 512) ∷ [])) (t ∙ s)
replay_entry-Added (file_of path mode size source) p (h, (e, l)) =
    Each-bind (Same p) _ _ _ (enter-Same path file_entry p) λ q s.
      Each-bind (Same q) _ _ _ (count-Same (note_file size) q) λ r t.
        let start = emitted (file_start_event path (mode % 512) size) r in
        let read =
          collected-chunks size size source start (omega arith) (sym e)
          ∙ ap (with_content source) (
              collected-emitted (file_start_event path (mode % 512) size) r
              ∙ ap (λ c. collect c (file_start_event path (mode % 512) size)) (t ∙ s)) in
        ap done_of
          (collected-emitted file_end_event (emitted_chunks (chunks size size source) start))
        ∙ ap (λ c. done_of (collect c file_end_event)) read
replay_entry-Added (symlink_of path target) p h =
    Each-bind (Same p) _ _ _ (enter-Same path symlink_entry p) λ q s.
      checked _ _ (validate_link_target path target) (
        Each-bind (Same q) _ _ _ (count-Same (note_symlink (length target)) q) λ r t.
          ap done_of (collected-emitted (symlink_event path target) r)
          ∙ ap (λ c. done_of c ++ (symlink_of path target ∷ [])) (t ∙ s))
  where
    checked :
        (P : Progress → Type 0) (y : Replayed) (c : Result ErrorKind (Unit {0}))
        → Each P y
        → Each P (c >> y)
    checked P y (ok _) h = h
    checked P y (err k) h = tt

replay-Added :
    (es : List Entry) (p : Progress)
    → All IsWritable es
    → Each (λ q. (collected q).done ≡ (collected p).done ++ map masked es) (replay es p)
unfolding replay
replay-Added [] p h = sym (append-nil (collected p).done)
replay-Added (e ∷ es) p (h, hs) = Each-bind (Added e p) _ _ _ (replay_entry-Added e p h) λ q s.
    Each-weaken _ _ (replay es q)
      (λ r t.
        t
        ∙ (ap (λ z. z ++ map masked es) s
            ∙ append_assoc (collected p).done (masked e ∷ []) (map masked es)))
      (replay-Added es q hs)
  where
    Each-weaken :
        (P Q : Progress → Type 0) (x : Replayed)
        → ((q : Progress) → P q → Q q)
        → Each P x
        → Each Q x
    Each-weaken P Q (ok q) f h = f q h
    Each-weaken P Q (err k) f h = tt

-- For a header and entries within the limits of the format and a MAC of 32 bytes: when the checks of
-- the entries pass, and the header is read and agrees with their counts, parse_bundle accepts the file
-- that the writer makes of them with that header, and from its calls of the sink come the same
-- entries in the same order, with the contents of the files and the permission bits of the modes.
pub parse_bundle-gives_back :
    (mac : Bytes → Bytes → Bytes) (parse_header : Bytes → Option BundleHeader) (key header : Bytes)
    (es : List Entry) (h : BundleHeader) (q : Progress)
    → ((k b : Bytes) → length (mac k b) ≡ 32)
    → length header ≤ header_limit
    → All IsWritable es
    → replay es nothing_read ≡ ok q
    → parse_header header ≡ some h
    → is_ok (validate_header h q.counts) ≡ true
    → (s : Session) × ((parse_bundle mac parse_header key (bundle_bytes mac key header es)
          ≡ ok (h, s))
        × (entries_of s.events ≡ map masked es))
unfolding entries_of
parse_bundle-gives_back mac parse_header key header es h q sized l w r p v = (
  _,
  (
    (parse_bundle-write_bundle mac parse_header key header es sized l w).1
        ∙ (ap (verdict parse_header (content_bytes header es) header) r
            ∙ (ap (judged parse_header (content_bytes header es) header q) p ∙ if-true _ _ v)),
    ap done_of (
          collect_all-append none_collected q.events (map close_event (close_all q.directories))
          ∙ collect_all-close (collected q) (close_all q.directories))
        ∙ subst (Each (λ q. (collected q).done ≡ map masked es)) r (replay-Added es nothing_read w),
  ),
)
