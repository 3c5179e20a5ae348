-- ===== src/Bundle/Writer/RoundTrip.antt =====
-- The reader on the file of a writer.
use quarters.Prelude.{
  ℕ, ◌≤◌, ◌≡◌, refl, sym, ap, ◌∙◌, true, false, not, Option, none, some, List, [], ◌∷◌, ◌++◌, map,
  arith, ltb, if◌then◌else◌, u32_max, if-false, length, take, All, append_assoc, take_all, ◌==◌,
  Bytes, bytes_beq_iff, nat_eq, bytes_eq, Result, ok, err, ◌>>=◌, is_ok,
}
use quarters.Error.{corrupt_state}
use quarters.Bundle.Paths.{close_all, root_directory}
use quarters.Bundle.Header.{BundleHeader, validate_header}
use quarters.Bundle.Parse.{
  ParseError, failed, close_event, Session, header_limit, magic, check_header, check_tag,
  parse_bundle,
}
use quarters.Bundle.Writer.{
  to_be_bytes, Writer, no_bytes, authenticated, begin, finish, Entry, write_entries, write_bundle,
}
use quarters.Bundle.Writer.Printed.{entries_bytes, IsWritable, write_entries-printed}
use quarters.Bundle.Writer.Replay.{Progress, Replayed, nothing_read, replay}
use quarters.Bundle.Writer.Reads.{session, reached, and_so, passed}
use quarters.Bundle.Writer.ReadsContent.{content_bytes, parse_content-Reads}

begun : Bytes → Writer
begun header =
    authenticated header
      (authenticated (to_be_bytes 4 (length header)) (authenticated magic no_bytes))

begin-begun : (header : Bytes) → length header ≤ header_limit → begin header ≡ ok (begun header)
unfolding begin begun
begin-begun header l = rw (in_limit, in_u32) refl
  where
    in_limit : ltb header_limit (length header) ≡ false
    in_limit = ground (arith, l)

    in_u32 : ltb u32_max (length header) ≡ false
    in_u32 = ground (arith, l)

regrouped : (a b c d e : Bytes) → (((a ++ b) ++ c) ++ d) ++ e ≡ a ++ ((b ++ c) ++ (d ++ e))
regrouped a b c d e =
    append_assoc ((a ++ b) ++ c) d e
    ∙ (ap (λ z. z ++ (d ++ e)) (append_assoc a b c) ∙ append_assoc a (b ++ c) (d ++ e))

-- The file of a bundle.
abbrev pub bundle_bytes : (Bytes → Bytes → Bytes) → Bytes → Bytes → List Entry → Bytes
bundle_bytes mac key header es = content_bytes header es ++ mac key (content_bytes header es)

finish-bundle_bytes :
    (mac : Bytes → Bytes → Bytes) (key header : Bytes) (es : List Entry) (after : Writer)
    → after.file ≡ (begun header).file ++ entries_bytes es
    → after.mac ≡ (begun header).mac ++ entries_bytes es
    → finish mac key after ≡ bundle_bytes mac key header es
unfolding finish begun authenticated content_bytes
finish-bundle_bytes mac key header es after f m =
    let whole =
      regrouped magic (to_be_bytes 4 (length header)) header (entries_bytes es) (0 ∷ []) in
    ap (λ z. (z ++ (0 ∷ [])) ++ mac key (after.mac ++ (0 ∷ []))) f
    ∙ (ap (λ z. z ++ mac key (after.mac ++ (0 ∷ []))) whole
        ∙ ap (λ z. content_bytes header es ++ mac key z) (ap (λ z. z ++ (0 ∷ [])) m ∙ whole))

write_bundle-bundle_bytes :
    (mac : Bytes → Bytes → Bytes) (key header : Bytes) (es : List Entry)
    → length header ≤ header_limit
    → All IsWritable es
    → write_bundle mac key header es ≡ ok (bundle_bytes mac key header es)
unfolding write_bundle
write_bundle-bundle_bytes mac key header es l h =
    let (after, (r, (f, m))) = write_entries-printed es (begun header) h in
    ap (λ x. x >>= λ w. write_entries es w >>= λ ended. ok (finish mac key ended))
      (begin-begun header l)
    ∙ (ap (λ x. x >>= λ ended. ok (finish mac key ended)) r
        ∙ ap ok (finish-bundle_bytes mac key header es after f m))

-- What the reader has to say of a header, the bytes before the tag, and the replay of the entries.
module _ (parse_header : Bytes → Option BundleHeader) (content header : Bytes) where
  abbrev pub judged : Progress → Option BundleHeader → Result ParseError (BundleHeader × Session)
  judged q none = err (failed corrupt_state)
  judged q (some h) =
      if is_ok (validate_header h q.counts)
      then ok (
        h,
        record {
          rest = [];
          seen = content;
          counts = q.counts;
          directories = root_directory ∷ [];
          events = q.events ++ map close_event (close_all q.directories);
        },
      )
      else err (failed corrupt_state)

  abbrev pub verdict : Replayed → Result ParseError (BundleHeader × Session)
  verdict (err k) = err (failed k)
  verdict (ok q) = judged q (parse_header header)

module _ (mac : Bytes → Bytes → Bytes) (parse_header : Bytes → Option BundleHeader)
    (key content header : Bytes) (q : Progress) where
  header_judged :
      (tag : Bytes) (o : Option BundleHeader)
      → check_header mac parse_header (take 32 tag) (session tag content q) o
        ≡ judged parse_header content header q o
  header_judged tag none = refl
  header_judged tag (some h) = refl

  tag_passes :
      length (mac key content) ≡ 32
      → check_tag mac parse_header key header (session (mac key content) content q)
        ≡ verdict parse_header content header (ok q)
  tag_passes l =
      if-false _ _ (not_short (length tag) l)
      ∙ (if-false _ _ (ap not same)
          ∙ (if-false _ _ (not_long (length tag) l) ∙ header_judged tag (parse_header header)))
    where
      tag : Bytes
      tag = mac key content

      not_short : (n : ℕ) → n ≡ 32 → ltb n 32 ≡ false
      not_short n e = ground (arith, e)

      not_long : (n : ℕ) → n ≡ 32 → ltb 32 n ≡ false
      not_long n e = ground (arith, e)

      same : (tag == take 32 tag) ≡ true
      same = (bytes_beq_iff tag (take 32 tag)).1 (sym (ap (λ n. take n tag) (sym l) ∙ take_all tag))

-- The reader refines the replay: for a header and entries within the limits of the format, and a MAC
-- of 32 bytes, the writer makes a file, and on that file parse_bundle gives what the replay of the
-- entries gives: its error, or else, by the header's own checks against the counts, the header with
-- the counts and the calls of the replay, every directory closed at the end.
pub parse_bundle-write_bundle :
    (mac : Bytes → Bytes → Bytes) (parse_header : Bytes → Option BundleHeader) (key header : Bytes)
    (es : List Entry)
    → ((k b : Bytes) → length (mac k b) ≡ 32)
    → length header ≤ header_limit
    → All IsWritable es
    → (write_bundle mac key header es ≡ ok (bundle_bytes mac key header es))
      × (parse_bundle mac parse_header key (bundle_bytes mac key header es)
          ≡ verdict parse_header (content_bytes header es) header (replay es nothing_read))
unfolding parse_bundle
parse_bundle-write_bundle mac parse_header key header es sized l h = (
  write_bundle-bundle_bytes mac key header es l h,
  ap (λ x. elim x [ ok (found, s) ↦ check_tag mac parse_header key found s | err e ↦ err e ])
        ((parse_content-Reads header es nothing_read l h).at (mac key content) [])
      ∙ judge (replay es nothing_read),
)
  where
    content : Bytes
    content = content_bytes header es

    judge :
        (x : Replayed)
        → elim (reached (mac key content) content (and_so (passed x) (λ _ q. ok (header, q)))) [
          | ok (found, s) ↦ check_tag mac parse_header key found s
          | err e ↦ err e
        ]
          ≡ verdict parse_header content header x
    judge (err k) = refl
    judge (ok q) = tag_passes mac parse_header key content header q (sized key content)
