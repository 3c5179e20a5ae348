-- ===== src/Bundle/Parse/Authentic.antt =====
-- What the bytes of an accepted bundle are.
use quarters.Prelude.{
  ℕ, ◌+◌, ◌≡◌, refl, sym, ap, ◌∙◌, ◌≢◌, true, not, Option, none, some, [], ◌++◌, arith, ltb,
  if-split, length, take, take_all, ◌==◌, Bytes, bytes_beq_iff, nat_eq, bytes_eq, Result, ok, err,
  reject_if, is_ok,
}
use quarters.Error.{corrupt_state, resource_limit}
use quarters.Bundle.Counts.{ArtifactCounts, IsBounded}
use quarters.Bundle.Parse.{
  ParseError, out_of_fuel, Session, header_limit, parse_entries, magic, parse_content, start,
  check_header, check_tag, parse_bundle,
}
use quarters.Bundle.Parse.Sound.{
  Good, Short, Outcome, Parses, Parses-bind, Parses-done, lifted-Parses, read_bytes-Parses,
}
use quarters.Bundle.Parse.Entries.{read_number-Parses, parse_entries-Parses}
use quarters.Bundle.Header.{BundleHeader, validate_header, counts_beq}

content-Parses : (input : Bytes) (m : ℕ) → Parses (Short input m) parse_content (λ _. Good input)
unfolding parse_content
content-Parses input m = Parses-bind _ _ (read_bytes-Parses input m 16) λ found.
    Parses-bind _ _ (lifted-Parses input m (reject_if (not (found == magic)) corrupt_state)) λ _.
      Parses-bind _ _ (read_number-Parses input m 4) λ size.
        Parses-bind _ _ (lifted-Parses input m (reject_if (ltb header_limit size) resource_limit))
          λ _.
            Parses-bind _ _ (read_bytes-Parses input m size)
              λ header. Parses-bind _ _ entries λ _. Parses-done header (λ s g. g)
  where
    entries : Parses (Short input m) (λ s. parse_entries (length s.rest + 1) s) (λ _. Good input)
    entries = record {
      at = λ s (g, l). (parse_entries-Parses input (length s.rest + 1)).at s (g, omega arith);
    }

-- What an accepted bundle is: the bytes that the MAC has seen with their tag behind them and nothing
-- else, a header whose counts are those of the entries, and counts within the limits.
abbrev pub Authentic :
    (Bytes → Bytes → Bytes) → Bytes → Bytes → Result ParseError (BundleHeader × Session) → Type 0
Authentic mac key input (ok (header, s)) =
    (input ≡ s.seen ++ mac key s.seen)
    × ((length (mac key s.seen) ≡ 32)
        × ((header.content_integrity.counts ≡ s.counts) × IsBounded s.counts))
Authentic mac key input (err e) = e ≢ out_of_fuel

counts_beq-≡ : (a b : ArtifactCounts) → counts_beq a b ≡ true → a ≡ b
counts_beq-≡ a b h = ground (arith, h)

validate_header-counts :
    (header : BundleHeader) (counts : ArtifactCounts)
    → is_ok (validate_header header counts) ≡ true
    → counts_beq header.content_integrity.counts counts ≡ true
unfolding validate_header
validate_header-counts header counts h = ground (arith, h)

module _ (mac : Bytes → Bytes → Bytes) (parse_header : Bytes → Option BundleHeader)
    (key input : Bytes) where
  header_checked :
      (s : Session) (o : Option BundleHeader)
      → Good input s
      → (mac key s.seen ≡ s.rest) × (length s.rest ≡ 32)
      → Authentic mac key input (check_header mac parse_header (take 32 s.rest) s o)
  header_checked s none g t = λ e. cc
  header_checked s (some header) g (t, l) =
      if-split (Authentic mac key input) (is_ok (validate_header header s.counts))
        (λ v. (
          sym g.bytes ∙ ap (λ z. s.seen ++ z) (sym t),
          (
            ap length t ∙ l,
            (counts_beq-≡ _ _ (validate_header-counts header s.counts v), g.bounded),
          ),
        ))
        (λ v. λ e. cc)

  tag_checked :
      (header : Bytes) (s : Session)
      → Good input s
      → Authentic mac key input (check_tag mac parse_header key header s)
  tag_checked header s g =
      if-split (Authentic mac key input) (ltb (length s.rest) 32) (λ a. λ e. cc)
        (λ a.
          if-split (Authentic mac key input) (not (mac key s.seen == take 32 s.rest)) (λ b. λ e. cc)
            (λ b.
              if-split (Authentic mac key input) (ltb 32 (length s.rest)) (λ c. λ e. cc)
                (λ c.
                  let whole : length s.rest ≡ 32 = ground (arith, a, c) in
                  let same : mac key s.seen ≡ take 32 s.rest =
                    ground (arith, b, bytes_beq_iff (mac key s.seen) (take 32 s.rest)) in
                  header_checked s (parse_header header) g
                    (same ∙ (ap (λ n. take n s.rest) (sym whole) ∙ take_all s.rest), whole))))

  content_checked :
      (r : Result ParseError (Bytes × Session))
      → Outcome (λ _. Good input) r
      → Authentic mac key input
          (elim r [ ok (header, s) ↦ check_tag mac parse_header key header s | err e ↦ err e ])
  content_checked (ok (header, s)) g = tag_checked header s g
  content_checked (err e) n = n

start-Good : (input : Bytes) → Good input (start input)
start-Good input = record {
  bytes = refl;
  bounded = record { sum = refl; entries_limit = omega arith; bytes_limit = omega arith };
  last = [];
  stacked = (tt, refl);
}

-- parse_bundle either refuses a file, and then not for want of fuel, or the file is the bytes under
-- the MAC with their 32-byte tag behind them and nothing else, the header that comes out carries
-- the counts of the entries, and those are consistent and within the limits.
pub parse_bundle-Authentic :
    (mac : Bytes → Bytes → Bytes) (parse_header : Bytes → Option BundleHeader) (key input : Bytes)
    → Authentic mac key input (parse_bundle mac parse_header key input)
unfolding parse_bundle
parse_bundle-Authentic mac parse_header key input =
    content_checked mac parse_header key input (parse_content (start input))
      ((content-Parses input (length input + 1)).at (start input) (start-Good input, omega arith))
