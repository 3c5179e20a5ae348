-- ===== src/Bundle/Parse/Sound.antt =====
-- The invariant of a parse: the bytes seen and to come, the counts, the open directories, the fuel.
use quarters.Prelude.{
  ℕ, ◌+◌, ◌<◌, ◌≡◌, ap, ◌∙◌, ◌≢◌, List, ◌++◌, map, arith, ltb, if-split, length, take, drop,
  length-drop, take-append-drop, append_assoc, Bytes, nat_eq, bytes_eq, Result, ok, err,
}
use quarters.Error.{ErrorKind}
use quarters.Bundle.Paths.{split_slash, EntryKind, OpenDirectory, validate_path}
use quarters.Bundle.Counts.{ArtifactCounts, note, IsBounded, note-Noted, Noted}
use quarters.Bundle.Order.Stack.{Stacked}
use quarters.Bundle.Order.Canonical.{validate_path_lem, Enters}
use quarters.Bundle.Parse.{
  ParseError, failed, out_of_fuel, Event, close_event, Session, Parse, ◌>>=◌, done_with, lifted,
  emit, read_bytes, entered, counted,
}

pub record Good (input : Bytes) (s : Session) : Type 0 where
  pub bytes : s.seen ++ s.rest ≡ input
  pub bounded : IsBounded s.counts
  pub last : List Bytes
  pub stacked : Stacked s.directories last

-- Good, with fewer than `m` bytes to come.
abbrev pub Short : Bytes → ℕ → Session → Type 0
Short input m s = Good input s × (length s.rest < m)

abbrev pub Outcome :
    {A : Type 0} → (A → Session → Type 0) → Result ParseError (A × Session) → Type 0
Outcome Q (ok (a, s)) = Q a s
Outcome Q (err e) = e ≢ out_of_fuel

pub record Parses {A : Type 0} (P : Session → Type 0) (m : Parse A) (Q : A → Session → Type 0)
    : Type 0 where
  pub at : (s : Session) → P s → Outcome Q (m s)

pub Parses-bind :
    {A B : Type 0} {P : Session → Type 0} {Q : A → Session → Type 0} {R : B → Session → Type 0}
    (m : Parse A) (f : A → Parse B)
    → Parses P m Q
    → ((a : A) → Parses (Q a) (f a) R)
    → Parses P (m >>= f) R
unfolding ◌>>=◌
Parses-bind {A} {B} {P} {Q} {R} m f pm pf = record { at = λ s p. step (m s) (pm.at s p) }
  where
    step :
        (x : Result ParseError (A × Session))
        → Outcome Q x
        → Outcome R (elim x [ ok (a, after) ↦ f a after | err e ↦ err e ])
    step (ok (a, after)) q = (pf a).at after q
    step (err e) q = q

pub Parses-done :
    {A : Type 0} {P : Session → Type 0} {Q : A → Session → Type 0} (a : A)
    → ((s : Session) → P s → Q a s)
    → Parses P (done_with a) Q
Parses-done a h = record { at = λ s p. h s p }

pub Parses-weaken :
    {A : Type 0} {P P' : Session → Type 0} {Q : A → Session → Type 0} {m : Parse A}
    → ((s : Session) → P' s → P s)
    → Parses P m Q
    → Parses P' m Q
Parses-weaken h t = record { at = λ s p. t.at s (h s p) }

pub Parses-follow :
    {A : Type 0} {P : Session → Type 0} {Q Q' : A → Session → Type 0} {m : Parse A}
    → ((a : A) (s : Session) → Q a s → Q' a s)
    → Parses P m Q
    → Parses P m Q'
Parses-follow {A} {P} {Q} {Q'} {m} h t = record { at = λ s p. step (m s) (t.at s p) }
  where
    step : (x : Result ParseError (A × Session)) → Outcome Q x → Outcome Q' x
    step (ok (a, s)) q = h a s q
    step (err e) q = q

module _ (input : Bytes) (m : ℕ) where
  abbrev S : Session → Type 0
  S = Short input m

  pub emit-Parses : (event : Event) → Parses S (emit event) (λ _. S)
  emit-Parses event = record {
    at = λ s (g, l).
        (record { bytes = g.bytes; bounded = g.bounded; last = g.last; stacked = g.stacked }, l);
  }

  pub lifted-Parses : {A : Type 0} (r : Result ErrorKind A) → Parses S (lifted r) (λ _. S)
  lifted-Parses (ok a) = record { at = λ s p. p }
  lifted-Parses (err k) = record { at = λ s p. λ e. cc }

  pub read_exactly :
      (k : ℕ) → Parses S (read_bytes k) (λ _ s. Good input s × (length s.rest + k < m))
  unfolding read_bytes
  read_exactly k = record { at = λ s (g, l). taken s g l }
    where
      taken :
          (s : Session)
          → Good input s
          → length s.rest < m
          → Outcome (λ _ s. Good input s × (length s.rest + k < m)) (read_bytes k s)
      taken s g l =
          if-split (Outcome (λ _ s. Good input s × (length s.rest + k < m))) (ltb (length s.rest) k)
            (λ b. λ e. cc)
            (λ b. (
              record {
                bytes =
                    append_assoc s.seen (take k s.rest) (drop k s.rest)
                    ∙ (ap (λ z. s.seen ++ z) (take-append-drop k s.rest) ∙ g.bytes);
                bounded = g.bounded;
                last = g.last;
                stacked = g.stacked;
              },
              ground (arith, b, length-drop k s.rest),
            ))

  pub read_bytes-Parses : (k : ℕ) → Parses S (read_bytes k) (λ _. S)
  read_bytes-Parses k = Parses-follow (λ a s (g, l). (g, omega arith)) (read_exactly k)

  pub entered-Parses : (path : Bytes) (kind : EntryKind) → Parses S (entered path kind) (λ _. S)
  unfolding entered
  entered-Parses path kind = record {
    at = λ s (g, l).
        step s g l g.last (validate_path s.directories path kind)
          (validate_path_lem s.directories g.last path kind g.stacked);
  }
    where
      step :
          (s : Session)
          → Good input s
          → length s.rest < m
          → (last : List Bytes) (r : Result ErrorKind (List Bytes × List OpenDirectory))
          → Enters s.directories last path r
          → Outcome
              (λ _. S)
              (elim r [
                | ok (closed, after) ↦ ok (
                  tt,
                  record s { directories = after; events = s.events ++ map close_event closed },
                )
                | err k ↦ err (failed k)
              ])
      step s g l last (err k) e = λ e. cc
      step s g l last (ok (closed, after)) (lt, st) = (
        record { bytes = g.bytes; bounded = g.bounded; last = split_slash path; stacked = st },
        l,
      )

  pub counted-Parses : (kind : EntryKind) (size : ℕ) → Parses S (counted (note kind size)) (λ _. S)
  unfolding counted
  counted-Parses kind size = record {
    at = λ s (g, l). step s g l (note kind size s.counts) (note-Noted kind size s.counts g.bounded);
  }
    where
      step :
          (s : Session)
          → Good input s
          → length s.rest < m
          → (r : Result ErrorKind ArtifactCounts) → Noted kind size s.counts r
          → Outcome
              (λ _. S)
              (elim r [
                | ok counts ↦ ok (tt, record s { counts = counts })
                | err k ↦ err (failed k)
              ])
      step s g l (err k) e = λ e. cc
      step s g l (ok counts) (bounded, _) =
          (record { bytes = g.bytes; bounded = bounded; last = g.last; stacked = g.stacked }, l)
