-- ===== src/Bundle/Writer/Reads.antt =====
-- What a reader makes of given bytes, whatever follows them.
use quarters.Prelude.{
  ℕ, zero, suc, ◌+◌, ◌*◌, ◌/◌, ◌%◌, ◌<◌, ◌≡◌, refl, sym, ap, ◌∙◌, subst, false, List, [], ◌∷◌, ◌++◌,
  map, arith, ltb, if-false, length, length-append, take-append_length, drop-append_length,
  append_assoc, append-nil, Bytes, nat_eq, bytes_eq, Result, ok, err,
}
use quarters.Error.{ErrorKind}
use quarters.Bundle.Paths.{EntryKind, OpenDirectory, validate_path}
use quarters.Bundle.Counts.{ArtifactCounts}
use quarters.Bundle.Parse.{
  ParseError, failed, Event, close_event, Session, Parse, ◌>>=◌, ◌>>◌, done_with, lifted, emit,
  read_bytes, from_be_bytes, read_number, entered, counted,
}
use quarters.Bundle.Writer.{to_be_bytes}
use quarters.Bundle.Writer.Replay.{
  Progress, Replayed, emitted, with_path, replay_enter, with_counts, replay_count,
}

abbrev pub session : Bytes → Bytes → Progress → Session
session rest seen p = record {
  rest = rest;
  seen = seen;
  counts = p.counts;
  directories = p.directories;
  events = p.events;
}

abbrev pub reached :
    {A : Type 0} → Bytes → Bytes → Result ErrorKind (A × Progress) → Result ParseError (A × Session)
reached rest seen (ok (a, p)) = ok (a, session rest seen p)
reached rest seen (err k) = err (failed k)

-- From `p`, the reader `m` takes exactly the bytes `printed`, and comes to `r`.
pub record Reads {A : Type 0} (m : Parse A) (printed : Bytes) (p : Progress)
    (r : Result ErrorKind (A × Progress)) : Type 0 where
  pub at :
      (tail seen : Bytes) → m (session (printed ++ tail) seen p) ≡ reached tail (seen ++ printed) r

abbrev pub and_so :
    {A B : Type 0}
    → Result ErrorKind (A × Progress)
    → (A → Progress → Result ErrorKind (B × Progress))
    → Result ErrorKind (B × Progress)
and_so (ok (a, p)) g = g a p
and_so (err k) g = err k

pub Reads-bind :
    {A B : Type 0} {m : Parse A} {f : A → Parse B} {front back : Bytes} {p : Progress}
    {r : Result ErrorKind (A × Progress)} {g : A → Progress → Result ErrorKind (B × Progress)}
    → Reads m front p r
    → ((a : A) (q : Progress) → Reads (f a) back q (g a q))
    → Reads (m >>= f) (front ++ back) p (and_so r g)
unfolding ◌>>=◌
Reads-bind {A} {B} {m} {f} {front} {back} {p} {r} {g} first next = record {
  at = λ tail seen.
      ap (λ z. (m >>= f) (session z seen p)) (append_assoc front back tail)
      ∙ (ap (λ x. elim x [ ok (a, after) ↦ f a after | err e ↦ err e ])
            (first.at (back ++ tail) seen)
          ∙ step tail seen r);
}
  where
    step :
        (tail seen : Bytes) (r : Result ErrorKind (A × Progress))
        → elim (reached (back ++ tail) (seen ++ front) r) [
          | ok (a, after) ↦ f a after
          | err e ↦ err e
        ]
          ≡ reached tail (seen ++ (front ++ back)) (and_so r g)
    step tail seen (ok (a, q)) =
        (next a q).at tail (seen ++ front)
        ∙ ap (λ z. reached tail z (g a q)) (append_assoc seen front back)
    step tail seen (err k) = refl

pub Reads-then :
    {A B : Type 0} {m : Parse A} {front back : Bytes} {p q : Progress} {a : A}
    {r : Result ErrorKind (B × Progress)} (f : A → Parse B)
    → Reads m front p (ok (a, q))
    → Reads (f a) back q r
    → Reads (m >>= f) (front ++ back) p r
unfolding ◌>>=◌
Reads-then {A} {B} {m} {front} {back} {p} {q} {a} {r} f first next = record {
  at = λ tail seen.
      ap (λ z. (m >>= f) (session z seen p)) (append_assoc front back tail)
      ∙ (ap (λ x. elim x [ ok (a, after) ↦ f a after | err e ↦ err e ])
            (first.at (back ++ tail) seen)
          ∙ (next.at tail (seen ++ front)
              ∙ ap (λ z. reached tail z r) (append_assoc seen front back)));
}

-- `m >> k`.
pub Reads-next :
    {B : Type 0} {m : Parse (Unit {0})} {front back : Bytes} {p q : Progress}
    {r : Result ErrorKind (B × Progress)} (k : Parse B)
    → Reads m front p (ok (tt, q))
    → Reads k back q r
    → Reads (m >> k) (front ++ back) p r
Reads-next k first next = Reads-then (λ _. k) first next

pub Reads-as :
    {A : Type 0} {m : Parse A} {front back : Bytes} {p : Progress}
    {r r' : Result ErrorKind (A × Progress)}
    → front ≡ back
    → r ≡ r'
    → Reads m front p r
    → Reads m back p r'
Reads-as {A} {m} {front} {back} {p} {r} {r'} e h t =
    subst (λ b. Reads m b p r') e (subst (λ x. Reads m front p x) h t)

-- A step that takes no bytes.
pub Reads-nothing :
    {A : Type 0} {m : Parse A} {p : Progress} {r : Result ErrorKind (A × Progress)}
    → ((tail seen : Bytes) → m (session tail seen p) ≡ reached tail seen r)
    → Reads m [] p r
Reads-nothing {A} {m} {p} {r} h = record {
  at = λ tail seen. h tail seen ∙ ap (λ z. reached tail z r) (sym (append-nil seen));
}

pub done-Reads : {A : Type 0} (a : A) (p : Progress) → Reads (done_with a) [] p (ok (a, p))
done-Reads a p = Reads-nothing (λ tail seen. refl)

pub emit-Reads : (event : Event) (p : Progress) → Reads (emit event) [] p (ok (tt, emitted event p))
emit-Reads event p = Reads-nothing (λ tail seen. refl)

abbrev pub staying : {A : Type 0} → Progress → Result ErrorKind A → Result ErrorKind (A × Progress)
staying p (ok a) = ok (a, p)
staying p (err k) = err k

pub lifted-Reads :
    {A : Type 0} (x : Result ErrorKind A) (p : Progress) → Reads (lifted x) [] p (staying p x)
lifted-Reads (ok a) p = Reads-nothing (λ tail seen. refl)
lifted-Reads (err k) p = Reads-nothing (λ tail seen. refl)

abbrev pub passed : Replayed → Result ErrorKind (Unit {0} × Progress)
passed (ok p) = ok (tt, p)
passed (err k) = err k

pub entered-Reads :
    (path : Bytes) (kind : EntryKind) (p : Progress)
    → Reads (entered path kind) [] p (passed (replay_enter path kind p))
unfolding entered replay_enter
entered-Reads path kind p =
    Reads-nothing λ tail seen. step tail seen (validate_path p.directories path kind)
  where
    step :
        (tail seen : Bytes) (x : Result ErrorKind (List Bytes × List OpenDirectory))
        → elim x [
          | ok (closed, after) ↦ ok (
            tt,
            record (session tail seen p) {
              directories = after;
              events = p.events ++ map close_event closed;
            },
          )
          | err k ↦ err (failed k)
        ]
          ≡ reached tail seen (passed (with_path p x))
    step tail seen (ok (closed, after)) = refl
    step tail seen (err k) = refl

pub counted-Reads :
    (note : ArtifactCounts → Result ErrorKind ArtifactCounts) (p : Progress)
    → Reads (counted note) [] p (passed (replay_count note p))
unfolding counted
counted-Reads note p = Reads-nothing λ tail seen. step tail seen (note p.counts)
  where
    step :
        (tail seen : Bytes) (x : Result ErrorKind ArtifactCounts)
        → elim x [
          | ok counts ↦ ok (tt, record (session tail seen p) { counts = counts })
          | err k ↦ err (failed k)
        ]
          ≡ reached tail seen (passed (with_counts p x))
    step tail seen (ok counts) = refl
    step tail seen (err k) = refl

pub read_bytes-Reads :
    (n : ℕ) (bytes : Bytes) (p : Progress)
    → length bytes ≡ n
    → Reads (read_bytes n) bytes p (ok (bytes, p))
unfolding read_bytes
read_bytes-Reads n bytes p e = record {
  at = λ tail seen.
      subst
        (λ n.
          read_bytes n (session (bytes ++ tail) seen p)
          ≡ reached tail (seen ++ bytes) (ok (bytes, p)))
        e
        (if-false _ _ (enough tail)
          ∙ rw (take-append_length bytes tail, drop-append_length bytes tail) refl);
}
  where
    enough : (tail : Bytes) → ltb (length (bytes ++ tail)) (length bytes) ≡ false
    enough tail = ground (arith, length-append bytes tail)

-- The least number that `width` bytes do not hold.
abbrev pub number_limit : ℕ → ℕ
number_limit zero = 1
number_limit (suc width) = 256 * number_limit width

from_be_bytes-append :
    (acc b : ℕ) (bytes : Bytes)
    → from_be_bytes acc (bytes ++ (b ∷ [])) ≡ 256 * from_be_bytes acc bytes + b
from_be_bytes-append acc b [] = refl
from_be_bytes-append acc b (x ∷ xs) = from_be_bytes-append (256 * acc + x) b xs

pub from_be_bytes-to_be_bytes :
    (width n : ℕ) → n < number_limit width → from_be_bytes 0 (to_be_bytes width n) ≡ n
from_be_bytes-to_be_bytes zero n h = omega arith
from_be_bytes-to_be_bytes (suc width) n h =
    from_be_bytes-append 0 (n % 256) (to_be_bytes width (n / 256))
    ∙ omega (arith, from_be_bytes-to_be_bytes width (n / 256) (omega arith))

length-to_be_bytes : (width n : ℕ) → length (to_be_bytes width n) ≡ width
length-to_be_bytes zero n = refl
length-to_be_bytes (suc width) n = omega (
  arith,
  length-append (to_be_bytes width (n / 256)) (n % 256 ∷ []),
  length-to_be_bytes width (n / 256),
)

pub read_number-Reads :
    (width n : ℕ) (p : Progress)
    → n < number_limit width
    → Reads (read_number width) (to_be_bytes width n) p (ok (n, p))
unfolding read_number
read_number-Reads width n p h =
    Reads-as (append-nil (to_be_bytes width n))
      (ap (λ x. ok (x, p)) (from_be_bytes-to_be_bytes width n h))
      (Reads-then _ (read_bytes-Reads width (to_be_bytes width n) p (length-to_be_bytes width n))
        (done-Reads _ p))
