-- ===== src/Presentation/Bounded.antt =====
-- The bounds of an escaped text.
use quarters.Prelude.{
  ℕ, zero, suc, ◌+◌, ◌-◌, ◌≤◌, ◌<◌, ◌≡◌, refl, Bool, true, false, [], ◌∷◌, ◌++◌, arith, ltb, leb,
  leb→le, u64_max, saturating_add, &&-true, if-split, length, take, all, length-append, length-take,
  all-append, nat_eq, bytes_eq,
}
use quarters.Presentation.{
  Chars, unsafe_presentation_character, is_safe, escape_untrusted_text,
  escape_untrusted_text_bounded, dots, len_utf8, byte_length, push_within,
  escape_untrusted_text_bounded_bytes,
}
use quarters.Presentation.Escape.{escape_untrusted_text-IsSafe}

pub all-take : (p : ℕ → Bool) (n : ℕ) (cs : Chars) → all p cs ≡ true → all p (take n cs) ≡ true
all-take p zero cs h = refl
all-take p (suc n) [] h = refl
all-take p (suc n) (c ∷ cs) h = ground (arith, h, all-take p n cs)

with_dots : (cs : Chars) → all is_safe cs ≡ true → all is_safe (cs ++ dots) ≡ true
unfolding unsafe_presentation_character
with_dots cs h = rw (all-append is_safe cs dots, h) refl

without_dots : (cs : Chars) → all is_safe cs ≡ true → all is_safe (cs ++ []) ≡ true
without_dots cs h = rw (all-append is_safe cs [], h) refl

-- A text of safe characters, of at most `maximum` by the measure `size`.
abbrev pub Fits : (Chars → ℕ) → ℕ → Chars → Type 0
Fits size maximum text = (size text ≤ maximum) × (all is_safe text ≡ true)

-- The escaped text has at most `maximum` characters, and none of them is unsafe.
pub escape_untrusted_text_bounded-Fits :
    (v : Chars) (maximum : ℕ) → Fits length maximum (escape_untrusted_text_bounded v maximum)
unfolding escape_untrusted_text_bounded
escape_untrusted_text_bounded-Fits v maximum =
    let escaped = escape_untrusted_text v in
    let safe : all is_safe escaped ≡ true = (escape_untrusted_text-IsSafe v).0 in
    if-split (Fits length maximum) (leb (length escaped) maximum) (λ l. (leb→le _ _ l, safe))
      (λ l.
        if-split (Fits length maximum) (leb maximum 3)
          (λ s. (omega (arith, length-take maximum escaped), all-take is_safe maximum escaped safe))
          (λ s. (
            ground (
              arith,
              s,
              length-take (maximum - 3) escaped,
              length-append (take (maximum - 3) escaped) dots,
            ),
            with_dots (take (maximum - 3) escaped) (all-take is_safe (maximum - 3) escaped safe),
          )))

byte_length-append : (a b : Chars) → byte_length (a ++ b) ≡ byte_length a + byte_length b
byte_length-append [] b = omega arith
byte_length-append (c ∷ cs) b = omega (arith, byte_length-append cs b)

push_within-all :
    (budget used : ℕ) (cs : Chars)
    → all is_safe cs ≡ true
    → all is_safe (push_within budget used cs) ≡ true
push_within-all budget used [] h = refl
push_within-all budget used (c ∷ cs) h =
    let (hc, hs) = &&-true (is_safe c) (all is_safe cs) h in
    if-split (λ z. all is_safe z ≡ true) (ltb budget (saturating_add used (len_utf8 c))) (λ l. refl)
      (λ l. rw (hc, push_within-all budget (used + len_utf8 c) cs hs) refl)

fits_next :
    (budget used n : ℕ)
    → budget < u64_max
    → ltb budget (saturating_add used n) ≡ false
    → used + n ≤ budget
fits_next budget used n h l = ground (arith, l)

push_within-fits :
    (budget used : ℕ) (cs : Chars)
    → used ≤ budget
    → budget < u64_max
    → used + byte_length (push_within budget used cs) ≤ budget
push_within-fits budget used [] h b = omega arith
push_within-fits budget used (c ∷ cs) h b =
    if-split (λ z. used + byte_length z ≤ budget) (ltb budget (saturating_add used (len_utf8 c)))
      (λ l. omega arith)
      (λ l. omega (
        arith,
        push_within-fits budget (used + len_utf8 c) cs (fits_next budget used (len_utf8 c) b l) b,
      ))

-- For a maximum that a usize can hold, the escaped text takes at most `maximum` bytes of UTF-8, and
-- none of its characters is unsafe.
pub escape_untrusted_text_bounded_bytes-Fits :
    (v : Chars) (maximum : ℕ)
    → maximum ≤ u64_max
    → Fits byte_length maximum (escape_untrusted_text_bounded_bytes v maximum)
unfolding escape_untrusted_text_bounded_bytes
escape_untrusted_text_bounded_bytes-Fits v maximum h =
    let escaped = escape_untrusted_text v in
    let safe : all is_safe escaped ≡ true = (escape_untrusted_text-IsSafe v).0 in
    if-split (Fits byte_length maximum) (leb (byte_length escaped) maximum)
      (λ l. (leb→le _ _ l, safe))
      (λ l.
        if-split
          (λ s. Fits byte_length maximum (push_within (maximum - byte_length s) 0 escaped ++ s))
          (leb 3 maximum)
          (λ s. (
            ground (
              arith,
              s,
              h,
              push_within-fits (maximum - 3) 0 escaped (omega arith) (ground (arith, s, h)),
              byte_length-append (push_within (maximum - 3) 0 escaped) dots,
            ),
            with_dots (push_within (maximum - 3) 0 escaped)
                (push_within-all (maximum - 3) 0 escaped safe),
          ))
          (λ s. (
            ground (
              arith,
              s,
              push_within-fits (maximum - 0) 0 escaped (omega arith) (ground (arith, s)),
              byte_length-append (push_within (maximum - 0) 0 escaped) [],
            ),
            without_dots (push_within (maximum - 0) 0 escaped)
                (push_within-all (maximum - 0) 0 escaped safe),
          )))
