-- ===== src/Presentation/Escape.antt =====
-- What escaping leaves in a text.
use quarters.Prelude.{
  ℕ, zero, suc, ◌/◌, ◌%◌, ◌≤◌, ◌<◌, ◌≡◌, refl, ap, subst, ◌↔◌, Bool, true, not, [], ◌∷◌, ◌++◌,
  arith, ltb, &&-true, if-split, all, all-append, nat_eq, bytes_eq, codes, hex_digit,
}
use quarters.Presentation.{
  Chars, unsafe_presentation_character, is_safe, hex_digits, escape_unicode, escape_untrusted_text,
}

ascii_safe : (c : ℕ) → 32 ≤ c → c < 127 → is_safe c ≡ true
unfolding unsafe_presentation_character
ascii_safe c h l = ground arith

hex_digit-ascii : (n : ℕ) → n < 16 → (32 ≤ hex_digit n) × (hex_digit n < 127)
hex_digit-ascii n h = ground arith

hex_digit-safe : (n : ℕ) → n < 16 → is_safe (hex_digit n) ≡ true
hex_digit-safe n h = ascii_safe _ (hex_digit-ascii n h).0 (hex_digit-ascii n h).1

hex_digits-safe :
    (fuel n : ℕ) (digits : Chars)
    → all is_safe digits ≡ true
    → all is_safe (hex_digits fuel n digits) ≡ true
unfolding hex_digits
hex_digits-safe zero n digits h = h
hex_digits-safe (suc fuel) n digits h =
    if-split (λ z. all is_safe z ≡ true) (ltb n 16)
      (λ l. rw (hex_digit-safe n (ground (arith, l)), h) refl)
      (λ l.
        hex_digits-safe fuel (n / 16) (hex_digit (n % 16) ∷ digits)
          (rw (hex_digit-safe (n % 16) (omega arith), h) refl))

escape_unicode-safe : (c : ℕ) → all is_safe (escape_unicode c) ≡ true
unfolding escape_unicode unsafe_presentation_character
escape_unicode-safe c = hex_digits-safe 6 c (codes "}") refl

escape-safe : (v : Chars) → all is_safe (escape_untrusted_text v) ≡ true
unfolding escape_untrusted_text
escape-safe [] = refl
escape-safe (c ∷ cs) =
    if-split (λ z. all is_safe (z ++ escape_untrusted_text cs) ≡ true)
      (unsafe_presentation_character c)
      (λ u.
        rw
          (
            all-append is_safe (escape_unicode c) (escape_untrusted_text cs),
            escape_unicode-safe c,
            escape-safe cs,
          )
          refl)
      (λ s. rw (s, escape-safe cs) refl)

escape-fixed : (v : Chars) → all is_safe v ≡ true → escape_untrusted_text v ≡ v
unfolding escape_untrusted_text
escape-fixed [] h = refl
escape-fixed (c ∷ cs) h =
    let (hc, hs) = &&-true (is_safe c) (all is_safe cs) h in
    if-split (λ z. z ++ escape_untrusted_text cs ≡ c ∷ cs) (unsafe_presentation_character c)
      (λ u. absurd (clash u hc)) (λ s. ap (◌∷◌ c) (escape-fixed cs hs))
  where
    clash : {b : Bool} → b ≡ true → not b ≡ true → ⊥
    clash u n = cc

-- In an escaped text no character is a control, bidirectional or invisible format character, and
-- exactly the texts without such a character are left as they are.
pub escape_untrusted_text-IsSafe :
    (v : Chars)
    → (all is_safe (escape_untrusted_text v) ≡ true)
      × ((escape_untrusted_text v ≡ v) ↔ (all is_safe v ≡ true))
escape_untrusted_text-IsSafe v =
    (escape-safe v, (λ e. subst (λ z. all is_safe z ≡ true) e (escape-safe v), escape-fixed v))
