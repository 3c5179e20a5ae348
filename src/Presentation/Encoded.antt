-- ===== src/Presentation/Encoded.antt =====
-- The hexadecimal form of a text that is not trusted.
use quarters.Prelude.{
  ℕ, zero, suc, ◌+◌, ◌*◌, ◌≤◌, min, ◌≡◌, refl, sym, ap, ◌∙◌, inl, inr, Bool, true, false, ◌||◌,
  List, [], ◌∷◌, ◌++◌, arith, ltb, leb, nat_beq, if◌then◌else◌, leb→le, Bool-cases, &&-true,
  if-split, length, take, drop, all, any, All, length-append, length-take, all-append, take_all,
  take-longer, append-nil, nat_eq, bytes_eq, codes, is_lower_hex, encode_hex, decode_hex, IsByte,
  encode_hex-all, length-encode_hex, decode_hex-encode_hex,
}
use quarters.Presentation.{
  Chars, IsScalar, dots, continuation, char_bytes, as_bytes, hex_prefix,
  encode_untrusted_text_hex_bounded,
}

All-append {ℓ} :
    {A : Type ℓ} (P : A → Type 0) (xs ys : List A) → All P xs → All P ys → All P (xs ++ ys)
All-append P [] ys h k = k
All-append P (x ∷ xs) ys (h, hs) k = (h, All-append P xs ys hs k)

All-take {ℓ} : {A : Type ℓ} (P : A → Type 0) (n : ℕ) (xs : List A) → All P xs → All P (take n xs)
All-take P zero xs h = tt
All-take P (suc n) [] h = tt
All-take P (suc n) (x ∷ xs) (h, hs) = (h, All-take P n xs hs)

continuation-IsByte : (unit c : ℕ) → IsByte (continuation unit c)
continuation-IsByte unit c = omega arith

char_bytes-IsByte : (c : ℕ) → IsScalar c → All IsByte (char_bytes c)
char_bytes-IsByte c h =
    if-split (All IsByte) (ltb c 0x80) (λ l. (ground (arith, l), tt))
      λ _.
        if-split (All IsByte) (ltb c 0x800)
          (λ l. (ground (arith, l), (continuation-IsByte 1 c, tt)))
          λ _.
            if-split (All IsByte) (ltb c 0x10000)
              (λ l. (ground (arith, l), (continuation-IsByte 64 c, (continuation-IsByte 1 c, tt))))
              λ _. (
                omega arith,
                (
                  continuation-IsByte 4096 c,
                  (continuation-IsByte 64 c, (continuation-IsByte 1 c, tt)),
                ),
              )

as_bytes-IsByte : (v : Chars) → All IsScalar v → All IsByte (as_bytes v)
unfolding as_bytes
as_bytes-IsByte [] h = tt
as_bytes-IsByte (c ∷ cs) (h, hs) =
    All-append IsByte (char_bytes c) (as_bytes cs) (char_bytes-IsByte c h) (as_bytes-IsByte cs hs)

take-min {ℓ} : {A : Type ℓ} (m : ℕ) (xs : List A) → take (min (length xs) m) xs ≡ take m xs
take-min m xs = elim (Bool-cases (leb m (length xs))) [
  | inl l ↦ ap (λ n. take n xs) (omega (arith, leb→le _ _ l))
  | inr l ↦
      ap (λ n. take n xs) (short l) ∙ (take_all xs ∙ sym (take-longer m xs (ground (arith, l))))
]
  where
    short : leb m (length xs) ≡ false → min (length xs) m ≡ length xs
    short l = ground (arith, l)

dots-decode : (b : Bool) → decode_hex (if b then dots else []) ≡ []
dots-decode true = refl
dots-decode false = refl

-- The digits in the hexadecimal form, read back, are the first bytes of the text's UTF-8, as many as
-- were allowed.
pub decode-encode_untrusted_text_hex_bounded :
    (v : Chars) (m : ℕ)
    → All IsScalar v
    → decode_hex (drop (length hex_prefix) (encode_untrusted_text_hex_bounded v m))
      ≡ take m (as_bytes v)
unfolding encode_untrusted_text_hex_bounded
decode-encode_untrusted_text_hex_bounded v m h =
    let bytes = as_bytes v in
    let n = min (length bytes) m in
    decode_hex-encode_hex (take n bytes) (if ltb n (length bytes) then dots else [])
      (All-take IsByte n bytes (as_bytes-IsByte v h))
    ∙ (ap (λ z. take n bytes ++ z) (dots-decode (ltb n (length bytes)))
        ∙ (append-nil (take n bytes) ∙ take-min m bytes))

-- A digit, or a character of `hex:` and `...`.
abbrev pub is_encoded_character : ℕ → Bool
is_encoded_character c = is_lower_hex c || any (λ x. nat_beq x c) (codes "hex:.")

hex-encoded : (c : ℕ) → is_lower_hex c ≡ true → is_encoded_character c ≡ true
hex-encoded c h = rw h refl

all-weaken :
    (p q : ℕ → Bool) (cs : Chars)
    → ((c : ℕ) → p c ≡ true → q c ≡ true)
    → all p cs ≡ true
    → all q cs ≡ true
all-weaken p q [] f h = refl
all-weaken p q (c ∷ cs) f h =
    let (hc, hs) = &&-true (p c) (all p cs) h in rw (f c hc, all-weaken p q cs f hs) refl

ending_encoded : (b : Bool) → all is_encoded_character (if b then dots else []) ≡ true
ending_encoded true = refl
ending_encoded false = refl

-- Whatever the text says, its hexadecimal form is of the characters of `hex:` and `...` and of
-- digits, and it has at most twice as many digits as bytes were allowed.
pub encode_untrusted_text_hex_bounded-IsEncoded :
    (v : Chars) (m : ℕ)
    → All IsScalar v
    → (all is_encoded_character (encode_untrusted_text_hex_bounded v m) ≡ true)
      × (length (encode_untrusted_text_hex_bounded v m) ≤ 4 + 2 * m + 3)
unfolding encode_untrusted_text_hex_bounded
encode_untrusted_text_hex_bounded-IsEncoded v m h =
    let bytes = as_bytes v in
    let n = min (length bytes) m in
    let digits = encode_hex (take n bytes) in
    let ending = if ltb n (length bytes) then dots else [] in
    (
      all-append is_encoded_character digits ending
          ∙ rw
              (
                all-weaken is_lower_hex is_encoded_character digits hex-encoded
                    (encode_hex-all (take n bytes) (All-take IsByte n bytes (as_bytes-IsByte v h))),
                ending_encoded (ltb n (length bytes)),
              )
              refl,
      omega (
        arith,
        length-append digits ending,
        length-encode_hex (take n bytes),
        length-take n bytes,
        ending_short (ltb n (length bytes)),
      ),
    )
  where
    ending_short : (b : Bool) → length (if b then dots else []) ≤ 3
    ending_short true = omega arith
    ending_short false = omega arith
