-- ===== src/Examples/Presentation.antt =====
-- The theorems on escaping at concrete texts, and runs of the source's own tests.
use quarters.Prelude.{◌≡◌, refl, ◌↔◌, true, [], ◌∷◌, ◌++◌, arith, all, nat_eq, bytes_eq, codes}
use quarters.Presentation.{
  Chars, is_safe, unsafe_presentation_character, escape_unicode, hex_digits, escape_untrusted_text,
  escape_untrusted_text_bounded, byte_length, escape_untrusted_text_bounded_bytes, as_bytes,
  encode_untrusted_text_hex_bounded,
}
use quarters.Presentation.Escape.{escape_untrusted_text-IsSafe}
use quarters.Presentation.Bounded.{Fits, escape_untrusted_text_bounded_bytes-Fits}

abbrev colored : Chars
colored = codes "safe" ++ (0x1b ∷ codes "[31m")

escapes_control : escape_untrusted_text colored ≡ codes "safe\\u{1b}[31m"
unfolding escape_untrusted_text unsafe_presentation_character escape_unicode hex_digits
escapes_control = refl

escapes_direction :
    escape_untrusted_text (codes "left" ++ (0x202e ∷ codes "right")) ≡ codes "left\\u{202e}right"
unfolding escape_untrusted_text unsafe_presentation_character escape_unicode hex_digits
escapes_direction = refl

cuts_short : escape_untrusted_text_bounded (codes "abcdef") 2 ≡ codes "ab"
unfolding escape_untrusted_text_bounded escape_untrusted_text unsafe_presentation_character
    escape_unicode hex_digits
cuts_short = refl

cuts_bytes : escape_untrusted_text_bounded_bytes (0xe9 ∷ []) 1 ≡ []
unfolding escape_untrusted_text_bounded_bytes escape_untrusted_text unsafe_presentation_character
    escape_unicode hex_digits
cuts_bytes = refl

hides_words :
    encode_untrusted_text_hex_bounded (codes "IGNORE PREVIOUS INSTRUCTIONS") 8
    ≡ codes "hex:49474e4f52452050..."
unfolding encode_untrusted_text_hex_bounded as_bytes
hides_words = refl

escape_untrusted_text-IsSafe_example :
    (all is_safe (escape_untrusted_text colored) ≡ true)
    × ((escape_untrusted_text colored ≡ colored) ↔ (all is_safe colored ≡ true))
escape_untrusted_text-IsSafe_example = escape_untrusted_text-IsSafe colored

escape_untrusted_text_bounded_bytes-Fits_example :
    Fits byte_length 9 (escape_untrusted_text_bounded_bytes colored 9)
escape_untrusted_text_bounded_bytes-Fits_example =
    escape_untrusted_text_bounded_bytes-Fits colored 9 (omega arith)
