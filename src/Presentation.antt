-- ===== src/Presentation.antt =====
-- crates/quarters-core/src/text.rs: the escaping of text that is not trusted, and its bounds. A `&str`
-- is the list of its scalar values.
pub mod Escape
pub mod Bounded
pub mod Encoded
use quarters.Prelude.{
  ℕ, zero, suc, ◌+◌, ◌-◌, ◌/◌, ◌%◌, ◌<◌, min, Bool, ◌&&◌, not, List, [], ◌∷◌, ◌++◌, ltb, leb,
  if◌then◌else◌, saturating_add, length, take, any, Bytes, nat_eq, bytes_eq, codes, hex_digit,
  encode_hex,
}

abbrev pub Chars : Type 0
Chars = List ℕ

-- A Unicode scalar value.
abbrev pub IsScalar : ℕ → Type 0
IsScalar c = c < 1114112

-- The ranges of `matches!` in `unsafe_presentation_character`, behind those of `char::is_control`.
abbrev pub unsafe_ranges : List (ℕ × ℕ)
unsafe_ranges =
    (0x0, 0x1f)
    ∷ (0x7f, 0x9f)
    ∷ (0xad, 0xad)
    ∷ (0x600, 0x605)
    ∷ (0x61c, 0x61c)
    ∷ (0x6dd, 0x6dd)
    ∷ (0x70f, 0x70f)
    ∷ (0x890, 0x891)
    ∷ (0x8e2, 0x8e2)
    ∷ (0x180e, 0x180e)
    ∷ (0x200b, 0x200f)
    ∷ (0x202a, 0x202e)
    ∷ (0x2060, 0x2064)
    ∷ (0x2066, 0x206f)
    ∷ (0x2d7f, 0x2d7f)
    ∷ (0xfeff, 0xfeff)
    ∷ (0xfff9, 0xfffb)
    ∷ (0x110bd, 0x110bd)
    ∷ (0x110cd, 0x110cd)
    ∷ (0x13430, 0x1343f)
    ∷ (0x1bca0, 0x1bca3)
    ∷ (0x1d173, 0x1d17a)
    ∷ (0xe0001, 0xe0001)
    ∷ (0xe0020, 0xe007f)
    ∷ []

unfoldable pub unsafe_presentation_character : ℕ → Bool
unsafe_presentation_character c = any (λ (lo, hi). leb lo c && leb c hi) unsafe_ranges

abbrev pub is_safe : ℕ → Bool
is_safe c = not (unsafe_presentation_character c)

-- The hexadecimal digits of a number, without leading zeros, before `digits`; `fuel` digits are
-- enough for a number below 16 ^ fuel, and a scalar value has at most 6.
unfoldable pub hex_digits : ℕ → ℕ → Chars → Chars
hex_digits zero n digits = digits
hex_digits (suc fuel) n digits =
    let more = hex_digits fuel (n / 16) (hex_digit (n % 16) ∷ digits) in
    if ltb n 16 then hex_digit n ∷ digits else more

-- `char::escape_unicode`.
unfoldable pub escape_unicode : ℕ → Chars
unfolding hex_digits
escape_unicode c = codes "\\u{" ++ hex_digits 6 c (codes "}")

unfoldable pub escape_untrusted_text : Chars → Chars
unfolding unsafe_presentation_character escape_unicode
escape_untrusted_text [] = []
escape_untrusted_text (c ∷ cs) =
    (if unsafe_presentation_character c then escape_unicode c else c ∷ [])
    ++ escape_untrusted_text cs

abbrev pub dots : Chars
dots = codes "..."

unfoldable pub escape_untrusted_text_bounded : Chars → ℕ → Chars
unfolding escape_untrusted_text
escape_untrusted_text_bounded value maximum =
    let escaped = escape_untrusted_text value in
    if leb (length escaped) maximum
    then escaped
    else if leb maximum 3
    then take maximum escaped
    else take (maximum - 3) escaped ++ dots

-- `char::len_utf8`, and the length of a `String` in bytes.
abbrev pub len_utf8 : ℕ → ℕ
len_utf8 c = if ltb c 0x80 then 1 else if ltb c 0x800 then 2 else if ltb c 0x10000 then 3 else 4

abbrev pub byte_length : Chars → ℕ
byte_length [] = 0
byte_length (c ∷ cs) = len_utf8 c + byte_length cs

-- The loop that pushes characters within the budget, with `used` bytes pushed.
abbrev pub push_within : ℕ → ℕ → Chars → Chars
push_within budget used [] = []
push_within budget used (c ∷ cs) =
    let rest = push_within budget (used + len_utf8 c) cs in
    if ltb budget (saturating_add used (len_utf8 c)) then [] else c ∷ rest

unfoldable pub escape_untrusted_text_bounded_bytes : Chars → ℕ → Chars
unfolding escape_untrusted_text
escape_untrusted_text_bounded_bytes value maximum =
    let escaped = escape_untrusted_text value in
    let suffix = if leb 3 maximum then dots else [] in
    if leb (byte_length escaped) maximum
    then escaped
    else push_within (maximum - byte_length suffix) 0 escaped ++ suffix

-- The continuation byte of the six bits above `unit`.
abbrev pub continuation : ℕ → ℕ → ℕ
continuation unit c = 128 + c / unit % 64

abbrev pub char_bytes : ℕ → Bytes
char_bytes c =
    if ltb c 0x80
    then c ∷ []
    else if ltb c 0x800
    then (192 + c / 64) ∷ continuation 1 c ∷ []
    else if ltb c 0x10000
    then (224 + c / 4096) ∷ continuation 64 c ∷ continuation 1 c ∷ []
    else (240 + c / 262144) ∷ continuation 4096 c ∷ continuation 64 c ∷ continuation 1 c ∷ []

-- `str::as_bytes`.
unfoldable pub as_bytes : Chars → Bytes
as_bytes [] = []
as_bytes (c ∷ cs) = char_bytes c ++ as_bytes cs

abbrev pub hex_prefix : Chars
hex_prefix = codes "hex:"

unfoldable pub encode_untrusted_text_hex_bounded : Chars → ℕ → Chars
unfolding as_bytes
encode_untrusted_text_hex_bounded value maximum_input_bytes =
    let bytes = as_bytes value in
    let retained = min (length bytes) maximum_input_bytes in
    hex_prefix
    ++ (encode_hex (take retained bytes) ++ (if ltb retained (length bytes) then dots else []))
