-- ===== src/Prelude/Hex.antt =====
-- Lowercase hexadecimal: the digits of a byte, as the source writes them in three places, and back.
use Prim.Native.Nat.{ℕ, ◌+◌, ◌-◌, ◌*◌, ◌/◌, ◌%◌, ◌<◌}
use mathlib.Core.Path.{◌≡◌, refl}
use mathlib.Core.Bool.{Bool, true, ◌&&◌, ◌||◌}
use mathlib.Core.List.{[], ◌∷◌, ◌++◌}
use native.Mathlib.Omega.{arith}
use quarters.Prelude.Tests.{ltb, leb, if◌then◌else◌}
use quarters.Prelude.Lists.{length, all, All}
use quarters.Prelude.Keys.{Bytes}

abbrev pub is_lower_hex : ℕ → Bool
is_lower_hex b = leb 48 b && leb b 57 || leb 97 b && leb b 102

-- `HEX[n]` of "0123456789abcdef".
abbrev pub hex_digit : ℕ → ℕ
hex_digit n = if ltb n 10 then 48 + n else 87 + n

-- For each byte `HEX[byte >> 4]` and `HEX[byte & 0x0f]`.
abbrev pub encode_hex : Bytes → Bytes
encode_hex [] = []
encode_hex (b ∷ bs) = hex_digit (b / 16) ∷ hex_digit (b % 16) ∷ encode_hex bs

abbrev pub digit_value : ℕ → ℕ
digit_value d = if ltb d 58 then d - 48 else d - 87

-- The bytes that pairs of digits stand for, up to the first byte that is no digit.
abbrev pub decode_hex : Bytes → Bytes
decode_hex [] = []
decode_hex (h ∷ []) = []
decode_hex (h ∷ l ∷ rest) =
    let more = decode_hex rest in
    if is_lower_hex h && is_lower_hex l then (16 * digit_value h + digit_value l) ∷ more else []

abbrev pub IsByte : ℕ → Type 0
IsByte b = b < 256

pub hex_digit-is_lower_hex : (n : ℕ) → n < 16 → is_lower_hex (hex_digit n) ≡ true
hex_digit-is_lower_hex n h = ground arith

pub digit_value-hex_digit : (n : ℕ) → n < 16 → digit_value (hex_digit n) ≡ n
digit_value-hex_digit n h = ground arith

pub encode_hex-all : (bs : Bytes) → All IsByte bs → all is_lower_hex (encode_hex bs) ≡ true
encode_hex-all [] h = refl
encode_hex-all (b ∷ bs) (h, hs) = rw (
  hex_digit-is_lower_hex (b / 16) (omega arith),
  hex_digit-is_lower_hex (b % 16) (omega arith),
  encode_hex-all bs hs,
)

pub length-encode_hex : (bs : Bytes) → length (encode_hex bs) ≡ 2 * length bs
length-encode_hex [] = refl
length-encode_hex (b ∷ bs) = omega (arith, length-encode_hex bs)

byte_of_digits : (b : ℕ) → 16 * (b / 16) + b % 16 ≡ b
byte_of_digits b = omega arith

pub decode_hex-encode_hex :
    (bs rest : Bytes) → All IsByte bs → decode_hex (encode_hex bs ++ rest) ≡ bs ++ decode_hex rest
decode_hex-encode_hex [] rest h = refl
decode_hex-encode_hex (b ∷ bs) rest (h, hs) = rw (
  hex_digit-is_lower_hex (b / 16) (omega arith),
  hex_digit-is_lower_hex (b % 16) (omega arith),
  digit_value-hex_digit (b / 16) (omega arith),
  digit_value-hex_digit (b % 16) (omega arith),
  byte_of_digits b,
  decode_hex-encode_hex bs rest hs,
)
