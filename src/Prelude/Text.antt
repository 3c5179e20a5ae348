-- ===== src/Prelude/Text.antt =====
-- Fixed texts of the source as byte strings; every literal is ASCII.
use Prim.Native.Char.{code}
use Prim.Native.String.{String}
use mathlib.Core.Path.{◌≡◌, refl}
use mathlib.Core.Bool.{Bool, true, false}
use mathlib.Core.Option.{Option, none, some}
use mathlib.Core.List.{[], ◌∷◌, ◌++◌}
use native.Mathlib.Omega.{arith}
use quarters.Prelude.Tests.{nat_beq, if◌then◌else◌}
use quarters.Prelude.Lists.{length}
use quarters.Prelude.Keys.{Bytes, bytes_beq}

abbrev pub codes : String → Bytes
codes String.[] = []
codes (String.◌∷◌ c s) = code c ∷ codes s

-- `strip_prefix`, and `starts_with` by it.
abbrev pub strip_prefix : Bytes → Bytes → Option Bytes
strip_prefix [] s = some s
strip_prefix (c ∷ cs) [] = none
strip_prefix (c ∷ cs) (x ∷ xs) = let rest = strip_prefix cs xs in if nat_beq c x then rest else none

abbrev pub starts_with : Bytes → Bytes → Bool
starts_with p s = elim (strip_prefix p s) [ none ↦ false | some rest ↦ true ]

pub strip_prefix-append : (p s : Bytes) → strip_prefix p (p ++ s) ≡ some s
strip_prefix-append [] s = refl
strip_prefix-append (c ∷ cs) s = ground (arith, strip_prefix-append cs s)

-- Strings of different lengths are different.
pub bytes_beq-length : (a b : Bytes) → ¬ (length a ≡ length b) → bytes_beq a b ≡ false
bytes_beq-length [] [] h = absurd (h refl)
bytes_beq-length (x ∷ xs) (y ∷ ys) h = ground (arith, bytes_beq-length xs ys (λ e. h (omega arith)))
bytes_beq-length [] (y ∷ ys) h = refl
bytes_beq-length (x ∷ xs) [] h = refl
