-- ===== src/Prelude/Keys.antt =====
-- Decidable equality as an interface, and byte strings as an instance of it.
use Prim.Native.Nat.{ℕ}
use mathlib.Core.Path.{◌≡◌, refl}
use mathlib.Core.Logic.{◌↔◌}
use mathlib.Core.Bool.{Bool, true, false, ◌&&◌}
use mathlib.Core.List.{List, [], ◌∷◌}
use native.Mathlib.Omega.{arith}
use quarters.Prelude.Tests.{nat_beq, nat_beq_iff}

-- What `Eq` and `Hash` give a map's key.
pub record Eq {ℓ} (K : Type ℓ) : Type ℓ where
  pub beq : K → K → Bool
  pub beq_iff : (x y : K) → (beq x y ≡ true) ↔ (x ≡ y)

abbrev pub Bytes : Type 0
Bytes = List ℕ

abbrev pub bytes_beq : Bytes → Bytes → Bool
bytes_beq [] [] = true
bytes_beq (x ∷ xs) (y ∷ ys) = nat_beq x y && bytes_beq xs ys
bytes_beq _ _ = false

pub bytes_beq_iff : (a b : Bytes) → (bytes_beq a b ≡ true) ↔ (a ≡ b)
bytes_beq_iff [] [] = ground arith
bytes_beq_iff (x ∷ xs) (y ∷ ys) = ground (arith, bytes_beq_iff xs ys)
bytes_beq_iff _ _ = ground arith

infix 50 ◌==◌
abbrev pub ◌==◌ {ℓ} : {A : Type ℓ} ⦃e : Eq A⦄ → A → A → Bool
◌==◌ ⦃e⦄ = e.beq

pub ==-refl {ℓ} : {A : Type ℓ} ⦃e : Eq A⦄ (a : A) → (a == a) ≡ true
==-refl ⦃e⦄ a = (e.beq_iff a a).1 refl

instance abbrev pub nat_eq : Eq ℕ
nat_eq = record { beq = nat_beq; beq_iff = nat_beq_iff }

instance abbrev pub bytes_eq : Eq Bytes
bytes_eq = record { beq = bytes_beq; beq_iff = bytes_beq_iff }
