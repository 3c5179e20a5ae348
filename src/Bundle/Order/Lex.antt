-- ===== src/Bundle/Order/Lex.antt =====
-- The order of byte strings and of paths, component by component.
use quarters.Prelude.{
  ◌≡◌, refl, Bool, true, false, List, [], ◌∷◌, ◌++◌, arith, if◌then◌else◌, nat_beq_iff, ◌==◌,
  ==-refl, Bytes, bytes_beq_iff, nat_eq, bytes_eq,
}
use quarters.Bundle.Paths.{bytes_ltb}

-- The order in which a tree is walked when siblings come in byte order.
unfoldable pub path_ltb : List Bytes → List Bytes → Bool
path_ltb [] [] = false
path_ltb [] (y ∷ ys) = true
path_ltb (x ∷ xs) [] = false
path_ltb (x ∷ xs) (y ∷ ys) = let rest = path_ltb xs ys in if x == y then rest else bytes_ltb x y

pub bytes_ltb_irrefl : (x : Bytes) → bytes_ltb x x ≡ false
bytes_ltb_irrefl [] = refl
bytes_ltb_irrefl (x ∷ xs) = ground (arith, bytes_ltb_irrefl xs, nat_beq_iff x x)

pub bytes_ltb_trans :
    (x y z : Bytes) → bytes_ltb x y ≡ true → bytes_ltb y z ≡ true → bytes_ltb x z ≡ true
bytes_ltb_trans [] [] z p q = cc
bytes_ltb_trans [] (y ∷ ys) [] p q = cc
bytes_ltb_trans [] (y ∷ ys) (z ∷ zs) p q = refl
bytes_ltb_trans (x ∷ xs) [] z p q = cc
bytes_ltb_trans (x ∷ xs) (y ∷ ys) [] p q = cc
bytes_ltb_trans (x ∷ xs) (y ∷ ys) (z ∷ zs) p q = ground (arith, bytes_ltb_trans xs ys zs)

pub path_ltb_irrefl : (x : List Bytes) → path_ltb x x ≡ false
unfolding path_ltb
path_ltb_irrefl [] = refl
path_ltb_irrefl (x ∷ xs) = ground (arith, path_ltb_irrefl xs, ==-refl x)

pub path_ltb_trans :
    (x y z : List Bytes) → path_ltb x y ≡ true → path_ltb y z ≡ true → path_ltb x z ≡ true
unfolding path_ltb
path_ltb_trans [] [] z p q = cc
path_ltb_trans [] (y ∷ ys) [] p q = cc
path_ltb_trans [] (y ∷ ys) (z ∷ zs) p q = refl
path_ltb_trans (x ∷ xs) [] z p q = cc
path_ltb_trans (x ∷ xs) (y ∷ ys) [] p q = cc
path_ltb_trans (x ∷ xs) (y ∷ ys) (z ∷ zs) p q = ground (
  arith,
  path_ltb_trans xs ys zs,
  bytes_ltb_trans x y z,
  bytes_beq_iff x y,
  bytes_beq_iff y z,
  bytes_beq_iff x z,
  bytes_ltb_irrefl x,
)

-- A path comes before what is under it, and what is under a sibling that comes before.
pub path_ltb-under :
    (parent : List Bytes) (final : Bytes) → path_ltb parent (parent ++ (final ∷ [])) ≡ true
unfolding path_ltb
path_ltb-under [] final = refl
path_ltb-under (x ∷ xs) final = ground (arith, path_ltb-under xs final, ==-refl x)

pub path_ltb-sibling :
    (parent : List Bytes) (x : Bytes) (r : List Bytes) (final : Bytes)
    → bytes_ltb x final ≡ true
    → path_ltb (parent ++ (x ∷ r)) (parent ++ (final ∷ [])) ≡ true
unfolding path_ltb
path_ltb-sibling [] x r final h = ground (arith, h, bytes_beq_iff x final, bytes_ltb_irrefl x)
path_ltb-sibling (p ∷ ps) x r final h = ground (arith, path_ltb-sibling ps x r final h, ==-refl p)
