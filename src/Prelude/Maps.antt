-- ===== src/Prelude/Maps.antt =====
-- Rust's maps and sets as association lists and lists of keys, with laws in conditional form.
use Prim.Native.Nat.{suc, ◌+◌, ◌≤◌}
use mathlib.Core.Path.{◌≡◌, refl, ap}
use mathlib.Core.Bool.{Bool, true, false, ◌||◌}
use mathlib.Core.Option.{Option, none, some}
use mathlib.Core.Logic.{inl, inr}
use mathlib.Core.List.{List, [], ◌∷◌}
use native.Mathlib.Omega.{arith}
use quarters.Prelude.Tests.{if◌then◌else◌, is_some, Bool-cases}
use quarters.Prelude.Lists.{length}
use quarters.Prelude.Keys.{Eq, ◌==◌}

abbrev pub Map : Type 0 → Type 0 → Type 0
Map K V = List (K × V)

module _ {K : Type 0} ⦃e : Eq K⦄ where
  abbrev pub member : K → List K → Bool
  member k [] = false
  member k (j ∷ ks) = (j == k) || member k ks

module _ {K V : Type 0} ⦃e : Eq K⦄ where
  unfoldable pub lookup : K → Map K V → Option V
  lookup k [] = none
  lookup k ((j, v) ∷ m) = if j == k then some v else lookup k m

  unfoldable pub remove : K → Map K V → Map K V
  remove k [] = []
  remove k ((j, v) ∷ m) = let rest = remove k m in if j == k then rest else (j, v) ∷ rest

  unfoldable pub insert : K → V → Map K V → Map K V
  insert k v m = (k, v) ∷ remove k m

  unfoldable pub keys : Map K V → List K
  keys [] = []
  keys ((j, v) ∷ m) = j ∷ keys m

  pub lookup-remove :
      (k j : K) (m : Map K V) → lookup j (remove k m) ≡ (if k == j then none else lookup j m)
  unfolding lookup remove
  lookup-remove k j [] = ground arith
  lookup-remove k j ((i, v) ∷ m) =
      ground (arith, lookup-remove k j m, e.beq_iff i k, e.beq_iff i j, e.beq_iff k j)

  pub lookup-insert :
      (k j : K) (v : V) (m : Map K V)
      → lookup j (insert k v m) ≡ (if k == j then some v else lookup j m)
  unfolding lookup insert
  lookup-insert k j v m = ground (arith, lookup-remove k j m)

  pub length-remove : (k : K) (m : Map K V) → length (remove k m) ≤ length m
  unfolding remove
  length-remove k [] = omega arith
  length-remove k ((j, v) ∷ m) = ground (arith, length-remove k m)

  pub remove_absent : (k : K) (m : Map K V) → lookup k m ≡ none → remove k m ≡ m
  unfolding lookup remove
  remove_absent k [] h = refl
  remove_absent k ((j, v) ∷ m) h = ground (arith, remove_absent k m)

  pub length-remove_present :
      (k : K) (v : V) (m : Map K V) → lookup k m ≡ some v → suc (length (remove k m)) ≤ length m
  unfolding lookup remove
  length-remove_present k v [] h = ground arith
  length-remove_present k v ((j, w) ∷ m) h =
      ground (arith, length-remove k m, length-remove_present k v m)

  pub member-keys : (k : K) (m : Map K V) → member k (keys m) ≡ is_some (lookup k m)
  unfolding lookup keys
  member-keys k [] = refl
  member-keys k ((j, v) ∷ m) = ground (arith, member-keys k m)

-- No key stands twice, so that the length of the list is the size of the map or set.
module _ {K : Type 0} ⦃e : Eq K⦄ where
  abbrev pub Distinct : List K → Type 0
  Distinct [] = Unit
  Distinct (k ∷ ks) = (member k ks ≡ false) × Distinct ks

  -- `HashSet::insert` and `HashSet::extend`.
  unfoldable pub add : K → List K → List K
  add k ks = if member k ks then ks else k ∷ ks

  unfoldable pub extend : List K → List K → List K
  extend ks [] = ks
  extend ks (j ∷ js) = extend (add j ks) js

  pub member-add : (k j : K) (ks : List K) → member j (add k ks) ≡ ((k == j) || member j ks)
  unfolding add
  member-add k j ks = elim (Bool-cases (k == j)) [
    | inl same ↦ rw ((e.beq_iff k j).0 same) (ground (arith, e.beq_iff j j))
    | inr other ↦ ground arith
  ]

  pub Distinct-add : (k : K) (ks : List K) → Distinct ks → Distinct (add k ks)
  unfolding add
  Distinct-add k ks h = ground arith

  pub length-add : (k : K) (ks : List K) → length (add k ks) ≤ length ks + 1
  unfolding add
  length-add k ks = ground arith

  pub member-extend :
      (j : K) (ks js : List K) → member j (extend ks js) ≡ (member j ks || member j js)
  unfolding extend
  member-extend j ks [] = ground arith
  member-extend j ks (i ∷ js) = ground (arith, member-extend j (add i ks) js, member-add i j ks)

  pub Distinct-extend : (ks js : List K) → Distinct ks → Distinct (extend ks js)
  unfolding extend
  Distinct-extend ks [] h = h
  Distinct-extend ks (i ∷ js) h = Distinct-extend (add i ks) js (Distinct-add i ks h)

  pub length-extend : (ks js : List K) → length (extend ks js) ≤ length ks + length js
  unfolding extend
  length-extend ks [] = omega arith
  length-extend ks (i ∷ js) = omega (arith, length-extend (add i ks) js, length-add i ks)

  pub extend_absorbs :
      (ks js : List K) → ((j : K) → member j js ≡ true → member j ks ≡ true) → extend ks js ≡ ks
  unfolding extend add
  extend_absorbs ks [] h = refl
  extend_absorbs ks (i ∷ js) h =
      rw (h i (ground (arith, e.beq_iff i i)))
        (extend_absorbs ks js (λ j m. h j (ground (arith, m))))

module _ {K V : Type 0} ⦃e : Eq K⦄ where
  pub length-keys : (m : Map K V) → length (keys m) ≡ length m
  unfolding keys
  length-keys [] = refl
  length-keys ((j, v) ∷ m) = ap suc (length-keys m)

  pub Distinct-remove : (k : K) (m : Map K V) → Distinct (keys m) → Distinct (keys (remove k m))
  unfolding remove keys
  Distinct-remove k [] h = tt
  Distinct-remove k ((j, v) ∷ m) h =
      ground (
        arith,
        Distinct-remove k m,
        member-keys j m,
        member-keys j (remove k m),
        lookup-remove k j m,
      )

  pub Distinct-insert :
      (k : K) (v : V) (m : Map K V) → Distinct (keys m) → Distinct (keys (insert k v m))
  unfolding insert keys
  Distinct-insert k v m h = (
    ground (arith, member-keys k (remove k m), lookup-remove k k m, e.beq_iff k k),
    Distinct-remove k m h,
  )

  pub length-insert_absent :
      (k : K) (v : V) (m : Map K V) → lookup k m ≡ none → length (insert k v m) ≡ length m + 1
  unfolding insert
  length-insert_absent k v m h = rw (remove_absent k m h) (omega arith)

  pub length-insert_present :
      (k : K) (v w : V) (m : Map K V) → lookup k m ≡ some w → length (insert k v m) ≤ length m
  unfolding insert
  length-insert_present k v w m h = omega (arith, length-remove_present k w m h)
