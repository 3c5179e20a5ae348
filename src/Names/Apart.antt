-- ===== src/Names/Apart.antt =====
-- The entry names that carry an id, read back.
use quarters.Prelude.{
  ℕ, ◌≡◌, refl, sym, ap, ◌∙◌, subst, ◌↔◌, true, Option, none, some, [], ◌∷◌, ◌++◌, arith, nat_beq,
  nat_beq_iff, if-split, length-append, ◌==◌, Bytes, bytes_beq_iff, nat_eq, bytes_eq, codes,
  strip_prefix, strip_prefix-append, bytes_beq-length,
}
use quarters.Names.{
  and_strip_suffix, and_parse_id, is_valid_id, cons_some, strip_suffix, id_between,
  marker_id_from_name,
}
use quarters.Rollback.Model.{marker_name}

strip_suffix-append : (suffix v : Bytes) → strip_suffix suffix (v ++ suffix) ≡ some v
strip_suffix-append [] [] = refl
strip_suffix-append (s ∷ ss) [] = rw ((bytes_beq_iff (s ∷ ss) (s ∷ ss)).1 refl) refl
strip_suffix-append suffix (x ∷ xs) =
    rw
      (
        bytes_beq-length suffix (x ∷ (xs ++ suffix))
            (λ e. omega (arith, e, length-append xs suffix)),
        strip_suffix-append suffix xs,
      )
      refl

cons_some-inverse :
    (x : ℕ) (o : Option Bytes) (v : Bytes)
    → cons_some x o ≡ some v
    → (w : Bytes) × ((o ≡ some w) × (v ≡ x ∷ w))
cons_some-inverse x none v h = cc
cons_some-inverse x (some w) v h = (w, (refl, cc))

some_injective : {A : Type 0} {a b : A} → some a ≡ some b → a ≡ b
some_injective h = cc

strip_suffix_sound : (suffix x v : Bytes) → strip_suffix suffix x ≡ some v → x ≡ v ++ suffix
strip_suffix_sound suffix [] v h = ground (arith, h, bytes_beq_iff suffix [])
strip_suffix_sound suffix (x ∷ xs) v h =
    if-split (λ o. o ≡ some v → x ∷ xs ≡ v ++ suffix) (suffix == x ∷ xs)
      (λ b e. sym ((bytes_beq_iff suffix (x ∷ xs)).0 b) ∙ ap (λ z. z ++ suffix) (some_injective e))
      (λ b e.
        let (w, (f, g)) = cons_some-inverse x (strip_suffix suffix xs) v e in
        ap (◌∷◌ x) (strip_suffix_sound suffix xs w f) ∙ ap (λ z. z ++ suffix) (sym g))
      h

strip_prefix_sound : (p s r : Bytes) → strip_prefix p s ≡ some r → s ≡ p ++ r
strip_prefix_sound [] s r h = some_injective h
strip_prefix_sound (c ∷ cs) [] r h = cc
strip_prefix_sound (c ∷ cs) (x ∷ xs) r h =
    if-split (λ o. o ≡ some r → x ∷ xs ≡ c ∷ (cs ++ r)) (nat_beq c x)
      (λ b e.
        ap (λ z. z ∷ xs) (sym ((nat_beq_iff c x).0 b)) ∙ ap (◌∷◌ c) (strip_prefix_sound cs xs r e))
      (λ b e. cc) h

-- What `id_between` finds is an id, between the two texts.
abbrev Found : Bytes → Bytes → Bytes → Bytes → Type 0
Found prefix suffix name id = (is_valid_id id ≡ true) × (name ≡ prefix ++ (id ++ suffix))

clash : {A : Type 0} {a : A} → ◌≡◌ {A = Option A} none (some a) → ⊥
clash e = cc

parsed_id :
    (o : Option Bytes) (id : Bytes)
    → and_parse_id o ≡ some id
    → (o ≡ some id) × (is_valid_id id ≡ true)
parsed_id none id h = absurd (clash h)
parsed_id (some x) id h =
    if-split (λ o. o ≡ some id → (some x ≡ some id) × (is_valid_id id ≡ true)) (is_valid_id x)
      (λ v e. (e, subst (λ z. is_valid_id z ≡ true) (some_injective e) v)) (λ v e. absurd (clash e))
      h

stripped :
    (suffix : Bytes) (o : Option Bytes) (id : Bytes)
    → and_strip_suffix suffix o ≡ some id
    → o ≡ some (id ++ suffix)
stripped suffix none id h = absurd (clash h)
stripped suffix (some x) id h = ap some (strip_suffix_sound suffix x id h)

id_between-Found :
    (prefix suffix name id : Bytes)
    → id_between prefix suffix name ≡ some id
    → Found prefix suffix name id
id_between-Found prefix suffix name id h =
    let (p, v) = parsed_id (and_strip_suffix suffix (strip_prefix prefix name)) id h in
    (
      v,
      strip_prefix_sound prefix name (id ++ suffix)
          (stripped suffix (strip_prefix prefix name) id p),
    )

id_between-append :
    (prefix suffix id : Bytes)
    → is_valid_id id ≡ true
    → id_between prefix suffix (prefix ++ (id ++ suffix)) ≡ some id
id_between-append prefix suffix id h =
    ap (λ o. and_parse_id (and_strip_suffix suffix o)) (strip_prefix-append prefix (id ++ suffix))
    ∙ (ap and_parse_id (strip_suffix-append suffix id) ∙ rw h refl)

-- An entry name is taken for the marker of a rollback with some id exactly if it is the name that
-- the id of a marker gives, and the id is 32 lowercase hexadecimal digits.
pub marker_id_from_name_iff :
    (name id : Bytes)
    → (marker_id_from_name name ≡ some id) ↔ ((is_valid_id id ≡ true) × (name ≡ marker_name id))
unfolding marker_id_from_name marker_name
marker_id_from_name_iff name id = (
  id_between-Found (codes ".rollback-") (codes ".json") name id,
  λ (v, e).
      ap (id_between (codes ".rollback-") (codes ".json")) e
      ∙ id_between-append (codes ".rollback-") (codes ".json") id v,
)
