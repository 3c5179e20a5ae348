-- ===== src/Store/Rename/Places.antt =====
-- The three entries that a rename touches, over a directory of other entries.
use quarters.Prelude.{
  ◌≡◌, sym, ap, ◌∙◌, inl, inr, true, false, Option, if◌then◌else◌, if-true, if-false, Bool-cases,
  ◌==◌, ==-refl, Bytes, bytes_beq_iff, nat_eq, bytes_eq,
}
use quarters.Store.Rename.{Entry, Files, set}

-- The names of a rename are three different ones.
pub record Names (previous name path : Bytes) : Type 0 where
  pub moves : (previous == name) ≡ false
  pub back : (name == previous) ≡ false
  pub previous_path : (previous == path) ≡ false
  pub path_previous : (path == previous) ≡ false
  pub name_path : (name == path) ≡ false
  pub path_name : (path == name) ≡ false

files_eq : (f g : Files) → ((n : Bytes) → f.at n ≡ g.at n) → f ≡ g
files_eq f g h = λ i. record { at = λ n. h n i }

differs : (n a b : Bytes) → (n == a) ≡ true → (a == b) ≡ false → (n == b) ≡ false
differs n a b t f = ap (λ x. x == b) ((bytes_beq_iff n a).0 t) ∙ f

module _ (previous name path : Bytes) (base : Files) where
  -- `base`, with these entries under the previous name, the new name and the name of the marker.
  pub place : Option Entry → Option Entry → Option Entry → Files
  place s d m = record {
    at = λ n.
        if n == previous
        then s
        else (if n == name then d else (if n == path then m else base.at n));
  }

  module _ (names : Names previous name path) (s d m : Option Entry) where
    pub at_previous : (place s d m).at previous ≡ s
    unfolding place
    at_previous = if-true _ _ (==-refl previous)

    pub at_name : (place s d m).at name ≡ d
    unfolding place
    at_name = if-false _ _ names.back ∙ if-true _ _ (==-refl name)

    pub at_path : (place s d m).at path ≡ m
    unfolding place
    at_path =
        if-false _ _ names.path_previous
        ∙ (if-false _ _ names.path_name ∙ if-true _ _ (==-refl path))

    pub set_previous : (e : Option Entry) → set previous e (place s d m) ≡ place e d m
    unfolding place
    set_previous e = files_eq _ _ λ n. elim (Bool-cases (n == previous)) [
      | inl t ↦ if-true _ _ t ∙ sym (if-true _ _ t)
      | inr f ↦ if-false _ _ f ∙ (if-false _ _ f ∙ sym (if-false _ _ f))
    ]

    pub set_name : (e : Option Entry) → set name e (place s d m) ≡ place s e m
    unfolding place
    set_name e = files_eq _ _ λ n. elim (Bool-cases (n == name)) [
      | inl t ↦
          if-true _ _ t ∙ sym (if-false _ _ (differs n name previous t names.back) ∙ if-true _ _ t)
      | inr f ↦
          if-false _ _ f
          ∙ ap (λ z. if n == previous then s else z) (if-false _ _ f ∙ sym (if-false _ _ f))
    ]

    pub set_path : (e : Option Entry) → set path e (place s d m) ≡ place s d e
    unfolding place
    set_path e = files_eq _ _ λ n. elim (Bool-cases (n == path)) [
      | inl t ↦
          if-true _ _ t
          ∙ sym (
              if-false _ _ (differs n path previous t names.path_previous)
              ∙ (if-false _ _ (differs n path name t names.path_name) ∙ if-true _ _ t))
      | inr f ↦
          if-false _ _ f
          ∙ ap (λ z. if n == previous then s else (if n == name then d else z))
              (if-false _ _ f ∙ sym (if-false _ _ f))
    ]
