-- ===== src/Discovery/Below.antt =====
-- What lies below a credential-shaped path.
use quarters.Prelude.{
  ℕ, ◌≡◌, refl, sym, ap, ◌∙◌, subst, ◌↔◌, inl, inr, Bool, true, false, ◌||◌, List, [], ◌∷◌, ◌++◌,
  arith, Bool-cases, any, append_assoc, append-nil, ◌==◌, Bytes, bytes_beq_iff, nat_eq, bytes_eq,
  codes, starts_with,
}
use quarters.Discovery.{
  DiscoverySelector, credential_shaped, ascii_lowercase, joined_rest, joined_ascii_lowercase,
  credential_prefixes, credential_shaped_component, is_at_or_below, credential_shaped_value,
  credential_shaped_components, classify, classify_home,
}

or-left : {a : Bool} (b : Bool) → a ≡ true → (a || b) ≡ true
or-left b h = rw h refl

or-right : {b : Bool} (a : Bool) → b ≡ true → (a || b) ≡ true
or-right a h = ground arith

or_last : {a b c : Bool} → a ≡ false → b ≡ false → (a || b || c) ≡ true → c ≡ true
or_last h k l = ground arith

or_second : {a b : Bool} → a ≡ false → (a || b) ≡ true → b ≡ true
or_second h k = ground arith

any_mono :
    {A : Type 0} (p q : A → Bool) (xs : List A)
    → ((x : A) → p x ≡ true → q x ≡ true)
    → any p xs ≡ true
    → any q xs ≡ true
any_mono p q [] imp h = h
any_mono p q (x ∷ xs) imp h = ground (arith, imp x, any_mono p q xs imp)

any-append :
    {A : Type 0} (p : A → Bool) (xs ys : List A) → any p xs ≡ true → any p (xs ++ ys) ≡ true
any-append p [] ys h = ground arith
any-append p (x ∷ xs) ys h = ground (arith, any-append p xs ys)

starts_with-append : (p s t : Bytes) → starts_with p s ≡ true → starts_with p (s ++ t) ≡ true
starts_with-append [] s t h = refl
starts_with-append (c ∷ cs) [] t h = ground arith
starts_with-append (c ∷ cs) (x ∷ xs) t h = ground (arith, starts_with-append cs xs t)

is_at_or_below-append :
    (prefix value rest : Bytes)
    → is_at_or_below value prefix ≡ true
    → is_at_or_below (value ++ (47 ∷ rest)) prefix ≡ true
is_at_or_below-append [] [] rest h = refl
is_at_or_below-append [] (x ∷ xs) rest h = ground arith
is_at_or_below-append (c ∷ cs) [] rest h = ground arith
is_at_or_below-append (c ∷ cs) (x ∷ xs) rest h = ground (arith, is_at_or_below-append cs xs rest)

env_below :
    (value rest : Bytes)
    → value ≡ codes ".env"
    → credential_shaped_value (value ++ (47 ∷ rest)) ≡ true
unfolding credential_shaped_value
env_below value rest h = rw h refl

credential_shaped_value-append :
    (value rest : Bytes)
    → credential_shaped_value value ≡ true
    → credential_shaped_value (value ++ (47 ∷ rest)) ≡ true
unfolding credential_shaped_value
credential_shaped_value-append value rest h =
    elim (Bool-cases (any (λ prefix. is_at_or_below value prefix) credential_prefixes)) [
      | inl listed ↦ or-left _ (
          or-left _ (
            any_mono (λ prefix. is_at_or_below value prefix)
              (λ prefix. is_at_or_below (value ++ (47 ∷ rest)) prefix) credential_prefixes
              (λ prefix. is_at_or_below-append prefix value rest) listed))
      | inr unlisted ↦ elim (Bool-cases (value == codes ".env")) [
        | inl same ↦ env_below value rest ((bytes_beq_iff value (codes ".env")).0 same)
        | inr other ↦
            or-right _
              (starts_with-append (codes ".env.") value (47 ∷ rest) (or_last unlisted other h))
      ]
    ]

joined_rest-append :
    (path more : List Bytes) → joined_rest (path ++ more) ≡ joined_rest path ++ joined_rest more
joined_rest-append [] more = refl
joined_rest-append (c ∷ path) more =
    ap (λ tail. 47 ∷ tail)
      (ap (λ tail. ascii_lowercase c ++ tail) (joined_rest-append path more)
        ∙ sym (append_assoc (ascii_lowercase c) (joined_rest path) (joined_rest more)))

root_unshaped : credential_shaped_components [] ≡ false
unfolding credential_shaped_components joined_ascii_lowercase credential_shaped_value
root_unshaped = refl

credential_shaped_components-below :
    (path more : List Bytes)
    → credential_shaped_components path ≡ true
    → credential_shaped_components (path ++ more) ≡ true
unfolding credential_shaped_components joined_ascii_lowercase
credential_shaped_components-below path [] h = rw (append-nil path) h
credential_shaped_components-below [] (d ∷ more) h = absurd (ground (arith, root_unshaped))
credential_shaped_components-below (c ∷ path) (d ∷ more) h =
    elim (Bool-cases (credential_shaped_value (joined_ascii_lowercase (c ∷ path)))) [
      | inl whole ↦ or-left _ (
          subst (λ value. credential_shaped_value value ≡ true)
            (append_assoc (ascii_lowercase c) (joined_rest path) (joined_rest (d ∷ more))
              ∙ ap (λ tail. ascii_lowercase c ++ tail) (sym (joined_rest-append path (d ∷ more))))
            (credential_shaped_value-append (joined_ascii_lowercase (c ∷ path))
              (ascii_lowercase d ++ joined_rest more) whole))
      | inr part ↦
          or-right _
            (any-append credential_shaped_component (c ∷ path) (d ∷ more) (or_second part h))
    ]

pub classify_iff :
    (caches : List (List Bytes)) (selector : DiscoverySelector) (path : List Bytes) (mode : ℕ)
    → (classify caches selector path mode ≡ credential_shaped)
      ↔ (credential_shaped_components path ≡ true)
unfolding classify classify_home
classify_iff caches selector [] mode = ground arith
classify_iff caches selector (c ∷ path) mode = ground arith

-- Whatever is found below a credential-shaped path is classified as credential-shaped too, under
-- either root and with any mode.
pub classify-below :
    (caches : List (List Bytes)) (selector found_under : DiscoverySelector) (path more : List Bytes)
    (mode found_mode : ℕ)
    → classify caches selector path mode ≡ credential_shaped
    → classify caches found_under (path ++ more) found_mode ≡ credential_shaped
classify-below caches selector found_under path more mode found_mode h =
    (classify_iff caches found_under (path ++ more) found_mode).1
      (credential_shaped_components-below path more ((classify_iff caches selector path mode).0 h))
