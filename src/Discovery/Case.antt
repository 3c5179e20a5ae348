-- ===== src/Discovery/Case.antt =====
-- Credential-shaped paths that differ in the case of ASCII letters.
use quarters.Prelude.{
  ℕ, ◌≡◌, refl, sym, ap, ◌∙◌, ◌↔◌, ◌||◌, List, [], ◌∷◌, map, arith, any, ◌==◌, Bytes, nat_eq,
  bytes_eq,
}
use quarters.Discovery.{
  DiscoverySelector, credential_shaped, to_ascii_lowercase, ascii_lowercase, joined_rest,
  joined_ascii_lowercase, credential_shaped_component, credential_shaped_components, classify,
  ends_with, credential_names, credential_suffixes,
}
use quarters.Discovery.Below.{classify_iff}

to_ascii_lowercase_twice :
    (b : ℕ) → to_ascii_lowercase (to_ascii_lowercase b) ≡ to_ascii_lowercase b
to_ascii_lowercase_twice b = ground arith

ascii_lowercase_twice : (bs : Bytes) → ascii_lowercase (ascii_lowercase bs) ≡ ascii_lowercase bs
ascii_lowercase_twice [] = refl
ascii_lowercase_twice (b ∷ bs) = rw (to_ascii_lowercase_twice b, ascii_lowercase_twice bs) refl

joined_rest-lowercase :
    (path : List Bytes) → joined_rest (map ascii_lowercase path) ≡ joined_rest path
joined_rest-lowercase [] = refl
joined_rest-lowercase (c ∷ path) = rw (ascii_lowercase_twice c, joined_rest-lowercase path) refl

joined-lowercase :
    (path : List Bytes)
    → joined_ascii_lowercase (map ascii_lowercase path) ≡ joined_ascii_lowercase path
unfolding joined_ascii_lowercase
joined-lowercase [] = refl
joined-lowercase (c ∷ path) = rw (ascii_lowercase_twice c, joined_rest-lowercase path) refl

component-lowercase :
    (c : Bytes) → credential_shaped_component (ascii_lowercase c) ≡ credential_shaped_component c
unfolding credential_shaped_component
component-lowercase c =
    ap
      (λ (l : Bytes).
        any (λ name. l == name) credential_names
        || any (λ suffix. ends_with suffix l) credential_suffixes)
      (ascii_lowercase_twice c)

any_component-lowercase :
    (path : List Bytes)
    → any credential_shaped_component (map ascii_lowercase path)
      ≡ any credential_shaped_component path
any_component-lowercase [] = refl
any_component-lowercase (c ∷ path) = rw (component-lowercase c, any_component-lowercase path) refl

components-lowercase :
    (path : List Bytes)
    → credential_shaped_components (map ascii_lowercase path) ≡ credential_shaped_components path
unfolding credential_shaped_components
components-lowercase path = rw (joined-lowercase path, any_component-lowercase path) refl

-- Of two paths that differ only in the case of ASCII letters, under either root and with any modes,
-- both are classified as credential-shaped or neither is.
pub classify_any_case :
    (caches : List (List Bytes)) (selector other : DiscoverySelector) (path same : List Bytes)
    (mode other_mode : ℕ)
    → map ascii_lowercase path ≡ map ascii_lowercase same
    → (classify caches selector path mode ≡ credential_shaped)
      ↔ (classify caches other same other_mode ≡ credential_shaped)
classify_any_case caches selector other path same mode other_mode h =
    let equal : credential_shaped_components path ≡ credential_shaped_components same =
      sym (components-lowercase path)
      ∙ ap credential_shaped_components h
      ∙ components-lowercase same in
    (
      λ c.
          (classify_iff caches other same other_mode).1
            (sym equal ∙ (classify_iff caches selector path mode).0 c),
      λ c.
          (classify_iff caches selector path mode).1
            (equal ∙ (classify_iff caches other same other_mode).0 c),
    )
