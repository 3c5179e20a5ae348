-- ===== src/Bundle/Links.antt =====
-- Where the target of a link leads, component by component.
use quarters.Prelude.{
  ℕ, ◌+◌, ◌-◌, ◌≡◌, refl, ap, ◌∙◌, true, false, ◌||◌, Option, none, some, List, [], ◌∷◌, arith, leb,
  if◌then◌else◌, is_some, length, length-append, length-take, ◌==◌, Bytes, nat_eq, bytes_eq, ok,
  codes, starts_with,
}
use quarters.Bundle.Paths.{
  slash, split_slash, is_unsafe_path, split_path, parent_of, resolve_step, resolve_components,
  resolve_relative_link_target, validate_link_target,
}

-- The depth below the bundle's root behind one component of a target, or `none` where it would leave
-- the root: a component that is no step keeps it, `..` lowers it, and any other raises it.
abbrev pub depth_step : ℕ → Bytes → Option ℕ
depth_step depth c =
    if c == [] || c == codes "."
    then some depth
    else if c == codes ".."
    then (if leb depth 0 then none else some (depth - 1))
    else some (depth + 1)

unfoldable pub depth_after : ℕ → List Bytes → Option ℕ
depth_after depth [] = some depth
depth_after depth (c ∷ cs) = elim (depth_step depth c) [
  | none ↦ none
  | some next ↦ depth_after next cs
]

abbrev pub option_length : Option (List Bytes) → Option ℕ
option_length none = none
option_length (some r) = some (length r)

step_depth :
    (resolved : List Bytes) (c : Bytes)
    → option_length (resolve_step resolved c) ≡ depth_step (length resolved) c
step_depth resolved c =
    ground (arith, length-append resolved (c ∷ []), length-take (length resolved - 1) resolved)

-- The components of a target resolve exactly if no prefix of them leaves the root, and then to as
-- many components as the walk is deep at its end.
pub resolve_components-depth :
    (resolved cs : List Bytes)
    → option_length (resolve_components resolved cs) ≡ depth_after (length resolved) cs
unfolding resolve_components depth_after
resolve_components-depth resolved [] = refl
resolve_components-depth resolved (c ∷ cs) =
    go (λ next. resolve_components-depth next cs) (resolve_step resolved c)
      (depth_step (length resolved) c) (step_depth resolved c)
  where
    go :
        ((next : List Bytes)
          → option_length (resolve_components next cs) ≡ depth_after (length next) cs)
        → (o : Option (List Bytes)) (n : Option ℕ) → option_length o ≡ n
        → option_length (elim o [ none ↦ none | some next ↦ resolve_components next cs ])
          ≡ elim n [ none ↦ none | some next ↦ depth_after next cs ]
    go ih none none h = refl
    go ih none (some d) h = cc
    go ih (some r) none h = cc
    go ih (some r) (some d) h = ih r ∙ ap (λ x. depth_after x cs) (some_length r d h)
      where
        some_length :
            (r : List Bytes) (d : ℕ) → ◌≡◌ {A = Option ℕ} (some (length r)) (some d) → length r ≡ d
        some_length r d e = cc

-- A target that validate_link_target accepts for a link is not absolute and, from the link's
-- directory, never leaves the root.
pub validate_link_target-inside :
    (path target : Bytes)
    → validate_link_target path target ≡ ok tt
    → (starts_with (slash ∷ []) target ≡ false)
      × (is_some (depth_after (length (parent_of (split_slash path))) (split_slash target)) ≡ true)
unfolding validate_link_target resolve_relative_link_target split_path
validate_link_target-inside path target h =
    let cs = split_slash path in
    let inside : is_some (resolve_relative_link_target (parent_of cs) target) ≡ true =
      ground (arith, h) in
    let safe : is_unsafe_path target ≡ false = ground (arith, h) in
    (
      ground (arith, safe),
      some_depth (resolve_components (parent_of cs) (split_slash target)) _
          (resolve_components-depth (parent_of cs) (split_slash target)) (ground (arith, inside)),
    )
  where
    some_depth :
        (o : Option (List Bytes)) (n : Option ℕ)
        → option_length o ≡ n
        → is_some o ≡ true
        → is_some n ≡ true
    some_depth (some r) (some d) e h = refl
    some_depth (some r) none e h = cc
    some_depth none n e h = cc
