-- ===== src/Bundle/Order/Canonical.antt =====
-- The order and the difference of the paths that validate_path accepts.
use quarters.Prelude.{
  suc, ◌-◌, ◌≤◌, ◌<◌, ◌≡◌, refl, sym, ap, ◌∙◌, subst, ◌≢◌, Bool, true, false, ◌||◌, not, Option,
  none, some, List, [], ◌∷◌, ◌++◌, arith, ltb, leb, length, take, All, Bytes, bytes_beq_iff, nat_eq,
  bytes_eq, Result, ok, err, ◌>>=◌, ◌>>◌, reject_if, is_ok,
}
use quarters.Error.{ErrorKind, corrupt_state}
use quarters.Bundle.Paths.{
  split_slash, split_path, EntryKind, OpenDirectory, root_directory, open_path, zip_all, close_to,
  parent_of, last_of, enter, depth_limit, enter_last, validate_components, validate_path, accept,
}
use quarters.Bundle.Order.Lex.{path_ltb, path_ltb_irrefl, path_ltb_trans}
use quarters.Bundle.Order.Stack.{Stacked, Entered, close_to_lem, enter_lem, length-open_path}

parent-last :
    (cs : List Bytes) (final : Bytes) → last_of cs ≡ some final → parent_of cs ++ (final ∷ []) ≡ cs
parent-last [] final h = cc
parent-last (c ∷ []) final h = cc
parent-last (c ∷ d ∷ cs) final h =
    let shorter : length (c ∷ d ∷ cs) - 1 ≡ suc (length (d ∷ cs) - 1) = omega arith in
    ap (λ n. take n (c ∷ d ∷ cs) ++ (final ∷ [])) shorter
    ∙ ap (◌∷◌ c) (parent-last (d ∷ cs) final h)

zip_all_lem :
    (xs ys : List Bytes) → zip_all xs ys ≡ true → length xs ≤ length ys → take (length xs) ys ≡ xs
zip_all_lem [] ys z h = refl
zip_all_lem (x ∷ xs) [] z h = absurd (omega arith)
zip_all_lem (x ∷ xs) (y ∷ ys) z h = ground (arith, zip_all_lem xs ys, bytes_beq_iff x y, z)

reject-ok : {E : Type 0} (b : Bool) (e : E) → reject_if b e ≡ ok tt → b ≡ false
reject-ok true e h = cc
reject-ok false e h = refl

-- What an accepted path is.
abbrev pub Enters :
    List OpenDirectory
    → List Bytes
    → Bytes
    → Result ErrorKind (List Bytes × List OpenDirectory)
    → Type 0
Enters ds last path (err k) = Unit
Enters ds last path (ok (closed, after)) =
    (path_ltb last (split_slash path) ≡ true) × Stacked after (split_slash path)

enter_last_lem :
    (path : Bytes) (kind : EntryKind) (cs : List Bytes) (left : List OpenDirectory)
    (last : List Bytes)
    → Stacked left last
    → open_path left ≡ parent_of cs
    → Entered last cs (enter_last path (last_of cs) kind left)
enter_last_lem path kind cs left last st o = go (last_of cs) refl
  where
    go : (f : Option Bytes) → last_of cs ≡ f → Entered last cs (enter_last path f kind left)
    go none e = tt
    go (some final) e =
        subst (λ p. Entered last p (enter path final kind left))
          (ap (λ p. p ++ (final ∷ [])) o ∙ parent-last cs final e)
          (enter_lem path final kind left last st)

-- The rest of `validate_path`, for the components of an accepted path.
validated :
    (ds : List OpenDirectory) (last : List Bytes) (path : Bytes) (kind : EntryKind)
    (cs : List Bytes)
    → Stacked ds last
    → (leb (length ds) (length (parent_of cs)) || not (zip_all (parent_of cs) (open_path ds)))
      ≡ false
    → Entered last cs (enter_last path (last_of cs) kind (close_to (length (parent_of cs)) ds).1)
validated [] last path kind cs st p = absurd st
validated (d ∷ ds) last path kind cs st p =
    let parent = parent_of cs in
    let fits : length parent < length (d ∷ ds) = ground (arith, p) in
    let (left_st, (left_length, left_path)) = close_to_lem (length parent) (d ∷ ds) last fits st in
    enter_last_lem path kind cs (close_to (length parent) (d ∷ ds)).1 last left_st (
      left_path
      ∙ zip_all_lem parent (open_path (d ∷ ds)) (ground (arith, p))
          (ground (arith, fits, length-open_path d ds)))

split_path-ok : (path : Bytes) (cs : List Bytes) → split_path path ≡ ok cs → cs ≡ split_slash path
unfolding split_path
split_path-ok path cs h = ground (arith, h)

rejected :
    (ds : List OpenDirectory) (last : List Bytes) (path : Bytes) (b : Bool) (e : ErrorKind)
    (k : Result ErrorKind (List Bytes × List OpenDirectory))
    → (b ≡ false → Enters ds last path k)
    → Enters ds last path (reject_if b e >> k)
rejected ds last path true e k h = tt
rejected ds last path false e k h = h refl

pub validate_path_lem :
    (ds : List OpenDirectory) (last : List Bytes) (path : Bytes) (kind : EntryKind)
    → Stacked ds last
    → Enters ds last path (validate_path ds path kind)
unfolding validate_path
validate_path_lem ds last path kind st = splitted (split_path path) refl
  where
    finished :
        (cs closed : List Bytes) (r : Result ErrorKind (List OpenDirectory))
        → cs ≡ split_slash path
        → Entered last cs r
        → Enters ds last path (r >>= λ (after : List OpenDirectory). ok (closed, after))
    finished cs closed (err k) e h = tt
    finished cs closed (ok after) e (lt, s) = (rw (sym e) lt, rw (sym e) s)

    checked :
        (cs : List Bytes)
        → cs ≡ split_slash path
        → Enters ds last path (validate_components ds path kind cs)
    checked cs e =
        rejected ds last path (ltb (depth_limit kind) (length cs)) corrupt_state _ λ deep.
          rejected ds last path
            (leb (length ds) (length (parent_of cs)) || not (zip_all (parent_of cs) (open_path ds)))
            corrupt_state _
            λ outside.
              finished cs _
                (enter_last path (last_of cs) kind (close_to (length (parent_of cs)) ds).1) e
                (validated ds last path kind cs st outside)

    splitted :
        (r : Result ErrorKind (List Bytes))
        → split_path path ≡ r
        → Enters ds last path (r >>= validate_components ds path kind)
    splitted (err k) e = tt
    splitted (ok cs) e = checked cs (split_path-ok path cs e)

-- The components of paths.
abbrev pub all_components : List (Bytes × EntryKind) → List (List Bytes)
all_components [] = []
all_components ((path, kind) ∷ rest) = split_slash path ∷ all_components rest

abbrev pub Ascending : List Bytes → List (List Bytes) → Type 0
Ascending last [] = Unit
Ascending last (p ∷ ps) = (path_ltb last p ≡ true) × Ascending p ps

accept-Ascending :
    (ds : List OpenDirectory) (last : List Bytes) (entries : List (Bytes × EntryKind))
    → Stacked ds last
    → is_ok (accept ds entries) ≡ true
    → Ascending last (all_components entries)
unfolding accept
accept-Ascending ds last [] st h = tt
accept-Ascending ds last ((path, kind) ∷ rest) st h =
    next (λ after s k. accept-Ascending after (split_slash path) rest s k)
      (validate_path ds path kind) (validate_path_lem ds last path kind st) h
  where
    next :
        ((after : List OpenDirectory)
          → Stacked after (split_slash path)
          → is_ok (accept after rest) ≡ true
          → Ascending (split_slash path) (all_components rest))
        → (r : Result ErrorKind (List Bytes × List OpenDirectory)) → Enters ds last path r
        → is_ok (r >>= λ (entered : List Bytes × List OpenDirectory). accept entered.1 rest) ≡ true
        → (path_ltb last (split_slash path) ≡ true)
          × Ascending (split_slash path) (all_components rest)
    next ih (err k) e h = cc
    next ih (ok (closed, after)) (lt, s) h = (lt, ih after s h)

-- The entries of a bundle that validate_path accepts one after another come in strictly ascending
-- order, component by component.
pub accept-IsCanonical :
    (entries : List (Bytes × EntryKind))
    → is_ok (accept (root_directory ∷ []) entries) ≡ true
    → Ascending [] (all_components entries)
accept-IsCanonical entries h = accept-Ascending (root_directory ∷ []) [] entries (tt, refl) h

Ascending-after :
    (last : List Bytes) (ps : List (List Bytes))
    → Ascending last ps
    → All (λ p. path_ltb last p ≡ true) ps
Ascending-after last [] h = tt
Ascending-after last (p ∷ ps) (lt, rest) = (lt, later ps (Ascending-after p ps rest))
  where
    later :
        (qs : List (List Bytes))
        → All (λ q. path_ltb p q ≡ true) qs
        → All (λ q. path_ltb last q ≡ true) qs
    later [] t = tt
    later (q ∷ qs) (l, ls) = (path_ltb_trans last p q lt l, later qs ls)

abbrev pub NoRepeat : List (List Bytes) → Type 0
NoRepeat [] = Unit
NoRepeat (p ∷ ps) = All (λ q. q ≢ p) ps × NoRepeat ps

Ascending-NoRepeat : (last : List Bytes) (ps : List (List Bytes)) → Ascending last ps → NoRepeat ps
Ascending-NoRepeat last [] h = tt
Ascending-NoRepeat last (p ∷ ps) (lt, rest) =
    (different ps (Ascending-after p ps rest), Ascending-NoRepeat p ps rest)
  where
    different : (qs : List (List Bytes)) → All (λ q. path_ltb p q ≡ true) qs → All (λ q. q ≢ p) qs
    different [] t = tt
    different (q ∷ qs) (l, ls) = (
      λ e. absurd (ne (sym (path_ltb_irrefl p) ∙ (sym (ap (λ z. path_ltb p z) e) ∙ l))),
      different qs ls,
    )
      where
        ne : false ≢ true
        ne h = cc

-- No path is accepted twice: of the entries of a bundle that validate_path accepts one after
-- another, no two have the same components.
pub accept-NoRepeat :
    (entries : List (Bytes × EntryKind))
    → is_ok (accept (root_directory ∷ []) entries) ≡ true
    → NoRepeat (all_components entries)
accept-NoRepeat entries h =
    Ascending-NoRepeat [] (all_components entries) (accept-IsCanonical entries h)
