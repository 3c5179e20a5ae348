-- ===== src/Bundle/Order/Stack.antt =====
-- The stack of open directories, and where the last accepted entry stands in it.
use quarters.Prelude.{
  ℕ, ◌+◌, ◌<◌, ◌≡◌, refl, sym, ap, ◌∙◌, true, false, not, Option, none, some, List, [], ◌∷◌, ◌++◌,
  arith, ltb, if-split, length, take, length-append, append_assoc, take_all, take_front, Bytes,
  nat_eq, bytes_eq, Result, ok, err,
}
use quarters.Error.{ErrorKind}
use quarters.Bundle.Paths.{
  EntryKind, is_directory, OpenDirectory, open_path, close_to, is_after, enter,
}
use quarters.Bundle.Order.Lex.{path_ltb, path_ltb-under, path_ltb-sibling}

-- Each directory is the last child of the one around it.
abbrev pub Linked : List OpenDirectory → Type 0
Linked [] = Unit
Linked (d ∷ []) = Unit
Linked (d ∷ e ∷ ds) = (e.last_child ≡ some d.component) × Linked (e ∷ ds)

-- The last entry is the directory `here` itself, or its child or under that child.
abbrev pub Placed : Option Bytes → List Bytes → List Bytes → Type 0
Placed none here last = last ≡ here
Placed (some x) here last = (r : List Bytes) × (last ≡ here ++ (x ∷ r))

abbrev pub Stacked : List OpenDirectory → List Bytes → Type 0
Stacked [] last = ⊥
Stacked (d ∷ ds) last = Linked (d ∷ ds) × Placed d.last_child (open_path (d ∷ ds)) last

pub length-open_path :
    (d : OpenDirectory) (ds : List OpenDirectory) → length (open_path (d ∷ ds)) ≡ length ds
length-open_path d [] = refl
length-open_path d (e ∷ ds) =
    omega (arith, length-append (open_path (e ∷ ds)) (d.component ∷ []), length-open_path e ds)

some_injective : {A : Type 0} {x y : A} → some x ≡ some y → x ≡ y
some_injective h = cc

-- The innermost directory is closed.
popped :
    (d e : OpenDirectory) (ds : List OpenDirectory) (last : List Bytes)
    → Stacked (d ∷ e ∷ ds) last
    → Stacked (e ∷ ds) last
popped d e ds last ((link, links), placed) =
    (links, under e.last_child link (below d.last_child placed))
  where
    below :
        (c : Option Bytes)
        → Placed c (open_path (e ∷ ds) ++ (d.component ∷ [])) last
        → (r : List Bytes) × (last ≡ open_path (e ∷ ds) ++ (d.component ∷ r))
    below none p = ([], p)
    below (some x) (r, p) =
        (x ∷ r, p ∙ append_assoc (open_path (e ∷ ds)) (d.component ∷ []) (x ∷ r))

    under :
        (c : Option Bytes)
        → c ≡ some d.component
        → (r : List Bytes) × (last ≡ open_path (e ∷ ds) ++ (d.component ∷ r))
        → Placed c (open_path (e ∷ ds)) last
    under none h p = cc
    under (some x) h (r, p) =
        (r, p ∙ ap (λ c. open_path (e ∷ ds) ++ (c ∷ r)) (some_injective (sym h)))

-- What is left of the stack `ds` when at most `depth` directories stay open behind the root.
abbrev pub Closed : ℕ → List OpenDirectory → List Bytes → List Bytes × List OpenDirectory → Type 0
Closed depth ds last (closed, left) =
    Stacked left last × ((length left ≡ depth + 1) × (open_path left ≡ take depth (open_path ds)))

kept_whole :
    (depth : ℕ) (d : OpenDirectory) (ds : List OpenDirectory) (last : List Bytes)
    → depth < length (d ∷ ds)
    → ltb depth (length ds) ≡ false
    → Stacked (d ∷ ds) last
    → Closed depth (d ∷ ds) last ([], d ∷ ds)
kept_whole depth d ds last h b st =
    let same : length ds ≡ depth = ground (arith, h, b) in
    (
      st,
      (
        ground (arith, same),
        sym (
            ap (λ n. take n (open_path (d ∷ ds))) (sym same ∙ sym (length-open_path d ds))
            ∙ take_all (open_path (d ∷ ds))),
      ),
    )

pub close_to_lem :
    (depth : ℕ) (ds : List OpenDirectory) (last : List Bytes)
    → depth < length ds
    → Stacked ds last
    → Closed depth ds last (close_to depth ds)
close_to_lem depth [] last h st = absurd st
close_to_lem depth (d ∷ []) last h st =
    if-split (Closed depth (d ∷ []) last) (ltb depth 0) (λ b. ground (arith, b))
      (λ b. kept_whole depth d [] last h b st)
close_to_lem depth (d ∷ e ∷ ds) last h st =
    if-split (Closed depth (d ∷ e ∷ ds) last) (ltb depth (length (e ∷ ds)))
      (λ b.
        let (left_st, (left_length, left_path)) =
          close_to_lem depth (e ∷ ds) last (ground (arith, b)) (popped d e ds last st) in
        (
          left_st,
          (
            left_length,
            left_path
                ∙ sym (
                    take_front depth (open_path (e ∷ ds)) (d.component ∷ [])
                      (ground (arith, b, length-open_path e ds))),
          ),
        ))
      (λ b. kept_whole depth d (e ∷ ds) last h b st)

-- Where `enter` puts the next entry, it comes after the last one.
abbrev pub Entered : List Bytes → List Bytes → Result ErrorKind (List OpenDirectory) → Type 0
Entered last next (err k) = Unit
Entered last next (ok ds) = (path_ltb last next ≡ true) × Stacked ds next

before :
    (child : Option Bytes) (here last : List Bytes) (final : Bytes)
    → Placed child here last
    → is_after child final ≡ true
    → path_ltb last (here ++ (final ∷ [])) ≡ true
before none here last final p a = rw p (path_ltb-under here final)
before (some x) here last final (r, p) a = rw p (path_ltb-sibling here x r final a)

entered_last :
    (d : OpenDirectory) (ds : List OpenDirectory) (last : List Bytes) (final : Bytes)
    → Linked (d ∷ ds)
    → Stacked (record d { last_child = some final } ∷ ds) (open_path (d ∷ ds) ++ (final ∷ []))
entered_last d [] last final l = (tt, ([], refl))
entered_last d (e ∷ ds) last final l = (l, ([], refl))

entered_open :
    (path final : Bytes) (d : OpenDirectory) (ds : List OpenDirectory)
    → Linked (d ∷ ds)
    → Stacked
        (record { path = path; component = final; last_child = none }
          ∷ record d { last_child = some final }
          ∷ ds)
        (open_path (d ∷ ds) ++ (final ∷ []))
entered_open path final d [] l = ((refl, tt), refl)
entered_open path final d (e ∷ ds) l = ((refl, l), refl)

pub enter_lem :
    (path final : Bytes) (kind : EntryKind) (ds : List OpenDirectory) (last : List Bytes)
    → Stacked ds last
    → Entered last (open_path ds ++ (final ∷ [])) (enter path final kind ds)
enter_lem path final kind [] last st = tt
enter_lem path final kind (d ∷ ds) last (links, placed) =
    if-split (Entered last (open_path (d ∷ ds) ++ (final ∷ []))) (not (is_after d.last_child final))
      (λ b. tt)
      (λ b. (
        before d.last_child (open_path (d ∷ ds)) last final placed (ground (arith, b)),
        (if-split (λ after. Stacked after (open_path (d ∷ ds) ++ (final ∷ []))) (is_directory kind)
            (λ k. entered_open path final d ds links) (λ k. entered_last d ds last final links)),
      ))
