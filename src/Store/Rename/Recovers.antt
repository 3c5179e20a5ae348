-- ===== src/Store/Rename/Recovers.antt =====
-- The recovery of a rename, from each of its states.
use quarters.Prelude.{
  ◌≡◌, refl, sym, ap, ◌∙◌, subst, true, false, ◌&&◌, not, Option, none, some, is_some, if-true,
  if-false, and-true, ==-refl, Bytes, nat_eq, bytes_eq, ok, err,
}
use quarters.Error.{corrupt_state}
use quarters.Machine.{◌>>◌}
use quarters.Machine.CrashLogic.{
  Triple, Triple-then, Triple-passes, Triple-known, Triple-attempted, Triple-return,
}
use quarters.Rollback.Model.{SourceIdentity, matches, matches_refl}
use quarters.Store.Rename.{
  Temporary, absent, Space, RenameMarker, Entry, space, marker, Files, marker_name, entry_exists,
  opened, removed, remove_file, removed_temporary, cleanup_manifest_temporary,
  complete_moved_rename, open_either, recover_moved, recover_places, recover_one,
}
use quarters.Store.Rename.Places.{place, at_previous, at_name, at_path, set_path}
use quarters.Store.Rename.States
use quarters.Store.Rename.States.{
  Phase, idle, begun, marked, moved, done, Renames, mark, new_identity, with_temporary, new_space,
  files_of, Is, Recoverable, Triple-value, Triple-moves, Triple-fails,
}
use quarters.Store.Rename.Moves.{opens, space_changed, new_opened, rename_completed, marker_removed}

matches_renamed :
    (i : SourceIdentity) (n : Bytes)
    → is_some i.space_id ≡ true
    → matches i (record i { name = n }) ≡ true
unfolding matches
matches_renamed i n h = by_id i.space_id h
  where
    by_id :
        (o : Option Bytes)
        → is_some o ≡ true
        → matches (record i { space_id = o }) (record i { name = n; space_id = o }) ≡ true
    by_id none e = cc
    by_id (some x) e =
        and-true (and-true (==-refl x) (==-refl i.created_unix_ms)) (==-refl i.schema_version)

module _ (old : Space) (name id : Bytes) (base : Files) (r : Renames old name id) where
  abbrev previous : Bytes
  previous = old.identity.name

  abbrev path : Bytes
  path = marker_name id

  abbrev I : Files → Type 0
  I = Recoverable old name id base

  abbrev S : Phase → Files → Type 0
  S = Is old name id base

  abbrev M : RenameMarker
  M = mark old name id base

  abbrev put : Option Entry → Option Entry → Option Entry → Files
  put = place previous name path base

  -- Which of the two names has an entry.
  exists_at :
      (p : Phase) (s d m : Option Entry)
      → files_of old name id base p ≡ put s d m
      → Triple I (S p) (entry_exists previous) (λ x f. (x ≡ is_some s) × S p f)
  exists_at p s d m e =
      Triple-value old name id base (λ f. (f, ok (is_some (f.at previous)))) p p (is_some s)
        (ap (λ z. (files_of old name id base p, ok (is_some z)))
          (ap (λ f. f.at previous) e ∙ at_previous previous name path base r.names s d m))

  exists_new :
      (p : Phase) (s d m : Option Entry)
      → files_of old name id base p ≡ put s d m
      → Triple I (S p) (entry_exists name) (λ x f. (x ≡ is_some d) × S p f)
  exists_new p s d m e =
      Triple-value old name id base (λ f. (f, ok (is_some (f.at name)))) p p (is_some d)
        (ap (λ z. (files_of old name id base p, ok (is_some z)))
          (ap (λ f. f.at name) e ∙ at_name previous name path base r.names s d m))

  -- recover_one, where the entries call for `recover_places` to go from `p` to `q`.
  recovered :
      (p q t : Phase) (s d m : Option Entry)
      → files_of old name id base p ≡ put s d m
      → Triple I (S p) (recover_places M (is_some s) (is_some d)) (λ _. S q)
      → Triple I (S q) (remove_file path) (λ _. S t)
      → Triple I (S p) (recover_one path M) (λ _. S t)
  unfolding recover_one
  recovered p q t s d m e places removes =
      Triple-known _ _ (exists_at p s d m e)
        (Triple-known _ _ (exists_new p s d m e) (Triple-then _ _ places removes))

  abbrev kept : Option Entry
  kept = some (marker M)

  abbrev old_space : Space
  old_space = with_temporary old name id base absent

  marker_dropped : Triple I (S marked) (remove_file path) (λ _. S idle)
  marker_dropped =
      Triple-moves old name id base (λ f. removed path f (f.at path)) marked idle tt
        (ap (removed path (files_of old name id base marked))
            (at_path previous name path base r.names _ _ _)
          ∙ ap (λ z. (z, ok tt)) (set_path previous name path base r.names _ _ _ _))

  pub recovered_marked : Triple I (S marked) (recover_one path M) (λ _. S idle)
  unfolding recover_places
  recovered_marked =
      recovered marked marked idle (some (space old_space)) none kept refl places marker_dropped
    where
      places : Triple I (S marked) (recover_places M true false) (λ _. S marked)
      places =
          (Triple-known _ _
            (Triple-value old name id base (λ f. (f, opened previous (f.at previous))) marked marked
              old_space
              (ap (λ z. (files_of old name id base marked, opened previous z))
                  (at_previous previous name path base r.names _ _ _)
                ∙ ap (λ z. (files_of old name id base marked, z))
                    (opens old_space previous r.anchors refl)))
            (Triple-passes (not (matches old.identity old.identity)) corrupt_state
              (ap not (matches_refl old.identity))))

  -- A phase with the directory moved and its manifest not yet replaced.
  pub recovered_moved :
      (p : Phase) (t : Temporary)
      → files_of old name id base p
        ≡ put none (some (space (with_temporary old name id base t))) kept
      → Triple I (S p) (recover_one path M) (λ _. S done)
  unfolding recover_places recover_moved open_either cleanup_manifest_temporary
  recovered_moved p t e =
      recovered p States.renamed done none (some (space (with_temporary old name id base t))) kept e
        places (marker_removed old name id base r)
    where
      found : Space
      found = with_temporary old name id base t

      either : Triple I (S p) (open_either name previous name) (λ x s. (x ≡ found) × S p s)
      either =
          (Triple-attempted _ _
            (new_opened old name id base r p found kept previous e r.anchors refl)
            (λ x. Triple-return x (λ s q. q)))

      finish :
          Triple I
            (S p)
            (cleanup_manifest_temporary name >> complete_moved_rename name M)
            (λ _. S States.renamed)
      finish =
          Triple-then _ _
            ((space_changed old name id base r p moved found old_space kept removed_temporary e refl
              refl))
            (rename_completed old name id base r)

      places : Triple I (S p) (recover_places M false true) (λ _. S States.renamed)
      places =
          (Triple-known _ _ either (
            Triple-then _ _
              (Triple-passes (not (matches old.identity old.identity)) corrupt_state
                (ap not (matches_refl old.identity)))
              (subst (λ z. Triple {A = Unit {0}} I (S p) z (λ _. S States.renamed))
                (sym (if-true _ _ (==-refl previous))) finish)))

  pub recovered_renamed : Triple I (S States.renamed) (recover_one path M) (λ _. S done)
  unfolding recover_places recover_moved open_either
  recovered_renamed =
      recovered States.renamed States.renamed done none (some (space found)) kept refl places
        (marker_removed old name id base r)
    where
      found : Space
      found = new_space old name id base

      refused : opened previous (some (space found)) ≡ err corrupt_state
      refused = if-false _ _ (
          ap (λ b. old.anchors && (old.stored && b)) r.names.back
          ∙ (ap (λ a. a && (old.stored && false)) r.anchors.0 ∙ ap (λ a. a && false) r.anchors.1))

      either :
          Triple I
            (S States.renamed)
            (open_either name previous name)
            (λ x s. (x ≡ found) × S States.renamed s)
      either =
          (Triple-known _ _
            (Triple-fails old name id base (λ f. (f, opened previous (f.at name))) States.renamed
              corrupt_state
              (ap (λ z. (files_of old name id base States.renamed, opened previous z))
                  (at_name previous name path base r.names _ _ _)
                ∙ ap (λ z. (files_of old name id base States.renamed, z)) refused))
            (new_opened old name id base r States.renamed found kept name refl r.anchors refl))

      places : Triple I (S States.renamed) (recover_places M false true) (λ _. S States.renamed)
      places =
          (Triple-known _ _ either (
            Triple-then _ _
              (Triple-passes (not (matches old.identity (new_identity old name id base)))
                corrupt_state (ap not (matches_renamed old.identity name r.stable)))
              (subst (λ z. Triple {A = Unit {0}} I (S States.renamed) z (λ _. S States.renamed))
                (sym (if-false _ _ r.names.back)) (Triple-return tt (λ s q. q)))))
