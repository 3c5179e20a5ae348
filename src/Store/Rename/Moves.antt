-- ===== src/Store/Rename/Moves.antt =====
-- The rename of a space, through its states.
use quarters.Prelude.{
  ◌≡◌, refl, ap, ◌∙◌, false, not, Option, none, some, is_some, if-true, and-true, ◌==◌, Bytes,
  bytes_beq_iff, nat_eq, bytes_eq, Result, ok, err,
}
use quarters.Error.{ErrorKind, corrupt_state, invalid_input, unsupported, already_exists}
use quarters.Machine.CrashLogic.{
  Triple, Triple-then, Triple-passes, Triple-ok, Triple-known, Triple-attempted, Triple-return,
}
use quarters.Rollback.Model.{matches, matches_refl}
use quarters.Store.Rename.{
  absent, Space, IsOpenable, Entry, space, marker, Files, marker_name, set, entry_exists,
  sync_directory, opened, open_relocated_path, renamed, rename, removed, remove_file, created,
  write_marker, in_space, change_space, created_temporary, written_temporary, installed_temporary,
  after_install, replace_manifest, complete_moved_rename, after_move, rename_space,
}
use quarters.Store.Rename.Places.{
  place, at_previous, at_name, at_path, set_previous, set_name, set_path,
}
use quarters.Store.Rename.States
use quarters.Store.Rename.States.{
  Phase, idle, begun, marked, moved, done, Renames, mark, new_identity, with_temporary, new_space,
  files_of, Is, Recoverable, Triple-value, Triple-moves, Triple-fails,
}

pub opens :
    (s : Space) (n : Bytes) → IsOpenable s → s.identity.name ≡ n → opened n (some (space s)) ≡ ok s
opens s n a e = if-true _ _ (and-true a.0 (and-true a.1 ((bytes_beq_iff s.identity.name n).1 e)))

module _ (old : Space) (name id : Bytes) (base : Files) (r : Renames old name id) where
  abbrev previous : Bytes
  previous = old.identity.name

  abbrev path : Bytes
  path = marker_name id

  abbrev I : Files → Type 0
  I = Recoverable old name id base

  abbrev S : Phase → Files → Type 0
  S = Is old name id base

  -- What the phases show under the three names.
  abbrev previous_is :
      (s d m : Option Entry) → (place previous name path base s d m).at previous ≡ s
  previous_is = at_previous previous name path base r.names

  abbrev name_is : (s d m : Option Entry) → (place previous name path base s d m).at name ≡ d
  name_is = at_name previous name path base r.names

  abbrev path_is : (s d m : Option Entry) → (place previous name path base s d m).at path ≡ m
  path_is = at_path previous name path base r.names

  pub sync_at : (p : Phase) → Triple I (S p) sync_directory (λ _. S p)
  sync_at p = Triple-moves old name id base (λ f. (f, ok tt)) p p tt refl

  old_opened :
      Triple I
        (S idle)
        (open_relocated_path previous previous)
        (λ x s. (x ≡ with_temporary old name id base absent) × S idle s)
  old_opened =
      Triple-value old name id base (λ f. (f, opened previous (f.at previous))) idle idle _
        (ap (λ z. (files_of old name id base idle, opened previous z)) (previous_is _ _ _)
          ∙ ap (λ z. (files_of old name id base idle, z))
              (opens (with_temporary old name id base absent) previous r.anchors refl))

  name_free : Triple I (S idle) (entry_exists name) (λ x s. (x ≡ false) × S idle s)
  name_free =
      Triple-value old name id base (λ f. (f, ok (is_some (f.at name)))) idle idle false
        (ap (λ z. (files_of old name id base idle, ok (is_some z))) (name_is _ _ _))

  marker_written : Triple I (S idle) (write_marker path (mark old name id base)) (λ _. S marked)
  unfolding write_marker
  marker_written =
      Triple-then _ _
        (Triple-moves old name id base (λ f. created path f (f.at path)) idle begun tt
          (ap (created path (files_of old name id base idle)) (path_is _ _ _)
            ∙ ap (λ z. (z, ok tt)) (set_path previous name path base r.names _ _ _ _)))
        (Triple-moves old name id base
          (λ f. (set path (some (marker (mark old name id base))) f, ok tt)) begun marked tt
          (ap (λ z. (z, ok tt)) (set_path previous name path base r.names _ _ _ _)))

  directory_moved : Triple I (S marked) (rename previous name) (λ _. S moved)
  directory_moved =
      Triple-moves old name id base (λ f. renamed previous name f (f.at previous) (f.at name))
        marked moved tt
        (ap
            (λ z.
              renamed previous name (files_of old name id base marked) z
                ((files_of old name id base marked).at name))
            (previous_is _ _ _)
          ∙ (ap
                (renamed previous name (files_of old name id base marked)
                  (some (space (with_temporary old name id base absent))))
                (name_is _ _ _)
              ∙ ap (λ z. (z, ok tt))
                  (ap (set name (some (space (with_temporary old name id base absent))))
                      (set_previous previous name path base r.names _ _ _ _)
                    ∙ set_name previous name path base r.names _ _ _ _)))

  abbrev kept : Option Entry
  kept = some (marker (mark old name id base))

  abbrev at_new : Space → Option Entry → Files
  at_new s m = place previous name path base none (some (space s)) m

  -- A change of the space under the new name.
  pub space_changed :
      (p q : Phase) (a b : Space) (m : Option Entry) (change : Space → Result ErrorKind Space)
      → files_of old name id base p ≡ at_new a m
      → at_new b m ≡ files_of old name id base q
      → change a ≡ ok b
      → Triple I (S p) (change_space name change) (λ _. S q)
  space_changed p q a b m change e g h =
      Triple-moves old name id base (λ f. in_space name change f (f.at name)) p q tt
        (ap (λ f. in_space name change f (f.at name)) e
          ∙ (ap (in_space name change (at_new a m)) (name_is _ _ _)
              ∙ (ap
                    (λ x. elim x [
                      | ok after ↦ (set name (some (space after)) (at_new a m), ok tt)
                      | err k ↦ (at_new a m, err k)
                    ])
                    h
                  ∙ ap (λ z. (z, ok tt)) (set_name previous name path base r.names _ _ _ _ ∙ g))))

  -- The space under the new name, opened.
  pub new_opened :
      (p : Phase) (a : Space) (m : Option Entry) (n : Bytes)
      → files_of old name id base p ≡ at_new a m
      → IsOpenable a
      → a.identity.name ≡ n
      → Triple I (S p) (open_relocated_path name n) (λ x s. (x ≡ a) × S p s)
  new_opened p a m n e v h =
      Triple-value old name id base (λ f. (f, opened n (f.at name))) p p a
        (ap (λ z. (files_of old name id base p, opened n z))
            (ap (λ f. f.at name) e ∙ name_is none (some (space a)) m)
          ∙ ap (λ z. (files_of old name id base p, z)) (opens a n v h))

  manifest_replaced :
      Triple I
        (S moved)
        (replace_manifest name old.stored (new_identity old name id base))
        (λ _. S States.renamed)
  unfolding replace_manifest after_install
  manifest_replaced =
      Triple-then _ _ (Triple-passes (not old.stored) corrupt_state (ap not r.anchors.1)) (
        Triple-then _ _
          (space_changed moved States.created _ _ kept created_temporary refl refl refl)
          (Triple-then _ _
            (space_changed States.created States.written _ _ kept
              (written_temporary (new_identity old name id base)) refl refl refl)
            (Triple-attempted _ _
              (space_changed States.written States.renamed _ _ kept installed_temporary refl refl
                refl)
              (λ _. sync_at States.renamed))))

  pub rename_completed :
      Triple I
        (S moved)
        (complete_moved_rename name (mark old name id base))
        (λ _. S States.renamed)
  unfolding complete_moved_rename
  rename_completed =
      Triple-known _ _
        (new_opened moved (with_temporary old name id base absent) kept previous refl r.anchors
          refl)
        (Triple-then _ _
          (Triple-passes (not (matches old.identity old.identity)) corrupt_state
            (ap not (matches_refl old.identity)))
          manifest_replaced)

  pub marker_removed : Triple I (S States.renamed) (remove_file path) (λ _. S done)
  marker_removed =
      Triple-moves old name id base (λ f. removed path f (f.at path)) States.renamed done tt
        (ap (removed path (files_of old name id base States.renamed)) (path_is _ _ _)
          ∙ ap (λ z. (z, ok tt)) (set_path previous name path base r.names _ _ _ _))

  pub rename_space-Triple : Triple I (S idle) (rename_space (ok tt) id previous name) (λ _. S done)
  unfolding rename_space after_move
  rename_space-Triple =
      Triple-then _ _ (Triple-passes (previous == name) invalid_input r.names.moves) (
        Triple-then _ _ (Triple-ok (ok tt) refl) (
          Triple-known _ _ old_opened (
            Triple-then _ _
              (Triple-passes (not (is_some old.identity.space_id)) unsupported (ap not r.stable))
              (Triple-known _ _ name_free (
                Triple-then _ _ (Triple-passes false already_exists refl) (
                  Triple-then _ _ marker_written (
                    Triple-then _ _ (sync_at marked)
                      (Triple-attempted _ _ directory_moved (λ _. after)))))))))
    where
      after : Triple I (S moved) (after_move id (mark old name id base) (some tt)) (λ _. S done)
      after = Triple-then _ _ (sync_at moved) (
          Triple-then _ _ rename_completed (
            Triple-then _ _ marker_removed (
              Triple-then _ _ (sync_at done) (
                Triple-known _ _
                  (new_opened done (new_space old name id base) none name refl r.anchors refl)
                  (Triple-return tt (λ s p. p))))))
