-- ===== src/Store/Rename/Settles.antt =====
-- The recovery of a rename as a whole, from each of its states.
use quarters.Prelude.{
  ◌≡◌, refl, sym, ap, ◌∙◌, true, not, Option, none, some, if◌then◌else◌, if-true, and-true, ==-refl,
  Bytes, nat_eq, bytes_eq, ok,
}
use quarters.Machine.{effect}
use quarters.Machine.CrashLogic.{
  Triple, Triple-then, Triple-known, Triple-attempted, Triple-return, Triple-follow,
}
use quarters.Store.Rename.{
  Space, Entry, Files, marker_name, RenameMarker, valid_marker, validate_marker, recover_rename,
  recover_one,
}
use quarters.Store.Rename.Places.{place, at_path}
use quarters.Store.Rename.States
use quarters.Store.Rename.States.{
  Phase, idle, begun, marked, moved, done, Renames, mark, with_temporary, new_space, files_of, Is,
  Recoverable, Triple-value,
}
use quarters.Store.Rename.Moves.{sync_at}
use quarters.Store.Rename.Recovers.{recovered_marked, recovered_moved, recovered_renamed}

-- Where a recovery takes a state.
abbrev pub settled : Phase → Phase
settled idle = idle
settled begun = begun
settled marked = idle
settled moved = done
settled States.created = done
settled States.written = done
settled States.renamed = done
settled done = done

module _ (old : Space) (name id : Bytes) (base : Files) (r : Renames old name id) where
  abbrev previous : Bytes
  previous = old.identity.name

  abbrev path : Bytes
  path = marker_name id

  abbrev I : Files → Type 0
  I = Recoverable old name id base

  abbrev S : Phase → Files → Type 0
  S = Is old name id base

  abbrev M : RenameMarker
  M = mark old name id base

  mark_valid : validate_marker M id ≡ true
  unfolding validate_marker
  mark_valid = and-true (and-true (and-true refl (==-refl id)) (ap not r.names.moves)) r.stable

  -- The marker that a recovery finds.
  abbrev marker_at : Phase → Option RenameMarker
  marker_at idle = none
  marker_at begun = none
  marker_at done = none
  marker_at _ = some M

  looked_up :
      (p : Phase) (s d m : Option Entry)
      → files_of old name id base p ≡ place previous name path base s d m
      → valid_marker id m ≡ marker_at p
      → Triple I
          (S p)
          (effect (λ f. (f, ok (valid_marker id (f.at path)))))
          (λ x f. (x ≡ marker_at p) × S p f)
  looked_up p s d m e v =
      Triple-value old name id base (λ f. (f, ok (valid_marker id (f.at path)))) p p (marker_at p)
        (ap (λ z. (files_of old name id base p, ok z))
          (ap (λ f. valid_marker id (f.at path)) e
            ∙ (ap (valid_marker id) (at_path previous name path base r.names s d m) ∙ v)))

  valid : ◌≡◌ {A = Option RenameMarker} (if validate_marker M id then some M else none) (some M)
  valid = if-true _ _ mark_valid

  left :
      (p : Phase) (s d m : Option Entry)
      → files_of old name id base p ≡ place previous name path base s d m
      → valid_marker id m ≡ none
      → marker_at p ≡ none
      → Triple I (S p) (recover_rename id) (λ _. S p)
  unfolding recover_rename
  left p s d m e v n =
      Triple-known _ _ (Triple-follow (λ x f (a, b). (a ∙ n, b)) (looked_up p s d m e (v ∙ sym n)))
        (Triple-then _ _ (Triple-return tt (λ f q. q)) (sync_at old name id base r p))

  done_with :
      (p q : Phase) (s d m : Option Entry)
      → files_of old name id base p ≡ place previous name path base s d m
      → valid_marker id m ≡ some M
      → marker_at p ≡ some M
      → Triple I (S p) (recover_one path M) (λ _. S q)
      → Triple I (S p) (recover_rename id) (λ _. S q)
  unfolding recover_rename
  done_with p q s d m e v n t =
      Triple-known _ _ (Triple-follow (λ x f (a, b). (a ∙ n, b)) (looked_up p s d m e (v ∙ sym n)))
        (Triple-then _ _ (Triple-attempted _ _ t (λ _. Triple-return tt (λ f q. q)))
          (sync_at old name id base r q))

  pub recover_rename-Triple : (p : Phase) → Triple I (S p) (recover_rename id) (λ _. S (settled p))
  recover_rename-Triple idle = left idle _ _ _ refl refl refl
  recover_rename-Triple begun = left begun _ _ _ refl refl refl
  recover_rename-Triple done = left done _ _ _ refl refl refl
  recover_rename-Triple marked =
      done_with marked idle _ _ _ refl valid refl (recovered_marked old name id base r)
  recover_rename-Triple moved =
      done_with moved done _ _ _ refl valid refl (recovered_moved old name id base r moved _ refl)
  recover_rename-Triple States.created =
      done_with States.created done _ _ _ refl valid refl
        (recovered_moved old name id base r States.created _ refl)
  recover_rename-Triple States.written =
      done_with States.written done _ _ _ refl valid refl
        (recovered_moved old name id base r States.written _ refl)
  recover_rename-Triple States.renamed =
      done_with States.renamed done _ _ _ refl valid refl (recovered_renamed old name id base r)
