-- ===== src/Store/Rename/States.antt =====
-- The states that a rename goes through, and single operations between them.
use quarters.Prelude.{
  ◌≡◌, refl, sym, subst, true, none, some, is_some, Bytes, nat_eq, bytes_eq, Result, ok, err,
}
use quarters.Error.{ErrorKind}
use quarters.Machine.{effect, attempt}
use quarters.Machine.CrashLogic.{Triple, Triple-effect, Triple-refused, Triple-follow, Does}
use quarters.Rollback.Model.{SourceIdentity}
use quarters.Store.Rename.{
  Temporary, absent, partial, complete, Space, IsOpenable, RenameMarker, space, marker, damaged,
  Files, marker_name, new_marker,
}
use quarters.Store.Rename.Places.{Names, place}

-- The steps on the disk: nothing yet, the marker's file, the marker, the directory moved, its temporary
-- manifest, that written, the manifest replaced, and the marker removed.
pub data Phase : Type 0 where
  idle begun marked moved created written renamed done : Phase

-- A space that can be opened, with a stable id, and names that differ.
pub record Renames (old : Space) (name id : Bytes) : Type 0 where
  pub anchors : IsOpenable old
  pub stable : is_some old.identity.space_id ≡ true
  pub names : Names old.identity.name name (marker_name id)

module _ (old : Space) (name id : Bytes) (base : Files) where
  abbrev pub mark : RenameMarker
  mark = new_marker id old.identity.name name old.identity

  abbrev pub new_identity : SourceIdentity
  new_identity = record old.identity { name = name }

  -- The old space with a temporary manifest, and the new space.
  abbrev pub with_temporary : Temporary → Space
  with_temporary t = record old { temporary = t }

  abbrev pub new_space : Space
  new_space = record old { identity = new_identity; temporary = absent }

  abbrev pub files_of : Phase → Files
  files_of phase =
      let put = place old.identity.name name (marker_name id) base in
      elim phase [
        | idle ↦ put (some (space (with_temporary absent))) none none
        | begun ↦ put (some (space (with_temporary absent))) none (some damaged)
        | marked ↦ put (some (space (with_temporary absent))) none (some (marker mark))
        | moved ↦ put none (some (space (with_temporary absent))) (some (marker mark))
        | created ↦ put none (some (space (with_temporary partial))) (some (marker mark))
        | written ↦
            put none (some (space (with_temporary (complete new_identity)))) (some (marker mark))
        | renamed ↦ put none (some (space new_space)) (some (marker mark))
        | done ↦ put none (some (space new_space)) none
      ]

  abbrev pub Is : Phase → Files → Type 0
  Is phase f = f ≡ files_of phase

  abbrev pub Recoverable : Files → Type 0
  Recoverable f = (phase : Phase) × Is phase f

  pub Triple-value :
      {A : Type 0} (f : Files → Files × Result ErrorKind A) (p q : Phase) (a : A)
      → f (files_of p) ≡ (files_of q, ok a)
      → Triple Recoverable (Is p) (effect f) (λ x g. (x ≡ a) × Is q g)
  Triple-value {A} f p q a h =
      Triple-effect f (λ s e. (p, e))
        λ s e.
          subst (λ z. Does (λ x g. (x ≡ a) × Is q g) (f z)) (sym e)
            (subst (Does (λ x g. (x ≡ a) × Is q g)) (sym h) (refl, refl))

  pub Triple-moves :
      {A : Type 0} (f : Files → Files × Result ErrorKind A) (p q : Phase) (a : A)
      → f (files_of p) ≡ (files_of q, ok a)
      → Triple Recoverable (Is p) (effect f) (λ _. Is q)
  Triple-moves f p q a h = Triple-follow (λ x s (e, i). i) (Triple-value f p q a h)

  pub Triple-fails :
      {A : Type 0} (f : Files → Files × Result ErrorKind A) (p : Phase) (k : ErrorKind)
      → f (files_of p) ≡ (files_of p, err k)
      → Triple Recoverable (Is p) (attempt (effect f)) (λ o s. (o ≡ none) × Is p s)
  Triple-fails f p k h =
      Triple-refused f k (λ s e. (p, e)) λ s e. subst (λ z. f z ≡ (z, err k)) (sym e) h
