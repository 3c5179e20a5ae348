-- ===== src/Store/Manifest/Identity.antt =====
-- The identity that a valid manifest gives, and what the writers of manifests do to it.
use quarters.Prelude.{
  ℕ, ◌≤◌, ◌<◌, ◌≡◌, refl, subst, ◌⊎◌, inr, Bool, true, false, ◌||◌, not, Option, none, some, arith,
  ltb, nat_beq, nat_beq_iff, is_some, u64_max, if-split, and-true, ◌==◌, ==-refl, Bytes, nat_eq,
  bytes_eq, Result, ok, err, ◌>>=◌, ◌>>◌, reject_if, reject_then, and_then, reject_ok, not-false,
}
use quarters.Error.{ErrorKind, corrupt_state, unsupported}
use quarters.Names.{SpaceId, generate_space_id}
use quarters.Rollback.Model.{profile_schema_version, matches, matches_refl}
use quarters.Bundle.Header.{
  SpaceLayout, profile, workspace, workspace_schema_version, stable_schema_version,
  valid_source_identity,
}
use quarters.Store.Policy.{is_absolute}
use quarters.Store.Manifest.{
  SpaceManifest, effective_layout, for_space, validate_manifest_layout, authority_model,
  validate_stored_manifest, fresh_manifest, is_profile, upgrade_manifest,
}

-- What validate_stored_manifest accepts of schema, layout and id.
abbrev pub Coherent : ℕ → Option SpaceLayout → Option Bytes → Type 0
Coherent schema layout id =
    ((schema ≡ profile_schema_version) × ((layout ≡ none) × (id ≡ none)))
    ⊎ (((schema ≡ workspace_schema_version) × ((layout ≡ some workspace) × (is_some id ≡ true)))
        ⊎ ((schema ≡ stable_schema_version) × ((is_some layout ≡ true) × (is_some id ≡ true))))

validate_manifest_layout-Coherent :
    (m : SpaceManifest)
    → validate_manifest_layout m ≡ ok tt
    → Coherent m.schema_version m.layout m.space_id
unfolding validate_manifest_layout
validate_manifest_layout-Coherent m h = ground (arith, h)

pub record Stored (m : SpaceManifest) : Type 0 where
  pub coherent : Coherent m.schema_version m.layout m.space_id
  pub authority : (m.authority_model == authority_model) ≡ true
  pub time : m.created_unix_ms ≤ u64_max
  pub shell : is_absolute m.default_shell ≡ true

pub validate_stored_manifest-Stored :
    (m : SpaceManifest) → validate_stored_manifest m ≡ ok tt → Stored m
unfolding validate_stored_manifest
validate_stored_manifest-Stored m h =
    let (l, h1) = and_then (validate_manifest_layout m) _ tt h in
    let (a, h2) = reject_then (not (m.authority_model == authority_model)) corrupt_state _ tt h1 in
    let (t, h3) = reject_then (ltb u64_max m.created_unix_ms) corrupt_state _ tt h2 in
    let s = reject_ok (not (is_absolute m.default_shell)) corrupt_state h3 in
    record {
      coherent = validate_manifest_layout-Coherent m l;
      authority = not-false _ a;
      time = ground (arith, t);
      shell = not-false _ s;
    }

layout_valid :
    (m : SpaceManifest)
    → Coherent m.schema_version m.layout m.space_id
    → validate_manifest_layout m ≡ ok tt
unfolding validate_manifest_layout
layout_valid m c = ground (arith, c)

Stored-valid : (m : SpaceManifest) → Stored m → validate_stored_manifest m ≡ ok tt
unfolding validate_stored_manifest
Stored-valid m s =
    let in_time : ltb u64_max m.created_unix_ms ≡ false = ground (arith, s.time) in
    rw (layout_valid m s.coherent, s.authority, in_time, s.shell) refl

-- A stored manifest with a creation time gives an identity that the checks of artifacts and of
-- bundle headers accept for the layout in effect.
pub validate_stored_manifest-identity :
    (m : SpaceManifest)
    → validate_stored_manifest m ≡ ok tt
    → 0 < m.created_unix_ms
    → valid_source_identity (for_space m) (effective_layout m) ≡ true
unfolding for_space effective_layout valid_source_identity
validate_stored_manifest-identity m h t =
    let s = validate_stored_manifest-Stored m h in let c = s.coherent in ground (arith, c, t)

abbrev Made : Result ErrorKind SpaceManifest → (SpaceManifest → Type 0) → Type 0
Made (ok m) P = P m
Made (err k) P = Unit

id_made :
    (r : Result ErrorKind SpaceId) (f : SpaceId → SpaceManifest) (P : SpaceManifest → Type 0)
    → ((id : SpaceId) → P (f id))
    → Made (r >>= λ id. ok (f id)) P
id_made (ok id) f P h = h id
id_made (err k) f P h = tt

made :
    (r : Result ErrorKind SpaceManifest) (P : SpaceManifest → Type 0) (m : SpaceManifest)
    → Made r P
    → r ≡ ok m
    → P m
made (ok m') P m h e = subst P (inner e) h
  where
    inner : {a b : SpaceManifest} → ◌≡◌ {A = Result ErrorKind SpaceManifest} (ok a) (ok b) → a ≡ b
    inner e = cc
made (err k) P m h e = cc

-- For an absolute shell and a clock reading of at most 64 bits, the manifest that a new space gets,
-- created or made from a template, is one that the store accepts when it opens the space.
pub fresh_manifest-validate_stored_manifest :
    (name shell : Bytes) (layout : SpaceLayout) (random : Option Bytes) (now : ℕ)
    (m : SpaceManifest)
    → is_absolute shell ≡ true
    → now ≤ u64_max
    → fresh_manifest name shell layout random now ≡ ok m
    → validate_stored_manifest m ≡ ok tt
unfolding fresh_manifest
fresh_manifest-validate_stored_manifest name shell layout random now m a t e =
    made (fresh_manifest name shell layout random now) (λ m. validate_stored_manifest m ≡ ok tt) m
      (id_made (generate_space_id random)
        (λ id. record {
          schema_version = stable_schema_version;
          layout = some layout;
          space_id = some id.text;
          name = name;
          created_unix_ms = now;
          default_shell = shell;
          authority_model = authority_model;
        })
        (λ m. validate_stored_manifest m ≡ ok tt)
        (λ id. Stored-valid _ (record {
          coherent = inr (inr (refl, (refl, refl)));
          authority = refl;
          time = t;
          shell = a;
        })))
      e

-- What an upgrade makes of a manifest: the store accepts it, it has a stable identity, and what was
-- captured from the space before is still recognised as captured from it.
abbrev pub Upgraded : SpaceManifest → SpaceManifest → Type 0
Upgraded m m' =
    (validate_stored_manifest m' ≡ ok tt)
    × ((is_some m'.space_id ≡ true) × (matches (for_space m) (for_space m') ≡ true))

assigned : SpaceManifest → SpaceId → SpaceManifest
assigned m id = record m {
  schema_version = stable_schema_version;
  layout = some profile;
  space_id = some id.text;
}

assigned-Upgraded :
    (m : SpaceManifest) (id : SpaceId)
    → Stored m
    → m.space_id ≡ none
    → m.schema_version ≡ profile_schema_version
    → Upgraded m (assigned m id)
unfolding assigned matches for_space
assigned-Upgraded m id s n e = (
  Stored-valid (assigned m id) (record {
    coherent = inr (inr (refl, (refl, refl)));
    authority = s.authority;
    time = s.time;
    shell = s.shell;
  }),
  (
    refl,
    rw n (
        and-true
          (and-true ((nat_beq_iff m.schema_version profile_schema_version).1 e) (==-refl m.name))
          ((nat_beq_iff m.created_unix_ms m.created_unix_ms).1 refl)),
  ),
)

abbrev legacy_test : SpaceManifest → Bool
legacy_test m =
    not (nat_beq m.schema_version profile_schema_version) || not (is_profile (effective_layout m))

not_some : (o : Option Bytes) → is_some o ≡ false → o ≡ none
not_some none h = refl
not_some (some x) h = cc

reject_made :
    (b : Bool) (k : ErrorKind) (r : Result ErrorKind SpaceManifest) (P : SpaceManifest → Type 0)
    → (b ≡ false → Made r P)
    → Made (reject_if b k >> r) P
reject_made true k r P h = tt
reject_made false k r P h = h refl

-- From a manifest that the store accepts, an upgrade that succeeds makes one that the store accepts,
-- with a stable id, and what was captured from the space before the upgrade still matches it.
pub upgrade_manifest-Upgraded :
    (m m' : SpaceManifest) (random : Option Bytes)
    → validate_stored_manifest m ≡ ok tt
    → upgrade_manifest m random ≡ ok m'
    → Upgraded m m'
unfolding upgrade_manifest assigned
upgrade_manifest-Upgraded m m' random h e =
    made (upgrade_manifest m random) (Upgraded m) m'
      (if-split (λ r. Made r (Upgraded m)) (is_some m.space_id)
        (λ i. (h, (i, matches_refl (for_space m))))
        (λ i. reject_made (legacy_test m) unsupported _ (Upgraded m) λ t.
          id_made (generate_space_id random) (assigned m) (Upgraded m) λ id.
            assigned-Upgraded m id (validate_stored_manifest-Stored m h) (not_some m.space_id i)
              (ground (arith, t))))
      e
