-- ===== src/Artifact/Manifest/Validated.antt =====
-- What the validation of an artifact's manifest establishes.
use quarters.Prelude.{
  ◌≡◌, refl, ◌≢◌, ◌⊎◌, inl, inr, true, false, ◌&&◌, not, Option, none, some, arith, nat_beq,
  nat_beq_iff, Bool-cases, is_some, nat_eq, bytes_eq, ok, reject_then, and_then, not-false,
}
use quarters.Error.{corrupt_state}
use quarters.Rollback.Model.{SourceIdentity}
use quarters.Bundle.Header.{SpaceLayout, valid_source_identity, validate_content_integrity}
use quarters.Store.Policy.{is_absolute}
use quarters.Artifact.Manifest.{
  ArtifactKind, template, snapshot, ArtifactManifest, ImportedBundleProvenance,
  imported_artifact_schema_version, local_artifact_schema_version, kind_beq, is_automatic,
  is_platform, is_artifact_schema, local_binding, validate_source_binding, is_valid_provenance,
  has_valid_provenance, validate_imported_provenance, validate_source_quiescence, validate,
}

-- Where the content of an artifact is from: a bundle, with its authenticated provenance and no claim
-- on a space of this store, or a space of this store, and no bundle.
abbrev pub Imported : ArtifactManifest → Type 0
Imported m =
    (m.schema_version ≡ imported_artifact_schema_version)
    × ((m.kind ≡ template)
        × ((m.source_identity ≡ none)
            × ((m.source_quiescence ≡ none)
                × ((p : ImportedBundleProvenance) × ((m.imported_bundle ≡ some p)
                      × (is_valid_provenance m.source_layout p ≡ true))))))

abbrev pub Local : ArtifactManifest → Type 0
Local m =
    (m.schema_version ≢ imported_artifact_schema_version)
    × ((m.imported_bundle ≡ none)
        × ((is_some m.source_quiescence ≡ nat_beq m.schema_version local_artifact_schema_version)
            × ((source : SourceIdentity) × ((m.source_identity ≡ some source)
                  × (valid_source_identity source m.source_layout ≡ true)))))

pub record Checks (m : ArtifactManifest) (k : ArtifactKind) : Type 0 where
  pub schema : is_artifact_schema m.schema_version ≡ true
  pub kind : kind_beq m.kind k ≡ true
  pub created : nat_beq m.created_unix_ms 0 ≡ false
  pub binding : validate_source_binding m ≡ ok tt
  pub platform : is_platform m.source_platform ≡ true
  pub shell : is_absolute m.default_shell ≡ true
  pub sensitive : m.includes_sensitive_state ≡ true
  pub automatic : (is_automatic m.origin && not (kind_beq m.kind snapshot)) ≡ false
  pub provenance : validate_imported_provenance m ≡ ok tt
  pub quiescence : validate_source_quiescence m ≡ ok tt
  pub integrity : validate_content_integrity m.content_integrity ≡ ok tt

pub validate-Checks : (m : ArtifactManifest) (k : ArtifactKind) → validate m k ≡ ok tt → Checks m k
unfolding validate
validate-Checks m k h =
    let (a, h1) = reject_then _ corrupt_state _ tt h in
    let (b, h2) = reject_then _ corrupt_state _ tt h1 in
    let (c, h3) = reject_then _ corrupt_state _ tt h2 in
    let (d, h4) = and_then _ _ tt h3 in
    let (e, h5) = reject_then _ corrupt_state _ tt h4 in
    let (f, h6) = reject_then _ corrupt_state _ tt h5 in
    let (g, h7) = reject_then _ corrupt_state _ tt h6 in
    let (i, h8) = reject_then _ corrupt_state _ tt h7 in
    let (j, h9) = and_then _ _ tt h8 in
    let (l, n) = and_then _ _ tt h9 in
    record {
      schema = not-false _ a;
      kind = not-false _ b;
      created = c;
      binding = d;
      platform = not-false _ e;
      shell = not-false _ f;
      sensitive = not-false _ g;
      automatic = i;
      provenance = j;
      quiescence = l;
      integrity = n;
    }

kind_template : (k : ArtifactKind) → kind_beq k template ≡ true → k ≡ template
kind_template template h = refl
kind_template snapshot h = cc

none_left : {A : Type 0} (o : Option A) → is_some o ≡ false → o ≡ none
none_left none h = refl
none_left (some a) h = cc

binding_found :
    (layout : SpaceLayout) (o : Option SourceIdentity)
    → local_binding layout o ≡ ok tt
    → (source : SourceIdentity) × ((o ≡ some source) × (valid_source_identity source layout ≡ true))
binding_found layout none h = cc
binding_found layout (some source) h = (source, (refl, ground (arith, h)))

provenance_found :
    (layout : SpaceLayout) (o : Option ImportedBundleProvenance)
    → has_valid_provenance layout o ≡ true
    → (p : ImportedBundleProvenance) × ((o ≡ some p) × (is_valid_provenance layout p ≡ true))
provenance_found layout none h = cc
provenance_found layout (some p) h = (p, (refl, h))

imported_binding :
    (m : ArtifactManifest)
    → m.schema_version ≡ imported_artifact_schema_version
    → validate_source_binding m ≡ ok tt
    → is_some m.source_identity ≡ false
unfolding validate_source_binding
imported_binding m e h = ground (arith, e, h)

imported_provenance :
    (m : ArtifactManifest)
    → m.schema_version ≡ imported_artifact_schema_version
    → validate_imported_provenance m ≡ ok tt
    → (kind_beq m.kind template ≡ true)
      × (has_valid_provenance m.source_layout m.imported_bundle ≡ true)
unfolding validate_imported_provenance
imported_provenance m e h = ground (arith, e, h)

imported_quiescence :
    (m : ArtifactManifest)
    → m.schema_version ≡ imported_artifact_schema_version
    → validate_source_quiescence m ≡ ok tt
    → is_some m.source_quiescence ≡ false
unfolding validate_source_quiescence
imported_quiescence m e h = ground (arith, e, h)

local_checked :
    (m : ArtifactManifest)
    → nat_beq m.schema_version imported_artifact_schema_version ≡ false
    → validate_source_binding m ≡ ok tt
    → local_binding m.source_layout m.source_identity ≡ ok tt
unfolding validate_source_binding
local_checked m n h = ground (arith, n, h)

local_provenance :
    (m : ArtifactManifest)
    → nat_beq m.schema_version imported_artifact_schema_version ≡ false
    → validate_imported_provenance m ≡ ok tt
    → is_some m.imported_bundle ≡ false
unfolding validate_imported_provenance
local_provenance m n h = ground (arith, n, h)

local_quiescence :
    (m : ArtifactManifest)
    → nat_beq m.schema_version imported_artifact_schema_version ≡ false
    → validate_source_quiescence m ≡ ok tt
    → is_some m.source_quiescence ≡ nat_beq m.schema_version local_artifact_schema_version
unfolding validate_source_quiescence
local_quiescence m n h = ground (arith, n, h)

-- A manifest that validate accepts for a kind is of that kind, and it is either an imported template
-- with the authenticated provenance of its bundle and bound to no space of this store, or a local
-- artifact without such provenance, bound to an identity that is valid for its layout; a local one
-- records the quiescence of its source exactly in the newest schema.
pub validate-Imported_or_Local :
    (m : ArtifactManifest) (k : ArtifactKind)
    → validate m k ≡ ok tt
    → (kind_beq m.kind k ≡ true) × (Imported m ⊎ Local m)
validate-Imported_or_Local m k h =
    let c = validate-Checks m k h in
    (
      c.kind,
      elim (Bool-cases (nat_beq m.schema_version imported_artifact_schema_version)) [
        | inl i ↦
            (let e = (nat_beq_iff m.schema_version imported_artifact_schema_version).0 i in
              let (t, p) = imported_provenance m e c.provenance in
              inl (
                e,
                (
                  kind_template m.kind t,
                  (
                    none_left _ (imported_binding m e c.binding),
                    (
                      none_left _ (imported_quiescence m e c.quiescence),
                      provenance_found m.source_layout m.imported_bundle p,
                    ),
                  ),
                ),
              ))
        | inr n ↦ inr (
          (λ e. ground (arith, e, n)),
          (
            none_left _ (local_provenance m n c.provenance),
            (
              local_quiescence m n c.quiescence,
              binding_found m.source_layout m.source_identity (local_checked m n c.binding),
            ),
          ),
        )
      ],
    )
