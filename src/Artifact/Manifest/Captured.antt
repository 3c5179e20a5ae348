-- ===== src/Artifact/Manifest/Captured.antt =====
-- The manifest of a captured artifact.
use quarters.Prelude.{
  ℕ, ◌<◌, ◌≡◌, refl, Bool, true, false, ◌&&◌, not, arith, nat_beq, Bytes, nat_eq, bytes_eq, ok,
}
use quarters.Bundle.Header.{ContentIntegrity, validate_content_integrity}
use quarters.Store.Manifest.{SpaceManifest, validate_stored_manifest}
use quarters.Store.Manifest.Identity.{
  validate_stored_manifest-Stored, validate_stored_manifest-identity,
}
use quarters.Artifact.Manifest.{
  ArtifactKind, template, snapshot, ArtifactOrigin, SourceQuiescence, kind_beq, is_automatic,
  is_imported, is_platform, validate_source_binding, validate_imported_provenance,
  validate_source_quiescence, validate, captured_manifest,
}

-- What `execute_artifact` starts from: a valid source, a clock that runs, a known platform, an origin
-- that is not an import, rollback recovery for snapshots only, and a digest record that is valid.
pub record Capture (source : SpaceManifest) (kind : ArtifactKind) (now : ℕ) (platform : Bytes)
    (origin : ArtifactOrigin) (integrity : ContentIntegrity) : Type 0 where
  pub stored : validate_stored_manifest source ≡ ok tt
  pub source_time : 0 < source.created_unix_ms
  pub time : 0 < now
  pub known : is_platform platform ≡ true
  pub local : is_imported origin ≡ false
  pub recovery : (is_automatic origin && not (kind_beq kind snapshot)) ≡ false
  pub digest : validate_content_integrity integrity ≡ ok tt

kind_beq_refl : (k : ArtifactKind) → kind_beq k k ≡ true
kind_beq_refl template = refl
kind_beq_refl snapshot = refl

-- Every manifest that execute_artifact writes is accepted by the validation of artifacts of that
-- kind, when the store accepts the source, whose time of creation and the time of the capture are
-- after 0, the platform is a known one, the origin is no import and is a rollback's recovery for a
-- snapshot only, and the digest record is valid.
pub captured_manifest-validate :
    (source : SpaceManifest) (kind : ArtifactKind) (id name : Bytes) (now : ℕ) (platform : Bytes)
    (cache : Bool) (origin : ArtifactOrigin) (quiescence : SourceQuiescence)
    (integrity : ContentIntegrity)
    → Capture source kind now platform origin integrity
    → validate
        (captured_manifest source kind id name now platform cache origin quiescence integrity)
        kind
      ≡ ok tt
unfolding captured_manifest validate validate_source_binding validate_imported_provenance
    validate_source_quiescence
captured_manifest-validate source kind id name now platform cache origin quiescence integrity c =
    let started : nat_beq now 0 ≡ false = ground (arith, c.time) in
    let shell = (validate_stored_manifest-Stored source c.stored).shell in
    let bound = validate_stored_manifest-identity source c.stored c.source_time in
    rw (kind_beq_refl kind, started, bound, c.known, shell, c.recovery, c.local, c.digest) refl
