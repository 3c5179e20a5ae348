-- ===== src/Artifact/Manifest.antt =====
-- The manifest of an artifact and its validation, of store/artifact/model.rs, and the manifest that
-- `execute_artifact` of store/artifact/catalog.rs writes.
pub mod Validated
pub mod Captured
use quarters.Prelude.{
  ℕ, Bool, true, false, ◌&&◌, ◌||◌, not, Option, none, some, nat_beq, if◌then◌else◌, is_some, ◌==◌,
  Bytes, nat_eq, bytes_eq, Result, ok, err, reject_if, codes, ◌>>=◌, ◌>>◌,
}
use quarters.Error.{ErrorKind, corrupt_state}
use quarters.Rollback.Model.{SourceIdentity}
pub use quarters.Bundle.Header.{ArtifactKind, template, snapshot}
use quarters.Bundle.Header.{
  SpaceLayout, ContentIntegrity, valid_source_identity, valid_digest, validate_content_integrity,
}
use quarters.Store.Policy.{is_absolute}
use quarters.Store.Manifest.{SpaceManifest, effective_layout, for_space}

pub data ArtifactOrigin : Type 0 where
  user automatic_rollback_recovery imported_bundle_origin : ArtifactOrigin

pub data SourceQuiescence : Type 0 where
  inactive frozen_active : SourceQuiescence

pub record ImportedBundleProvenance : Type 0 where
  pub format_version : ℕ
  pub export_id : Bytes
  pub source_artifact_id : Bytes
  pub source_artifact_kind : ArtifactKind
  pub source_identity : SourceIdentity
  pub authenticated_tag : Bytes
  pub import_platform : Bytes

pub record ArtifactManifest : Type 0 where
  pub schema_version : ℕ
  pub artifact_id : Bytes
  pub kind : ArtifactKind
  pub name : Bytes
  pub created_unix_ms : ℕ
  pub source_identity : Option SourceIdentity
  pub source_layout : SpaceLayout
  pub source_platform : Bytes
  pub default_shell : Bytes
  pub include_cache : Bool
  pub includes_sensitive_state : Bool
  pub origin : ArtifactOrigin
  pub imported_bundle : Option ImportedBundleProvenance
  pub source_quiescence : Option SourceQuiescence
  pub content_integrity : ContentIntegrity

abbrev pub legacy_local_artifact_schema_version : ℕ
legacy_local_artifact_schema_version = 1

abbrev pub imported_artifact_schema_version : ℕ
imported_artifact_schema_version = 2

abbrev pub local_artifact_schema_version : ℕ
local_artifact_schema_version = 3

abbrev pub kind_beq : ArtifactKind → ArtifactKind → Bool
kind_beq template template = true
kind_beq snapshot snapshot = true
kind_beq _ _ = false

abbrev pub is_automatic : ArtifactOrigin → Bool
is_automatic automatic_rollback_recovery = true
is_automatic _ = false

abbrev pub is_imported : ArtifactOrigin → Bool
is_imported imported_bundle_origin = true
is_imported _ = false

-- `matches!(platform, "macos" | "linux")`.
abbrev pub is_platform : Bytes → Bool
is_platform platform = platform == codes "macos" || platform == codes "linux"

abbrev pub is_artifact_schema : ℕ → Bool
is_artifact_schema version =
    nat_beq version legacy_local_artifact_schema_version
    || nat_beq version imported_artifact_schema_version
    || nat_beq version local_artifact_schema_version

abbrev pub local_binding : SpaceLayout → Option SourceIdentity → Result ErrorKind (Unit {0})
local_binding layout none = err corrupt_state
local_binding layout (some source) =
    if valid_source_identity source layout then ok tt else err corrupt_state

unfoldable pub validate_source_binding : ArtifactManifest → Result ErrorKind (Unit {0})
unfolding valid_source_identity
validate_source_binding m =
    if nat_beq m.schema_version imported_artifact_schema_version
    then (if is_some m.source_identity then err corrupt_state else ok tt)
    else local_binding m.source_layout m.source_identity

-- The provenance that a schema-2 manifest has to carry.
abbrev pub is_valid_provenance : SpaceLayout → ImportedBundleProvenance → Bool
is_valid_provenance layout p =
    nat_beq p.format_version 1
    && valid_source_identity p.source_identity layout
    && is_platform p.import_platform
    && valid_digest p.authenticated_tag

abbrev pub has_valid_provenance : SpaceLayout → Option ImportedBundleProvenance → Bool
has_valid_provenance layout none = false
has_valid_provenance layout (some p) = is_valid_provenance layout p

unfoldable pub validate_imported_provenance : ArtifactManifest → Result ErrorKind (Unit {0})
unfolding valid_source_identity valid_digest
validate_imported_provenance m =
    let local =
      (nat_beq m.schema_version legacy_local_artifact_schema_version
        || nat_beq m.schema_version local_artifact_schema_version)
      && not (is_some m.imported_bundle)
      && not (is_imported m.origin) in
    let imported =
      nat_beq m.schema_version imported_artifact_schema_version
      && is_imported m.origin
      && kind_beq m.kind template
      && has_valid_provenance m.source_layout m.imported_bundle in
    if local || imported then ok tt else err corrupt_state

unfoldable pub validate_source_quiescence : ArtifactManifest → Result ErrorKind (Unit {0})
validate_source_quiescence m =
    let valid =
      if nat_beq m.schema_version legacy_local_artifact_schema_version
        || nat_beq m.schema_version imported_artifact_schema_version
      then not (is_some m.source_quiescence)
      else if nat_beq m.schema_version local_artifact_schema_version
      then is_some m.source_quiescence
      else false in
    if valid then ok tt else err corrupt_state

-- `ArtifactManifest::validate`.
unfoldable pub validate : ArtifactManifest → ArtifactKind → Result ErrorKind (Unit {0})
unfolding validate_source_binding validate_imported_provenance validate_source_quiescence
    validate_content_integrity
validate m expected_kind = do
  reject_if (not (is_artifact_schema m.schema_version)) corrupt_state
  reject_if (not (kind_beq m.kind expected_kind)) corrupt_state
  reject_if (nat_beq m.created_unix_ms 0) corrupt_state
  validate_source_binding m
  reject_if (not (is_platform m.source_platform)) corrupt_state
  reject_if (not (is_absolute m.default_shell)) corrupt_state
  reject_if (not m.includes_sensitive_state) corrupt_state
  reject_if (is_automatic m.origin && not (kind_beq m.kind snapshot)) corrupt_state
  validate_imported_provenance m
  validate_source_quiescence m
  validate_content_integrity m.content_integrity

-- The manifest of `execute_artifact`: the id of the staging directory, the clock reading, the
-- platform and the digest of the copied home are arguments.
unfoldable pub captured_manifest :
    SpaceManifest
    → ArtifactKind
    → Bytes
    → Bytes
    → ℕ
    → Bytes
    → Bool
    → ArtifactOrigin
    → SourceQuiescence
    → ContentIntegrity
    → ArtifactManifest
unfolding for_space effective_layout
captured_manifest source kind id name now platform include_cache origin quiescence integrity =
    record {
      schema_version = local_artifact_schema_version;
      artifact_id = id;
      kind = kind;
      name = name;
      created_unix_ms = now;
      source_identity = some (for_space source);
      source_layout = effective_layout source;
      source_platform = platform;
      default_shell = source.default_shell;
      include_cache = include_cache;
      includes_sensitive_state = true;
      origin = origin;
      imported_bundle = none;
      source_quiescence = some quiescence;
      content_integrity = integrity;
    }
