-- ===== src/Bundle/Header.antt =====
-- The header of a bundle: `BundleHeader` of bundle/model.rs, `validate_header`, and the checks of
-- store/artifact/model.rs that it calls.
use quarters.Prelude.{
  ℕ, Bool, ◌&&◌, ◌||◌, not, [], ◌∷◌, nat_beq, is_some, length, all, ◌==◌, Bytes, nat_eq, bytes_eq,
  Result, ◌>>◌, reject_if, is_ok, codes, starts_with, is_lower_hex,
}
use quarters.Error.{ErrorKind, corrupt_state}
use quarters.Rollback.Model.{SourceIdentity, profile_schema_version}
use quarters.Bundle.Counts.{ArtifactCounts, validate_counts}

pub data SpaceLayout : Type 0 where
  profile workspace : SpaceLayout

pub record ContentIntegrity : Type 0 where
  pub algorithm : Bytes
  pub digest : Bytes
  pub counts : ArtifactCounts

-- `ArtifactKind` of store/artifact/model.rs.
pub data ArtifactKind : Type 0 where
  template snapshot : ArtifactKind

pub record BundleHeader : Type 0 where
  pub schema_version : ℕ
  pub export_id : Bytes
  pub created_unix_ms : ℕ
  pub source_kind : ArtifactKind
  pub source_artifact_id : Bytes
  pub source_name : Bytes
  pub source_identity : SourceIdentity
  pub source_layout : SpaceLayout
  pub source_platform : Bytes
  pub default_shell : Bytes
  pub include_cache : Bool
  pub includes_sensitive_state : Bool
  pub content_integrity : ContentIntegrity
  pub authentication : Bytes

abbrev pub workspace_schema_version : ℕ
workspace_schema_version = 2

abbrev pub stable_schema_version : ℕ
stable_schema_version = 3

abbrev pub bundle_version : ℕ
bundle_version = 1

abbrev pub bundle_algorithm : Bytes
bundle_algorithm = codes "blake3-keyed-256:quarters-bundle-v1"

abbrev pub integrity_algorithm : Bytes
integrity_algorithm = codes "blake3-256:quarters-canonical-v1"

unfoldable pub valid_source_identity : SourceIdentity → SpaceLayout → Bool
valid_source_identity source profile =
    not (nat_beq source.created_unix_ms 0)
    && ((source.schema_version == profile_schema_version && not (is_some source.space_id))
        || (source.schema_version == stable_schema_version && is_some source.space_id))
valid_source_identity source workspace =
    not (nat_beq source.created_unix_ms 0)
    && ((source.schema_version == workspace_schema_version
          || source.schema_version == stable_schema_version)
        && is_some source.space_id)

unfoldable pub valid_digest : Bytes → Bool
valid_digest digest = nat_beq (length digest) 64 && all is_lower_hex digest

unfoldable pub validate_content_integrity : ContentIntegrity → Result ErrorKind (Unit {0})
unfolding valid_digest validate_counts
validate_content_integrity i = do
  reject_if (not (i.algorithm == integrity_algorithm)) corrupt_state
  reject_if (not (valid_digest i.digest)) corrupt_state
  validate_counts i.counts

abbrev pub counts_beq : ArtifactCounts → ArtifactCounts → Bool
counts_beq a b =
    nat_beq a.directories b.directories
    && nat_beq a.files b.files
    && nat_beq a.symlinks b.symlinks
    && nat_beq a.entries b.entries
    && nat_beq a.logical_bytes b.logical_bytes

unfoldable pub validate_header : BundleHeader → ArtifactCounts → Result ErrorKind (Unit {0})
unfolding valid_source_identity validate_content_integrity
validate_header h counts =
    reject_if
      (not (nat_beq h.schema_version bundle_version)
        || nat_beq h.created_unix_ms 0
        || not h.includes_sensitive_state
        || not (h.source_platform == codes "macos" || h.source_platform == codes "linux")
        || not (starts_with (47 ∷ []) h.default_shell)
        || not (valid_source_identity h.source_identity h.source_layout)
        || not (h.authentication == bundle_algorithm)
        || not (counts_beq h.content_integrity.counts counts)
        || not (is_ok (validate_content_integrity h.content_integrity)))
      corrupt_state
