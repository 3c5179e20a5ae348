-- ===== src/Examples/Store.antt =====
-- The theorems on manifests at concrete spaces and artifacts.
use quarters.Prelude.{
  All, ◌++◌, IsByte, ◌≡◌, refl, ◌⊎◌, true, false, Option, none, some, [], ◌∷◌, arith, Bytes, nat_eq,
  bytes_eq, ok, codes,
}
use quarters.Names.{generate_space_id, parse_space_id}
use quarters.Bundle.Counts.{validate_counts}
use quarters.Bundle.Header.{
  BundleHeader, validate_header, ContentIntegrity, profile, workspace, valid_source_identity,
  valid_digest, validate_content_integrity,
}
use quarters.Store.Manifest.{
  SpaceManifest, effective_layout, for_space, validate_manifest_layout, validate_stored_manifest,
  upgrade_manifest,
}
use quarters.Store.Manifest.Identity.{Upgraded, upgrade_manifest-Upgraded}
use quarters.Artifact.Manifest.{
  ArtifactManifest, template, snapshot, user, frozen_active, kind_beq, validate,
  validate_source_binding, validate_imported_provenance, validate_source_quiescence,
  captured_manifest,
}
use quarters.Artifact.Transfer.{export_header, imported_manifest, export_header-imported_manifest}
use quarters.Artifact.Manifest.Validated.{Imported, Local, validate-Imported_or_Local}
use quarters.Artifact.Manifest.Captured.{Capture, captured_manifest-validate}

abbrev legacy : SpaceManifest
legacy = record {
  schema_version = 1;
  layout = none;
  space_id = none;
  name = codes "work";
  created_unix_ms = 7;
  default_shell = codes "/bin/sh";
  authority_model = codes "host-account-state-profile";
}

legacy_stored : validate_stored_manifest legacy ≡ ok tt
unfolding validate_stored_manifest validate_manifest_layout
legacy_stored = refl

abbrev random : Option Bytes
random = some (1 ∷ 2 ∷ 3 ∷ 4 ∷ 5 ∷ 6 ∷ 7 ∷ 8 ∷ 9 ∷ 10 ∷ 11 ∷ 12 ∷ 13 ∷ 14 ∷ 15 ∷ 16 ∷ [])

abbrev assigned_id : Option Bytes
assigned_id = some (codes "0102030405060708090a0b0c0d0e0f10")

abbrev fresh : SpaceManifest
fresh = record legacy { schema_version = 3; layout = some workspace; space_id = assigned_id }

upgrade_manifest-Upgraded_example :
    Upgraded legacy
      (record legacy { schema_version = 3; layout = some profile; space_id = assigned_id })
unfolding upgrade_manifest generate_space_id parse_space_id effective_layout
upgrade_manifest-Upgraded_example = upgrade_manifest-Upgraded legacy _ random legacy_stored refl

abbrev integrity : ContentIntegrity
integrity = record {
  algorithm = codes "blake3-256:quarters-canonical-v1";
  digest = codes "0000000000000000000000000000000000000000000000000000000000000000";
  counts = record { directories = 1; files = 1; symlinks = 0; entries = 2; logical_bytes = 5 };
}

integrity_valid : validate_content_integrity integrity ≡ ok tt
unfolding validate_content_integrity valid_digest validate_counts
integrity_valid = refl

abbrev captured : ArtifactManifest
captured =
    captured_manifest legacy snapshot (codes "id") (codes "daily") 9 (codes "linux") false user
      frozen_active integrity

capture : Capture legacy snapshot 9 (codes "linux") user integrity
capture = record {
  stored = legacy_stored;
  source_time = omega arith;
  time = omega arith;
  known = refl;
  local = refl;
  recovery = refl;
  digest = integrity_valid;
}

captured_manifest-validate_example : validate captured snapshot ≡ ok tt
captured_manifest-validate_example =
    captured_manifest-validate legacy snapshot (codes "id") (codes "daily") 9 (codes "linux") false
      user frozen_active integrity capture

captured_valid : validate captured snapshot ≡ ok tt
unfolding validate validate_source_binding validate_imported_provenance validate_source_quiescence
    validate_content_integrity valid_digest validate_counts captured_manifest valid_source_identity
    for_space effective_layout
captured_valid = refl

validate-Imported_or_Local_example :
    (kind_beq captured.kind snapshot ≡ true) × (Imported captured ⊎ Local captured)
validate-Imported_or_Local_example = validate-Imported_or_Local captured snapshot captured_valid

abbrev bundle_tag : Bytes
bundle_tag = sixteen ++ sixteen
  where
    sixteen : Bytes
    sixteen = 255 ∷ 2 ∷ 3 ∷ 4 ∷ 5 ∷ 6 ∷ 7 ∷ 8 ∷ 9 ∷ 10 ∷ 11 ∷ 12 ∷ 13 ∷ 14 ∷ 15 ∷ 16 ∷ []

bundle_tag-IsByte : All IsByte bundle_tag
bundle_tag-IsByte = omega arith

export_header-imported_manifest_example :
    (h : BundleHeader) × ((export_header captured (codes "export") 8 ≡ ok h)
      × ((validate_header h captured.content_integrity.counts ≡ ok tt)
          × (validate
                (imported_manifest h (codes "new") (codes "daily") 9 bundle_tag (codes "macos"))
                template
              ≡ ok tt)))
export_header-imported_manifest_example =
    export_header-imported_manifest captured snapshot (codes "export") (codes "new") (codes "daily")
      bundle_tag (codes "macos") 8 9 captured_valid (omega arith) (omega arith) refl refl
      bundle_tag-IsByte
