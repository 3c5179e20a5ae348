-- ===== src/Store/Manifest.antt =====
-- The manifest of a space: `SpaceManifest` of crates/quarters-core/src/model.rs, its validation in
-- store_policy.rs, and the manifests that store/create.rs, store/upgrade.rs and
-- store/artifact/catalog.rs write. Ids, shells and clock readings are arguments.
pub mod Identity
use quarters.Prelude.{
  ℕ, Bool, true, false, ◌&&◌, ◌||◌, not, Option, none, some, ltb, nat_beq, if◌then◌else◌, is_some,
  u64_max, ◌==◌, Bytes, nat_eq, bytes_eq, Result, ok, err, reject_if, codes, ◌>>=◌, ◌>>◌,
}
use quarters.Error.{ErrorKind, corrupt_state, unsupported}
use quarters.Names.{generate_space_id}
use quarters.Rollback.Model.{SourceIdentity, profile_schema_version}
use quarters.Bundle.Header.{
  SpaceLayout, profile, workspace, workspace_schema_version, stable_schema_version,
}
use quarters.Store.Policy.{is_absolute}

pub record SpaceManifest : Type 0 where
  pub schema_version : ℕ
  pub layout : Option SpaceLayout
  pub space_id : Option Bytes
  pub name : Bytes
  pub created_unix_ms : ℕ
  pub default_shell : Bytes
  pub authority_model : Bytes

unfoldable pub effective_layout : SpaceManifest → SpaceLayout
effective_layout m = elim m.layout [ none ↦ profile | some layout ↦ layout ]

-- `SourceIdentity::for_space` of store/artifact/model.rs.
unfoldable pub for_space : SpaceManifest → SourceIdentity
for_space m = record {
  schema_version = m.schema_version;
  name = m.name;
  created_unix_ms = m.created_unix_ms;
  space_id = m.space_id;
}

abbrev pub is_workspace : Option SpaceLayout → Bool
is_workspace (some workspace) = true
is_workspace _ = false

unfoldable pub validate_manifest_layout : SpaceManifest → Result ErrorKind (Unit {0})
validate_manifest_layout m =
    let valid =
      if nat_beq m.schema_version profile_schema_version
      then not (is_some m.layout) && not (is_some m.space_id)
      else if nat_beq m.schema_version workspace_schema_version
      then is_workspace m.layout && is_some m.space_id
      else if nat_beq m.schema_version stable_schema_version
      then is_some m.layout && is_some m.space_id
      else false in
    if valid then ok tt else err corrupt_state

abbrev pub authority_model : Bytes
authority_model = codes "host-account-state-profile"

unfoldable pub validate_stored_manifest : SpaceManifest → Result ErrorKind (Unit {0})
unfolding validate_manifest_layout
validate_stored_manifest m = do
  validate_manifest_layout m
  reject_if (not (m.authority_model == authority_model)) corrupt_state
  reject_if (ltb u64_max m.created_unix_ms) corrupt_state
  reject_if (not (is_absolute m.default_shell)) corrupt_state

-- The manifest of `populate_space`, and that of `fresh_template_space_manifest` with the template's
-- layout. `now` is what `epoch_millis` gives.
unfoldable pub fresh_manifest :
    Bytes → Bytes → SpaceLayout → Option Bytes → ℕ → Result ErrorKind SpaceManifest
unfolding generate_space_id
fresh_manifest name default_shell layout random now = do
  id ← generate_space_id random
  ok (record {
    schema_version = stable_schema_version;
    layout = some layout;
    space_id = some id.text;
    name = name;
    created_unix_ms = now;
    default_shell = default_shell;
    authority_model = authority_model;
  })

abbrev pub is_profile : SpaceLayout → Bool
is_profile profile = true
is_profile workspace = false

-- `upgrade_space`, from the opened manifest to the one that it writes.
unfoldable pub upgrade_manifest : SpaceManifest → Option Bytes → Result ErrorKind SpaceManifest
unfolding generate_space_id effective_layout
upgrade_manifest m random = if is_some m.space_id then ok m else (do
  reject_if
      (not (nat_beq m.schema_version profile_schema_version)
        || not (is_profile (effective_layout m)))
      unsupported
  id ← generate_space_id random
  ok (record m {
    schema_version = stable_schema_version;
    layout = some profile;
    space_id = some id.text;
  }))
