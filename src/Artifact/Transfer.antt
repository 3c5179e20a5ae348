-- ===== src/Artifact/Transfer.antt =====
-- From one host to another: the header that `write_and_publish` of bundle/export.rs makes of an
-- artifact's manifest, and the manifest that bundle/import.rs makes of a header.
use quarters.Prelude.{
  ℕ, ◌*◌, ◌<◌, ◌≡◌, refl, ap, ◌∙◌, ◌⊎◌, inl, inr, true, false, Option, none, some, arith, nat_beq,
  nat_beq_iff, and-true, length, All, Bytes, nat_eq, bytes_eq, Result, ok, err, encode_hex, IsByte,
  encode_hex-all, length-encode_hex,
}
use quarters.Error.{ErrorKind, corrupt_state}
use quarters.Rollback.Model.{SourceIdentity}
use quarters.Bundle.Counts.{ArtifactCounts}
use quarters.Bundle.Header.{
  BundleHeader, bundle_version, bundle_algorithm, valid_source_identity, valid_digest, counts_beq,
  validate_header,
}
use quarters.Artifact.Manifest.{
  ArtifactKind, template, imported_bundle_origin, ImportedBundleProvenance, ArtifactManifest,
  imported_artifact_schema_version, is_platform, validate_source_binding,
  validate_imported_provenance, validate_source_quiescence, validate,
}
use quarters.Artifact.Manifest.Validated.{
  Imported, Local, Checks, validate-Checks, validate-Imported_or_Local,
}

-- `source_identity.or_else(.. imported_bundle ..)`.
abbrev pub exported_identity :
    Option SourceIdentity → Option ImportedBundleProvenance → Option SourceIdentity
exported_identity (some source) o = some source
exported_identity none none = none
exported_identity none (some provenance) = some provenance.source_identity

abbrev pub header_of :
    ArtifactManifest → Bytes → ℕ → Option SourceIdentity → Result ErrorKind BundleHeader
header_of m export_id now none = err corrupt_state
header_of m export_id now (some source) = ok (record {
  schema_version = bundle_version;
  export_id = export_id;
  created_unix_ms = now;
  source_kind = m.kind;
  source_artifact_id = m.artifact_id;
  source_name = m.name;
  source_identity = source;
  source_layout = m.source_layout;
  source_platform = m.source_platform;
  default_shell = m.default_shell;
  include_cache = m.include_cache;
  includes_sensitive_state = true;
  content_integrity = m.content_integrity;
  authentication = bundle_algorithm;
})

unfoldable pub export_header : ArtifactManifest → Bytes → ℕ → Result ErrorKind BundleHeader
export_header m export_id now =
    header_of m export_id now (exported_identity m.source_identity m.imported_bundle)

-- The manifest of an imported template: the id of the staging directory, the name, the clock reading
-- and the platform are arguments; `tag` is the bundle's tag, `to_hex` its hexadecimal digits.
unfoldable pub imported_manifest :
    BundleHeader → Bytes → Bytes → ℕ → Bytes → Bytes → ArtifactManifest
imported_manifest h id name now tag platform = record {
  schema_version = imported_artifact_schema_version;
  artifact_id = id;
  kind = template;
  name = name;
  created_unix_ms = now;
  source_identity = none;
  source_layout = h.source_layout;
  source_platform = h.source_platform;
  default_shell = h.default_shell;
  include_cache = h.include_cache;
  includes_sensitive_state = true;
  origin = imported_bundle_origin;
  imported_bundle = some (record {
    format_version = h.schema_version;
    export_id = h.export_id;
    source_artifact_id = h.source_artifact_id;
    source_artifact_kind = h.source_kind;
    source_identity = h.source_identity;
    authenticated_tag = encode_hex tag;
    import_platform = platform;
  });
  source_quiescence = none;
  content_integrity = h.content_integrity;
}

exported :
    (m : ArtifactManifest)
    → Imported m ⊎ Local m
    → (source : SourceIdentity) × ((exported_identity m.source_identity m.imported_bundle
          ≡ some source)
        × (valid_source_identity source m.source_layout ≡ true))
exported m (inl (e, (t, (n, (q, (p, (b, v))))))) = (
  p.source_identity,
  (
    ap (λ o. exported_identity o m.imported_bundle) n ∙ ap (exported_identity none) b,
    ground (arith, v),
  ),
)
exported m (inr (e, (b, (q, (source, (s, v)))))) =
    (source, (ap (λ o. exported_identity o m.imported_bundle) s, v))

counts_beq_refl : (c : ArtifactCounts) → counts_beq c c ≡ true
counts_beq_refl c = ground arith

-- The header with the parts that a validated manifest gives it.
made_header : ArtifactManifest → Bytes → ℕ → SourceIdentity → BundleHeader
made_header m export_id now source = record {
  schema_version = bundle_version;
  export_id = export_id;
  created_unix_ms = now;
  source_kind = m.kind;
  source_artifact_id = m.artifact_id;
  source_name = m.name;
  source_identity = source;
  source_layout = m.source_layout;
  source_platform = m.source_platform;
  default_shell = m.default_shell;
  include_cache = m.include_cache;
  includes_sensitive_state = true;
  content_integrity = m.content_integrity;
  authentication = bundle_algorithm;
}

module _ (m : ArtifactManifest) (k : ArtifactKind) (source : SourceIdentity) (export_id : Bytes)
    (now : ℕ) (c : Checks m k) (v : valid_source_identity source m.source_layout ≡ true)
    (started : 0 < now) where
  header_valid :
      validate_header (made_header m export_id now source) m.content_integrity.counts ≡ ok tt
  unfolding validate_header made_header
  header_valid =
      let running : nat_beq now 0 ≡ false = ground (arith, started) in
      rw (running, c.platform, c.shell, v, counts_beq_refl m.content_integrity.counts, c.integrity)
        refl

  module _ (id name tag platform : Bytes) (later : ℕ) (runs : 0 < later)
      (known : is_platform platform ≡ true) (sized : length tag ≡ 32) (bytes : All IsByte tag) where
    tag_valid : valid_digest (encode_hex tag) ≡ true
    unfolding valid_digest
    tag_valid = and-true (size (length-encode_hex tag) sized) (encode_hex-all tag bytes)
      where
        size : {n t : ℕ} → n ≡ 2 * t → t ≡ 32 → nat_beq n 64 ≡ true
        size {n} {t} e f = (nat_beq_iff n 64).1 (omega (arith, e, f))

    import_valid :
        validate
          (imported_manifest (made_header m export_id now source) id name later tag platform)
          template
        ≡ ok tt
    unfolding validate validate_source_binding validate_imported_provenance
        validate_source_quiescence imported_manifest made_header
    import_valid =
        let running : nat_beq later 0 ≡ false = ground (arith, runs) in
        rw (running, c.platform, c.shell, v, known, tag_valid, c.integrity) refl

-- An artifact whose manifest is valid can be carried to another host: the export makes a header, the
-- header is accepted with the counts of the artifact, and the manifest that an import makes of it,
-- under any id and name and with a tag of 32 bytes, is a valid one for a template; clocks and platform
-- names being what they are on the hosts that are supported.
pub export_header-imported_manifest :
    (m : ArtifactManifest) (k : ArtifactKind) (export_id id name tag platform : Bytes)
    (now later : ℕ)
    → validate m k ≡ ok tt
    → 0 < now
    → 0 < later
    → is_platform platform ≡ true
    → length tag ≡ 32
    → All IsByte tag
    → (h : BundleHeader) × ((export_header m export_id now ≡ ok h)
        × ((validate_header h m.content_integrity.counts ≡ ok tt)
            × (validate (imported_manifest h id name later tag platform) template ≡ ok tt)))
unfolding export_header made_header
export_header-imported_manifest m k export_id id name tag platform now later h s r p l b =
    let c = validate-Checks m k h in
    let (source, (e, v)) = exported m (validate-Imported_or_Local m k h).1 in
    (
      made_header m export_id now source,
      (
        ap (header_of m export_id now) e,
        (
          header_valid m k source export_id now c v s,
          import_valid m k source export_id now c v s id name tag platform later r p l b,
        ),
      ),
    )
