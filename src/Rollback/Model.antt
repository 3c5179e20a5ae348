-- ===== src/Rollback/Model.antt =====
-- The data of a rollback: identities, the durable marker, and what lies in the spaces directory.
use quarters.Prelude.{
  ℕ, ◌≡◌, refl, ◌↔◌, inl, inr, Bool, true, false, ◌&&◌, Option, none, some, ◌++◌, arith,
  nat_beq_iff, Option-cases, ◌==◌, Bytes, bytes_beq_iff, nat_eq, bytes_eq, codes,
}

-- `SourceIdentity` of store/artifact/model.rs.
pub record SourceIdentity : Type 0 where
  pub schema_version : ℕ
  pub name : Bytes
  pub created_unix_ms : ℕ
  pub space_id : Option Bytes

abbrev pub profile_schema_version : ℕ
profile_schema_version = 1

abbrev pub option_beq : Option Bytes → Option Bytes → Bool
option_beq none none = true
option_beq (some a) (some b) = a == b
option_beq _ _ = false

abbrev pub identity_beq : SourceIdentity → SourceIdentity → Bool
identity_beq a b =
    a.schema_version == b.schema_version
    && a.name == b.name
    && a.created_unix_ms == b.created_unix_ms
    && option_beq a.space_id b.space_id

pub option_beq_iff : (a b : Option Bytes) → (option_beq a b ≡ true) ↔ (a ≡ b)
option_beq_iff none none = ground arith
option_beq_iff (some a) (some b) = ground (arith, bytes_beq_iff a b)
option_beq_iff _ _ = ground arith

pub identity_beq_iff : (a b : SourceIdentity) → (identity_beq a b ≡ true) ↔ (a ≡ b)
identity_beq_iff a b = ground (
  arith,
  nat_beq_iff a.schema_version b.schema_version,
  bytes_beq_iff a.name b.name,
  nat_beq_iff a.created_unix_ms b.created_unix_ms,
  option_beq_iff a.space_id b.space_id,
)

-- `SourceIdentity::matches`, on the identity of the opened space.
unfoldable pub matches : SourceIdentity → SourceIdentity → Bool
matches self current = elim self.space_id [
  | some captured ↦ elim current.space_id [
    | some opened ↦
        captured == opened
        && self.created_unix_ms == current.created_unix_ms
        && self.schema_version == current.schema_version
    | none ↦ false
  ]
  | none ↦ elim current.space_id [
    | none ↦ identity_beq self current
    | some _ ↦
        self.schema_version == profile_schema_version
        && self.name == current.name
        && self.created_unix_ms == current.created_unix_ms
  ]
]

-- A space directory: the identity in its manifest, the rest of the manifest as an opaque value, whether
-- the store accepts the schema and the contents of the manifest (`read_validated_manifest` without
-- the name), whether its anchors are valid, whether it still holds the creation lock, and its home
-- as an opaque value.
pub record SpaceTree : Type 0 where
  pub identity : SourceIdentity
  pub settings : Bytes
  pub stored : Bool
  pub anchors : Bool
  pub locked : Bool
  pub home : Bytes

-- `manifest() != manifest()`, negated.
abbrev pub manifest_beq : SpaceTree → SpaceTree → Bool
manifest_beq a b = identity_beq a.identity b.identity && a.settings == b.settings

pub manifest_beq_refl : (t : SpaceTree) → manifest_beq t t ≡ true
manifest_beq_refl t =
    ground (arith, identity_beq_iff t.identity t.identity, bytes_beq_iff t.settings t.settings)

-- A space that can be opened under its name.
abbrev pub IsOpenable : SpaceTree → Type 0
IsOpenable t = (t.anchors ≡ true) × (t.stored ≡ true)

pub data RollbackState : Type 0 where
  prepared retired published : RollbackState

pub record RollbackMarker : Type 0 where
  pub schema_version : ℕ
  pub transaction_id : Bytes
  pub state : RollbackState
  pub target : Bytes
  pub target_identity : SourceIdentity
  pub staging_entry : Bytes
  pub retired_entry : Bytes
  pub snapshot_id : Bytes
  pub recovery_snapshot_id : Bytes

abbrev pub state_beq : RollbackState → RollbackState → Bool
state_beq prepared prepared = true
state_beq retired retired = true
state_beq published published = true
state_beq _ _ = false

abbrev pub marker_beq : RollbackMarker → RollbackMarker → Bool
marker_beq a b =
    a.schema_version == b.schema_version
    && a.transaction_id == b.transaction_id
    && state_beq a.state b.state
    && a.target == b.target
    && identity_beq a.target_identity b.target_identity
    && a.staging_entry == b.staging_entry
    && a.retired_entry == b.retired_entry
    && a.snapshot_id == b.snapshot_id
    && a.recovery_snapshot_id == b.recovery_snapshot_id

pub state_beq_refl : (s : RollbackState) → state_beq s s ≡ true
state_beq_refl prepared = refl
state_beq_refl retired = refl
state_beq_refl published = refl

pub marker_beq_refl : (m : RollbackMarker) → marker_beq m m ≡ true
marker_beq_refl m = ground (
  arith,
  nat_beq_iff m.schema_version m.schema_version,
  bytes_beq_iff m.transaction_id m.transaction_id,
  state_beq_refl m.state,
  bytes_beq_iff m.target m.target,
  identity_beq_iff m.target_identity m.target_identity,
  bytes_beq_iff m.staging_entry m.staging_entry,
  bytes_beq_iff m.retired_entry m.retired_entry,
  bytes_beq_iff m.snapshot_id m.snapshot_id,
  bytes_beq_iff m.recovery_snapshot_id m.recovery_snapshot_id,
)

abbrev pub marker_schema_version : ℕ
marker_schema_version = 1

-- An entry of the spaces directory. `damaged` is a file whose bytes are no valid marker, such as
-- one that was created and not yet written.
pub data Entry : Type 0 where
  space : SpaceTree → Entry
  marker : RollbackMarker → Entry
  damaged : Entry

-- `marker_state_text`.
unfoldable pub marker_state_text : RollbackState → Bytes
marker_state_text prepared = codes "prepared"
marker_state_text retired = codes "retired"
marker_state_text published = codes "published"

-- The entry names that a transaction id gives.
unfoldable pub marker_name : Bytes → Bytes
marker_name id = codes ".rollback-" ++ id ++ codes ".json"

-- `path.with_extension("tmp")` of the marker's path.
unfoldable pub temporary_name : Bytes → Bytes
temporary_name id = codes ".rollback-" ++ id ++ codes ".tmp"

unfoldable pub staging_name : Bytes → Bytes
staging_name id = codes ".rollback-staging-" ++ id

unfoldable pub retired_name : Bytes → Bytes
retired_name id = codes ".rolled-back-" ++ id

-- A space matches the identity that was captured from it.
pub matches_refl : (i : SourceIdentity) → matches i i ≡ true
unfolding matches
matches_refl i = elim (Option-cases i.space_id) [
  | inl n ↦ rw (n, matches) (ground (arith, identity_beq_iff i i))
  | inr (x, p) ↦
      rw (p, matches)
        (ground (
          arith,
          bytes_beq_iff x x,
          nat_beq_iff i.created_unix_ms i.created_unix_ms,
          nat_beq_iff i.schema_version i.schema_version,
        ))
]
