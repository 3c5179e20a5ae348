-- ===== src/Names.antt =====
-- Ids and names: `SpaceId` and `SpaceName` of crates/quarters-core/src/model.rs, `ArtifactId` and
-- `ArtifactName` of store/artifact/model.rs, and the markers' ids in their entry names. A string is
-- its bytes.
pub mod Portable
pub mod Apart
use quarters.Prelude.{
  ℕ, Bool, false, ◌&&◌, ◌||◌, Option, none, some, [], ◌∷◌, leb, nat_beq, if◌then◌else◌, length, all,
  ◌==◌, Bytes, nat_eq, bytes_eq, Result, ok, err, codes, strip_prefix, is_lower_hex, encode_hex,
  ◌>>=◌,
}
use quarters.Error.{ErrorKind, invalid_input, system}

-- The identifiers and names as the source wraps them; only `parse` makes one.
pub record SpaceId : Type 0 where
  pub text : Bytes

pub record ArtifactId : Type 0 where
  pub text : Bytes

pub record SpaceName : Type 0 where
  pub text : Bytes

pub record ArtifactName : Type 0 where
  pub text : Bytes

abbrev pub is_valid_id : Bytes → Bool
is_valid_id value = nat_beq (length value) 32 && all is_lower_hex value

abbrev pub is_ascii_alphanumeric : ℕ → Bool
is_ascii_alphanumeric b = leb 48 b && leb b 57 || leb 65 b && leb b 90 || leb 97 b && leb b 122

-- Alphanumeric, `-` or `_`.
abbrev pub is_name_byte : ℕ → Bool
is_name_byte b = is_ascii_alphanumeric b || nat_beq b 45 || nat_beq b 95

abbrev pub starts_alphanumeric : Bytes → Bool
starts_alphanumeric [] = false
starts_alphanumeric (b ∷ bs) = is_ascii_alphanumeric b

abbrev pub is_valid_name : Bytes → Bool
is_valid_name value =
    leb 1 (length value)
    && leb (length value) 32
    && starts_alphanumeric value
    && all is_name_byte value

unfoldable pub parse_space_id : Bytes → Result ErrorKind SpaceId
parse_space_id value = if is_valid_id value then ok (record { text = value }) else err invalid_input

unfoldable pub parse_artifact_id : Bytes → Result ErrorKind ArtifactId
parse_artifact_id value =
    if is_valid_id value then ok (record { text = value }) else err invalid_input

unfoldable pub parse_space_name : Bytes → Result ErrorKind SpaceName
parse_space_name value =
    if is_valid_name value then ok (record { text = value }) else err invalid_input

unfoldable pub parse_artifact_name : Bytes → Result ErrorKind ArtifactName
parse_artifact_name value =
    if is_valid_name value then ok (record { text = value }) else err invalid_input

-- `getrandom::fill`, by what it gives: 16 bytes, or no randomness.
abbrev pub fill : Option Bytes → Result ErrorKind Bytes
fill none = err system
fill (some bytes) = ok bytes

unfoldable pub generate_space_id : Option Bytes → Result ErrorKind SpaceId
unfolding parse_space_id
generate_space_id random = do bytes ← fill random; parse_space_id (encode_hex bytes)

unfoldable pub generate_artifact_id : Option Bytes → Result ErrorKind ArtifactId
unfolding parse_artifact_id
generate_artifact_id random = do bytes ← fill random; parse_artifact_id (encode_hex bytes)

abbrev pub cons_some : ℕ → Option Bytes → Option Bytes
cons_some x none = none
cons_some x (some xs) = some (x ∷ xs)

-- `strip_suffix`.
abbrev pub strip_suffix : Bytes → Bytes → Option Bytes
strip_suffix suffix [] = if suffix == [] then some [] else none
strip_suffix suffix (x ∷ xs) =
    let shorter = strip_suffix suffix xs in
    if suffix == x ∷ xs then some [] else cons_some x shorter

abbrev pub and_strip_suffix : Bytes → Option Bytes → Option Bytes
and_strip_suffix suffix none = none
and_strip_suffix suffix (some value) = strip_suffix suffix value

abbrev pub and_parse_id : Option Bytes → Option Bytes
and_parse_id none = none
and_parse_id (some value) = if is_valid_id value then some value else none

-- The id in an entry name, between the two texts.
abbrev pub id_between : Bytes → Bytes → Bytes → Option Bytes
id_between prefix suffix name = and_parse_id (and_strip_suffix suffix (strip_prefix prefix name))

-- `marker_id_from_name` of store/artifact/rollback.rs.
unfoldable pub marker_id_from_name : Bytes → Option Bytes
marker_id_from_name name = id_between (codes ".rollback-") (codes ".json") name

-- `parse_marker_name` of store/rename.rs.
unfoldable pub parse_marker_name : Bytes → Option Bytes
parse_marker_name name = id_between (codes ".rename-") (codes ".json") name
