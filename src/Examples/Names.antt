-- ===== src/Examples/Names.antt =====
-- The theorems on ids and names at concrete texts.
use quarters.Prelude.{
  ◌≡◌, refl, ◌↔◌, true, false, none, some, Bytes, nat_eq, bytes_eq, is_ok, codes,
}
use quarters.Rollback.Model.{marker_name}
use quarters.Names.{is_valid_id, parse_space_name, marker_id_from_name}
use quarters.Names.Apart.{marker_id_from_name_iff}
use quarters.Names.Portable.{IsParsedName, parse_space_name-IsParsedName}

abbrev sample_id : Bytes
sample_id = codes "0123456789abcdef0123456789abcdef"

abbrev sample_marker : Bytes
sample_marker = codes ".rollback-0123456789abcdef0123456789abcdef.json"

marker_id_from_name_iff_example :
    (marker_id_from_name sample_marker ≡ some sample_id)
    ↔ ((is_valid_id sample_id ≡ true) × (sample_marker ≡ marker_name sample_id))
marker_id_from_name_iff_example = marker_id_from_name_iff sample_marker sample_id

finds_id : marker_id_from_name sample_marker ≡ some sample_id
unfolding marker_id_from_name
finds_id = refl

finds_no_id : marker_id_from_name (codes ".rollback-staging-0123.json") ≡ none
unfolding marker_id_from_name
finds_no_id = refl

parse_space_name-IsParsedName_example :
    IsParsedName (codes "work-2") sample_id (parse_space_name (codes "work-2"))
parse_space_name-IsParsedName_example = parse_space_name-IsParsedName (codes "work-2") sample_id

refuses_hidden : is_ok (parse_space_name (codes ".work")) ≡ false
unfolding parse_space_name
refuses_hidden = refl
