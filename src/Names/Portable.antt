-- ===== src/Names/Portable.antt =====
-- What an accepted name or a generated id is good for.
use quarters.Prelude.{
  ℕ, ◌*◌, ◌≤◌, ◌≡◌, refl, sym, ap, ◌∙◌, ◌≢◌, Bool, true, false, ◌&&◌, some, [], ◌∷◌, arith, ltb,
  leb, nat_beq, nat_beq_iff, leb→le, &&-true, if-split, if-true, if-false, or-false, and-true,
  length, all, any, All, append-nil, Bytes, nat_eq, bytes_eq, Result, ok, err, starts_with,
  encode_hex, decode_hex, IsByte, encode_hex-all, length-encode_hex, decode_hex-encode_hex,
}
use quarters.Error.{ErrorKind, invalid_input}
use quarters.Names.{
  ArtifactId, SpaceName, is_valid_id, is_name_byte, is_ascii_alphanumeric, starts_alphanumeric,
  is_valid_name, parse_space_name, parse_artifact_id, generate_artifact_id,
}
use quarters.Rollback.Model.{marker_name, temporary_name, staging_name, retired_name}
use quarters.Bundle.Paths.{split_slash, is_unsafe_path, is_bad_component, split_path}

name_byte : (b : ℕ) → is_name_byte b ≡ true → (nat_beq b 47 ≡ false) × (nat_beq b 0 ≡ false)
name_byte b h = ground (arith, h)

split_slash-name :
    (b : ℕ) (v : Bytes) → all is_name_byte (b ∷ v) ≡ true → split_slash (b ∷ v) ≡ (b ∷ v) ∷ []
split_slash-name b [] h =
    let (hb, _) = &&-true (is_name_byte b) true h in rw ((name_byte b hb).0) refl
split_slash-name b (c ∷ v) h =
    let (hb, hs) = &&-true (is_name_byte b) (all is_name_byte (c ∷ v)) h in
    rw ((name_byte b hb).0, split_slash-name c v hs) refl

no_nul : (v : Bytes) → all is_name_byte v ≡ true → any (λ b. nat_beq b 0) v ≡ false
no_nul [] h = refl
no_nul (b ∷ v) h =
    let (hb, hs) = &&-true (is_name_byte b) (all is_name_byte v) h in
    rw ((name_byte b hb).1, no_nul v hs) refl

first_byte :
    (b : ℕ)
    → is_ascii_alphanumeric b ≡ true
    → (nat_beq 47 b ≡ false) × ((nat_beq 46 b ≡ false) × (nat_beq b 46 ≡ false))
first_byte b h = ground (arith, h)

-- The parts of `is_valid_name`.
abbrev Valid : Bytes → Type 0
Valid v = (length v ≤ 32) × ((starts_alphanumeric v ≡ true) × (all is_name_byte v ≡ true))

and_four : (a b c d : Bool) → (a && b && c && d) ≡ true → (b ≡ true) × ((c ≡ true) × (d ≡ true))
and_four a b c d h = ground (arith, h)

is_valid_name-Valid : (v : Bytes) → is_valid_name v ≡ true → Valid v
is_valid_name-Valid v h =
    let (l, (s, b)) =
      and_four (leb 1 (length v)) (leb (length v) 32) (starts_alphanumeric v) (all is_name_byte v)
        h in
    (leb→le (length v) 32 l, (s, b))

split_path_ok :
    (path : Bytes)
    → is_unsafe_path path ≡ false
    → any is_bad_component (split_slash path) ≡ false
    → split_path path ≡ ok (split_slash path)
unfolding split_path
split_path_ok path u b = if-false _ _ u ∙ if-false _ _ b

split_path-name : (v : Bytes) → Valid v → split_path v ≡ ok (v ∷ [])
split_path-name [] (l, (s, h)) = cc
split_path-name (b ∷ v) (l, (s, h)) =
    let one : split_slash (b ∷ v) ≡ (b ∷ v) ∷ [] = split_slash-name b v h in
    split_path_ok (b ∷ v) (or-false refl (or-false safe (no_nul (b ∷ v) h)))
      (ap (any is_bad_component) one ∙ or-false component refl)
    ∙ ap ok one
  where
    safe : starts_with (47 ∷ []) (b ∷ v) ≡ false
    safe = ground (arith, first_byte b s)

    short : ltb 255 (length (b ∷ v)) ≡ false
    short = ground (arith, l)

    component : is_bad_component (b ∷ v) ≡ false
    component = ground (arith, first_byte b s, short)

hidden : (b : ℕ) (v w : Bytes) → starts_alphanumeric (b ∷ v) ≡ true → b ∷ v ≢ 46 ∷ w
hidden b v w s e = ground (arith, first_byte b s, e)

-- A name that is one safe component of a path, and is none of the entries of the rollback `id`.
pub record Portable (v id : Bytes) : Type 0 where
  pub component : split_path v ≡ ok (v ∷ [])
  pub short : length v ≤ 32
  pub no_marker : v ≢ marker_name id
  pub no_temporary : v ≢ temporary_name id
  pub no_staging : v ≢ staging_name id
  pub no_retired : v ≢ retired_name id

Valid-Portable : (v id : Bytes) → Valid v → Portable v id
unfolding marker_name temporary_name staging_name retired_name
Valid-Portable [] id (l, (s, h)) = cc
Valid-Portable (b ∷ v) id (l, (s, h)) = record {
  component = split_path-name (b ∷ v) (l, (s, h));
  short = l;
  no_marker = hidden b v _ s;
  no_temporary = hidden b v _ s;
  no_staging = hidden b v _ s;
  no_retired = hidden b v _ s;
}

-- What `parse_space_name` gives for a text.
abbrev pub IsParsedName : Bytes → Bytes → Result ErrorKind SpaceName → Type 0
IsParsedName v id (ok name) = (name.text ≡ v) × Portable v id
IsParsedName v id (err k) = (k ≡ invalid_input) × (is_valid_name v ≡ false)

-- A text that parse_space_name accepts is kept as it is, is one component of a path that the checks
-- of bundle paths accept, has at most 32 bytes, and is not the name of the marker, the temporary
-- file, the staging entry or the retired entry of any rollback; a text that it refuses does not
-- follow the grammar.
pub parse_space_name-IsParsedName : (v id : Bytes) → IsParsedName v id (parse_space_name v)
unfolding parse_space_name
parse_space_name-IsParsedName v id =
    if-split (IsParsedName v id) (is_valid_name v)
      (λ h. (refl, Valid-Portable v id (is_valid_name-Valid v h))) (λ h. (refl, h))

-- Sixteen random bytes give an artifact id, and its text is those bytes in hexadecimal, so different
-- bytes give different ids.
pub generate_artifact_id-decodes :
    (bytes : Bytes)
    → length bytes ≡ 16
    → All IsByte bytes
    → (id : ArtifactId) × ((generate_artifact_id (some bytes) ≡ ok id)
        × ((parse_artifact_id id.text ≡ ok id) × (decode_hex id.text ≡ bytes)))
unfolding generate_artifact_id parse_artifact_id
generate_artifact_id-decodes bytes l h =
    (record { text = encode_hex bytes }, (if-true _ _ valid, (if-true _ _ valid, decoded)))
  where
    valid : is_valid_id (encode_hex bytes) ≡ true
    valid = and-true (size (length-encode_hex bytes) l) (encode_hex-all bytes h)
      where
        size : {n m : ℕ} → n ≡ 2 * m → m ≡ 16 → nat_beq n 32 ≡ true
        size {n} {m} e f = (nat_beq_iff n 32).1 (omega (arith, e, f))

    decoded : decode_hex (encode_hex bytes) ≡ bytes
    decoded =
        ap decode_hex (sym (append-nil (encode_hex bytes)))
        ∙ (decode_hex-encode_hex bytes [] h ∙ append-nil bytes)
