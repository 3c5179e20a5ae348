-- ===== src/Rollback/Names.antt =====
-- The entry names of a transaction, by their lengths.
use quarters.Prelude.{
  ◌≤◌, ◌≡◌, arith, length, length-append, Bytes, nat_eq, bytes_eq, codes, bytes_beq-length,
}
use quarters.Rollback.Model.{marker_name, temporary_name, staging_name, retired_name}
use quarters.Rollback.Shapes.{Apart}

staging_length : (id : Bytes) → length id ≡ 32 → length (staging_name id) ≡ 50
unfolding staging_name
staging_length id h = omega arith

retired_length : (id : Bytes) → length id ≡ 32 → length (retired_name id) ≡ 45
unfolding retired_name
retired_length id h = omega arith

marker_length : (id : Bytes) → length id ≡ 32 → length (marker_name id) ≡ 47
unfolding marker_name
marker_length id h = omega (arith, length-append id (codes ".json"))

temporary_length : (id : Bytes) → length id ≡ 32 → length (temporary_name id) ≡ 46
unfolding temporary_name
temporary_length id h = omega (arith, length-append id (codes ".tmp"))

Apart-by_length :
    (t id : Bytes)
    → length t ≤ 32
    → length (staging_name id) ≡ 50
    → length (retired_name id) ≡ 45
    → length (marker_name id) ≡ 47
    → length (temporary_name id) ≡ 46
    → Apart t id
Apart-by_length t id a b c d e = record {
  ts = bytes_beq-length t (staging_name id) (λ q. omega arith);
  tr = bytes_beq-length t (retired_name id) (λ q. omega arith);
  tm = bytes_beq-length t (marker_name id) (λ q. omega arith);
  tp = bytes_beq-length t (temporary_name id) (λ q. omega arith);
  st = bytes_beq-length (staging_name id) t (λ q. omega arith);
  sr = bytes_beq-length (staging_name id) (retired_name id) (λ q. omega arith);
  sm = bytes_beq-length (staging_name id) (marker_name id) (λ q. omega arith);
  sp = bytes_beq-length (staging_name id) (temporary_name id) (λ q. omega arith);
  rt = bytes_beq-length (retired_name id) t (λ q. omega arith);
  rs = bytes_beq-length (retired_name id) (staging_name id) (λ q. omega arith);
  rm = bytes_beq-length (retired_name id) (marker_name id) (λ q. omega arith);
  rp = bytes_beq-length (retired_name id) (temporary_name id) (λ q. omega arith);
  mt = bytes_beq-length (marker_name id) t (λ q. omega arith);
  ms = bytes_beq-length (marker_name id) (staging_name id) (λ q. omega arith);
  mr = bytes_beq-length (marker_name id) (retired_name id) (λ q. omega arith);
  mp = bytes_beq-length (marker_name id) (temporary_name id) (λ q. omega arith);
  pt = bytes_beq-length (temporary_name id) t (λ q. omega arith);
  ps = bytes_beq-length (temporary_name id) (staging_name id) (λ q. omega arith);
  pr = bytes_beq-length (temporary_name id) (retired_name id) (λ q. omega arith);
  pm = bytes_beq-length (temporary_name id) (marker_name id) (λ q. omega arith);
}

pub names-Apart : (t id : Bytes) → length id ≡ 32 → length t ≤ 32 → Apart t id
names-Apart t id h k =
    Apart-by_length t id k (staging_length id h) (retired_length id h) (marker_length id h)
      (temporary_length id h)
