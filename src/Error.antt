-- ===== src/Error.antt =====
-- crates/quarters-core/src/error.rs: the error categories. Messages, hints and sources are texts for
-- people; the model of an error is its category.
use quarters.Prelude.{Bytes, nat_eq, bytes_eq, codes}

pub data ErrorKind : Type 0 where
  invalid_input not_found already_exists space_active unsupported : ErrorKind
  corrupt_state resource_limit system : ErrorKind

-- `ErrorKind::as_str`.
unfoldable pub as_str : ErrorKind → Bytes
as_str invalid_input = codes "invalid_input"
as_str not_found = codes "not_found"
as_str already_exists = codes "already_exists"
as_str space_active = codes "space_active"
as_str unsupported = codes "unsupported"
as_str corrupt_state = codes "corrupt_state"
as_str resource_limit = codes "resource_limit"
as_str system = codes "system"
