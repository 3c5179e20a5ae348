-- ===== src/Bundle/Writer.antt =====
-- `BundleWriter`: the bytes that it writes. The JSON of the header is an argument, and so is the MAC; a
-- failing write of the file is not modelled.
pub mod Printed
pub mod Replay
pub mod Reads
pub mod ReadsEntries
pub mod ReadsContent
pub mod RoundTrip
pub mod Recovered
use quarters.Prelude.{
  ℕ, zero, suc, ◌-◌, ◌/◌, ◌%◌, min, List, [], ◌∷◌, ◌++◌, ltb, if◌then◌else◌, u32_max, length, take,
  drop, Bytes, nat_eq, bytes_eq, Result, ok, err, ◌>>=◌, reject_if, ◌>>◌,
}
use quarters.Error.{corrupt_state, resource_limit}
use quarters.Bundle.Parse.{ParseError, failed, out_of_fuel, magic, header_limit, chunk_bytes}

-- The file so far, the bytes that the MAC has seen, and those that the caller's digest has seen.
pub record Writer : Type 0 where
  pub file : Bytes
  pub mac : Bytes
  pub canonical : Bytes

abbrev pub Written : Type 0
Written = Result ParseError Writer

abbrev pub no_bytes : Writer
no_bytes = record { file = []; mac = []; canonical = [] }

unfoldable pub authenticated : Bytes → Writer → Writer
authenticated bytes w = record w { file = w.file ++ bytes; mac = w.mac ++ bytes }

-- `to_be_bytes` of a number of `width` bytes.
abbrev pub to_be_bytes : ℕ → ℕ → Bytes
to_be_bytes zero n = []
to_be_bytes (suc width) n = to_be_bytes width (n / 256) ++ (n % 256 ∷ [])

-- `u32::try_from(length)`, with `conversion_error`.
abbrev pub u32_bytes : ℕ → Result ParseError Bytes
u32_bytes n = if ltb u32_max n then err (failed resource_limit) else ok (to_be_bytes 4 n)

unfoldable pub write_path : Bytes → Writer → Written
unfolding authenticated
write_path path w = do
  size ← u32_bytes (length path)
  ok (authenticated path (authenticated size w))

-- `mode & 0o777`.
abbrev pub mode_bytes : ℕ → Bytes
mode_bytes mode = to_be_bytes 4 (mode % 512)

unfoldable pub write_directory : Bytes → ℕ → Writer → Written
unfolding authenticated write_path
write_directory path mode w = do
  named ← write_path path (authenticated (68 ∷ []) w)
  ok (authenticated (mode_bytes mode) named)

abbrev pub hashed : Bytes → Writer → Writer
hashed bytes w = record w { canonical = w.canonical ++ bytes }

-- The loop over the chunks of a source file, on `fuel` turns: what is left of the source.
unfoldable pub write_chunks : ℕ → ℕ → Bytes → Writer → Result ParseError (Bytes × Writer)
unfolding authenticated
write_chunks fuel zero source w = ok (source, w)
write_chunks zero (suc remaining) source w = err out_of_fuel
write_chunks (suc fuel) (suc remaining) source w =
    let size = min (suc remaining) chunk_bytes in
    let chunk = take size source in
    let more =
      write_chunks fuel (suc remaining - size) (drop size source)
        (hashed chunk (authenticated chunk w)) in
    if ltb (length source) size then err (failed corrupt_state) else more

-- `source.read(&mut extra)? != 0`.
abbrev pub finished : Bytes × Writer → Written
finished ([], w) = ok w
finished (b ∷ bs, w) = err (failed corrupt_state)

unfoldable pub write_file : Bytes → ℕ → ℕ → Bytes → Writer → Written
unfolding authenticated write_path write_chunks
write_file path mode size source w = do
  named ← write_path path (authenticated (70 ∷ []) w)
  copied ←
      write_chunks size size source
        (authenticated (to_be_bytes 8 size) (authenticated (mode_bytes mode) named))
  finished copied

unfoldable pub write_symlink : Bytes → Bytes → Writer → Written
unfolding authenticated write_path
write_symlink path target w = do
  named ← write_path path (authenticated (76 ∷ []) w)
  size ← u32_bytes (length target)
  ok (authenticated target (authenticated size named))

unfoldable pub begin : Bytes → Written
unfolding authenticated
begin header = do
  reject_if (ltb header_limit (length header)) (failed resource_limit)
  size ← u32_bytes (length header)
  ok (authenticated header (authenticated size (authenticated magic no_bytes)))

-- `finish`: the file, with the terminal tag and the MAC behind it.
unfoldable pub finish : (Bytes → Bytes → Bytes) → Bytes → Writer → Bytes
unfolding authenticated
finish mac key w = let ended = authenticated (0 ∷ []) w in ended.file ++ mac key ended.mac

-- The calls of an export: one for each entry, with the source of a file.
pub data Entry : Type 0 where
  directory_of : Bytes → ℕ → Entry
  file_of : Bytes → ℕ → ℕ → Bytes → Entry
  symlink_of : Bytes → Bytes → Entry

unfoldable pub write_entry : Entry → Writer → Written
unfolding write_directory write_file write_symlink
write_entry (directory_of path mode) = write_directory path mode
write_entry (file_of path mode size source) = write_file path mode size source
write_entry (symlink_of path target) = write_symlink path target

unfoldable pub write_entries : List Entry → Writer → Written
unfolding write_entry
write_entries [] w = ok w
write_entries (e ∷ es) w = write_entry e w >>= write_entries es

unfoldable pub write_bundle :
    (Bytes → Bytes → Bytes) → Bytes → Bytes → List Entry → Result ParseError Bytes
unfolding begin write_entries finish
write_bundle mac key header entries = do
  begun ← begin header
  ended ← write_entries entries begun
  ok (finish mac key ended)
