-- ===== src/Bundle/Writer/Printed.antt =====
-- The bytes that the writer makes of an entry.
use quarters.Prelude.{
  ℕ, zero, suc, ◌-◌, ◌^◌, ◌≤◌, ◌<◌, min, ◌≡◌, refl, sym, ap, ◌∙◌, false, List, [], ◌∷◌, ◌++◌, arith,
  ltb, u32_max, if-false, length, take, drop, All, length-drop, take-append-drop, append_assoc,
  append-nil, Bytes, nat_eq, bytes_eq, ok, ◌>>=◌,
}
use quarters.Bundle.Parse.{limit_relative_path_bytes, limit_symlink_target_bytes, chunk_bytes}
use quarters.Bundle.Writer.{
  Writer, authenticated, to_be_bytes, u32_bytes, write_path, mode_bytes, write_directory, hashed,
  write_chunks, finished, write_file, write_symlink, Entry, directory_of, file_of, symlink_of,
  write_entry, write_entries,
}

abbrev pub path_bytes : Bytes → Bytes
path_bytes path = to_be_bytes 4 (length path) ++ path

-- An entry in the format: its tag, its path and what belongs to its kind, with the content of a file.
unfoldable pub entry_bytes : Entry → Bytes
entry_bytes (directory_of path mode) = 68 ∷ (path_bytes path ++ mode_bytes mode)
entry_bytes (file_of path mode size source) =
    70 ∷ (path_bytes path ++ (mode_bytes mode ++ (to_be_bytes 8 size ++ source)))
entry_bytes (symlink_of path target) = 76 ∷ (path_bytes path ++ path_bytes target)

unfoldable pub entries_bytes : List Entry → Bytes
unfolding entry_bytes
entries_bytes [] = []
entries_bytes (e ∷ es) = entry_bytes e ++ entries_bytes es

-- An entry whose lengths are in the limits of the format, with a file that is as long as announced.
abbrev pub IsWritable : Entry → Type 0
IsWritable (directory_of path mode) = length path ≤ limit_relative_path_bytes
IsWritable (file_of path mode size source) =
    (length path ≤ limit_relative_path_bytes) × ((size ≡ length source) × (size < 2 ^ 64))
IsWritable (symlink_of path target) =
    (length path ≤ limit_relative_path_bytes) × (length target ≤ limit_symlink_target_bytes)

abbrev content : Entry → Bytes
content (file_of path mode size source) = source
content _ = []

writer_eq :
    (f m c f' m' c' : Bytes)
    → f ≡ f'
    → m ≡ m'
    → c ≡ c'
    → ◌≡◌ {A = Writer}
        (record { file = f; mac = m; canonical = c })
        (record { file = f'; mac = m'; canonical = c' })
writer_eq f m c f' m' c' e g h = cc

authenticated_twice :
    (a b : Bytes) (w : Writer) → authenticated b (authenticated a w) ≡ authenticated (a ++ b) w
unfolding authenticated
authenticated_twice a b w =
    writer_eq _ _ _ _ _ _ (append_assoc w.file a b) (append_assoc w.mac a b) refl

in_u32 : (n : ℕ) → n ≤ 4096 → u32_bytes n ≡ ok (to_be_bytes 4 n)
in_u32 n h = if-false _ _ small
  where
    small : ltb u32_max n ≡ false
    small = ground (arith, h)

write_path-printed :
    (path : Bytes) (w : Writer)
    → length path ≤ limit_relative_path_bytes
    → write_path path w ≡ ok (authenticated (path_bytes path) w)
unfolding write_path
write_path-printed path w h =
    ap (λ r. r >>= λ size. ok (authenticated path (authenticated size w))) (in_u32 (length path) h)
    ∙ ap ok (authenticated_twice (to_be_bytes 4 (length path)) path w)

-- What a chunk adds, and then the chunks behind it.
chunk_then :
    (a b : Bytes) (w : Writer)
    → authenticated b (hashed b (hashed a (authenticated a w)))
      ≡ authenticated (a ++ b) (hashed (a ++ b) w)
unfolding authenticated
chunk_then a b w =
    writer_eq _ _ _ _ _ _ (append_assoc w.file a b) (append_assoc w.mac a b)
      (append_assoc w.canonical a b)

no_chunk : (w : Writer) → authenticated [] (hashed [] w) ≡ w
unfolding authenticated
no_chunk w = writer_eq _ _ _ _ _ _ (append-nil w.file) (append-nil w.mac) (append-nil w.canonical)

write_chunks-printed :
    (fuel remaining : ℕ) (source : Bytes) (w : Writer)
    → remaining ≤ fuel
    → length source ≡ remaining
    → write_chunks fuel remaining source w ≡ ok ([], authenticated source (hashed source w))
unfolding write_chunks
write_chunks-printed fuel zero [] w h e = ap (λ x. ok ([], x)) (sym (no_chunk w))
write_chunks-printed fuel zero (b ∷ bs) w h e = absurd (omega (arith, e))
write_chunks-printed zero (suc remaining) source w h e = absurd (omega arith)
write_chunks-printed (suc fuel) (suc remaining) source w h e =
    let size = min (suc remaining) chunk_bytes in
    let chunk = take size source in
    let enough : ltb (length source) size ≡ false = ground (arith, e) in
    if-false _ _ enough
    ∙ (write_chunks-printed fuel (suc remaining - size) (drop size source)
          (hashed chunk (authenticated chunk w)) (omega arith)
          (length-drop size source ∙ ap (λ n. n - size) e)
        ∙ ap (λ x. ok ([], x))
            (chunk_then chunk (drop size source) w
              ∙ ap (λ x. authenticated x (hashed x w)) (take-append-drop size source)))

with_content : Entry → Writer → Writer
with_content (file_of path mode size source) w = hashed source w
with_content (directory_of path mode) w = w
with_content (symlink_of path target) w = w

-- What an entry adds to the writer.
pub with_entry : Entry → Writer → Writer
with_entry e w = authenticated (entry_bytes e) (with_content e w)

three :
    (a b c : Bytes) (w : Writer)
    → authenticated c (authenticated b (authenticated a w)) ≡ authenticated (a ++ (b ++ c)) w
three a b c w = authenticated_twice b c (authenticated a w) ∙ authenticated_twice a (b ++ c) w

five :
    (t p m n s : Bytes) (w : Writer)
    → authenticated s
        (hashed s (authenticated n (authenticated m (authenticated p (authenticated t w)))))
      ≡ authenticated (t ++ (p ++ (m ++ (n ++ s)))) (hashed s w)
unfolding authenticated
five t p m n s w =
    three m n s (authenticated p (authenticated t (hashed s w)))
    ∙ three t p (m ++ (n ++ s)) (hashed s w)

write_entry-with_entry :
    (e : Entry) (w : Writer) → IsWritable e → write_entry e w ≡ ok (with_entry e w)
unfolding write_entry write_directory write_file write_symlink entry_bytes with_entry with_content
write_entry-with_entry (directory_of path mode) w h =
    ap (λ r. r >>= λ named. ok (authenticated (mode_bytes mode) named))
      (write_path-printed path (authenticated (68 ∷ []) w) h)
    ∙ ap ok (three (68 ∷ []) (path_bytes path) (mode_bytes mode) w)
write_entry-with_entry (file_of path mode size source) w (h, (e, l)) =
    ap
      (λ r. r >>= λ named.
        write_chunks size size source
          (authenticated (to_be_bytes 8 size) (authenticated (mode_bytes mode) named))
        >>= finished)
      (write_path-printed path (authenticated (70 ∷ []) w) h)
    ∙ (ap (λ r. r >>= finished) (write_chunks-printed size size source _ (omega arith) (sym e))
        ∙ ap ok (five (70 ∷ []) (path_bytes path) (mode_bytes mode) (to_be_bytes 8 size) source w))
write_entry-with_entry (symlink_of path target) w (h, l) =
    ap
      (λ r. r >>= λ named.
        u32_bytes (length target) >>= λ size. ok (authenticated target (authenticated size named)))
      (write_path-printed path (authenticated (76 ∷ []) w) h)
    ∙ (ap
          (λ r. r >>= λ size. ok (
            authenticated target
              (authenticated size (authenticated (path_bytes path) (authenticated (76 ∷ []) w)))))
          (in_u32 (length target) l)
        ∙ ap ok (
            authenticated_twice (to_be_bytes 4 (length target)) target _
            ∙ three (76 ∷ []) (path_bytes path) (path_bytes target) w))

added :
    (e : Entry) (w : Writer) (more : Bytes)
    → ((with_entry e w).file ++ more ≡ w.file ++ (entry_bytes e ++ more))
      × ((with_entry e w).mac ++ more ≡ w.mac ++ (entry_bytes e ++ more))
unfolding with_entry with_content authenticated
added (directory_of path mode) w more = (append_assoc w.file _ more, append_assoc w.mac _ more)
added (file_of path mode size source) w more =
    (append_assoc w.file _ more, append_assoc w.mac _ more)
added (symlink_of path target) w more = (append_assoc w.file _ more, append_assoc w.mac _ more)

-- The entries one after the other; the caller's digest aside.
pub write_entries-printed :
    (es : List Entry) (w : Writer)
    → All IsWritable es
    → (after : Writer) × ((write_entries es w ≡ ok after)
        × ((after.file ≡ w.file ++ entries_bytes es) × (after.mac ≡ w.mac ++ entries_bytes es)))
unfolding write_entries entries_bytes
write_entries-printed [] w h = (w, (refl, (sym (append-nil w.file), sym (append-nil w.mac))))
write_entries-printed (e ∷ es) w (h, hs) =
    let (after, (r, (f, m))) = write_entries-printed es (with_entry e w) hs in
    (
      after,
      (
        ap (λ r. r >>= write_entries es) (write_entry-with_entry e w h) ∙ r,
        (f ∙ (added e w (entries_bytes es)).0, m ∙ (added e w (entries_bytes es)).1),
      ),
    )
