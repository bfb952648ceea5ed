-- ===== src/Archive.antt =====
-- core/archive.py: the checks of an uploaded zip archive and its extraction.
--
-- A text is the list of its code points. `is_space` is Python's test for white space. A raised
-- `ArchiveError` is `none`; the messages and labels are left out.
pub mod Paths
pub mod Limits
use model_deployer.Base.{
  ℕ, ◌+◌, ◌/◌, ◌%◌, Bool, true, false, Option, none, some, List, [], ◌∷◌, ◌++◌, ◌==◌, ◌&&◌, ◌||◌,
  not, leb, ltb, map, any_of, all_of, keep_if, length, ◌>>=◌, if◌then◌else◌,
}

abbrev pub Text : Type 0
Text = List ℕ

abbrev pub slash : ℕ
slash = 47

abbrev pub backslash : ℕ
backslash = 92

abbrev pub dot : ℕ
dot = 46

abbrev pub same_text : Text → Text → Bool
same_text [] [] = true
same_text (a ∷ s) (b ∷ t) = a == b && same_text s t
same_text _ _ = false

-- The compression limit is the test `file_size / compress_size > limit` on floats.
pub record ArchiveLimits : Type 0 where
  pub max_uncompressed_bytes : ℕ
  pub max_entry_bytes : ℕ
  pub max_entries : ℕ
  pub max_path_length : ℕ
  pub max_compression_ratio : Option (ℕ → ℕ → Bool)

-- `name.startswith(("/", "\\")) or _WINDOWS_ABSOLUTE.match(name)`
abbrev pub is_letter : ℕ → Bool
is_letter c = leb 65 c && leb c 90 || leb 97 c && leb c 122

unfoldable pub is_absolute : Text → Bool
is_absolute [] = false
is_absolute (c ∷ []) = c == slash || c == backslash
is_absolute (c ∷ e ∷ s) = c == slash || c == backslash || is_letter c && e == 58

-- `name.replace("\\", "/")`
abbrev pub forward : ℕ → ℕ
forward c = if c == backslash then slash else c

abbrev pub push : ℕ → List Text → List Text
push c [] = (c ∷ []) ∷ []
push c (p ∷ ps) = (c ∷ p) ∷ ps

-- `s.split("/")`
unfoldable pub split : Text → List Text
split [] = [] ∷ []
split (c ∷ s) = let rest = split s in if c == slash then [] ∷ rest else push c rest

-- `part not in ("", ".")`, and `part == ".."`
abbrev pub is_kept : Text → Bool
is_kept part = not (same_text part [] || same_text part (dot ∷ []))

abbrev pub is_parent : Text → Bool
is_parent part = same_text part (dot ∷ dot ∷ [])

-- `"/".join(parts)`
unfoldable pub join : List Text → Text
join [] = []
join (p ∷ []) = p
join (p ∷ q ∷ ps) = p ++ slash ∷ join (q ∷ ps)

abbrev pub parts_of : Text → List Text
parts_of name = keep_if is_kept (split (map forward name))

abbrev pub has_parts : List Text → Bool
has_parts [] = false
has_parts (p ∷ ps) = true

-- `_normalise_entry_path`
unfoldable pub normalise_entry_path : (ℕ → Bool) → ArchiveLimits → Text → Option Text
normalise_entry_path is_space limits name =
    let parts = parts_of name in
    if all_of is_space name
    then none
    else if ltb limits.max_path_length (length name)
    then none
    else if is_absolute name
    then none
    else if not (has_parts parts)
    then none
    else if any_of is_parent parts
    then none
    else some (join parts)

-- A `ZipInfo`, with what reading the entry gives: its chunks, and whether the reader then finds the
-- archive corrupt.
pub record Entry : Type 0 where
  pub filename : Text
  pub external_attr : ℕ
  pub file_size : ℕ
  pub compress_size : ℕ
  pub chunks : List (List ℕ)
  pub corrupt : Bool

-- `info.is_dir()`: the name ends in a slash.
abbrev pub is_dir : Text → Bool
is_dir [] = false
is_dir (c ∷ []) = c == slash
is_dir (c ∷ e ∷ s) = is_dir (e ∷ s)

-- `stat.S_IFMT(mode) in _SPECIAL_FILE_TYPES`: FIFO, character and block device, link, socket.
abbrev pub is_special_type : ℕ → Bool
is_special_type t = t == 1 || t == 2 || t == 6 || t == 10 || t == 12

-- `_reject_special_file`
unfoldable pub is_special_file : Entry → Bool
is_special_file e =
    let mode = e.external_attr / 65536 in not (mode == 0) && is_special_type (mode / 4096 % 16)

-- The test of the compression ratio.
unfoldable pub is_bomb : ArchiveLimits → Entry → Bool
is_bomb limits e = elim limits.max_compression_ratio [
  | none ↦ false
  | some above ↦
      if e.compress_size == 0 then not (e.file_size == 0) else above e.file_size e.compress_size
]

module _ (is_space : ℕ → Bool) (limits : ArchiveLimits) where
  -- The loop of `_validate_entries` from a declared total on: the files with their paths, and the
  -- names of all entries.
  unfoldable pub scan : ℕ → List Entry → Option (List (Entry × Text) × List Text)
  scan declared_total [] = some ([], [])
  scan declared_total (e ∷ infos) =
      let total = if is_dir e.filename then declared_total else declared_total + e.file_size in
      let rest = scan total infos in
      if is_special_file e then none else do
        relative ← normalise_entry_path is_space limits e.filename
        (entries, names) ← rest
        if is_dir e.filename
            then some (entries, relative ∷ names)
            else if ltb limits.max_entry_bytes e.file_size
            then none
            else if ltb limits.max_uncompressed_bytes total
            then none
            else if is_bomb limits e
            then none
            else some ((e, relative) ∷ entries, relative ∷ names)

  -- `_validate_entries`
  unfoldable pub validate_entries : List Text → List Entry → Option (List (Entry × Text))
  validate_entries required_files infos = if ltb limits.max_entries (length infos) then none else do
    (entries, names) ← scan 0 infos
    if all_of (λ name. any_of (same_text name) names) required_files then some entries else none

-- The files below the target directory, by their paths; `none` is a directory that is not there.
abbrev pub Tree : Type 0
Tree = List (Text × List ℕ)

-- What the file system answers for a path: whether its parent resolves to a place inside the
-- target directory, and whether the file can be opened for writing.
pub record Disk : Type 0 where
  pub parent_inside : Text → Bool
  pub writable : Tree → Text → Bool

unfoldable pub write_file : Text → List ℕ → Tree → Tree
write_file path bytes [] = (path, bytes) ∷ []
write_file path bytes (f ∷ tree) =
    let rest = write_file path bytes tree in
    if same_text path f.0 then (path, bytes) ∷ tree else f ∷ rest

module _ (limits : ArchiveLimits) where
  -- The loop of `_extract_entry`: the bytes that the remaining chunks add to the file.
  unfoldable pub copy : ℕ → ℕ → Bool → List (List ℕ) → Option (List ℕ)
  copy already_written written corrupt [] = if corrupt then none else some []
  copy already_written written corrupt (chunk ∷ chunks) =
      let total = written + length chunk in
      let rest = copy already_written total corrupt chunks in
      if ltb limits.max_entry_bytes total
      then none
      else if ltb limits.max_uncompressed_bytes (already_written + total)
      then none
      else do bytes ← rest; some (chunk ++ bytes)

  -- The loop of `safe_extract_zip` from a number of written bytes on: the paths, and the tree. The
  -- branch for a directory is never taken, since `_validate_entries` has left those out.
  unfoldable pub extract : Disk → ℕ → List (Entry × Text) → Tree → Option (List Text × Tree)
  extract disk written_total [] tree = some ([], tree)
  extract disk written_total ((e, relative) ∷ entries) tree =
      if not (disk.parent_inside relative)
      then none
      else if is_dir e.filename
      then extract disk written_total entries tree
      else if not (disk.writable tree relative)
      then none
      else do
        bytes ← copy written_total 0 e.corrupt e.chunks
        (extracted, tree') ←
            extract disk (written_total + length bytes) entries (write_file relative bytes tree)
        some (relative ∷ extracted, tree')

-- `safe_extract_zip`: the extracted paths (`none` for the error), and the target directory.
-- `infos` is `none` where the upload is no zip file.
unfoldable pub safe_extract_zip :
    (ℕ → Bool)
    → ArchiveLimits
    → List Text
    → Disk
    → Option (List Entry)
    → Option Tree
    → Option (List Text) × Option Tree
safe_extract_zip is_space limits required_files disk none target = (none, target)
safe_extract_zip is_space limits required_files disk (some infos) target =
    elim (validate_entries is_space limits required_files infos) [
      | none ↦ (none, none)
      | some entries ↦
          elim (extract limits disk 0 entries (elim target [ none ↦ [] | some tree ↦ tree ])) [
            | none ↦ (none, none)
            | some (extracted, tree) ↦ (some extracted, some tree)
          ]
    ]
