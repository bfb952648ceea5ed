-- ===== src/Archive/Limits.antt =====
-- The limits that an accepted archive keeps, and what is left of a rejected one.
use model_deployer.Base.{
  ℕ, ◌+◌, ◌≤◌, ◌≡◌, refl, sym, ap, ◌∙◌, Bool, true, false, Option, none, some, List, [], ◌∷◌, ◌++◌,
  map, keep_if, not, arith, length, length-append, All, bind-eq-some, ◌>>=◌, ◌⊎◌, Option-cases,
  if◌then◌else◌, inl, inr,
}
use mathlib.Core.Option.{some-injective}
use model_deployer.Archive.{
  Text, ArchiveLimits, Entry, is_dir, is_special_file, is_bomb, normalise_entry_path, scan,
  validate_entries, Tree, Disk, write_file, copy, extract, safe_extract_zip,
}

abbrev pub declared_size : List (Entry × Text) → ℕ
declared_size [] = 0
declared_size (x ∷ l) = x.0.file_size + declared_size l

-- The bytes that reading an entry gives.
abbrev pub bytes_of : List (List ℕ) → List ℕ
bytes_of [] = []
bytes_of (chunk ∷ chunks) = chunk ++ bytes_of chunks

abbrev pub write_all : List (Entry × Text) → Tree → Tree
write_all [] tree = tree
write_all (x ∷ l) tree = write_all l (write_file x.1 (bytes_of x.0.chunks) tree)

abbrev pub extracted_size : List (Entry × Text) → ℕ
extracted_size [] = 0
extracted_size (x ∷ l) = length (bytes_of x.0.chunks) + extracted_size l

-- A file that the checks have let through, with its path.
pub record Accepted (is_space : ℕ → Bool) (limits : ArchiveLimits) (x : Entry × Text) : Type 0 where
  pub regular : is_special_file x.0 ≡ false
  pub named : normalise_entry_path is_space limits x.0.filename ≡ some x.1
  pub file : is_dir x.0.filename ≡ false
  pub small : x.0.file_size ≤ limits.max_entry_bytes
  pub no_bomb : is_bomb limits x.0 ≡ false

module _ (is_space : ℕ → Bool) (limits : ArchiveLimits) where
  abbrev Scanned : ℕ → List Entry → List (Entry × Text) → Type 0
  Scanned total infos entries =
      All (Accepted is_space limits) entries
      × (length entries ≤ length infos)
      × (total + declared_size entries ≤ limits.max_uncompressed_bytes)
      × (map (λ x. x.0) entries ≡ keep_if (λ i. not (is_dir i.filename)) infos)

  -- One round of the loop that goes on.
  record Round (total : ℕ) (i : Entry) (infos : List Entry) (entries : List (Entry × Text))
      (relative : Text) (es : List (Entry × Text)) (ns : List Text) : Type 0 where
    regular : is_special_file i ≡ false
    named : normalise_entry_path is_space limits i.filename ≡ some relative
    rest :
        scan is_space limits (if is_dir i.filename then total else total + i.file_size) infos
        ≡ some (es, ns)
    added :
        ((is_dir i.filename ≡ true) × (entries ≡ es))
        ⊎ ((is_dir i.filename ≡ false)
            × (i.file_size ≤ limits.max_entry_bytes)
            × (total + i.file_size ≤ limits.max_uncompressed_bytes)
            × (is_bomb limits i ≡ false)
            × (entries ≡ (i, relative) ∷ es))

  scan-Round :
      (total : ℕ) (i : Entry) (infos : List Entry) (entries : List (Entry × Text))
      (names : List Text)
      → scan is_space limits total (i ∷ infos) ≡ some (entries, names)
      → (relative : Text) × (es : List (Entry × Text)) × (ns : List Text) × Round total i infos
          entries relative es ns
  unfolding scan
  scan-Round total i infos entries names e =
      elim (Option-cases (normalise_entry_path is_space limits i.filename)) [
        | inl bad ↦ absurd (ground arith)
        | inr (relative, good) ↦
            elim (Option-cases (
              scan is_space limits (if is_dir i.filename then total else total + i.file_size)
                infos)) [
                  | inl bad ↦ absurd (ground arith)
                  | inr ((es, ns), more) ↦ (
                    relative,
                    es,
                    ns,
                    record {
                      regular = ground arith;
                      named = good;
                      rest = more;
                      added = ground arith;
                    },
                  )
                ]
      ]

  scan_lem :
      (total : ℕ) (infos : List Entry) (entries : List (Entry × Text)) (names : List Text)
      → total ≤ limits.max_uncompressed_bytes
      → scan is_space limits total infos ≡ some (entries, names)
      → Scanned total infos entries
  unfolding scan
  scan_lem total [] entries names le e =
      let p : [] ≡ entries = ap (λ x. x.0) (some-injective _ _ e) in
      rw (← p) (tt, omega arith, omega arith, refl)
  scan_lem total (i ∷ infos) entries names le e =
      let (relative, es, ns, r) = scan-Round total i infos entries names e in
      elim r.added [
        | inl (dir, same) ↦
            (let (a, b, c, l) = scan_lem total infos es ns le (rw dir at r.rest) in
              rw (same, dir) (a, omega arith, c, l))
        | inr (file, small, fits, tame, same) ↦
            (let (a, b, c, l) =
                scan_lem (total + i.file_size) infos es ns fits (rw file at r.rest) in
              rw (same, file)
                (
                  (
                    record {
                      regular = r.regular;
                      named = r.named;
                      file = file;
                      small = small;
                      no_bomb = tame;
                    },
                    a,
                  ),
                  omega arith,
                  omega arith,
                  ap (λ k. i ∷ k) l,
                ))
      ]

module _ (limits : ArchiveLimits) where
  copy_lem :
      (already written : ℕ) (corrupt : Bool) (chunks : List (List ℕ)) (bytes : List ℕ)
      → written ≤ limits.max_entry_bytes
      → already + written ≤ limits.max_uncompressed_bytes
      → copy limits already written corrupt chunks ≡ some bytes
      → (bytes ≡ bytes_of chunks)
        × (written + length bytes ≤ limits.max_entry_bytes)
        × (already + written + length bytes ≤ limits.max_uncompressed_bytes)
  unfolding copy
  copy_lem already written true [] bytes w a e = cc
  copy_lem already written false [] bytes w a e =
      let p : [] ≡ bytes = some-injective _ _ e in rw (← p) (refl, omega arith, omega arith)
  copy_lem already written corrupt (chunk ∷ chunks) bytes w a e =
      let fits : written + length chunk ≤ limits.max_entry_bytes = ground arith in
      let fits_all : already + (written + length chunk) ≤ limits.max_uncompressed_bytes =
        ground arith in
      let e' : (copy limits already (written + length chunk) corrupt chunks >>= λ rest.
      some (chunk ++ rest))
          ≡ some bytes =
        ground arith in
      let (rest, r, q) =
        bind-eq-some (copy limits already (written + length chunk) corrupt chunks) _ e' in
      let (p, x, y) =
        copy_lem already (written + length chunk) corrupt chunks rest fits fits_all r in
      let same : length rest ≡ length (bytes_of chunks) = ap length p in
      rw (← some-injective _ _ q, p, length-append) (refl, omega arith, omega arith)

  abbrev pub paths_of : List (Entry × Text) → List Text
  paths_of [] = []
  paths_of (x ∷ l) = x.1 ∷ paths_of l

  abbrev pub Written : ℕ → List (Entry × Text) → List Text → Type 0
  Written written entries paths =
      (paths ≡ paths_of entries)
      × (written + extracted_size entries ≤ limits.max_uncompressed_bytes)
      × All (λ x. length (bytes_of x.0.chunks) ≤ limits.max_entry_bytes) entries

  -- One round of the extraction that goes on.
  extract_round :
      (disk : Disk) (written : ℕ) (x : Entry × Text) (entries : List (Entry × Text))
      (tree tree' : Tree) (paths : List Text)
      → is_dir x.0.filename ≡ false
      → extract limits disk written (x ∷ entries) tree ≡ some (paths, tree')
      → (bytes : List ℕ) × (ps : List Text) × (copy limits written 0 x.0.corrupt x.0.chunks
          ≡ some bytes)
        × (extract limits disk (written + length bytes) entries (write_file x.1 bytes tree)
            ≡ some (ps, tree'))
        × (paths ≡ x.1 ∷ ps)
  unfolding extract
  extract_round disk written (e, relative) entries tree tree' paths file h =
      elim (Option-cases (copy limits written 0 e.corrupt e.chunks)) [
        | inl bad ↦ absurd (ground arith)
        | inr (bytes, c) ↦
            elim (Option-cases (
              extract limits disk (written + length bytes) entries
                (write_file relative bytes tree))) [
                  | inl bad ↦ absurd (ground arith)
                  | inr ((ps, t), r) ↦ (bytes, ps, c, ground arith, ground arith)
                ]
      ]

  extract_lem :
      (disk : Disk) (written : ℕ) (entries : List (Entry × Text)) (tree tree' : Tree)
      (paths : List Text)
      → All (λ x. is_dir x.0.filename ≡ false) entries
      → written ≤ limits.max_uncompressed_bytes
      → extract limits disk written entries tree ≡ some (paths, tree')
      → Written written entries paths × (tree' ≡ write_all entries tree)
  unfolding extract
  extract_lem disk written [] tree tree' paths files le h =
      let p : [] ≡ paths = ap (λ x. x.0) (some-injective _ _ h) in
      (rw (← p) (refl, omega arith, tt), sym (ap (λ x. x.1) (some-injective _ _ h)))
  extract_lem disk written (x ∷ entries) tree tree' paths files le h =
      let (bytes, ps, c, r, same) =
        extract_round disk written x entries tree tree' paths files.0 h in
      let (b, small, fits) =
        copy_lem written 0 x.0.corrupt x.0.chunks bytes (omega arith) (omega arith) c in
      let size : length bytes ≡ length (bytes_of x.0.chunks) = ap length b in
      let ((p, total, each), t) =
        extract_lem disk (written + length bytes) entries (write_file x.1 bytes tree) tree' ps
          files.1 (omega arith) r in
      (
        rw same (ap (λ l. x.1 ∷ l) p, omega arith, (omega arith, each)),
        t ∙ ap (λ b. write_all entries (write_file x.1 b tree)) b,
      )

abbrev pub start_tree : Option Tree → Tree
start_tree none = []
start_tree (some tree) = tree

-- What an extracted archive keeps, whatever its headers declare. The entries are those of the
-- archive that are no directories, and the target has been written from what reading each one
-- gives.
pub record Extracted (is_space : ℕ → Bool) (limits : ArchiveLimits) (infos : List Entry)
    (target target' : Option Tree) (paths : List Text) : Type 0 where
  pub entries : List (Entry × Text)
  pub files : map (λ x. x.0) entries ≡ keep_if (λ i. not (is_dir i.filename)) infos
  pub tree : target' ≡ some (write_all entries (start_tree target))
  pub accepted : All (Accepted is_space limits) entries
  pub listed : paths ≡ paths_of limits entries
  pub few : length infos ≤ limits.max_entries
  pub declared : declared_size entries ≤ limits.max_uncompressed_bytes
  pub written : extracted_size entries ≤ limits.max_uncompressed_bytes
  pub each : All (λ x. length (bytes_of x.0.chunks) ≤ limits.max_entry_bytes) entries

validate_entries_lem :
    (is_space : ℕ → Bool) (limits : ArchiveLimits) (required_files : List Text) (infos : List Entry)
    (entries : List (Entry × Text))
    → validate_entries is_space limits required_files infos ≡ some entries
    → (length infos ≤ limits.max_entries) × Scanned is_space limits 0 infos entries
unfolding validate_entries
validate_entries_lem is_space limits required_files infos entries e =
    elim (Option-cases (scan is_space limits 0 infos)) [
      | inl bad ↦ absurd (ground arith)
      | inr ((es, ns), s) ↦
          (let same : es ≡ entries = ground arith in
            (ground arith, rw (← same) (scan_lem is_space limits 0 infos es ns (omega arith) s)))
    ]

only_files :
    (is_space : ℕ → Bool) (limits : ArchiveLimits) (entries : List (Entry × Text))
    → All (Accepted is_space limits) entries
    → All (λ x. is_dir x.0.filename ≡ false) entries
only_files is_space limits [] a = tt
only_files is_space limits (x ∷ l) a = (a.0.file, only_files is_space limits l a.1)

-- An archive that is extracted keeps its limits, whatever its headers declare. It has no more entries
-- than allowed. Those that are no directories are regular, have a normalised path, declare an
-- allowed size and are no archive bomb; the bytes that reading them gives are within the limit for
-- each and in sum; these bytes have been written to the target at their paths, in order, and the
-- extracted paths are these.
pub safe_extract_zip-Extracted :
    (is_space : ℕ → Bool) (limits : ArchiveLimits) (required_files : List Text) (disk : Disk)
    (infos : List Entry) (target target' : Option Tree) (paths : List Text)
    → safe_extract_zip is_space limits required_files disk (some infos) target
      ≡ (some paths, target')
    → Extracted is_space limits infos target target' paths
unfolding safe_extract_zip
safe_extract_zip-Extracted is_space limits required_files disk infos target target' paths h =
    elim (Option-cases (validate_entries is_space limits required_files infos)) [
      | inl bad ↦ absurd (ground arith)
      | inr (entries, v) ↦ elim (Option-cases (extract limits disk 0 entries start)) [
        | inl bad ↦ absurd (ground arith)
        | inr ((ps, tree), x) ↦
            (let same : ps ≡ paths = ground arith in
              let (few, (a, _, d, f)) =
                validate_entries_lem is_space limits required_files infos entries v in
              let ((p, total, each), w) =
                extract_lem limits disk 0 entries start tree ps
                  (only_files is_space limits entries a) (omega arith) x in
              record {
                entries = entries;
                files = f;
                tree = written_to tree (ground arith) ∙ ap some w;
                accepted = a;
                listed = sym same ∙ p;
                few = few;
                declared = omega arith;
                written = omega arith;
                each = each;
              })
      ]
    ]
  where
    start : Tree
    start = start_tree target

    written_to : (tree : Tree) → some tree ≡ target' → target' ≡ some tree
    written_to tree e = sym e

-- A zip file that is rejected, for its entries or while it is written, leaves no target directory.
pub safe_extract_zip_cleans :
    (is_space : ℕ → Bool) (limits : ArchiveLimits) (required_files : List Text) (disk : Disk)
    (infos : List Entry) (target : Option Tree)
    → (safe_extract_zip is_space limits required_files disk (some infos) target).0 ≡ none
    → (safe_extract_zip is_space limits required_files disk (some infos) target).1 ≡ none
unfolding safe_extract_zip
safe_extract_zip_cleans is_space limits required_files disk infos target h = ground arith
