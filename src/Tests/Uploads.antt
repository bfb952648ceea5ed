-- ===== src/Tests/Uploads.antt =====
-- Runs of uploads: an archive with the file "m/a" of three bytes, in two chunks.
use model_deployer.Base.{ℕ, ◌≤◌, ◌≡◌, refl, Bool, true, false, none, some, List, [], ◌∷◌, ◌==◌, All}
use model_deployer.Archive.{
  Text, dot, slash, ArchiveLimits, Entry, Disk, is_absolute, split, join, normalise_entry_path,
  is_special_file, is_bomb, scan, validate_entries, write_file, copy, extract, safe_extract_zip,
  has_parts,
}
use model_deployer.Archive.Paths.{Relative, SafePart, normalise_entry_path_lem}
use model_deployer.Archive.Limits.{Extracted, safe_extract_zip-Extracted}

abbrev is_space : ℕ → Bool
is_space c = c == 32

abbrev limits : ArchiveLimits
limits = record {
  max_uncompressed_bytes = 10;
  max_entry_bytes = 4;
  max_entries = 2;
  max_path_length = 20;
  max_compression_ratio = none;
}

-- ".\\m//a", and the path "m/a".
abbrev name : Text
name = dot ∷ 92 ∷ 109 ∷ slash ∷ slash ∷ 97 ∷ []

abbrev path : Text
path = 109 ∷ slash ∷ 97 ∷ []

-- The header of `liar` declares one byte.
abbrev entry : ℕ → List (List ℕ) → Entry
entry size chunks = record {
  filename = name;
  external_attr = 0;
  file_size = size;
  compress_size = 1;
  chunks = chunks;
  corrupt = false;
}

abbrev honest : Entry
honest = entry 3 ((1 ∷ 2 ∷ []) ∷ (3 ∷ []) ∷ [])

abbrev liar : Entry
liar = entry 1 ((1 ∷ 2 ∷ 3 ∷ []) ∷ (4 ∷ 5 ∷ []) ∷ [])

abbrev disk : Disk
disk = record { parent_inside = λ p. true; writable = λ tree p. true }

normalised : normalise_entry_path is_space limits name ≡ some path
unfolding normalise_entry_path is_absolute split join
normalised = refl

-- "./C:/a" is accepted under the path "C:/a", which `is_absolute` calls absolute.
hidden_drive :
    (normalise_entry_path is_space limits (dot ∷ slash ∷ 67 ∷ 58 ∷ slash ∷ 97 ∷ [])
      ≡ some (67 ∷ 58 ∷ slash ∷ 97 ∷ []))
    × (is_absolute (67 ∷ 58 ∷ slash ∷ 97 ∷ []) ≡ true)
unfolding normalise_entry_path is_absolute split join
hidden_drive = (refl, refl)

normalise_entry_path_lem_example :
    Relative name
    × (parts : List Text) × (path ≡ join parts)
    × (has_parts parts ≡ true)
    × All SafePart parts
    × (3 ≤ limits.max_path_length)
normalise_entry_path_lem_example = normalise_entry_path_lem is_space limits name path normalised

extracting :
    safe_extract_zip is_space limits (path ∷ []) disk (some (honest ∷ [])) none
    ≡ (some (path ∷ []), some ((path, 1 ∷ 2 ∷ 3 ∷ []) ∷ []))
unfolding safe_extract_zip validate_entries scan is_special_file normalise_entry_path is_absolute
    split join is_bomb extract copy write_file
extracting = refl

safe_extract_zip-Extracted_example :
    Extracted is_space limits (honest ∷ []) none (some ((path, 1 ∷ 2 ∷ 3 ∷ []) ∷ [])) (path ∷ [])
safe_extract_zip-Extracted_example =
    safe_extract_zip-Extracted is_space limits (path ∷ []) disk (honest ∷ []) none
      (some ((path, 1 ∷ 2 ∷ 3 ∷ []) ∷ [])) (path ∷ []) extracting

rejecting :
    (safe_extract_zip is_space limits (path ∷ []) disk (some (liar ∷ [])) (some [])).0 ≡ none
unfolding safe_extract_zip validate_entries scan is_special_file normalise_entry_path is_absolute
    split join is_bomb extract copy write_file
rejecting = refl
