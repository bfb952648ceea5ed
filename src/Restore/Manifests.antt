-- ===== src/Restore/Manifests.antt =====
-- scripts/restore_helpers.py: the manifest of a backup. `digest` is the SHA-256 of a file in
-- hexadecimal, `read_archive` what tarfile reads of the storage archive. A manifest that is not
-- there, no JSON or of another shape is `none`, and so is a link in the place of a component.
pub mod Tampered
pub mod RoundTrip
use mathlib.Core.Option
use model_deployer.Base.{
  ℕ, ◌+◌, Bool, true, false, Option, none, some, List, [], ◌∷◌, ◌==◌, ◌&&◌, ◌||◌, not, leb, ltb,
  all_of, any_of, length, map, ◌>>=◌, if◌then◌else◌,
}
use model_deployer.Archive.{Text, slash, dot, same_text}
use model_deployer.Restore.{
  safe_relative_path, rstrip, MemberKind, regular, Member, is_root, validate_storage_archive, Node,
  folder, file, Destination,
}

pub record BackupManifest : Type 0 where
  pub format_version : ℕ
  pub database : Text
  pub files : List (Text × Text)
  pub storage_objects : Option (List Text)

-- `re.fullmatch(r"[0-9a-f]{64}", hash)`
abbrev pub is_hex : ℕ → Bool
is_hex c = leb 48 c && leb c 57 || leb 97 c && leb c 102

abbrev pub is_checksum : Text → Bool
is_checksum hash = length hash == 64 && all_of is_hex hash

-- The bytes of a component, where it is a file.
abbrev pub read_file : Destination → List Text → Option (List ℕ)
read_file disk parts = disk parts >>= λ x. elim x [ folder ↦ none | file bytes ↦ some bytes ]

-- "postgres.dump" and "storage.tar.gz"
abbrev pub dump_name : Text
dump_name = 112 ∷ 111 ∷ 115 ∷ 116 ∷ 103 ∷ 114 ∷ 101 ∷ 115 ∷ 46 ∷ 100 ∷ 117 ∷ 109 ∷ 112 ∷ []

abbrev pub archive_name : Text
archive_name = 115 ∷ 116 ∷ 111 ∷ 114 ∷ 97 ∷ 103 ∷ 101 ∷ 46 ∷ 116 ∷ 97 ∷ 114 ∷ 46 ∷ 103 ∷ 122 ∷ []

-- Equality of two sets of texts.
abbrev pub subset : List Text → List Text → Bool
subset xs ys = all_of (λ x. any_of (same_text x) ys) xs

abbrev pub same_set : List Text → List Text → Bool
same_set xs ys = subset xs ys && subset ys xs

-- `removeprefix("./")`
unfoldable pub without_dot : Text → Text
without_dot (c ∷ e ∷ s) = if c == dot && e == slash then s else c ∷ e ∷ s
without_dot s = s

abbrev pub is_file : Member → Bool
is_file m = elim m.kind [ regular ↦ true | _ ↦ false ]

-- `actual_names`
unfoldable pub actual_names : List Member → List Text
actual_names [] = []
actual_names (m ∷ ms) =
    let rest = actual_names ms in
    if is_file m && not (is_root m) then without_dot (rstrip m.name) ∷ rest else rest

-- `sorted` of texts.
unfoldable pub text_leb : Text → Text → Bool
text_leb [] _ = true
text_leb (a ∷ s) [] = false
text_leb (a ∷ s) (b ∷ t) = let rest = text_leb s t in ltb a b || a == b && rest

unfoldable pub insert_text : Text → List Text → List Text
insert_text x [] = x ∷ []
insert_text x (y ∷ ys) =
    let rest = insert_text x ys in if text_leb x y then x ∷ y ∷ ys else y ∷ rest

unfoldable pub sorted_texts : List Text → List Text
sorted_texts [] = []
sorted_texts (x ∷ xs) = insert_text x (sorted_texts xs)

abbrev pub file_names : BackupManifest → List Text
file_names m = map (λ e. e.0) m.files

module _ (digest : List ℕ → Text) where
  -- A required component: a file that is not empty.
  unfoldable pub component : Destination → Text → Option (Text × Text)
  component disk name = elim (read_file disk (name ∷ [])) [
    | none ↦ none
    | some [] ↦ none
    | some (b ∷ bs) ↦ some (name, digest (b ∷ bs))
  ]

  -- `create_manifest`, with what it writes.
  unfoldable pub create_manifest : Destination → Text → List Text → Option BackupManifest
  create_manifest disk database storage_objects = component disk dump_name >>= λ dump.
      component disk archive_name >>= λ archive. some (record {
        format_version = 1;
        database = database;
        files = dump ∷ archive ∷ [];
        storage_objects = some (sorted_texts storage_objects);
      })

  module _ (resolves_inside : List Text → Bool) where
    -- One turn of the loop of `validate_manifest`, and the loop.
    unfoldable pub check_file : Destination → Text × Text → Bool
    check_file disk (name, hash) = elim (safe_relative_path name) [
      | none ↦ false
      | some rel ↦ elim (read_file disk rel) [
        | none ↦ false
        | some bytes ↦ is_checksum hash && resolves_inside rel && same_text (digest bytes) hash
      ]
    ]

    unfoldable pub validate_manifest : Destination → Option BackupManifest → Option BackupManifest
    validate_manifest disk none = none
    validate_manifest disk (some m) =
        if not (m.format_version == 1)
        then none
        else if length m.files == 0
        then none
        else if all_of (check_file disk) m.files
        then some m
        else none

    -- `verify_archive_manifest`: whether it returns.
    unfoldable pub verify_archive_manifest :
        Destination → Option BackupManifest → List Member → Bool
    verify_archive_manifest disk written members = elim (validate_manifest disk written) [
      | none ↦ false
      | some m ↦
          if not (any_of (same_text archive_name) (file_names m))
          then true
          else elim m.storage_objects [
            | none ↦ true
            | some expected ↦ same_set expected (actual_names members)
          ]
    ]

    abbrev pub has_objects : BackupManifest → Bool
    has_objects m = elim m.storage_objects [ none ↦ false | some _ ↦ true ]

    -- The branch `validate` of `main`: whether the backup is accepted.
    unfoldable pub validate_backup :
        (List ℕ → Option (List Member)) → Destination → Option BackupManifest → Bool
    validate_backup read_archive disk written = elim (validate_manifest disk written) [
      | none ↦ false
      | some m ↦
          if not (same_set (file_names m) (dump_name ∷ archive_name ∷ []))
          then false
          else elim (read_file disk (archive_name ∷ [])
              >>= read_archive
              >>= validate_storage_archive) [
                | none ↦ false
                | some members ↦
                    verify_archive_manifest disk written members
                    && not (length m.database == 0)
                    && has_objects m
              ]
    ]
