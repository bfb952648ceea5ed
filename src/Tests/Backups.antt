-- ===== src/Tests/Backups.antt =====
-- Runs of restore_helpers.py: a storage archive with the folder "o/" and the file "o/a".
use mathlib.Core.List.{cons-ne-nil}
use model_deployer.Base.{
  ℕ, ◌≡◌, ◌%◌, refl, Bool, true, Option, none, some, List, [], ◌∷◌, ◌==◌, not, length, replicate,
  All, if◌then◌else◌, Bool-cases, inl, inr,
}
use model_deployer.Base.Int.{pos}
use model_deployer.Archive.{Text, split, join}
use model_deployer.Restore.{
  directory, regular, Member, file, Destination, put, validate_storage_archive, check_members,
  safe_relative_path, rstrip, is_drive, as_posix, add_size, extract_storage_archive,
  extract_members, extract_member, write_member, make_folders, make_folder, beginnings, parents,
  write_new,
}
use model_deployer.Restore.Checked.{Valid}
use model_deployer.Restore.Writes.{Keeps}
use model_deployer.Restore.Extracted.{Placed, extract_storage_archive-Placed}
use model_deployer.Restore.Manifests.{
  BackupManifest, is_checksum, dump_name, archive_name, same_set, actual_names, component,
  create_manifest, check_file, validate_manifest, validate_backup, sorted_texts, insert_text,
}
use model_deployer.Restore.Manifests.Tampered.{Unchanged, validate_manifest-Unchanged}
use model_deployer.Restore.Manifests.RoundTrip.{validate_backup-create_manifest}

abbrev o_a : Text
o_a = 111 ∷ 47 ∷ 97 ∷ []

abbrev members : List Member
members =
    record { name = 111 ∷ 47 ∷ []; kind = directory; size = pos 0; bytes = none }
    ∷ record { name = o_a; kind = regular; size = pos 2; bytes = some (7 ∷ 8 ∷ []) }
    ∷ []

abbrev anywhere : List Text → Bool
anywhere _ = true

-- Sixty-four digits, by the parity of the length.
abbrev parity : List ℕ → Text
parity bytes = if length bytes % 2 == 0 then replicate 64 97 else replicate 64 98

parity_hex : (bytes : List ℕ) → is_checksum (parity bytes) ≡ true
parity_hex bytes = elim (Bool-cases (length bytes % 2 == 0)) [
  | inl q ↦ rw q refl
  | inr q ↦ rw q refl
]

abbrev nothing : Destination
nothing _ = none

abbrev backup : Destination
backup = put (dump_name ∷ []) (file (1 ∷ [])) (put (archive_name ∷ []) (file (2 ∷ 3 ∷ [])) nothing)

abbrev read_members : List ℕ → Option (List Member)
read_members _ = some members

abbrev manifest : BackupManifest
manifest = record {
  format_version = 1;
  database = 100 ∷ [];
  files = (dump_name, replicate 64 98) ∷ (archive_name, replicate 64 97) ∷ [];
  storage_objects = some (o_a ∷ []);
}

abbrev targets : List (List Text)
targets = ((111 ∷ []) ∷ []) ∷ ((111 ∷ []) ∷ (97 ∷ []) ∷ []) ∷ []

extract_storage_archive-Placed_example :
    Valid members
    × All (Placed anywhere (extract_storage_archive anywhere members nothing).1) members
    × Keeps nothing (extract_storage_archive anywhere members nothing).1
unfolding extract_storage_archive validate_storage_archive check_members rstrip safe_relative_path
    split is_drive add_size as_posix join make_folder extract_members extract_member write_member
    make_folders beginnings parents write_new
extract_storage_archive-Placed_example =
    extract_storage_archive-Placed anywhere members nothing targets refl

validate_manifest-Unchanged_example :
    (some manifest ≡ some manifest)
    × (◌≡◌ {A = ℕ} 1 1)
    × (not (length manifest.files == 0) ≡ true)
    × All (Unchanged parity anywhere backup) manifest.files
unfolding validate_manifest check_file safe_relative_path split is_drive
validate_manifest-Unchanged_example =
    validate_manifest-Unchanged parity anywhere backup (some manifest) manifest refl

validate_backup-create_manifest_example :
    validate_backup parity anywhere read_members backup (some manifest)
    ≡ same_set (o_a ∷ []) (actual_names members)
unfolding create_manifest component sorted_texts insert_text validate_storage_archive check_members
    safe_relative_path rstrip split is_drive as_posix add_size join
validate_backup-create_manifest_example =
    validate_backup-create_manifest parity parity_hex anywhere backup read_members (100 ∷ [])
      (o_a ∷ []) manifest (2 ∷ 3 ∷ []) members (cons-ne-nil 100 []) refl refl refl refl refl refl
