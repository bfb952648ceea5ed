-- ===== src/Restore/Manifests/RoundTrip.antt =====
-- scripts/restore_helpers.py: `create_manifest` and then `validate`.
use mathlib.Core.Option.{some-injective, none-ne-some}
use model_deployer.Base.{
  ℕ, ◌≡◌, refl, sym, ap, ◌∙◌, subst, Bool, true, Option, none, some, List, [], ◌∷◌, arith, ◌==◌,
  not, ◌&&◌, ◌||◌, all_of, any_of, length, bind-eq-some, ◌≢◌, map,
}
use model_deployer.Archive.{Text, same_text, split}
use model_deployer.Restore.{
  safe_relative_path, is_drive, Destination, Member, validate_storage_archive,
}
use model_deployer.Restore.Writes.{same_text_refl}
use model_deployer.Restore.Manifests.{
  BackupManifest, read_file, is_checksum, dump_name, archive_name, subset, same_set, actual_names,
  insert_text, sorted_texts, component, create_manifest, check_file, validate_manifest,
  verify_archive_manifest, validate_backup,
}

any_of-insert_text :
    (p : Text → Bool) (x : Text) (ys : List Text)
    → any_of p (insert_text x ys) ≡ (p x || any_of p ys)
unfolding insert_text
any_of-insert_text p x [] = refl
any_of-insert_text p x (y ∷ ys) = ground (arith, any_of-insert_text p x ys)

any_of-sorted_texts : (p : Text → Bool) (xs : List Text) → any_of p (sorted_texts xs) ≡ any_of p xs
unfolding sorted_texts
any_of-sorted_texts p [] = refl
any_of-sorted_texts p (x ∷ xs) =
    any_of-insert_text p x _ ∙ ap (λ b. p x || b) (any_of-sorted_texts p xs)

all_of-insert_text :
    (p : Text → Bool) (x : Text) (ys : List Text)
    → all_of p (insert_text x ys) ≡ (p x && all_of p ys)
unfolding insert_text
all_of-insert_text p x [] = refl
all_of-insert_text p x (y ∷ ys) = ground (arith, all_of-insert_text p x ys)

all_of-sorted_texts : (p : Text → Bool) (xs : List Text) → all_of p (sorted_texts xs) ≡ all_of p xs
unfolding sorted_texts
all_of-sorted_texts p [] = refl
all_of-sorted_texts p (x ∷ xs) =
    all_of-insert_text p x _ ∙ ap (λ b. p x && b) (all_of-sorted_texts p xs)

all_of-eq :
    (p q : Text → Bool) (xs : List Text) → ((x : Text) → p x ≡ q x) → all_of p xs ≡ all_of q xs
all_of-eq p q [] f = refl
all_of-eq p q (x ∷ xs) f = ground (arith, f x, all_of-eq p q xs f)

same_set-sorted : (xs ys : List Text) → same_set (sorted_texts xs) ys ≡ same_set xs ys
same_set-sorted xs ys =
    ap (λ b. b && subset ys (sorted_texts xs))
      (all_of-sorted_texts (λ x. any_of (same_text x) ys) xs)
    ∙ ap (λ b. subset xs ys && b) (all_of-eq _ _ ys (λ y. any_of-sorted_texts (same_text y) xs))

and_true : (b c : Bool) → c ≡ true → (b && c && true) ≡ b
and_true b c h = ground (arith, h)

not_empty : (s : Text) → s ≢ [] → not (length s == 0) ≡ true
not_empty [] h = absurd (h refl)
not_empty (c ∷ s) h = ground arith

dump_path : safe_relative_path dump_name ≡ some (dump_name ∷ [])
unfolding safe_relative_path split is_drive
dump_path = refl

archive_path : safe_relative_path archive_name ≡ some (archive_name ∷ [])
unfolding safe_relative_path split is_drive
archive_path = refl

module _ (digest : List ℕ → Text) (hex : (bytes : List ℕ) → is_checksum (digest bytes) ≡ true)
    (resolves_inside : List Text → Bool) (disk : Destination) where
  component_lem :
      (name : Text) (e : Text × Text)
      → component digest disk name ≡ some e
      → (bytes : List ℕ) × (read_file disk (name ∷ []) ≡ some bytes) × (e ≡ (name, digest bytes))
  unfolding component
  component_lem name e h = go (read_file disk (name ∷ [])) refl
    where
      go :
          (o : Option (List ℕ))
          → read_file disk (name ∷ []) ≡ o
          → (bytes : List ℕ) × (o ≡ some bytes) × (e ≡ (name, digest bytes))
      go none q = absurd (none-ne-some _ (rw (component, q) at h))
      go (some []) q = absurd (none-ne-some _ (rw (component, q) at h))
      go (some (b ∷ bs)) q = (b ∷ bs, refl, sym (some-injective _ _ (rw (component, q) at h)))

  check_created :
      (name : Text) (e : Text × Text)
      → safe_relative_path name ≡ some (name ∷ [])
      → resolves_inside (name ∷ []) ≡ true
      → component digest disk name ≡ some e
      → (check_file digest resolves_inside disk e ≡ true) × (e.0 ≡ name)
  unfolding check_file
  check_created name e safe inside made =
      let (bytes, found, same) = component_lem name e made in
      (
        ap (check_file digest resolves_inside disk) same
            ∙ rw (check_file, safe, found)
                (ground (arith, inside, hex bytes, same_text_refl (digest bytes))),
        ap (λ p. p.0) same,
      )

  -- What `create_manifest` has written is validated.
  abbrev Created : Text → List Text → BackupManifest → Type 0
  Created database objects m =
      (validate_manifest digest resolves_inside disk (some m) ≡ some m)
      × (map (λ e. e.0) m.files ≡ dump_name ∷ archive_name ∷ [])
      × (m.database ≡ database)
      × (m.storage_objects ≡ some (sorted_texts objects))

  create_manifest-Created :
      (database : Text) (objects : List Text) (m : BackupManifest)
      → resolves_inside (dump_name ∷ []) ≡ true
      → resolves_inside (archive_name ∷ []) ≡ true
      → create_manifest digest disk database objects ≡ some m
      → Created database objects m
  unfolding create_manifest validate_manifest
  create_manifest-Created database objects m in_dump in_archive h =
      let (dump, made, h') = bind-eq-some (component digest disk dump_name) _ h in
      let (archive, made', h'') = bind-eq-some (component digest disk archive_name) _ h' in
      let (dump_ok, dump_is) = check_created dump_name dump dump_path in_dump made in
      let (archive_ok, archive_is) =
        check_created archive_name archive archive_path in_archive made' in
      subst (Created database objects) (some-injective _ _ h'') (
        rw (dump_ok, archive_ok) refl,
        ap (λ p. p ∷ archive.0 ∷ []) dump_is ∙ ap (λ p. dump_name ∷ p ∷ []) archive_is,
        refl,
        refl,
      )

  -- A manifest that `create_manifest` has written for a database with a name, next to a storage
  -- archive that passes its checks, is accepted by `validate` exactly where it was given the names
  -- of the archive's files.
  pub validate_backup-create_manifest :
      (read_archive : List ℕ → Option (List Member)) (database : Text) (objects : List Text)
      (m : BackupManifest) (bytes : List ℕ) (members : List Member)
      → database ≢ []
      → resolves_inside (dump_name ∷ []) ≡ true
      → resolves_inside (archive_name ∷ []) ≡ true
      → read_file disk (archive_name ∷ []) ≡ some bytes
      → read_archive bytes ≡ some members
      → validate_storage_archive members ≡ some members
      → create_manifest digest disk database objects ≡ some m
      → validate_backup digest resolves_inside read_archive disk (some m)
        ≡ same_set objects (actual_names members)
  unfolding validate_backup verify_archive_manifest
  validate_backup-create_manifest read_archive database objects m bytes members named in_dump
        in_archive found read valid made =
      let (ok, names, db, objs) =
        create_manifest-Created database objects m in_dump in_archive made in
      rw
        (
          validate_backup, ok, names, found, read, valid, verify_archive_manifest, ok, names, objs,
          db,
        )
        (and_true _ (not (length database == 0)) (not_empty database named)
          ∙ same_set-sorted objects (actual_names members))
