-- ===== src/Restore/Manifests/Tampered.antt =====
-- scripts/restore_helpers.py, `validate_manifest`: no listed component has been changed.
use mathlib.Core.Option.{some-injective, none-ne-some}
use model_deployer.Base.{
  ℕ, ◌≡◌, refl, sym, ap, ◌∙◌, subst, Bool, true, false, Option, none, some, List, [], ◌∷◌, arith,
  ◌==◌, not, ◌&&◌, All, all_of, length, if◌then◌else◌, Option-cases, inl, inr,
}
use model_deployer.Archive.{Text, same_text}
use model_deployer.Archive.Paths.{SafePart}
use model_deployer.Restore.{safe_relative_path, Destination}
use model_deployer.Restore.Checked.{safe_relative_path-SafePart, guard-some}
use model_deployer.Restore.Writes.{same_text-≡}
use model_deployer.Restore.Manifests.{
  BackupManifest, read_file, is_checksum, check_file, validate_manifest,
}

all_of-All {ℓ} :
    {A : Type ℓ} (p : A → Bool) (xs : List A) → all_of p xs ≡ true → All (λ x. p x ≡ true) xs
all_of-All p [] h = tt
all_of-All p (x ∷ xs) h = (ground arith, all_of-All p xs (ground arith))

All-map :
    {A : Type 0} {P Q : A → Type 0} (xs : List A) → ((x : A) → P x → Q x) → All P xs → All Q xs
All-map [] f h = tt
All-map (x ∷ xs) f h = (f x h.0, All-map xs f h.1)

pass-some :
    {A : Type 0} {w m : A} (b : Bool)
    → ◌≡◌ {A = Option A} (if b then some w else none) (some m)
    → (b ≡ true) × (w ≡ m)
pass-some true h = (refl, some-injective _ _ h)
pass-some false h = absurd (none-ne-some _ h)

module _ (digest : List ℕ → Text) (resolves_inside : List Text → Bool) (disk : Destination) where
  -- A component that is there under a safe path, with the digest that the manifest has.
  abbrev pub Unchanged : Text × Text → Type 0
  Unchanged e =
      (rel : List Text) × (bytes : List ℕ) × (safe_relative_path e.0 ≡ some rel)
      × All SafePart rel
      × (resolves_inside rel ≡ true)
      × (read_file disk rel ≡ some bytes)
      × (digest bytes ≡ e.1)

  check_file-Unchanged :
      (e : Text × Text) → check_file digest resolves_inside disk e ≡ true → Unchanged e
  unfolding check_file
  check_file-Unchanged (name, hash) h = elim (Option-cases (safe_relative_path name)) [
    | inl q ↦ absurd (ground (arith, q, (rw (check_file, q) at h)))
    | inr (rel, q) ↦ elim (Option-cases (read_file disk rel)) [
      | inl r ↦ absurd (ground (arith, r, (rw (check_file, q, r) at h)))
      | inr (bytes, r) ↦
          let checks : (is_checksum hash && resolves_inside rel && same_text (digest bytes) hash)
              ≡ true =
            rw (check_file, q, r) at h in
          (
            rel,
            bytes,
            q,
            safe_relative_path-SafePart name rel q,
            ground arith,
            r,
            same_text-≡ (digest bytes) hash (ground arith),
          )
    ]
  ]

  -- Where `validate_manifest` returns, it returns the manifest that was written; it lists at least
  -- one component, and each that it lists is a file at a safe path below the backup whose digest is
  -- still the one that was written.
  pub validate_manifest-Unchanged :
      (written : Option BackupManifest) (m : BackupManifest)
      → validate_manifest digest resolves_inside disk written ≡ some m
      → (written ≡ some m)
        × (m.format_version ≡ 1)
        × (not (length m.files == 0) ≡ true)
        × All Unchanged m.files
  unfolding validate_manifest
  validate_manifest-Unchanged none m h = absurd (none-ne-some _ h)
  validate_manifest-Unchanged (some w) m h =
      let (version, h') = guard-some (not (w.format_version == 1)) _ h in
      let (files, h'') = guard-some (length w.files == 0) _ h' in
      let (checked, same) =
        pass-some (all_of (check_file digest resolves_inside disk) w.files) h'' in
      (
        ap some same,
        ap (λ n. n.format_version) (sym same) ∙ ground arith,
        subst (λ n. not (length n.files == 0) ≡ true) same (ground arith),
        subst (λ n. All Unchanged n.files) same
            (All-map w.files check_file-Unchanged (all_of-All _ w.files checked)),
      )
