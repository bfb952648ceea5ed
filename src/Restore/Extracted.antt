-- ===== src/Restore/Extracted.antt =====
-- scripts/restore_helpers.py: what an extraction writes, and that it replaces nothing.
use mathlib.Core.Option.{none-ne-some}
use model_deployer.Base.{
  ℕ, ◌≡◌, ◌⊎◌, refl, sym, ap, ◌∙◌, subst, Bool, true, false, Option, none, some, List, [], ◌∷◌,
  arith, not, All, if◌then◌else◌, Bool-cases, Option-cases, inl, inr, bind-eq-some, ◌>>=◌,
}
use model_deployer.Archive.{Text}
use model_deployer.Restore.Checked.{Valid, validate_storage_archive-Valid}
use model_deployer.Restore.{
  safe_relative_path, rstrip, MemberKind, Member, is_root, validate_storage_archive, Destination,
  make_folder, extract_member, extract_members, extract_storage_archive,
}
use model_deployer.Restore.Writes.{
  Keeps, Holds, Holds-Keeps, if-Keeps, make_folder-Keeps, write_member-Keeps, write_member-Holds,
}

module _ (resolves_inside : List Text → Bool) where
  extract_member-Keeps :
      (kind : MemberKind) (bytes : Option (List ℕ)) (parts : List Text) (disk : Destination)
      → Keeps disk (extract_member resolves_inside kind bytes parts disk).1
  unfolding extract_member
  extract_member-Keeps kind bytes parts disk =
      if-Keeps (not (resolves_inside parts)) _ _ disk (λ p x h. h)
        (write_member-Keeps kind bytes parts disk)

  extract_member-Holds :
      (kind : MemberKind) (bytes : Option (List ℕ)) (parts : List Text) (disk : Destination)
      → (extract_member resolves_inside kind bytes parts disk).0 ≡ true
      → (resolves_inside parts ≡ true)
        × Holds (extract_member resolves_inside kind bytes parts disk).1 kind bytes parts
  unfolding extract_member
  extract_member-Holds kind bytes parts disk h = elim (Bool-cases (resolves_inside parts)) [
    | inl q ↦ rw q (refl, write_member-Holds kind bytes parts disk (rw q at h))
    | inr q ↦ absurd (ground (arith, q, (rw q at h)))
  ]

  -- Where a member is found: the root is the destination, and any other lies at its safe path,
  -- which resolves below the destination.
  abbrev pub Placed : Destination → Member → Type 0
  Placed disk m =
      (is_root m ≡ true)
      ⊎ ((parts : List Text) × (safe_relative_path (rstrip m.name) ≡ some parts)
          × (resolves_inside parts ≡ true)
          × Holds disk m.kind m.bytes parts)

  -- What `extract_members` does with the member `m` and then the members `ms`.
  module _ (m : Member) (ms : List Member) (disk : Destination) where
    abbrev one : List Text → Bool × Destination
    one parts = extract_member resolves_inside m.kind m.bytes parts disk

    abbrev rest : List Text → Option (List (List Text)) × Destination
    rest parts = extract_members resolves_inside ms (one parts).1

    abbrev both : Bool → List Text → Option (List (List Text)) × Destination
    both b parts =
        if b
        then ((rest parts).0 >>= λ targets. some (parts ∷ targets), (rest parts).1)
        else (none, (one parts).1)

    extract_members-cons :
        (P : Option (List (List Text)) × Destination → Type 0)
        → (is_root m ≡ true → P (extract_members resolves_inside ms disk))
        → (safe_relative_path (rstrip m.name) ≡ none → P (none, disk))
        → ((parts : List Text)
            → safe_relative_path (rstrip m.name) ≡ some parts
            → P (both (one parts).0 parts))
        → P (extract_members resolves_inside (m ∷ ms) disk)
    unfolding extract_members
    extract_members-cons P root unsafe safe = elim (Bool-cases (is_root m)) [
      | inl q ↦ rw q (root q)
      | inr q ↦ elim (Option-cases (safe_relative_path (rstrip m.name))) [
        | inl e ↦ rw (q, e) (unsafe e)
        | inr (parts, e) ↦ rw (q, e) (safe parts e)
      ]
    ]

  extract_members-Keeps :
      (ms : List Member) (disk : Destination)
      → Keeps disk (extract_members resolves_inside ms disk).1
  unfolding extract_members
  extract_members-Keeps [] disk = λ p x h. h
  extract_members-Keeps (m ∷ ms) disk =
      extract_members-cons m ms disk (λ r. Keeps disk r.1) (λ q. extract_members-Keeps ms disk)
        (λ e p x h. h)
        (λ parts e.
          kept parts (one m ms disk parts).0 (extract_members-Keeps ms (one m ms disk parts).1))
    where
      kept :
          (parts : List Text) (b : Bool)
          → Keeps (one m ms disk parts).1 (rest m ms disk parts).1
          → Keeps disk (both m ms disk b parts).1
      kept parts true k p x h = k p x (extract_member-Keeps m.kind m.bytes parts disk p x h)
      kept parts false k p x h = extract_member-Keeps m.kind m.bytes parts disk p x h

  extract_members-Placed :
      (ms : List Member) (disk : Destination) (targets : List (List Text))
      → (extract_members resolves_inside ms disk).0 ≡ some targets
      → All (Placed (extract_members resolves_inside ms disk).1) ms
  extract_members-Placed [] disk targets = λ h. tt
  extract_members-Placed (m ∷ ms) disk targets =
      extract_members-cons m ms disk (λ r. r.0 ≡ some targets → All (Placed r.1) (m ∷ ms))
        (λ q h. (inl q, extract_members-Placed ms disk targets h))
        (λ e h. absurd (none-ne-some _ h))
        (λ parts e.
          placed parts e (one m ms disk parts).0 refl
            (λ t. extract_members-Placed ms (one m ms disk parts).1 t))
    where
      placed :
          (parts : List Text)
          → safe_relative_path (rstrip m.name) ≡ some parts
          → (b : Bool) → (one m ms disk parts).0 ≡ b
          → ((t : List (List Text))
              → (rest m ms disk parts).0 ≡ some t
              → All (Placed (rest m ms disk parts).1) ms)
          → (both m ms disk b parts).0 ≡ some targets
          → All (Placed (both m ms disk b parts).1) (m ∷ ms)
      placed parts e false done ih h = absurd (none-ne-some _ h)
      placed parts e true done ih h =
          let (t, found, _) = bind-eq-some (rest m ms disk parts).0 _ h in
          let (inside, holds) = extract_member-Holds m.kind m.bytes parts disk done in
          (
            inr (
              parts,
              e,
              inside,
              Holds-Keeps (one m ms disk parts).1 (rest m ms disk parts).1 m.kind m.bytes parts
                  (extract_members-Keeps ms (one m ms disk parts).1) holds,
            ),
            ih t found,
          )

  extract_storage_archive_lem :
      (members : List Member) (disk : Destination)
      → let (answer, disk') = extract_storage_archive resolves_inside members disk in
        Keeps disk disk'
        × ((targets : List (List Text)) → answer ≡ some targets → All (Placed disk') members)
  unfolding extract_storage_archive
  extract_storage_archive_lem members disk =
      elim (Option-cases (validate_storage_archive members)) [
        | inl q ↦ subst Whole (sym (ap result q)) ((λ p x h. h), (λ t h. absurd (none-ne-some _ h)))
        | inr (checked, q) ↦
            let same = (validate_storage_archive-Valid members checked q).0 in
            subst Whole (sym (ap result (q ∙ ap some same))) (written made.0)
      ]
    where
      made : Bool × Destination
      made = make_folder [] disk

      Whole : Option (List (List Text)) × Destination → Type 0
      Whole r =
          Keeps disk r.1
          × ((targets : List (List Text)) → r.0 ≡ some targets → All (Placed r.1) members)

      result : Option (List Member) → Option (List (List Text)) × Destination
      result o = elim o [
        | none ↦ (none, disk)
        | some checked ↦
            if made.0 then extract_members resolves_inside checked made.1 else (none, made.1)
      ]

      written :
          (b : Bool)
          → Whole (if b then extract_members resolves_inside members made.1 else (none, made.1))
      written true = (
        (λ p x h. extract_members-Keeps members made.1 p x (make_folder-Keeps [] disk p x h)),
        (λ t h. extract_members-Placed members made.1 t h),
      )
      written false = (make_folder-Keeps [] disk, (λ t h. absurd (none-ne-some _ h)))

  -- Whether or not `extract_storage_archive` succeeds, what was on the disk is there unchanged.
  pub extract_storage_archive-Keeps :
      (members : List Member) (disk : Destination)
      → Keeps disk (extract_storage_archive resolves_inside members disk).1
  extract_storage_archive-Keeps members disk = (extract_storage_archive_lem members disk).0

  -- Where `extract_storage_archive` returns, the archive has passed the checks, every member of it
  -- is on the disk, as a folder or with its bytes, at its own safe path, which resolves below the
  -- destination, and nothing was replaced.
  pub extract_storage_archive-Placed :
      (members : List Member) (disk : Destination) (targets : List (List Text))
      → (extract_storage_archive resolves_inside members disk).0 ≡ some targets
      → let disk' = (extract_storage_archive resolves_inside members disk).1 in
        Valid members × All (Placed disk') members × Keeps disk disk'
  unfolding extract_storage_archive
  extract_storage_archive-Placed members disk targets h =
      let (keeps, placed) = extract_storage_archive_lem members disk in
      (checked, placed targets h, keeps)
    where
      checked : Valid members
      checked = elim (Option-cases (validate_storage_archive members)) [
        | inl q ↦ absurd (none-ne-some _ (rw (extract_storage_archive, q) at h))
        | inr (ms, q) ↦ (validate_storage_archive-Valid members ms q).1
      ]
