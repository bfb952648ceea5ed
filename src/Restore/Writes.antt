-- ===== src/Restore/Writes.antt =====
-- scripts/restore_helpers.py: what `mkdir` and `open("xb")` write, and that they replace nothing.
use mathlib.Core.Option.{none-ne-some}
use model_deployer.Base.{
  ℕ, ◌≡◌, refl, sym, ap, ◌∙◌, subst, Bool, true, false, Option, none, some, List, [], ◌∷◌, arith,
  All, if◌then◌else◌, Bool-cases, inl, inr,
}
use model_deployer.Archive.{Text, same_text}
use model_deployer.Restore.{
  MemberKind, directory, regular, special, Node, folder, file, Destination, same_path, put,
  make_folder, make_folders, beginnings, parents, write_new, write_member,
}

pub same_text-≡ : (s t : Text) → same_text s t ≡ true → s ≡ t
same_text-≡ [] [] h = refl
same_text-≡ [] (b ∷ t) h = absurd (ground arith)
same_text-≡ (a ∷ s) [] h = absurd (ground arith)
same_text-≡ (a ∷ s) (b ∷ t) h =
    let e : a ≡ b = ground arith in let rest = same_text-≡ s t (ground arith) in cc

pub same_text_refl : (s : Text) → same_text s s ≡ true
same_text_refl [] = refl
same_text_refl (a ∷ s) = ground (arith, same_text_refl s)

same_path-≡ : (p q : List Text) → same_path p q ≡ true → p ≡ q
same_path-≡ [] [] h = refl
same_path-≡ [] (b ∷ t) h = absurd (ground arith)
same_path-≡ (a ∷ s) [] h = absurd (ground arith)
same_path-≡ (a ∷ s) (b ∷ t) h =
    let e = same_text-≡ a b (ground arith) in let rest = same_path-≡ s t (ground arith) in cc

same_path_refl : (p : List Text) → same_path p p ≡ true
same_path_refl [] = refl
same_path_refl (a ∷ p) = ground (arith, same_text_refl a, same_path_refl p)

-- What the first disk has, the second has unchanged.
abbrev pub Keeps : Destination → Destination → Type 0
Keeps disk disk' = (p : List Text) (x : Node) → disk p ≡ some x → disk' p ≡ some x

put-Keeps :
    (path : List Text) (x : Node) (disk : Destination)
    → disk path ≡ none
    → Keeps disk (put path x disk)
put-Keeps path x disk free p y h = elim (Bool-cases (same_path p path)) [
  | inl q ↦ absurd (none-ne-some y (sym free ∙ ap disk (sym (same_path-≡ p path q)) ∙ h))
  | inr q ↦ rw q h
]

put_self : (path : List Text) (x : Node) (disk : Destination) → put path x disk path ≡ some x
put_self path x disk = rw (same_path_refl path) refl

pub make_folder-Keeps :
    (path : List Text) (disk : Destination) → Keeps disk (make_folder path disk).1
unfolding make_folder
make_folder-Keeps path disk = go (disk path) refl
  where
    go : (o : Option Node) → disk path ≡ o → Keeps disk (make_folder path disk).1
    go none e = rw (make_folder, e) (put-Keeps path folder disk e)
    go (some folder) e = rw (make_folder, e) (λ p x h. h)
    go (some (file bytes)) e = rw (make_folder, e) (λ p x h. h)

make_folder-folder :
    (path : List Text) (disk : Destination)
    → (make_folder path disk).0 ≡ true
    → (make_folder path disk).1 path ≡ some folder
unfolding make_folder
make_folder-folder path disk h = go (disk path) refl
  where
    go : (o : Option Node) → disk path ≡ o → (make_folder path disk).1 path ≡ some folder
    go none e = rw (make_folder, e) (put_self path folder disk)
    go (some folder) e = rw (make_folder, e) e
    go (some (file bytes)) e = absurd (ground (arith, (rw (make_folder, e) at h)))

-- A pair that is one of two.
pub if-Keeps :
    (b : Bool) (x y : Bool × Destination) (disk : Destination)
    → Keeps disk x.1
    → Keeps disk y.1
    → Keeps disk (if b then x else y).1
if-Keeps true x y disk h k = h
if-Keeps false x y disk h k = k

make_folders-Keeps :
    (ps : List (List Text)) (disk : Destination) → Keeps disk (make_folders ps disk).1
unfolding make_folders
make_folders-Keeps [] disk = λ p x h. h
make_folders-Keeps (q ∷ qs) disk =
    if-Keeps (make_folder q disk).0 _ _ disk
      (λ p x h. make_folders-Keeps qs (make_folder q disk).1 p x (make_folder-Keeps q disk p x h))
      (make_folder-Keeps q disk)

make_folders-folder :
    (ps : List (List Text)) (disk : Destination)
    → (make_folders ps disk).0 ≡ true
    → All (λ p. (make_folders ps disk).1 p ≡ some folder) ps
unfolding make_folders
make_folders-folder [] disk h = tt
make_folders-folder (q ∷ qs) disk h = elim (Bool-cases made.0) [
  | inl done ↦ subst Folders (sym (ap (λ b. if b then rest else made) done)) (
    make_folders-Keeps qs made.1 q folder (make_folder-folder q disk done),
    make_folders-folder qs made.1 (sym (ap (λ b. (if b then rest else made).0) done) ∙ h),
  )
  | inr failed ↦
      absurd (ground (arith, failed, sym (ap (λ b. (if b then rest else made).0) failed) ∙ h))
]
  where
    made : Bool × Destination
    made = make_folder q disk

    rest : Bool × Destination
    rest = make_folders qs made.1

    Folders : Bool × Destination → Type 0
    Folders d = (d.1 q ≡ some folder) × All (λ p. d.1 p ≡ some folder) qs

write_new-Keeps :
    (path : List Text) (bytes : Option (List ℕ)) (disk : Destination)
    → Keeps disk (write_new path bytes disk).1
unfolding write_new
write_new-Keeps path none disk = λ p x h. h
write_new-Keeps path (some bytes) disk = go (disk path) refl
  where
    go : (o : Option Node) → disk path ≡ o → Keeps disk (write_new path (some bytes) disk).1
    go none e = rw (write_new, e) (put-Keeps path (file bytes) disk e)
    go (some _) e = rw (write_new, e) (λ p x h. h)

write_new-file :
    (path : List Text) (bytes : Option (List ℕ)) (disk : Destination)
    → (write_new path bytes disk).0 ≡ true
    → (b : List ℕ) × (bytes ≡ some b) × ((write_new path bytes disk).1 path ≡ some (file b))
unfolding write_new
write_new-file path none disk h = absurd (ground arith)
write_new-file path (some bytes) disk h = go (disk path) refl
  where
    go :
        (o : Option Node)
        → disk path ≡ o
        → (b : List ℕ) × (some bytes ≡ some b)
          × ((write_new path (some bytes) disk).1 path ≡ some (file b))
    go none e = (bytes, refl, rw (write_new, e) (put_self path (file bytes) disk))
    go (some _) e = absurd (ground (arith, (rw (write_new, e) at h)))

-- What a member is on the disk: a folder and all its parents, or a file with the member's bytes.
abbrev pub Holds : Destination → MemberKind → Option (List ℕ) → List Text → Type 0
Holds disk directory bytes parts = All (λ p. disk p ≡ some folder) (beginnings parts)
Holds disk _ bytes parts = (b : List ℕ) × (bytes ≡ some b) × (disk parts ≡ some (file b))

All-Keeps :
    (disk disk' : Destination) (ps : List (List Text))
    → Keeps disk disk'
    → All (λ p. disk p ≡ some folder) ps
    → All (λ p. disk' p ≡ some folder) ps
All-Keeps disk disk' [] k h = tt
All-Keeps disk disk' (p ∷ ps) k h = (k p folder h.0, All-Keeps disk disk' ps k h.1)

pub Holds-Keeps :
    (disk disk' : Destination) (kind : MemberKind) (bytes : Option (List ℕ)) (parts : List Text)
    → Keeps disk disk'
    → Holds disk kind bytes parts
    → Holds disk' kind bytes parts
Holds-Keeps disk disk' directory bytes parts k h = All-Keeps disk disk' (beginnings parts) k h
Holds-Keeps disk disk' regular bytes parts k (b, e, h) = (b, e, k parts (file b) h)
Holds-Keeps disk disk' special bytes parts k (b, e, h) = (b, e, k parts (file b) h)

write_file-Keeps :
    (bytes : Option (List ℕ)) (parts : List Text) (disk : Destination)
    → let made = make_folders (parents parts) disk in
      Keeps disk (if made.0 then write_new parts bytes made.1 else made).1
write_file-Keeps bytes parts disk =
    let made = make_folders (parents parts) disk in
    if-Keeps made.0 _ _ disk
      (λ p x h.
        write_new-Keeps parts bytes made.1 p x (make_folders-Keeps (parents parts) disk p x h))
      (make_folders-Keeps (parents parts) disk)

write_file-Holds :
    (bytes : Option (List ℕ)) (parts : List Text) (disk : Destination)
    → let made = make_folders (parents parts) disk in
      let written = if made.0 then write_new parts bytes made.1 else made in
      written.0 ≡ true → (b : List ℕ) × (bytes ≡ some b) × (written.1 parts ≡ some (file b))
write_file-Holds bytes parts disk h =
    let made = make_folders (parents parts) disk in
    elim (Bool-cases made.0) [
      | inl q ↦ rw q (write_new-file parts bytes made.1 (rw q at h))
      | inr q ↦ absurd (ground (arith, q, (rw q at h)))
    ]

pub write_member-Keeps :
    (kind : MemberKind) (bytes : Option (List ℕ)) (parts : List Text) (disk : Destination)
    → Keeps disk (write_member kind bytes parts disk).1
unfolding write_member
write_member-Keeps directory bytes parts disk = make_folders-Keeps (beginnings parts) disk
write_member-Keeps regular bytes parts disk = write_file-Keeps bytes parts disk
write_member-Keeps special bytes parts disk = write_file-Keeps bytes parts disk

pub write_member-Holds :
    (kind : MemberKind) (bytes : Option (List ℕ)) (parts : List Text) (disk : Destination)
    → (write_member kind bytes parts disk).0 ≡ true
    → Holds (write_member kind bytes parts disk).1 kind bytes parts
unfolding write_member
write_member-Holds directory bytes parts disk h = make_folders-folder (beginnings parts) disk h
write_member-Holds regular bytes parts disk h = write_file-Holds bytes parts disk h
write_member-Holds special bytes parts disk h = write_file-Holds bytes parts disk h
