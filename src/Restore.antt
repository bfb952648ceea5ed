-- ===== src/Restore.antt =====
-- scripts/restore_helpers.py: the checks of a backup and the extraction of its storage archive.
--
-- A text is the list of its code points. A raised exception is `none`; messages are left out.
pub mod Manifests
pub mod Checked
pub mod Writes
pub mod Extracted
use mathlib.Core.Option
use model_deployer.Base.{
  ℕ, ◌+◌, ◌*◌, Bool, true, false, Option, none, some, List, [], ◌∷◌, ◌==◌, ◌&&◌, ◌||◌, not, ltb,
  all_of, any_of, keep_if, length, map, ◌>>=◌, if◌then◌else◌,
}
use model_deployer.Base.Int.{ℤ, pos, negsuc}
use model_deployer.Archive.{
  Text, slash, backslash, dot, same_text, is_letter, split, join, is_kept, is_parent,
}

abbrev pub line_feed : ℕ
line_feed = 10

abbrev pub colon : ℕ
colon = 58

-- `re.fullmatch(r"[A-Za-z]:.*", part)`; a dot matches no line_feed.
unfoldable pub is_drive : Text → Bool
is_drive (c ∷ e ∷ s) = is_letter c && e == colon && all_of (λ d. not (d == line_feed)) s
is_drive _ = false

abbrev pub first_is_drive : List Text → Bool
first_is_drive [] = false
first_is_drive (p ∷ ps) = is_drive p

abbrev pub starts_with_slash : Text → Bool
starts_with_slash [] = false
starts_with_slash (c ∷ s) = c == slash

-- `_safe_relative_path`, the parts of the path. `PurePosixPath` drops the empty parts and the dots.
unfoldable pub safe_relative_path : Text → Option (List Text)
safe_relative_path value =
    let parts = keep_if is_kept (split value) in
    if same_text value [] || any_of (λ c. c == backslash) value || any_of (λ c. c == 0) value
    then none
    else if starts_with_slash value || any_of is_parent parts
    then none
    else if first_is_drive parts
    then none
    else some parts

-- `as_posix`: a path without parts is a dot.
unfoldable pub as_posix : List Text → Text
as_posix [] = dot ∷ []
as_posix (p ∷ ps) = join (p ∷ ps)

-- `name.rstrip("/")`
unfoldable pub rstrip : Text → Text
rstrip [] = []
rstrip (c ∷ s) = let rest = rstrip s in if c == slash && same_text rest [] then [] else c ∷ rest

pub data MemberKind : Type 0 where
  directory regular special : MemberKind

-- A `TarInfo`, with the bytes that are read of it, `none` where `extractfile` gives none. That a
-- read breaks off midway is left out.
pub record Member : Type 0 where
  pub name : Text
  pub kind : MemberKind
  pub size : ℤ
  pub bytes : Option (List ℕ)

-- `name in ("", ".")`, of the name without its last slashes.
abbrev pub is_root : Member → Bool
is_root m = let name = rstrip m.name in same_text name [] || same_text name (dot ∷ [])

abbrev pub entry_limit : ℕ
entry_limit = 100000

abbrev pub total_limit : ℕ
total_limit = 100 * 1024 * 1024 * 1024

abbrev pub is_special : MemberKind → Bool
is_special special = true
is_special _ = false

-- The end of a turn of the loop: the total with this member's size.
unfoldable pub add_size : ℕ → ℤ → Option ℕ
add_size total (negsuc n) = none
add_size total (pos n) = if ltb total_limit (total + n) then none else some (total + n)

-- The loop of `validate_storage_archive`, with `seen` and `total_size`, which it returns.
unfoldable pub check_members : List Text → ℕ → List Member → Option (List Text × ℕ)
check_members seen total [] = some (seen, total)
check_members seen total (m ∷ ms) =
    if is_root m
    then check_members seen total ms
    else safe_relative_path (rstrip m.name) >>= λ rel.
        (if any_of (same_text (as_posix rel)) seen || is_special m.kind
          then none
          else add_size total m.size >>= λ total'. check_members (as_posix rel ∷ seen) total' ms)

-- `validate_storage_archive`, where the archive can be read.
unfoldable pub validate_storage_archive : List Member → Option (List Member)
validate_storage_archive members =
    if ltb entry_limit (length members)
    then none
    else check_members [] 0 members >>= λ _. some members

-- What a path below the destination is; the destination itself has no parts.
pub data Node : Type 0 where
  folder : Node
  file : List ℕ → Node

abbrev pub Destination : Type 0
Destination = List Text → Option Node

abbrev pub same_path : List Text → List Text → Bool
same_path [] [] = true
same_path (a ∷ p) (b ∷ q) = same_text a b && same_path p q
same_path _ _ = false

abbrev pub put : List Text → Node → Destination → Destination
put path node disk p = if same_path p path then some node else disk p

-- `mkdir(exist_ok=True)` of one folder: a file in its place raises FileExistsError.
unfoldable pub make_folder : List Text → Destination → Bool × Destination
make_folder path disk = elim (disk path) [
  | none ↦ (true, put path folder disk)
  | some folder ↦ (true, disk)
  | some (file _) ↦ (false, disk)
]

-- `mkdir(parents=True, exist_ok=True)`: the folders on the way, from the top.
unfoldable pub make_folders : List (List Text) → Destination → Bool × Destination
make_folders [] disk = (true, disk)
make_folders (p ∷ ps) disk =
    let made = make_folder p disk in
    let rest = make_folders ps made.1 in if made.0 then rest else made

-- The paths of a path's folders: all its beginnings, and all but the last.
unfoldable pub beginnings : List Text → List (List Text)
beginnings [] = []
beginnings (p ∷ ps) = (p ∷ []) ∷ map (λ q. p ∷ q) (beginnings ps)

unfoldable pub parents : List Text → List (List Text)
parents [] = []
parents (p ∷ []) = []
parents (p ∷ q ∷ ps) = (p ∷ []) ∷ map (λ r. p ∷ r) (parents (q ∷ ps))

-- `target.open("xb")`, which never replaces what is there, and the writes.
unfoldable pub write_new : List Text → Option (List ℕ) → Destination → Bool × Destination
write_new path none disk = (false, disk)
write_new path (some bytes) disk = elim (disk path) [
  | none ↦ (true, put path (file bytes) disk)
  | some _ ↦ (false, disk)
]

-- The branches on `member.isdir()`.
unfoldable pub write_member :
    MemberKind → Option (List ℕ) → List Text → Destination → Bool × Destination
write_member directory bytes parts disk = make_folders (beginnings parts) disk
write_member _ bytes parts disk =
    let made = make_folders (parents parts) disk in
    if made.0 then write_new parts bytes made.1 else made

module _ (resolves_inside : List Text → Bool) where
  -- One turn of the loop of `extract_storage_archive`, for a member that is not the root.
  unfoldable pub extract_member :
      MemberKind → Option (List ℕ) → List Text → Destination → Bool × Destination
  extract_member kind bytes parts disk =
      if not (resolves_inside parts) then (false, disk) else write_member kind bytes parts disk

  -- The targets, in order, and the disk; what an exception leaves behind stays.
  unfoldable pub extract_members :
      List Member → Destination → Option (List (List Text)) × Destination
  extract_members [] disk = (some [], disk)
  extract_members (m ∷ ms) disk =
      if is_root m then extract_members ms disk else elim (safe_relative_path (rstrip m.name)) [
        | none ↦ (none, disk)
        | some parts ↦
            let one = extract_member m.kind m.bytes parts disk in
            let rest = extract_members ms one.1 in
            if one.0 then (rest.0 >>= λ targets. some (parts ∷ targets), rest.1) else (none, one.1)
      ]

  -- `extract_storage_archive`: the checks come before anything is written, and the destination is
  -- made first.
  unfoldable pub extract_storage_archive :
      List Member → Destination → Option (List (List Text)) × Destination
  extract_storage_archive members disk = elim (validate_storage_archive members) [
    | none ↦ (none, disk)
    | some checked ↦
        let made = make_folder [] disk in
        if made.0 then extract_members checked made.1 else (none, made.1)
  ]
