-- ===== src/Restore/Checked.antt =====
-- scripts/restore_helpers.py: what `_safe_relative_path` and `validate_storage_archive` let
-- through.
use mathlib.Core.Option.{some-injective, none-ne-some}
use model_deployer.Base.{
  ℕ, ◌+◌, ◌≤◌, ◌≡◌, ◌⊎◌, refl, sym, ap, subst, Bool, true, false, Option, none, some, List, [], ◌∷◌,
  arith, ◌==◌, ltb, ◌||◌, any_of, keep_if, length, map, All, if◌then◌else◌, Bool-cases, inl, inr,
  bind-eq-some,
}
use model_deployer.Base.Int.{ℤ, pos, negsuc, pos_part}
use model_deployer.Archive.{Text, backslash, forward, split, is_kept, is_parent, same_text}
use model_deployer.Archive.Paths.{SafePart, split-NoSeparator, keep_if-SafePart}
use model_deployer.Restore.{
  safe_relative_path, as_posix, rstrip, Member, is_root, is_special, entry_limit, total_limit,
  add_size, check_members, validate_storage_archive,
}

forward-same : (s : Text) → any_of (λ c. c == backslash) s ≡ false → map forward s ≡ s
forward-same [] h = refl
forward-same (c ∷ s) h = ground (arith, forward-same s)

-- A path that is let through has only parts that are names: not empty, no dots, without a
-- separator.
pub safe_relative_path-SafePart :
    (value : Text) (parts : List Text) → safe_relative_path value ≡ some parts → All SafePart parts
unfolding safe_relative_path
safe_relative_path-SafePart value parts e =
    let kept = keep_if is_kept (split value) in
    let none_back : any_of (λ c. c == backslash) value ≡ false = ground arith in
    let no_parent : any_of is_parent kept ≡ false = ground arith in
    let same : kept ≡ parts = ground arith in
    let safe : All SafePart kept =
      keep_if-SafePart (split value)
        (rw (forward-same value none_back) at (split-NoSeparator value)) no_parent in
    subst (All SafePart) same safe

-- The members other than the root, by the names that the loop remembers, the last first.
abbrev pub Distinct : List Text → Type 0
Distinct [] = Unit
Distinct (name ∷ names) = (any_of (same_text name) names ≡ false) × Distinct names

abbrev pub Fine : Member → Type 0
Fine m =
    (is_root m ≡ true)
    ⊎ ((parts : List Text) × (safe_relative_path (rstrip m.name) ≡ some parts)
        × All SafePart parts
        × (is_special m.kind ≡ false))

abbrev pub total_size : List Member → ℕ
total_size [] = 0
total_size (m ∷ ms) = (if is_root m then 0 else pos_part m.size) + total_size ms

add_size_lem :
    (total total' : ℕ) (size : ℤ)
    → add_size total size ≡ some total'
    → (total' ≡ total + pos_part size) × (total' ≤ total_limit)
unfolding add_size
add_size_lem total total' (negsuc n) e = absurd (ground arith)
add_size_lem total total' (pos n) e = ground arith

-- A guard that has let a step through.
pub guard-some {ℓ} :
    {A : Type ℓ} {r : A} (b : Bool) (k : Option A)
    → (if b then none else k) ≡ some r
    → (b ≡ false) × (k ≡ some r)
guard-some true k e = absurd (none-ne-some _ e)
guard-some false k e = (refl, e)

-- One turn that goes on, for a member that is not the root.
check_members-cons :
    (seen names : List Text) (total sum : ℕ) (m : Member) (ms : List Member)
    → is_root m ≡ false
    → check_members seen total (m ∷ ms) ≡ some (names, sum)
    → (parts : List Text) × (total' : ℕ) × (safe_relative_path (rstrip m.name) ≡ some parts)
      × (any_of (same_text (as_posix parts)) seen ≡ false)
      × (is_special m.kind ≡ false)
      × (add_size total m.size ≡ some total')
      × (check_members (as_posix parts ∷ seen) total' ms ≡ some (names, sum))
unfolding check_members
check_members-cons seen names total sum m ms root e =
    let (parts, named, e') = bind-eq-some (safe_relative_path (rstrip m.name)) _ (rw root at e) in
    let (fresh, e'') =
      guard-some (any_of (same_text (as_posix parts)) seen || is_special m.kind) _ e' in
    let (total', added, e3) = bind-eq-some (add_size total m.size) _ e'' in
    (parts, total', named, ground arith, ground arith, added, e3)

check_members-Valid :
    (seen names : List Text) (total sum : ℕ) (ms : List Member)
    → Distinct seen
    → total ≤ total_limit
    → check_members seen total ms ≡ some (names, sum)
    → Distinct names × (sum ≡ total + total_size ms) × (sum ≤ total_limit) × All Fine ms
unfolding check_members
check_members-Valid seen names total sum [] d b e =
    let same = some-injective _ _ e in
    (
      subst Distinct (ap (λ p. p.0) same) d,
      omega (arith, ap (λ p. p.1) same),
      omega (arith, ap (λ p. p.1) same),
      tt,
    )
check_members-Valid seen names total sum (m ∷ ms) d b e = elim (Bool-cases (is_root m)) [
  | inl q ↦
      let (distinct, total_is, small, fine) =
        check_members-Valid seen names total sum ms d b (rw q at e) in
      (distinct, rw q (omega (arith, total_is)), small, (inl q, fine))
  | inr q ↦
      let (parts, total', named, fresh, plain, added, rest) =
        check_members-cons seen names total sum m ms q e in
      let (total_is, small') = add_size_lem total total' m.size added in
      let (distinct, sum_is, small, fine) =
        check_members-Valid (as_posix parts ∷ seen) names total' sum ms (fresh, d) small' rest in
      (
        distinct,
        rw q (omega (arith, total_is, sum_is)),
        small,
        (inr (parts, named, safe_relative_path-SafePart (rstrip m.name) parts named, plain), fine),
      )
]

-- What an archive that has passed the checks is like: not too many members, each the root or a
-- folder or regular file with a safe name, no two of one name, and not more than 100 GiB in all.
pub record Valid (members : List Member) : Type 0 where
  pub few : length members ≤ entry_limit
  pub fine : All Fine members
  pub names : List Text
  pub counted : (sum : ℕ) × (check_members [] 0 members ≡ some (names, sum))
  pub distinct : Distinct names
  pub small : total_size members ≤ total_limit

-- An archive that `validate_storage_archive` returns has at most 100000 members and 100 GiB in all,
-- no two members of one path, and only folders and regular files whose paths have safe parts.
pub validate_storage_archive-Valid :
    (members checked : List Member)
    → validate_storage_archive members ≡ some checked
    → (checked ≡ members) × Valid members
unfolding validate_storage_archive
validate_storage_archive-Valid members checked e =
    let (few, e') = guard-some (ltb entry_limit (length members)) _ e in
    let (counted, scanned, same) = bind-eq-some (check_members [] 0 members) _ e' in
    let (distinct, sum_is, small, fine) =
      check_members-Valid [] counted.0 0 counted.1 members tt (omega arith) scanned in
    (
      sym (some-injective _ _ same),
      record {
        few = ground arith;
        fine = fine;
        names = counted.0;
        counted = (counted.1, scanned);
        distinct = distinct;
        small = omega arith;
      },
    )
