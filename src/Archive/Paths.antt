-- ===== src/Archive/Paths.antt =====
-- The paths that `_normalise_entry_path` lets through.
use model_deployer.Base.{
  ℕ, ◌<◌, ◌⊎◌, leb, suc, ◌+◌, ◌≤◌, ◌≡◌, ◌≢◌, refl, sym, Bool, true, false, some, List, [], ◌∷◌,
  arith, ◌==◌, any_of, keep_if, length, length-append, map, All, if◌then◌else◌, Bool-cases, inl,
  inr,
}
use model_deployer.Archive.{
  Text, is_letter, is_absolute, slash, backslash, dot, ArchiveLimits, forward, push, split, is_kept,
  is_parent, join, parts_of, has_parts, normalise_entry_path,
}

-- A name of one file or directory: not empty, no "." or "..", and without a separator.
abbrev pub NoSeparator : Text → Type 0
NoSeparator p = All (λ c. (c ≢ slash) × (c ≢ backslash)) p

abbrev pub SafePart : Text → Type 0
SafePart p = (p ≢ []) × (p ≢ dot ∷ []) × (p ≢ dot ∷ dot ∷ []) × NoSeparator p

push-NoSeparator :
    (c : ℕ) (ps : List Text)
    → c ≢ slash
    → c ≢ backslash
    → All NoSeparator ps
    → All NoSeparator (push c ps)
push-NoSeparator c [] h k a = (((h, k), tt), tt)
push-NoSeparator c (p ∷ ps) h k a = (((h, k), a.0), a.1)

pub split-NoSeparator : (s : Text) → All NoSeparator (split (map forward s))
unfolding split
split-NoSeparator [] = (tt, tt)
split-NoSeparator (c ∷ s) = elim (Bool-cases (forward c == slash)) [
  | inl cut ↦ rw cut (tt, split-NoSeparator s)
  | inr inside ↦ rw inside (
      push-NoSeparator (forward c) (split (map forward s)) (ground arith) (ground arith)
        (split-NoSeparator s))
]

kept : (p : Text) → is_kept p ≡ true → is_parent p ≡ false → NoSeparator p → SafePart p
kept p k n h = (λ e. ground arith, λ e. ground arith, λ e. ground arith, h)

pub keep_if-SafePart :
    (ps : List Text)
    → All NoSeparator ps
    → any_of is_parent (keep_if is_kept ps) ≡ false
    → All SafePart (keep_if is_kept ps)
keep_if-SafePart [] h n = tt
keep_if-SafePart (p ∷ ps) h n = elim (Bool-cases (is_kept p)) [
  | inl k ↦ rw k (kept p k (ground arith) h.0, keep_if-SafePart ps h.1 (ground arith))
  | inr d ↦ rw d (keep_if-SafePart ps h.1 (ground arith))
]

-- The letters of all parts, and a separator after each.
abbrev weight : List Text → ℕ
weight [] = 0
weight (p ∷ ps) = suc (length p + weight ps)

weight-push : (c : ℕ) (p : Text) (ps : List Text) → weight (push c (p ∷ ps)) ≡ suc (weight (p ∷ ps))
weight-push c p ps = omega arith

weight-split : (s : Text) → (weight (split s) ≡ suc (length s)) × (has_parts (split s) ≡ true)
unfolding split
weight-split [] = (refl, refl)
weight-split (c ∷ s) = go (split s) (weight-split s)
  where
    go :
        (ps : List Text)
        → (weight ps ≡ suc (length s)) × (has_parts ps ≡ true)
        → (weight (if c == slash then [] ∷ ps else push c ps) ≡ suc (suc (length s)))
          × (has_parts (if c == slash then [] ∷ ps else push c ps) ≡ true)
    go [] h = ground arith
    go (p ∷ ps) h = ground arith

weight-keep_if : (ps : List Text) → weight (keep_if is_kept ps) ≤ weight ps
weight-keep_if [] = omega arith
weight-keep_if (p ∷ ps) = ground (arith, weight-keep_if ps)

length-join : (p : Text) (ps : List Text) → suc (length (join (p ∷ ps))) ≤ weight (p ∷ ps)
unfolding join
length-join p [] = omega arith
length-join p (q ∷ ps) = omega (arith, length-append p (slash ∷ join (q ∷ ps)), length-join q ps)

length-map : (s : Text) → length (map forward s) ≡ length s
length-map [] = refl
length-map (c ∷ s) = omega (arith, length-map s)

join_bound :
    (ps : List Text) (n : ℕ) → has_parts ps ≡ true → weight ps ≤ suc n → length (join ps) ≤ n
join_bound [] n h w = cc
join_bound (p ∷ ps) n h w = omega (arith, length-join p ps)

-- The name does not begin with a slash or a backslash, nor with a letter and a colon.
abbrev pub Relative : Text → Type 0
Relative [] = Unit
Relative (c ∷ []) = (c ≢ slash) × (c ≢ backslash)
Relative (c ∷ e ∷ s) =
    (c ≢ slash) × (c ≢ backslash) × ((e ≢ 58) ⊎ ((c < 65) ⊎ (((90 < c) × (c < 97)) ⊎ (122 < c))))

is_absolute-Relative : (name : Text) → is_absolute name ≡ false → Relative name
unfolding is_absolute
is_absolute-Relative [] h = tt
is_absolute-Relative (c ∷ []) h = (ground arith, ground arith)
is_absolute-Relative (c ∷ e ∷ s) h = (
  ground arith,
  ground arith,
  elim (Bool-cases (e == 58)) [
    | inr q ↦ inl (ground arith)
    | inl q ↦ inr (no_letter c (ground arith))
  ],
)
  where
    no_letter : (c : ℕ) → is_letter c ≡ false → (c < 65) ⊎ (((90 < c) × (c < 97)) ⊎ (122 < c))
    no_letter c k = elim (Bool-cases (leb 65 c)) [
      | inr q ↦ inl (ground arith)
      | inl q ↦ elim (Bool-cases (leb c 90)) [
        | inl r ↦ absurd (ground arith)
        | inr r ↦ elim (Bool-cases (leb 97 c)) [
          | inr v ↦ inr (inl (ground arith, ground arith))
          | inl v ↦ inr (inr (ground arith))
        ]
      ]
    ]

-- The name of an accepted entry begins neither with a slash or a backslash nor with a drive letter.
-- Its path stays below the directory that it is joined to: one or more parts joined by slashes, each
-- of them not empty, not "." and not "..", without a slash or a backslash. It is no longer than
-- the limit.
pub normalise_entry_path_lem :
    (is_space : ℕ → Bool) (limits : ArchiveLimits) (name path : Text)
    → normalise_entry_path is_space limits name ≡ some path
    → Relative name
      × (parts : List Text) × (path ≡ join parts)
      × (has_parts parts ≡ true)
      × All SafePart parts
      × (length path ≤ limits.max_path_length)
unfolding normalise_entry_path
normalise_entry_path_lem is_space limits name path e =
    let parts = parts_of name in
    let some_part : has_parts parts ≡ true = ground arith in
    let same : join parts ≡ path = ground arith in
    let short : length name ≤ limits.max_path_length = ground arith in
    let fits : weight parts ≤ suc (length name) = omega (
      arith,
      weight-keep_if (split (map forward name)),
      (weight-split (map forward name)).0,
      length-map name,
    ) in
    let bound = join_bound parts (length name) some_part fits in
    (
      is_absolute-Relative name (ground arith),
      parts,
      sym same,
      some_part,
      keep_if-SafePart (split (map forward name)) (split-NoSeparator name) (ground arith),
      rw (← same) (omega arith),
    )
