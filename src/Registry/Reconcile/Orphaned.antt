-- ===== src/Registry/Reconcile/Orphaned.antt =====
-- reconcile_orphans.py: what a run deletes, what it keeps, and what it reports.
use model_deployer.Base.{
  ℕ, ◌≡◌, refl, sym, ap, ◌∙◌, Bool, true, false, List, [], ◌∷◌, ◌==◌, ◌&&◌, ◌||◌, not, any_of,
  any_of-append, keep_if, All, keep_if-All, arith, Bool-cases, inl, inr, ==_refl, eq_iff,
}
use model_deployer.Base.Dict.{Dict}
use model_deployer.Storage.Batches.{flat, delete_prefix_paginated-Complete}
use model_deployer.Registry.{Label, label_eq, ModelVersion, ObjectKey, Registry}
use model_deployer.Registry.Owners.{label_eq_refl}
use model_deployer.Registry.Reconcile.{
  key_eq, delete_objects, delete_batches, add_prefix, s3_prefixes, has_row, orphaned_s3_prefixes,
  delete_model_prefix, delete_orphans, has_objects, orphaned_db_versions, reconcile,
}

module _ {ℓ} {A : Type ℓ} where
  keep_if-keep_if :
      (p q : A → Bool) (xs : List A) → keep_if p (keep_if q xs) ≡ keep_if (λ x. q x && p x) xs
  keep_if-keep_if p q [] = refl
  keep_if-keep_if p q (x ∷ xs) = ground (arith, keep_if-keep_if p q xs)

  keep_if-eq :
      (p q : A → Bool) (xs : List A) → All (λ x. p x ≡ q x) xs → keep_if p xs ≡ keep_if q xs
  keep_if-eq p q [] h = refl
  keep_if-eq p q (x ∷ xs) h = ground (arith, h.0, keep_if-eq p q xs h.1)

  All-mono : {P Q : A → Type 0} (xs : List A) → ((x : A) → P x → Q x) → All P xs → All Q xs
  All-mono [] f h = tt
  All-mono (x ∷ xs) f h = (f x h.0, All-mono xs f h.1)

  All-always : {P : A → Type 0} (xs : List A) → ((x : A) → P x) → All P xs
  All-always [] f = tt
  All-always (x ∷ xs) f = (f x, All-always xs f)

  keep_if-always : (p : A → Bool) (xs : List A) → ((x : A) → p x ≡ true) → keep_if p xs ≡ xs
  keep_if-always p [] f = refl
  keep_if-always p (x ∷ xs) f = rw (f x) (ap (◌∷◌ x) (keep_if-always p xs f))

  any_of-eq : (p q : A → Bool) (xs : List A) → ((x : A) → p x ≡ q x) → any_of p xs ≡ any_of q xs
  any_of-eq p q [] f = refl
  any_of-eq p q (x ∷ xs) f = ground (arith, f x, any_of-eq p q xs f)

  any_of_mono :
      (p q : A → Bool) (xs : List A)
      → ((x : A) → p x ≡ true → q x ≡ true)
      → any_of q xs ≡ false
      → any_of p xs ≡ false
  any_of_mono p q [] f h = refl
  any_of_mono p q (x ∷ xs) f h = ground (arith, f x, any_of_mono p q xs f)

  any_of-and :
      (b : Bool) (p : A → Bool) (xs : List A) → any_of (λ x. b && p x) xs ≡ (b && any_of p xs)
  any_of-and b p [] = ground arith
  any_of-and b p (x ∷ xs) = ground (arith, any_of-and b p xs)

  any_of-keep_if :
      (p q : A → Bool) (xs : List A) → any_of p (keep_if q xs) ≡ any_of (λ x. q x && p x) xs
  any_of-keep_if p q [] = refl
  any_of-keep_if p q (x ∷ xs) = ground (arith, any_of-keep_if p q xs)

key_eq_refl : (key : ObjectKey) → key_eq key key ≡ true
key_eq_refl key =
    rw (==_refl key.model, label_eq_refl key.version) ((eq_iff key.path key.path).1 refl)

-- The keys of all requests are deleted.
delete_batches-flat :
    (batches : List (List ObjectKey)) (objects : List ObjectKey)
    → delete_batches batches objects ≡ delete_objects (flat batches) objects
unfolding delete_batches
delete_batches-flat [] objects = sym (keep_if-always (λ _. true) objects (λ _. refl))
delete_batches-flat (batch ∷ batches) objects =
    delete_batches-flat batches (delete_objects batch objects)
    ∙ keep_if-keep_if _ _ objects
    ∙ keep_if-eq
        (λ key. not (any_of (key_eq key) batch) && not (any_of (key_eq key) (flat batches))) _
        objects
        (All-always objects
          (λ key. ground (arith, any_of-append (key_eq key) batch (flat batches))))

self_listed :
    (same : ObjectKey → ObjectKey → Bool)
    → ((key : ObjectKey) → same key key ≡ true)
    → (objects : List ObjectKey) → All (λ key. any_of (same key) objects ≡ true) objects
self_listed same h [] = tt
self_listed same h (key ∷ keys) =
    (ground (arith, h key), All-mono keys (λ other k. ground (arith, k)) (self_listed same h keys))

-- The listing below a prefix holds an object's key exactly where its model is that prefix.
listed :
    (m : ℕ) (objects : List ObjectKey)
    → All
        (λ key. any_of (key_eq key) (keep_if (λ k. k.model == m) objects) ≡ (key.model == m))
        objects
listed m objects = All-mono objects below (self_listed key_eq key_eq_refl objects)
  where
    same :
        (key other : ObjectKey)
        → (other.model == m && key_eq key other) ≡ (key.model == m && key_eq key other)
    same key other = ground arith

    below :
        (key : ObjectKey)
        → any_of (key_eq key) objects ≡ true
        → any_of (key_eq key) (keep_if (λ k. k.model == m) objects) ≡ (key.model == m)
    below key h =
        any_of-keep_if (key_eq key) (λ k. k.model == m) objects
        ∙ any_of-eq _ _ objects (same key)
        ∙ any_of-and (key.model == m) (key_eq key) objects
        ∙ ground (arith, h)

both_false : (b c : Bool) → (b && false) ≡ (c && false)
both_false b c = ground arith

not-not_and_true : (b : Bool) → not (not b && true) ≡ b
not-not_and_true b = ground arith

any_of-add_prefix :
    (p : ℕ → Bool) (m : ℕ) (ns : List ℕ) → any_of p (add_prefix m ns) ≡ (p m || any_of p ns)
unfolding add_prefix
any_of-add_prefix p m [] = ground arith
any_of-add_prefix p m (n ∷ ns) = elim (Bool-cases (m == n)) [
  | inl q ↦ let e : m ≡ n = ground arith in rw (q, e) (ground arith)
  | inr q ↦ ground (arith, any_of-add_prefix p m ns)
]

any_of-s3_prefixes :
    (p : ℕ → Bool) (objects : List ObjectKey)
    → any_of p (s3_prefixes objects) ≡ any_of (λ key. p key.model) objects
unfolding s3_prefixes
any_of-s3_prefixes p [] = refl
any_of-s3_prefixes p (key ∷ keys) =
    any_of-add_prefix p key.model (s3_prefixes keys) ∙ ground (arith, any_of-s3_prefixes p keys)

module _ (pages : List ObjectKey → List (List ObjectKey))
    (whole : (keys : List ObjectKey) → flat (pages keys) ≡ keys) where
  delete_model_prefix_lem :
      (m : ℕ) (objects : List ObjectKey)
      → (delete_model_prefix pages m objects).1 ≡ keep_if (λ key. not (key.model == m)) objects
  unfolding delete_model_prefix
  delete_model_prefix_lem m objects =
      let keys = keep_if (λ key. key.model == m) objects in
      let complete = delete_prefix_paginated-Complete false 1000 (pages keys) (omega arith) in
      delete_batches-flat _ objects
      ∙ ap (λ batch. delete_objects batch objects) (complete.0 ∙ whole keys)
      ∙ keep_if-eq _ _ objects (All-mono objects (λ key h. ap not h) (listed m objects))

  delete_orphans_lem :
      (ms : List ℕ) (objects : List ObjectKey)
      → (delete_orphans pages ms objects).1
        ≡ keep_if (λ key. not (any_of (λ m. key.model == m) ms)) objects
  unfolding delete_orphans
  delete_orphans_lem [] objects = sym (keep_if-always (λ _. true) objects (λ _. refl))
  delete_orphans_lem (m ∷ ms) objects =
      delete_orphans_lem ms _
      ∙ ap (keep_if _) (delete_model_prefix_lem m objects)
      ∙ keep_if-keep_if _ _ objects
      ∙ keep_if-eq (λ key. not (key.model == m) && not (any_of (λ n. key.model == n) ms)) _ objects
          (All-always objects (λ key. ground arith))

  orphaned_iff :
      (reg : Registry)
      → All
          (λ key.
            not (any_of (λ m. key.model == m) (orphaned_s3_prefixes reg))
            ≡ has_row reg.models key.model)
          reg.objects
  unfolding orphaned_s3_prefixes
  orphaned_iff reg =
      All-mono reg.objects found
        (self_listed (λ key other. key.model == other.model) (λ key. ==_refl key.model) reg.objects)
    where
      same :
          (key : ObjectKey) (m : ℕ)
          → (not (has_row reg.models m) && key.model == m)
            ≡ (not (has_row reg.models key.model) && key.model == m)
      same key m = elim (Bool-cases (key.model == m)) [
        | inl q ↦
            let e : m ≡ key.model = ground arith in
            ap (λ n. not (has_row reg.models n) && key.model == m) e
        | inr q ↦
            rw q (both_false (not (has_row reg.models m)) (not (has_row reg.models key.model)))
      ]

      found :
          (key : ObjectKey)
          → any_of (λ other. key.model == other.model) reg.objects ≡ true
          → not (
              any_of
                (λ m. key.model == m)
                (keep_if (λ m. not (has_row reg.models m)) (s3_prefixes reg.objects)))
            ≡ has_row reg.models key.model
      found key h =
          let listed = any_of-s3_prefixes (λ m. key.model == m) reg.objects in
          ap not (
            any_of-keep_if (λ m. key.model == m) (λ m. not (has_row reg.models m))
              (s3_prefixes reg.objects)
            ∙ any_of-eq _ _ (s3_prefixes reg.objects) (same key)
            ∙ any_of-and (not (has_row reg.models key.model)) (λ m. key.model == m)
                (s3_prefixes reg.objects))
          ∙ ap (λ b. not (not (has_row reg.models key.model) && b)) (listed ∙ h)
          ∙ not-not_and_true (has_row reg.models key.model)

  -- With --delete, exactly the objects whose model has no row are gone, and no row changes. Without
  -- it nothing changes, and the same prefixes are reported.
  pub reconcile-Clean :
      (starts_with : Label → Label → Bool) (reg : Registry)
      → ((reconcile pages starts_with true reg).1
          ≡ record reg { objects = keep_if (λ key. has_row reg.models key.model) reg.objects })
        × ((reconcile pages starts_with false reg).1 ≡ reg)
        × ((reconcile pages starts_with true reg).0.prefixes
            ≡ (reconcile pages starts_with false reg).0.prefixes)
  unfolding reconcile
  reconcile-Clean starts_with reg = (
    ap (λ objects. record reg { objects = objects })
        (delete_orphans_lem (orphaned_s3_prefixes reg) reg.objects
          ∙ keep_if-eq _ _ reg.objects (orphaned_iff reg)),
    refl,
    refl,
  )

-- A version that is reported as missing has no object in the store that the run leaves.
abbrev pub Missing : List ObjectKey → Dict ModelVersion → Type 0
Missing objects versions =
    All
      (λ e.
        any_of (λ key. key.model == e.1.model && label_eq key.version e.1.version) objects ≡ false)
      versions

orphaned_db_versions-Missing :
    (starts_with : Label → Label → Bool) (objects : List ObjectKey) (versions : Dict ModelVersion)
    → ((a b : Label) → label_eq a b ≡ true → starts_with a b ≡ true)
    → Missing objects (orphaned_db_versions starts_with objects versions)
unfolding orphaned_db_versions
orphaned_db_versions-Missing starts_with objects versions own =
    All-mono _ lacks (keep_if-All (λ e. not (has_objects starts_with objects e.1)) versions)
  where
    lacks :
        (e : ℕ × ModelVersion)
        → not (has_objects starts_with objects e.1) ≡ true
        → any_of (λ key. key.model == e.1.model && label_eq key.version e.1.version) objects ≡ false
    lacks e h =
        any_of_mono _ (λ key. key.model == e.1.model && starts_with key.version e.1.version) objects
          (λ key k. ground (arith, k, own key.version e.1.version)) (ground (arith, h))

-- Whether or not it deletes, a version that `reconcile_orphans` reports as missing has no object of
-- its own left in the store, if the names of its objects begin with its own.
pub reconcile-Missing :
    (pages : List ObjectKey → List (List ObjectKey)) (starts_with : Label → Label → Bool)
    (delete : Bool) (reg : Registry)
    → ((a b : Label) → label_eq a b ≡ true → starts_with a b ≡ true)
    → let (report, left) = reconcile pages starts_with delete reg in
      Missing left.objects report.missing
unfolding reconcile
reconcile-Missing pages starts_with delete reg own =
    orphaned_db_versions-Missing starts_with _ reg.versions own
