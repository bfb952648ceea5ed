-- ===== src/Manifest/Rows.antt =====
-- Which requests `validate_prediction_instances` accepts.
use mathlib.Core.Option.{some-ne-none}
use model_deployer.Base.{
  ℕ, ◌+◌, ◌≡◌, ◌↔◌, refl, sym, ◌∙◌, String, Bool, true, false, none, List, [], ◌∷◌, arith, ◌==◌,
  ◌&&◌, ◌||◌, All, length, str_eq, eq_iff, Bool-cases, inl, inr,
}
use model_deployer.Manifest.{
  Instance, mapping, array, scalar, has_key, keys_within, same_keys, check_objects, check_arrays,
  validate_prediction_instances,
}

bool_eq : (x y : Bool) → (x ≡ true → y ≡ true) → (y ≡ true → x ≡ true) → x ≡ y
bool_eq true y f g = sym (f refl)
bool_eq false true f g = g refl
bool_eq false false f g = refl

or_true_left : (x y : Bool) → x ≡ true → (x || y) ≡ true
or_true_left x y h = ground arith

or_true_right : (x y : Bool) → y ≡ true → (x || y) ≡ true
or_true_right x y h = ground arith

and_true : (x y : Bool) → (x && y) ≡ true → (x ≡ true) × (y ≡ true)
and_true x y h = ground arith

and_intro : (x y : Bool) → x ≡ true → y ≡ true → (x && y) ≡ true
and_intro x y h k = ground arith

module _ {V : Type 0} where
  -- Two rows of one shape: mappings with the same keys, or arrays of the same length.
  abbrev pub SameShape : Instance V → Instance V → Type 0
  SameShape (mapping m) (mapping n) = (k : String) → has_key k m ≡ has_key k n
  SameShape (array a) (array b) = length a ≡ length b
  SameShape _ _ = ⊥

  -- The rows that follow are like the first one.
  abbrev pub Consistent : List (Instance V) → Type 0
  Consistent [] = ⊥
  Consistent (scalar v ∷ rows) = ⊥
  Consistent (row ∷ rows) = All (SameShape row) rows

  has_key-keys_within :
      (l m : List (String × V)) (k : String)
      → keys_within l m ≡ true
      → has_key k l ≡ true
      → has_key k m ≡ true
  has_key-keys_within [] m k w h = cc
  has_key-keys_within ((j, v) ∷ l) m k w h = ground (arith, eq_iff k j, has_key-keys_within l m k)

  keys_within_of :
      (l m : List (String × V))
      → ((k : String) → has_key k l ≡ true → has_key k m ≡ true)
      → keys_within l m ≡ true
  keys_within_of [] m h = refl
  keys_within_of ((j, v) ∷ l) m h =
      rw (h j (or_true_left (str_eq j j) (has_key j l) ((eq_iff j j).1 refl)))
        (keys_within_of l m (λ k e. h k (or_true_right (str_eq k j) (has_key k l) e)))

  same_keys_iff :
      (a b : List (String × V))
      → (same_keys a b ≡ true) ↔ ((k : String) → has_key k b ≡ has_key k a)
  same_keys_iff a b = (
    λ e k.
        let (ab, ba) = and_true (keys_within a b) (keys_within b a) e in
        bool_eq (has_key k b) (has_key k a) (has_key-keys_within b a k ba)
          (has_key-keys_within a b k ab),
    λ h.
        and_intro (keys_within a b) (keys_within b a) (keys_within_of a b (λ k e. h k ∙ e))
          (keys_within_of b a (λ k e. sym (h k) ∙ e)),
  )

  check_objects_iff :
      (m : List (String × V)) (idx : ℕ) (rows : List (Instance V))
      → (check_objects m idx rows ≡ none) ↔ All (SameShape (mapping m)) rows
  unfolding check_objects
  check_objects_iff m idx [] = (λ _. tt, λ _. refl)
  check_objects_iff m idx (mapping n ∷ rows) = (
    λ e. elim (Bool-cases (same_keys n m)) [
      | inl same ↦
          ((same_keys_iff n m).0 same, (check_objects_iff m (idx + 1) rows).0 (rw same at e))
      | inr differ ↦ (let bad = rw differ at e in absurd (some-ne-none _ bad))
    ],
    λ h. rw ((same_keys_iff n m).1 h.0) ((check_objects_iff m (idx + 1) rows).1 h.1),
  )
  check_objects_iff m idx (array a ∷ rows) = (λ e. cc, λ h. absurd h.0)
  check_objects_iff m idx (scalar v ∷ rows) = (λ e. cc, λ h. absurd h.0)

  check_arrays_iff :
      (n idx : ℕ) (rows : List (Instance V)) (a : List V)
      → length a ≡ n
      → (check_arrays n idx rows ≡ none) ↔ All (SameShape (array a)) rows
  unfolding check_arrays
  check_arrays_iff n idx [] a e = (λ _. tt, λ _. refl)
  check_arrays_iff n idx (array b ∷ rows) a e = (
    λ e'. elim (Bool-cases (length b == n)) [
      | inl same ↦ ((ground arith), (check_arrays_iff n (idx + 1) rows a e).0 (rw same at e'))
      | inr differ ↦ (let bad = rw differ at e' in absurd (some-ne-none _ bad))
    ],
    λ h. ground (arith, (check_arrays_iff n (idx + 1) rows a e).1 h.1),
  )
  check_arrays_iff n idx (mapping m ∷ rows) a e = (λ e. cc, λ h. absurd h.0)
  check_arrays_iff n idx (scalar v ∷ rows) a e = (λ e. cc, λ h. absurd h.0)

  -- The rows are accepted exactly where there is one, and all are mappings with the first one's
  -- keys, or all are arrays of the first one's length.
  pub validate_prediction_instances_iff :
      (rows : List (Instance V)) → (validate_prediction_instances rows ≡ none) ↔ Consistent rows
  unfolding validate_prediction_instances
  validate_prediction_instances_iff [] = (λ e. cc, λ h. absurd h)
  validate_prediction_instances_iff (mapping m ∷ rows) = (
    λ e. ((check_objects_iff m 0 (mapping m ∷ rows)).0 e).1,
    λ h. (check_objects_iff m 0 (mapping m ∷ rows)).1 ((λ k. refl), h),
  )
  validate_prediction_instances_iff (array a ∷ rows) = (
    λ e. ((check_arrays_iff (length a) 0 (array a ∷ rows) a refl).0 e).1,
    λ h. (check_arrays_iff (length a) 0 (array a ∷ rows) a refl).1 (refl, h),
  )
  validate_prediction_instances_iff (scalar v ∷ rows) = (λ e. cc, λ h. absurd h)
