-- ===== src/Monitoring/Sorting.antt =====
-- `sorted` and the counts of monitoring/views.py do not depend on the order of the rows.
use mathlib.Core.List.{Perm, foldr}
use mathlib.Core.List.Perm
use native.Mathlib.Nat.{ℕ_set}
use model_deployer.Base.{
  ℕ, suc, ◌+◌, ◌≤◌, ◌≡◌, refl, sym, ap, ◌∙◌, Bool, Option, none, some, List, [], ◌∷◌, arith, length,
  if◌then◌else◌,
}
use model_deployer.Monitoring.{insert_sorted, sorted, count_if, present}

-- A function that takes a list item by item, in steps that commute, does not see their order.
module _ {ℓ κ} {A : Type ℓ} {B : Type κ} (set : IsSet B) (h : List A → B) (step : A → B → B)
    (cons : (x : A) (xs : List A) → h (x ∷ xs) ≡ step x (h xs))
    (comm : (x y : A) (b : B) → step x (step y b) ≡ step y (step x b)) where
  fold-foldr : (xs : List A) → h xs ≡ foldr step (h []) xs
  fold-foldr [] = refl
  fold-foldr (x ∷ xs) = cons x xs ∙ ap (step x) (fold-foldr xs)

  pub fold-Perm : {xs ys : List A} → Perm xs ys → h xs ≡ h ys
  fold-Perm {xs} {ys} p = fold-foldr xs ∙ Perm.foldr-eq set step comm p (h []) ∙ sym (fold-foldr ys)

insert_sorted_comm :
    (x y : ℕ) (l : List ℕ)
    → insert_sorted x (insert_sorted y l) ≡ insert_sorted y (insert_sorted x l)
unfolding insert_sorted
insert_sorted_comm x y [] = ground arith
insert_sorted_comm x y (z ∷ l) = ground (arith, insert_sorted_comm x y l)

list_set : IsSet (List ℕ)
list_set = hlevel

module _ {ℓ} {A : Type ℓ} where
  pub length-Perm : {xs ys : List A} → Perm xs ys → length xs ≡ length ys
  length-Perm = fold-Perm ℕ_set length (λ _ n. suc n) (λ _ _. refl) (λ _ _ _. refl)

  pub count_if-Perm : (p : A → Bool) {xs ys : List A} → Perm xs ys → count_if p xs ≡ count_if p ys
  unfolding count_if
  count_if-Perm p =
      fold-Perm ℕ_set (count_if p) (λ x n. (if p x then 1 else 0) + n) (λ _ _. refl)
        (λ _ _ _. omega arith)

  module _ (column : A → Option ℕ) where
    add_value : A → List ℕ → List ℕ
    add_value x l = elim (column x) [ none ↦ l | some v ↦ insert_sorted v l ]

    sorted-present_cons :
        (x : A) (xs : List A)
        → sorted (present column (x ∷ xs)) ≡ add_value x (sorted (present column xs))
    unfolding sorted present add_value
    sorted-present_cons x xs = ground arith

    add_value_comm :
        (x y : A) (l : List ℕ) → add_value x (add_value y l) ≡ add_value y (add_value x l)
    unfolding add_value
    add_value_comm x y l = go (column x) (column y)
      where
        add : Option ℕ → List ℕ → List ℕ
        add o l = elim o [ none ↦ l | some v ↦ insert_sorted v l ]

        go : (a b : Option ℕ) → add a (add b l) ≡ add b (add a l)
        go none _ = refl
        go (some v) none = refl
        go (some v) (some w) = insert_sorted_comm v w l

    pub sorted-present-Perm :
        {xs ys : List A} → Perm xs ys → sorted (present column xs) ≡ sorted (present column ys)
    sorted-present-Perm =
        fold-Perm list_set (λ xs. sorted (present column xs)) add_value sorted-present_cons
          add_value_comm

    pub length-present : (xs : List A) → length (present column xs) ≤ length xs
    unfolding present
    length-present [] = omega arith
    length-present (x ∷ xs) = ground (arith, length-present xs)

length-insert_sorted : (x : ℕ) (l : List ℕ) → length (insert_sorted x l) ≡ suc (length l)
unfolding insert_sorted
length-insert_sorted x [] = refl
length-insert_sorted x (y ∷ l) = ground (arith, length-insert_sorted x l)

pub length-sorted : (l : List ℕ) → length (sorted l) ≡ length l
unfolding sorted
length-sorted [] = refl
length-sorted (x ∷ l) = length-insert_sorted x (sorted l) ∙ ap suc (length-sorted l)
