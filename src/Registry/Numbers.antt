-- ===== src/Registry/Numbers.antt =====
-- model_registry/views.py, `get_next_version`: the number is new.
use model_deployer.Base.{
  ℕ, ◌+◌, ◌≤◌, ◌<◌, false, List, [], ◌∷◌, ◌==◌, max, ◌≡◌, refl, any_of, length, arith,
}
use model_deployer.Base.Dict.{Dict}
use model_deployer.Registry.{
  Label, numbered, named, label_eq, numeric_versions, maximum, next_label, labels_of,
  get_next_version, ModelVersion,
}

maximum-ge : (n : ℕ) (ms : List ℕ) → n ≤ maximum n ms
maximum-ge n [] = omega arith
maximum-ge n (m ∷ ms) = omega (arith, maximum-ge (max n m) ms)

-- No number of the list is beyond its maximum.
any_of-beyond : (k n : ℕ) (ms : List ℕ) → maximum n ms < k → any_of (λ m. k == m) ms ≡ false
any_of-beyond k n [] h = refl
any_of-beyond k n (m ∷ ms) h =
    let step : k == m ≡ false = ground (arith, maximum-ge (max n m) ms) in
    rw step (any_of-beyond k (max n m) ms h)

-- A number is among the labels where it is among their numbers.
any_of-numeric_versions :
    (k : ℕ) (labels : List Label)
    → any_of (label_eq (numbered k)) labels ≡ any_of (λ m. k == m) (numeric_versions labels)
any_of-numeric_versions k [] = refl
any_of-numeric_versions k (numbered n ∷ labels) = rw (any_of-numeric_versions k labels) refl
any_of-numeric_versions k (named s ∷ labels) = any_of-numeric_versions k labels

next_label-fresh_by :
    (labels : List Label) (ns : List ℕ)
    → numeric_versions labels ≡ ns
    → any_of (label_eq (next_label labels)) labels ≡ false
unfolding next_label
next_label-fresh_by labels [] e =
    rw (next_label, e, any_of-numeric_versions (length labels + 1) labels, e) refl
next_label-fresh_by labels (n ∷ ns) e =
    let beyond : any_of (λ m. maximum n ns + 1 == m) (n ∷ ns) ≡ false =
      ground (arith, maximum-ge n ns, any_of-beyond (maximum n ns + 1) n ns (omega arith)) in
    rw (next_label, e, any_of-numeric_versions (maximum n ns + 1) labels, e) beyond

next_label-fresh : (labels : List Label) → any_of (label_eq (next_label labels)) labels ≡ false
next_label-fresh labels = next_label-fresh_by labels (numeric_versions labels) refl

-- The version that `get_next_version` gives is none of the model's versions, so the constraint on
-- versions never refuses the row that is made for it.
pub get_next_version-fresh :
    (model : ℕ) (versions : Dict ModelVersion)
    → any_of (label_eq (get_next_version model versions)) (labels_of model versions) ≡ false
get_next_version-fresh model versions = next_label-fresh (labels_of model versions)
