-- ===== src/Manifest.antt =====
-- model_registry/manifest.py, `validate_prediction_instances`: the rows of a prediction request
-- are all mappings with the same keys, or all arrays of the same length.
--
-- `V` stands for the JSON values inside a row, which the function does not look at. Its optional
-- `input_schema` is passed by no caller in the repository and is left out.
pub mod Rows
use model_deployer.Base.{
  ℕ, ◌+◌, ◌≡◌, String, Bool, true, false, Option, none, some, List, [], ◌∷◌, ◌==◌, ◌&&◌, ◌||◌,
  any_of, all_of, map, length, str_eq, if◌then◌else◌,
}

pub data Instance (V : Type 0) : Type 0 where
  mapping : List (String × V) → Instance V
  array : List V → Instance V
  scalar : V → Instance V

-- The `ValueError`s, with the index that they name.
pub data Fault : Type 0 where
  empty : Fault
  bad_first : Fault
  not_an_object : ℕ → Fault
  mismatched_keys : ℕ → Fault
  not_an_array : ℕ → Fault
  mismatched_length : ℕ → Fault

module _ {V : Type 0} where
  abbrev pub has_key : String → List (String × V) → Bool
  has_key k [] = false
  has_key k ((j, v) ∷ m) = str_eq k j || has_key k m

  -- Every key of the first is a key of the second.
  abbrev pub keys_within : List (String × V) → List (String × V) → Bool
  keys_within [] m = true
  keys_within ((k, v) ∷ l) m = has_key k m && keys_within l m

  -- `set(a.keys()) == set(b.keys())`
  abbrev pub same_keys : List (String × V) → List (String × V) → Bool
  same_keys a b = keys_within a b && keys_within b a

  -- The loop of the first branch, from the row at `idx` on.
  unfoldable pub check_objects : List (String × V) → ℕ → List (Instance V) → Option Fault
  check_objects expected idx [] = none
  check_objects expected idx (mapping m ∷ rows) =
      let rest = check_objects expected (idx + 1) rows in
      if same_keys m expected then rest else some (mismatched_keys idx)
  check_objects expected idx (_ ∷ rows) = some (not_an_object idx)

  unfoldable pub check_arrays : ℕ → ℕ → List (Instance V) → Option Fault
  check_arrays expected idx [] = none
  check_arrays expected idx (array a ∷ rows) =
      let rest = check_arrays expected (idx + 1) rows in
      if length a == expected then rest else some (mismatched_length idx)
  check_arrays expected idx (_ ∷ rows) = some (not_an_array idx)

  unfoldable pub validate_prediction_instances : List (Instance V) → Option Fault
  validate_prediction_instances [] = some empty
  validate_prediction_instances (mapping m ∷ rows) = check_objects m 0 (mapping m ∷ rows)
  validate_prediction_instances (array a ∷ rows) = check_arrays (length a) 0 (array a ∷ rows)
  validate_prediction_instances (scalar v ∷ rows) = some bad_first
