-- ===== src/Storage.antt =====
-- core/storage.py, `delete_prefix_paginated`: the keys of all pages are deleted in batches.
pub mod Batches
use model_deployer.Base.{ℕ, ◌+◌, Bool, true, false, List, [], ◌∷◌, ◌++◌, leb, length, if◌then◌else◌}

-- `batch`, the requests that were sent, and `total_deleted`.
pub record Progress {ℓ} (Key : Type ℓ) : Type ℓ where
  pub batch : List Key
  pub requests : List (List Key)
  pub total_deleted : ℕ

module _ {ℓ} {Key : Type ℓ} where
  abbrev pub fresh_progress : Progress Key
  fresh_progress = record { batch = []; requests = []; total_deleted = 0 }

  -- `delete_objects` for the batch, and an empty batch after it.
  abbrev pub flush : Bool → List Key → List (List Key) → ℕ → Progress Key
  flush dry_run batch requests total = record {
    batch = [];
    requests = if dry_run then requests else requests ++ batch ∷ [];
    total_deleted = total + length batch;
  }

  -- One key of a page.
  unfoldable pub add_key : Bool → ℕ → Key → Progress Key → Progress Key
  add_key dry_run batch_size key p =
      let batch = p.batch ++ key ∷ [] in
      if leb batch_size (length batch)
      then flush dry_run batch p.requests p.total_deleted
      else record p { batch = batch }

  unfoldable pub add_page : Bool → ℕ → List Key → Progress Key → Progress Key
  add_page dry_run batch_size [] p = p
  add_page dry_run batch_size (key ∷ keys) p =
      add_page dry_run batch_size keys (add_key dry_run batch_size key p)

  unfoldable pub add_pages : Bool → ℕ → List (List Key) → Progress Key → Progress Key
  add_pages dry_run batch_size [] p = p
  add_pages dry_run batch_size (page ∷ pages) p =
      add_pages dry_run batch_size pages (add_page dry_run batch_size page p)

  -- The requests, in order, and the number that is returned.
  abbrev pub last_flush : Bool → Progress Key → List (List Key) × ℕ
  last_flush dry_run p = elim p.batch [
    | [] ↦ (p.requests, p.total_deleted)
    | key ∷ keys ↦
        let q = flush dry_run (key ∷ keys) p.requests p.total_deleted in
        (q.requests, q.total_deleted)
  ]

  unfoldable pub delete_prefix_paginated : Bool → ℕ → List (List Key) → List (List Key) × ℕ
  delete_prefix_paginated dry_run batch_size pages =
      last_flush dry_run (add_pages dry_run batch_size pages fresh_progress)
