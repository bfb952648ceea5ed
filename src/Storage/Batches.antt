-- ===== src/Storage/Batches.antt =====
-- core/storage.py, `delete_prefix_paginated`: every key is in one request, and no request is too large.
use model_deployer.Base.{
  ℕ, ◌+◌, ◌≤◌, ◌<◌, Bool, true, false, List, [], ◌∷◌, ◌++◌, leb, length, length-append,
  append_assoc, append-nil, All, All-append, ◌≡◌, refl, sym, ap, subst, ◌∙◌, arith, Bool-cases, inl,
  inr, if◌then◌else◌,
}
use model_deployer.Storage.{
  Progress, fresh_progress, add_key, add_page, add_pages, last_flush, delete_prefix_paginated,
}

module _ {ℓ} {Key : Type ℓ} where
  abbrev pub flat : List (List Key) → List Key
  flat [] = []
  flat (xs ∷ xss) = xs ++ flat xss

  -- A request that the store takes: some keys, and no more than the batch size.
  abbrev pub Fits : ℕ → List Key → Type 0
  Fits batch_size request = (1 ≤ length request) × (length request ≤ batch_size)

  -- What holds after the keys `seen`.
  abbrev pub Sent : Bool → ℕ → List Key → Progress Key → Type ℓ
  Sent dry_run batch_size seen p =
      (if dry_run then p.requests ≡ [] else flat p.requests ++ p.batch ≡ seen)
      × All (Fits batch_size) p.requests
      × (length p.batch < batch_size)
      × (p.total_deleted + length p.batch ≡ length seen)

  flat-append : (xss yss : List (List Key)) → flat (xss ++ yss) ≡ flat xss ++ flat yss
  flat-append [] yss = refl
  flat-append (xs ∷ xss) yss =
      rw (flat-append xss yss) (sym (append_assoc xs (flat xss) (flat yss)))

  add_key-Sent :
      (dry_run : Bool) (batch_size : ℕ) (key : Key) (seen : List Key) (p : Progress Key)
      → Sent dry_run batch_size seen p
      → Sent dry_run batch_size (seen ++ key ∷ []) (add_key dry_run batch_size key p)
  unfolding add_key
  add_key-Sent true batch_size key seen p (none_sent, fits, room, total) =
      let grown = length-append p.batch (key ∷ []) in
      let more = length-append seen (key ∷ []) in
      elim (Bool-cases (leb batch_size (length (p.batch ++ key ∷ [])))) [
        | inl q ↦
            rw (add_key, q)
              (none_sent, fits, omega (arith, room), omega (arith, grown, more, total))
        | inr q ↦ rw (add_key, q) (none_sent, fits, ground arith, omega (arith, grown, more, total))
      ]
  add_key-Sent false batch_size key seen p (whole, fits, room, total) =
      let batch = p.batch ++ key ∷ [] in
      let grown = length-append p.batch (key ∷ []) in
      let more = length-append seen (key ∷ []) in
      let longer : flat p.requests ++ batch ≡ seen ++ key ∷ [] =
        sym (append_assoc (flat p.requests) p.batch (key ∷ [])) ∙ ap (λ s. s ++ key ∷ []) whole in
      elim (Bool-cases (leb batch_size (length batch))) [
        | inl q ↦
            rw (add_key, q)
              (
                (append-nil (flat (p.requests ++ batch ∷ []))
                    ∙ flat-append p.requests (batch ∷ [])
                    ∙ ap (λ s. flat p.requests ++ s) (append-nil batch)
                    ∙ longer),
                All-append (Fits batch_size) p.requests (batch ∷ []) fits
                    ((omega (arith, grown), omega (arith, grown, room)), tt),
                omega (arith, room),
                omega (arith, grown, more, total),
              )
        | inr q ↦ rw (add_key, q) (longer, fits, ground arith, omega (arith, grown, more, total))
      ]

  add_page-Sent :
      (dry_run : Bool) (batch_size : ℕ) (keys seen : List Key) (p : Progress Key)
      → Sent dry_run batch_size seen p
      → Sent dry_run batch_size (seen ++ keys) (add_page dry_run batch_size keys p)
  unfolding add_page
  add_page-Sent dry_run batch_size [] seen p h = rw (append-nil seen) h
  add_page-Sent dry_run batch_size (key ∷ keys) seen p h =
      subst (λ s. Sent dry_run batch_size s (add_page dry_run batch_size (key ∷ keys) p))
        (append_assoc seen (key ∷ []) keys)
        (add_page-Sent dry_run batch_size keys (seen ++ key ∷ []) _
          (add_key-Sent dry_run batch_size key seen p h))

  add_pages-Sent :
      (dry_run : Bool) (batch_size : ℕ) (pages : List (List Key)) (seen : List Key)
      (p : Progress Key)
      → Sent dry_run batch_size seen p
      → Sent dry_run batch_size (seen ++ flat pages) (add_pages dry_run batch_size pages p)
  unfolding add_pages
  add_pages-Sent dry_run batch_size [] seen p h = rw (append-nil seen) h
  add_pages-Sent dry_run batch_size (page ∷ pages) seen p h =
      subst (λ s. Sent dry_run batch_size s (add_pages dry_run batch_size (page ∷ pages) p))
        (append_assoc seen page (flat pages))
        (add_pages-Sent dry_run batch_size pages (seen ++ page) _
          (add_page-Sent dry_run batch_size page seen p h))

  -- The requests and the number, against the keys of all pages.
  abbrev pub Complete : Bool → ℕ → List Key → List (List Key) × ℕ → Type ℓ
  Complete dry_run batch_size keys (requests, total) =
      (if dry_run then requests ≡ [] else flat requests ≡ keys)
      × All (Fits batch_size) requests
      × (total ≡ length keys)

  last_flush-Complete :
      (dry_run : Bool) (batch_size : ℕ) (keys batch : List Key) (requests : List (List Key))
      (total : ℕ)
      → Sent dry_run batch_size keys
          (record { batch = batch; requests = requests; total_deleted = total })
      → Complete dry_run batch_size keys (
          last_flush dry_run (record { batch = batch; requests = requests; total_deleted = total }))
  last_flush-Complete true batch_size keys [] requests total (none_sent, fits, room, counted) =
      (none_sent, fits, omega arith)
  last_flush-Complete true batch_size keys (b ∷ bs) requests total
        (none_sent, fits, room, counted) =
      (none_sent, fits, counted)
  last_flush-Complete false batch_size keys [] requests total (whole, fits, room, counted) =
      (sym (append-nil (flat requests)) ∙ whole, fits, omega arith)
  last_flush-Complete false batch_size keys (b ∷ bs) requests total (whole, fits, room, counted) = (
    flat-append requests ((b ∷ bs) ∷ [])
        ∙ ap (λ s. flat requests ++ s) (append-nil (b ∷ bs))
        ∙ whole,
    All-append (Fits batch_size) requests ((b ∷ bs) ∷ []) fits ((omega arith, omega arith), tt),
    counted,
  )

  -- With a positive batch size, the requests hold exactly the keys of all pages, in order, each request
  -- has a key and at most `batch_size`, and the number returned is that of the keys; a dry run sends no
  -- request, and returns the same number.
  pub delete_prefix_paginated-Complete :
      (dry_run : Bool) (batch_size : ℕ) (pages : List (List Key))
      → 1 ≤ batch_size
      → Complete dry_run batch_size (flat pages) (delete_prefix_paginated dry_run batch_size pages)
  unfolding delete_prefix_paginated
  delete_prefix_paginated-Complete true batch_size pages h =
      let p = add_pages true batch_size pages fresh_progress in
      last_flush-Complete true batch_size (flat pages) p.batch p.requests p.total_deleted
        (add_pages-Sent true batch_size pages [] fresh_progress (refl, tt, omega arith, refl))
  delete_prefix_paginated-Complete false batch_size pages h =
      let p = add_pages false batch_size pages fresh_progress in
      last_flush-Complete false batch_size (flat pages) p.batch p.requests p.total_deleted
        (add_pages-Sent false batch_size pages [] fresh_progress (refl, tt, omega arith, refl))
