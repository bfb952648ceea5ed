-- ===== src/Runner/Downloads/Returns.antt =====
-- runners/worker.py, `_download_s3_artifact` where no call fails: it ends with the whole directory.
use model_deployer.Base.{
  ℕ, ◌≡◌, refl, sym, ap, ◌∙◌, subst, true, none, some, List, [], ◌∷◌, ◌++◌, if◌then◌else◌, arith,
  ==_refl, append_assoc, append-nil,
}
use model_deployer.Runner.Downloads.{
  CacheDir, DownloadStage, starting, fetching, marking, replacing, finished, Downloads, update_at,
  DownloadEvent, go, s3_download_complete, start_download, fetch_object, mark_complete, replace_dir,
  advance_download, happen, happen_all,
}

module _ (threshold : ℕ) (objects : List ℕ) (i : ℕ) where
  -- A step for each object, and three more.
  abbrev pub steps : List ℕ → List DownloadEvent
  steps [] = go i ∷ go i ∷ go i ∷ []
  steps (k ∷ ks) = go i ∷ steps ks

  abbrev Ends : CacheDir → Downloads → Type 0
  Ends d s = (s.local_dir ≡ some d) × (s.stage i ≡ finished)

  run : List DownloadEvent → Downloads → Downloads
  run = happen_all threshold objects

  run_go :
      (x : DownloadStage) (es : List DownloadEvent) (s : Downloads)
      → s.stage i ≡ x
      → run (go i ∷ es) s ≡ run es (advance_download threshold objects i x s)
  unfolding run happen_all happen
  run_go x es s e =
      ap (λ y. happen_all threshold objects es (advance_download threshold objects i y s)) e

  update_at_same : {A : Type 0} (x : A) (f : ℕ → A) → update_at i x f i ≡ x
  update_at_same x f = rw (==_refl i) refl

  partial_at : (d : CacheDir) (s : Downloads) → update_at i d s.partial_dir i ≡ d
  partial_at d s = update_at_same d s.partial_dir

  replace-Ends :
      (s : Downloads)
      → s.stage i ≡ replacing
      → s.local_dir ≡ none
      → Ends (s.partial_dir i) (run (go i ∷ []) s)
  unfolding run happen_all advance_download replace_dir
  replace-Ends s e l =
      subst (Ends (s.partial_dir i)) (sym (run_go replacing [] s e))
        (rw (replace_dir, l) (refl, update_at_same finished s.stage))

  mark-Ends :
      (s : Downloads)
      → s.stage i ≡ marking
      → s.local_dir ≡ none
      → Ends (record (s.partial_dir i) { downloaded_at = some s.now }) (run (go i ∷ go i ∷ []) s)
  unfolding advance_download mark_complete
  mark-Ends s e l =
      let d = record (s.partial_dir i) { downloaded_at = some s.now } in
      let s' = mark_complete threshold objects i s in
      let ready : s'.stage i ≡ replacing =
        rw (mark_complete, l) (update_at_same replacing s.stage) in
      subst (Ends d) (sym (run_go marking (go i ∷ []) s e))
        (subst (λ x. Ends x (run (go i ∷ []) s')) (partial_at d s) (replace-Ends s' ready l))

  fetch_all :
      (ks : List ℕ) (d : CacheDir) (s : Downloads)
      → s.stage i ≡ fetching ks
      → s.partial_dir i ≡ d
      → s.local_dir ≡ none
      → Ends (record { files = d.files ++ ks; downloaded_at = some s.now }) (run (steps ks) s)
  unfolding fetch_object advance_download
  fetch_all [] d s e p l =
      let s' = record s { stage = update_at i marking s.stage } in
      let last = mark-Ends s' (update_at_same marking s.stage) l in
      subst (Ends (record { files = d.files ++ []; downloaded_at = some s.now }))
        (sym (run_go (fetching []) (go i ∷ go i ∷ []) s e))
        (subst
          (λ files.
            Ends (record { files = files; downloaded_at = some s.now }) (run (go i ∷ go i ∷ []) s'))
          (ap (λ (x : CacheDir). x.files) p ∙ sym (append-nil d.files)) last)
  fetch_all (k ∷ ks) d s e p l =
      let d' = record d { files = d.files ++ k ∷ [] } in
      let s' = fetch_object threshold objects i k ks s in
      let rest =
        fetch_all ks d' s' (update_at_same (fetching ks) s.stage)
          (update_at_same _ s.partial_dir
            ∙ ap (λ (x : CacheDir). record x { files = x.files ++ k ∷ [] }) p)
          l in
      subst (Ends (record { files = d.files ++ k ∷ ks; downloaded_at = some s.now }))
        (sym (run_go (fetching (k ∷ ks)) (steps ks) s e))
        (subst
          (λ files. Ends (record { files = files; downloaded_at = some s.now }) (run (steps ks) s'))
          (append_assoc d.files (k ∷ []) ks) rest)

  -- A thread that starts where there is no directory, and whose calls do not fail, ends after four
  -- steps and one for each object; the directory then has all the objects and counts as complete.
  pub happen_all-Finished :
      (s : Downloads)
      → s.stage i ≡ starting
      → s.local_dir ≡ none
      → let s' = happen_all threshold objects (go i ∷ steps objects) s in
        (s'.stage i ≡ finished)
        × (s'.local_dir ≡ some (record { files = objects; downloaded_at = some s.now }))
        × (s3_download_complete threshold objects s.now s'.local_dir ≡ true)
  unfolding run advance_download start_download s3_download_complete
  happen_all-Finished s e l =
      let ends =
        subst (Ends whole)
          (sym (run_go starting (steps objects) s e ∙ ap (run (steps objects)) started))
          (fetch_all objects no_files begun (update_at_same (fetching objects) s.stage)
            (update_at_same no_files s.partial_dir) l) in
      (ends.1, ends.0, ap (s3_download_complete threshold objects s.now) ends.0 ∙ fresh)
    where
      no_files : CacheDir
      no_files = record { files = []; downloaded_at = none }

      whole : CacheDir
      whole = record { files = objects; downloaded_at = some s.now }

      begun : Downloads
      begun = record s {
        partial_dir = update_at i no_files s.partial_dir;
        stage = update_at i (fetching objects) s.stage;
      }

      started : start_download threshold objects i s ≡ begun
      started =
          ap
            (λ o.
              if s3_download_complete threshold objects s.now o
              then record s { stage = update_at i finished s.stage }
              else begun)
            l

      fresh : s3_download_complete threshold objects s.now (some whole) ≡ true
      fresh = ground arith
