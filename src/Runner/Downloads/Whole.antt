-- ===== src/Runner/Downloads/Whole.antt =====
-- runners/worker.py, `_download_s3_artifact` by one thread: a directory that counts as complete is
-- whole.
use model_deployer.Base.{
  ℕ, ◌+◌, ◌≡◌, ◌⊎◌, refl, sym, ap, ◌∙◌, subst, Bool, true, false, Option, none, some, List, [], ◌∷◌,
  ◌++◌, ◌==◌, leb, if◌then◌else◌, All, arith, Bool-cases, inl, inr, ==_refl, append_assoc,
  append-nil,
}
use model_deployer.Runner.Downloads.{
  CacheDir, DownloadStage, starting, fetching, marking, removing, replacing, finished, raised,
  Downloads, update_at, DownloadEvent, tick, go, fail, unlink_marker, unlink, is_empty_dir,
  dir_exists, s3_download_complete, to_stage, start_download, fetch_object, mark_complete,
  remove_dir, replace_dir, advance_download, break_off, unlink_child, happen, happen_all,
}

-- The event is a step of this thread, or time passes.
abbrev pub is_of : ℕ → DownloadEvent → Bool
is_of i (tick d) = true
is_of i (go j) = j == i
is_of i (fail j) = j == i
is_of i (unlink_marker j) = j == i
is_of i (unlink j k) = j == i

module _ (threshold : ℕ) (objects : List ℕ) where
  abbrev Incomplete : Downloads → Type 0
  Incomplete s = s3_download_complete threshold objects s.now s.local_dir ≡ false

  -- The directory does not count as complete, or it has all the objects.
  abbrev pub Sound : Downloads → Type 0
  Sound s = Incomplete s ⊎ ((d : CacheDir) × (s.local_dir ≡ some d) × (d.files ≡ objects))

  -- What holds of a thread at its stage.
  abbrev Ready : ℕ → DownloadStage → Downloads → Type 0
  Ready i (fetching ks) s = Incomplete s × ((s.partial_dir i).files ++ ks ≡ objects)
  Ready i marking s = Incomplete s × ((s.partial_dir i).files ≡ objects)
  Ready i removing s = Incomplete s × ((s.partial_dir i).files ≡ objects)
  Ready i replacing s = Incomplete s × ((s.partial_dir i).files ≡ objects)
  Ready i _ s = Sound s

  abbrev Inv : ℕ → Downloads → Type 0
  Inv i s = Ready i (s.stage i) s

  Ready-Sound : (i : ℕ) (x : DownloadStage) (s : Downloads) → Ready i x s → Sound s
  Ready-Sound i starting s h = h
  Ready-Sound i (fetching ks) s h = inl h.0
  Ready-Sound i marking s h = inl h.0
  Ready-Sound i removing s h = inl h.0
  Ready-Sound i replacing s h = inl h.0
  Ready-Sound i finished s h = h
  Ready-Sound i raised s h = h

  none_incomplete : (now : ℕ) → s3_download_complete threshold objects now none ≡ false
  unfolding s3_download_complete
  none_incomplete now = refl

  later :
      (now d : ℕ) (o : Option CacheDir)
      → s3_download_complete threshold objects now o ≡ false
      → s3_download_complete threshold objects (now + d) o ≡ false
  unfolding s3_download_complete
  later now d none h = refl
  later now d (some x) h = go_on x.downloaded_at h
    where
      go_on :
          (o : Option ℕ)
          → (elim o [ none ↦ false | some at ↦ leb now (at + threshold) ]) ≡ false
          → (elim o [ none ↦ false | some at ↦ leb (now + d) (at + threshold) ]) ≡ false
      go_on none h = refl
      go_on (some at) h = ground arith

  later-Sound : (d : ℕ) (s : Downloads) → Sound s → Sound (record s { now = s.now + d })
  later-Sound d s (inl h) = inl (later s.now d s.local_dir h)
  later-Sound d s (inr h) = inr h

  later-Ready :
      (i d : ℕ) (x : DownloadStage) (s : Downloads)
      → Ready i x s
      → Ready i x (record s { now = s.now + d })
  later-Ready i d starting s h = later-Sound d s h
  later-Ready i d (fetching ks) s h = (later s.now d s.local_dir h.0, h.1)
  later-Ready i d marking s h = (later s.now d s.local_dir h.0, h.1)
  later-Ready i d removing s h = (later s.now d s.local_dir h.0, h.1)
  later-Ready i d replacing s h = (later s.now d s.local_dir h.0, h.1)
  later-Ready i d finished s h = later-Sound d s h
  later-Ready i d raised s h = later-Sound d s h

  update_at_self : {A : Type 0} (i : ℕ) (x : A) (f : ℕ → A) → update_at i x f i ≡ x
  update_at_self i x f = rw (==_refl i) refl

  to_stage-Inv :
      (i : ℕ) (x : DownloadStage) (s : Downloads)
      → Ready i x s
      → Inv i (to_stage threshold objects i x s)
  to_stage-Inv i x s h =
      subst (λ y. Ready i y (to_stage threshold objects i x s)) (sym (update_at_self i x s.stage))
        (same x h)
    where
      same : (y : DownloadStage) → Ready i y s → Ready i y (to_stage threshold objects i x s)
      same starting h = h
      same (fetching ks) h = h
      same marking h = h
      same removing h = h
      same replacing h = h
      same finished h = h
      same raised h = h

  -- The partial directory of a thread is replaced.
  abbrev with_partial : ℕ → CacheDir → Downloads → Downloads
  with_partial i d s = record s { partial_dir = update_at i d s.partial_dir }

  partial_self :
      (i : ℕ) (d : CacheDir) (s : Downloads) → ((with_partial i d s).partial_dir i).files ≡ d.files
  partial_self i d s = ap (λ (x : CacheDir). x.files) (update_at_self i d s.partial_dir)

  abbrev no_files : CacheDir
  no_files = record { files = []; downloaded_at = none }

  start_download-Inv :
      (i : ℕ) (s : Downloads) → Sound s → Inv i (start_download threshold objects i s)
  unfolding start_download
  start_download-Inv i s h =
      elim (Bool-cases (s3_download_complete threshold objects s.now s.local_dir)) [
        | inl q ↦ rw (start_download, q) (to_stage-Inv i finished s h)
        | inr q ↦
            rw (start_download, q)
              (to_stage-Inv i (fetching objects) (with_partial i no_files s)
                (q, ap (λ files. files ++ objects) (partial_self i no_files s)))
      ]

  advance_download-Inv :
      (i : ℕ) (x : DownloadStage) (s : Downloads)
      → Ready i x s
      → s.stage i ≡ x
      → Inv i (advance_download threshold objects i x s)
  unfolding advance_download fetch_object mark_complete remove_dir replace_dir
  advance_download-Inv i starting s h e = start_download-Inv i s h
  advance_download-Inv i (fetching []) s h e =
      to_stage-Inv i marking s (h.0, sym (append-nil _) ∙ h.1)
  advance_download-Inv i (fetching (k ∷ ks)) s h e =
      let d = record (s.partial_dir i) { files = (s.partial_dir i).files ++ k ∷ [] } in
      to_stage-Inv i (fetching ks) (with_partial i d s) (
        h.0,
        ap (λ files. files ++ ks) (partial_self i d s)
            ∙ append_assoc (s.partial_dir i).files (k ∷ []) ks
            ∙ h.1,
      )
  advance_download-Inv i marking s h e =
      let d = record (s.partial_dir i) { downloaded_at = some s.now } in
      marked (dir_exists s.local_dir) (with_partial i d s) (h.0, partial_self i d s ∙ h.1)
    where
      marked :
          (b : Bool) (s' : Downloads)
          → Ready i replacing s'
          → Inv i (to_stage threshold objects i (if b then removing else replacing) s')
      marked true s' k = to_stage-Inv i removing s' k
      marked false s' k = to_stage-Inv i replacing s' k
  advance_download-Inv i removing s h e = removed (is_empty_dir s.local_dir)
    where
      removed :
          (b : Bool)
          → Inv i (
              to_stage threshold objects i replacing
                (record s { local_dir = if b then none else s.local_dir }))
      removed true =
          to_stage-Inv i replacing (record s { local_dir = none }) (none_incomplete s.now, h.1)
      removed false = to_stage-Inv i replacing s h
  advance_download-Inv i replacing s h e = replaced (is_empty_dir s.local_dir)
    where
      replaced :
          (b : Bool)
          → Inv i (
              if b
              then to_stage threshold objects i finished
                  (record s { local_dir = some (s.partial_dir i) })
              else to_stage threshold objects i raised s)
      replaced true =
          to_stage-Inv i finished (record s { local_dir = some (s.partial_dir i) })
            (inr (s.partial_dir i, refl, h.1))
      replaced false = to_stage-Inv i raised s (inl h.0)
  advance_download-Inv i finished s h e = subst (λ x. Ready i x s) (sym e) h
  advance_download-Inv i raised s h e = subst (λ x. Ready i x s) (sym e) h

  break_off-Inv :
      (i : ℕ) (x : DownloadStage) (s : Downloads)
      → Ready i x s
      → s.stage i ≡ x
      → Inv i (break_off threshold objects i x s)
  unfolding break_off
  break_off-Inv i (fetching ks) s h e = to_stage-Inv i raised s (inl h.0)
  break_off-Inv i marking s h e = to_stage-Inv i raised s (inl h.0)
  break_off-Inv i replacing s h e = to_stage-Inv i raised s (inl h.0)
  break_off-Inv i starting s h e = subst (λ x. Ready i x s) (sym e) h
  break_off-Inv i removing s h e = subst (λ x. Ready i x s) (sym e) h
  break_off-Inv i finished s h e = subst (λ x. Ready i x s) (sym e) h
  break_off-Inv i raised s h e = subst (λ x. Ready i x s) (sym e) h

  change : (CacheDir → CacheDir) → Downloads → Downloads
  change f s = record s { local_dir = elim s.local_dir [ none ↦ none | some d ↦ some (f d) ] }

  -- A change that does not make the directory complete.
  change-Incomplete :
      (f : CacheDir → CacheDir) (s : Downloads)
      → ((d : CacheDir)
          → s3_download_complete threshold objects s.now (some d) ≡ false
          → s3_download_complete threshold objects s.now (some (f d)) ≡ false)
      → Incomplete s
      → Incomplete (change f s)
  unfolding change
  change-Incomplete f s k h = changed s.local_dir h
    where
      changed :
          (o : Option CacheDir)
          → s3_download_complete threshold objects s.now o ≡ false
          → s3_download_complete threshold objects s.now
              (elim o [ none ↦ none | some d ↦ some (f d) ])
            ≡ false
      changed none h = h
      changed (some d) h = k d h

  unlink_child-Inv :
      (i : ℕ) (x : DownloadStage) (f : CacheDir → CacheDir) (s : Downloads)
      → ((d : CacheDir)
          → s3_download_complete threshold objects s.now (some d) ≡ false
          → s3_download_complete threshold objects s.now (some (f d)) ≡ false)
      → Ready i x s
      → s.stage i ≡ x
      → Inv i (unlink_child threshold objects x f s)
  unfolding unlink_child change
  unlink_child-Inv i removing f s k h e =
      subst (λ x. Ready i x (change f s)) (sym e) (change-Incomplete f s k h.0, h.1)
  unlink_child-Inv i starting f s k h e = subst (λ x. Ready i x s) (sym e) h
  unlink_child-Inv i (fetching ks) f s k h e = subst (λ x. Ready i x s) (sym e) h
  unlink_child-Inv i marking f s k h e = subst (λ x. Ready i x s) (sym e) h
  unlink_child-Inv i replacing f s k h e = subst (λ x. Ready i x s) (sym e) h
  unlink_child-Inv i finished f s k h e = subst (λ x. Ready i x s) (sym e) h
  unlink_child-Inv i raised f s k h e = subst (λ x. Ready i x s) (sym e) h

  happen-Inv :
      (i : ℕ) (e : DownloadEvent) (s : Downloads)
      → is_of i e ≡ true
      → Inv i s
      → Inv i (happen threshold objects e s)
  unfolding happen s3_download_complete
  happen-Inv i (tick d) s own h = later-Ready i d (s.stage i) s h
  happen-Inv i (go j) s own h =
      let same : i ≡ j = ground arith in
      subst (λ j. Inv i (happen threshold objects (go j) s)) same
        (advance_download-Inv i (s.stage i) s h refl)
  happen-Inv i (fail j) s own h =
      let same : i ≡ j = ground arith in
      subst (λ j. Inv i (happen threshold objects (fail j) s)) same
        (break_off-Inv i (s.stage i) s h refl)
  happen-Inv i (unlink_marker j) s own h =
      let same : i ≡ j = ground arith in
      subst (λ j. Inv i (happen threshold objects (unlink_marker j) s)) same
        (unlink_child-Inv i (s.stage i) _ s (λ d k. refl) h refl)
  happen-Inv i (unlink j k) s own h =
      let same : i ≡ j = ground arith in
      subst (λ j. Inv i (happen threshold objects (unlink j k) s)) same
        (unlink_child-Inv i (s.stage i) _ s (λ d k. k) h refl)

  happen_all-Inv :
      (i : ℕ) (events : List DownloadEvent) (s : Downloads)
      → All (λ e. is_of i e ≡ true) events
      → Inv i s
      → Inv i (happen_all threshold objects events s)
  unfolding happen_all
  happen_all-Inv i [] s own h = h
  happen_all-Inv i (e ∷ es) s own h = happen_all-Inv i es _ own.1 (happen-Inv i e s own.0 h)

  -- Whatever happens to the one thread that downloads, and whenever it is cut off, the directory is
  -- not taken for complete unless it has all the objects, if it was so before.
  pub happen_all-Sound :
      (i : ℕ) (events : List DownloadEvent) (s : Downloads)
      → All (λ e. is_of i e ≡ true) events
      → s.stage i ≡ starting
      → Sound s
      → Sound (happen_all threshold objects events s)
  happen_all-Sound i events s own begin sound =
      let s' = happen_all threshold objects events s in
      Ready-Sound i (s'.stage i) s'
        (happen_all-Inv i events s own (subst (λ x. Ready i x s) (sym begin) sound))
