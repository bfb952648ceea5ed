-- ===== src/Runner/Downloads.antt =====
-- runners/worker.py: `_download_s3_artifact` and the functions that it calls, by threads that take
-- steps in any order.
--
-- The directory `local_dir` and each thread's partial directory hold objects, which are numbers,
-- and the marker with its time. `dst.exists()` is asked in one step with the marker. What the store
-- lists and the threshold are parameters.
pub mod Whole
pub mod Returns
use model_deployer.Base.{
  ℕ, ◌+◌, Bool, true, false, Option, none, some, List, [], ◌∷◌, ◌++◌, ◌==◌, not, leb, keep_if,
  if◌then◌else◌,
}

pub record CacheDir : Type 0 where
  pub files : List ℕ
  pub downloaded_at : Option ℕ

-- Where a thread is: before the check; with these objects to download; before the marker; while it
-- removes the old directory; before `os.replace`; after it; and after an exception.
pub data DownloadStage : Type 0 where
  starting : DownloadStage
  fetching : List ℕ → DownloadStage
  marking removing replacing finished raised : DownloadStage

pub record Downloads : Type 0 where
  pub now : ℕ
  pub local_dir : Option CacheDir
  pub partial_dir : ℕ → CacheDir
  pub stage : ℕ → DownloadStage

abbrev pub update_at {ℓ} : {A : Type ℓ} → ℕ → A → (ℕ → A) → ℕ → A
update_at i x f j = if j == i then x else f j

-- What a step is: time passes; a thread goes on; its call fails; or it removes one child of the old
-- directory, the marker or an object.
pub data DownloadEvent : Type 0 where
  tick : ℕ → DownloadEvent
  go fail : ℕ → DownloadEvent
  unlink_marker : ℕ → DownloadEvent
  unlink : ℕ → ℕ → DownloadEvent

-- `not dst.exists()` or a directory without children.
abbrev pub is_empty_dir : Option CacheDir → Bool
is_empty_dir none = true
is_empty_dir (some d) = elim d.files [
  | [] ↦ elim d.downloaded_at [ none ↦ true | some _ ↦ false ]
  | _ ∷ _ ↦ false
]

abbrev pub dir_exists : Option CacheDir → Bool
dir_exists none = false
dir_exists (some d) = true

module _ (threshold : ℕ) (objects : List ℕ) where
  -- `_s3_download_complete`, at the time `now`.
  unfoldable pub s3_download_complete : ℕ → Option CacheDir → Bool
  s3_download_complete now none = false
  s3_download_complete now (some d) = elim d.downloaded_at [
    | none ↦ false
    | some at ↦ leb now (at + threshold)
  ]

  abbrev pub to_stage : ℕ → DownloadStage → Downloads → Downloads
  to_stage i x s = record s { stage = update_at i x s.stage }

  -- `_download_s3_into` starts with an empty partial directory.
  unfoldable pub start_download : ℕ → Downloads → Downloads
  start_download i s =
      if s3_download_complete s.now s.local_dir
      then to_stage i finished s
      else to_stage i (fetching objects) (record s {
        partial_dir = update_at i (record { files = []; downloaded_at = none }) s.partial_dir;
      })

  -- `download_file` of an object whose key is below the version's own prefix. The code's listing can
  -- also give keys of other versions (v10 for v1), whose files land outside; those are not objects
  -- of the artifact here.
  unfoldable pub fetch_object : ℕ → ℕ → List ℕ → Downloads → Downloads
  fetch_object i k rest s =
      let d = s.partial_dir i in
      to_stage i (fetching rest) (record s {
        partial_dir = update_at i (record d { files = d.files ++ k ∷ [] }) s.partial_dir;
      })

  -- `_mark_s3_download_complete`
  unfoldable pub mark_complete : ℕ → Downloads → Downloads
  mark_complete i s =
      let d = s.partial_dir i in
      let marked = record d { downloaded_at = some s.now } in
      to_stage i (if dir_exists s.local_dir then removing else replacing)
        (record s { partial_dir = update_at i marked s.partial_dir })

  -- The end of `_attempt_remove_dir`: `rmdir` fails quietly where a child is left.
  unfoldable pub remove_dir : ℕ → Downloads → Downloads
  remove_dir i s =
      to_stage i replacing
        (record s { local_dir = if is_empty_dir s.local_dir then none else s.local_dir })

  -- `os.replace`, which fails onto a directory that is not empty.
  unfoldable pub replace_dir : ℕ → Downloads → Downloads
  replace_dir i s =
      if is_empty_dir s.local_dir
      then to_stage i finished (record s { local_dir = some (s.partial_dir i) })
      else to_stage i raised s

  unfoldable pub advance_download : ℕ → DownloadStage → Downloads → Downloads
  advance_download i starting s = start_download i s
  advance_download i (fetching []) s = to_stage i marking s
  advance_download i (fetching (k ∷ ks)) s = fetch_object i k ks s
  advance_download i marking s = mark_complete i s
  advance_download i removing s = remove_dir i s
  advance_download i replacing s = replace_dir i s
  advance_download i finished s = s
  advance_download i raised s = s

  -- An exception before the move; the partial directory is then of no use.
  unfoldable pub break_off : ℕ → DownloadStage → Downloads → Downloads
  break_off i (fetching ks) s = to_stage i raised s
  break_off i marking s = to_stage i raised s
  break_off i replacing s = to_stage i raised s
  break_off i _ s = s

  -- `child.unlink`, while the old directory is removed.
  unfoldable pub unlink_child : DownloadStage → (CacheDir → CacheDir) → Downloads → Downloads
  unlink_child removing f s = record s {
    local_dir = elim s.local_dir [ none ↦ none | some d ↦ some (f d) ];
  }
  unlink_child _ f s = s

  unfoldable pub happen : DownloadEvent → Downloads → Downloads
  happen (tick d) s = record s { now = s.now + d }
  happen (go i) s = advance_download i (s.stage i) s
  happen (fail i) s = break_off i (s.stage i) s
  happen (unlink_marker i) s = unlink_child (s.stage i) (λ d. record d { downloaded_at = none }) s
  happen (unlink i k) s =
      unlink_child (s.stage i) (λ d. record d { files = keep_if (λ j. not (j == k)) d.files }) s

  unfoldable pub happen_all : List DownloadEvent → Downloads → Downloads
  happen_all [] s = s
  happen_all (e ∷ es) s = happen_all es (happen e s)
