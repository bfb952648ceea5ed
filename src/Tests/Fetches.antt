-- ===== src/Tests/Fetches.antt =====
-- Runs of `_download_s3_artifact` on two objects, with a threshold of an hour.
use model_deployer.Base.{ℕ, ◌≡◌, refl, true, none, some, List, [], ◌∷◌, inl}
use model_deployer.Runner.Downloads.{
  starting, finished, Downloads, DownloadEvent, tick, go, unlink, s3_download_complete, happen_all,
  happen, advance_download, start_download, fetch_object, mark_complete, replace_dir, unlink_child,
}
use model_deployer.Runner.Downloads.Whole.{Sound, happen_all-Sound}
use model_deployer.Runner.Downloads.Returns.{happen_all-Finished, steps}

abbrev objects : List ℕ
objects = 1 ∷ 2 ∷ []

abbrev fresh : Downloads
fresh = record {
  now = 5000;
  local_dir = none;
  partial_dir = λ _. record { files = []; downloaded_at = none };
  stage = λ _. starting;
}

-- A directory that has lost an object, of more than an hour ago.
abbrev stale : Downloads
stale = record fresh { local_dir = some (record { files = 1 ∷ []; downloaded_at = some 1000 }) }

-- The old directory is removed in part when the thread is cut off.
abbrev cut_off : List DownloadEvent
cut_off = go 0 ∷ go 0 ∷ tick 60 ∷ go 0 ∷ go 0 ∷ go 0 ∷ unlink 0 1 ∷ []

happen_all-Sound_example : Sound 3600 objects (happen_all 3600 objects cut_off stale)
unfolding s3_download_complete
happen_all-Sound_example =
    happen_all-Sound 3600 objects 0 cut_off stale
      (refl, (refl, (refl, (refl, (refl, (refl, (refl, tt))))))) refl (inl refl)

happen_all-Finished_example :
    let s' = happen_all 3600 objects (go 0 ∷ steps 3600 objects 0 objects) fresh in
    (s'.stage 0 ≡ finished)
    × (s'.local_dir ≡ some (record { files = objects; downloaded_at = some 5000 }))
    × (s3_download_complete 3600 objects 5000 s'.local_dir ≡ true)
happen_all-Finished_example = happen_all-Finished 3600 objects 0 fresh refl refl

-- Two threads download at once. The second removes what the first has put in place, and while it
-- does, a third finds the marker and goes on with half of the objects.
abbrev race : List DownloadEvent
race =
    go 0
    ∷ go 1
    ∷ go 0
    ∷ go 0
    ∷ go 0
    ∷ go 0
    ∷ go 1
    ∷ go 1
    ∷ go 1
    ∷ go 0
    ∷ go 1
    ∷ unlink 1 1
    ∷ go 2
    ∷ []

half_whole :
    let s' = happen_all 3600 objects race fresh in
    (s'.stage 2 ≡ finished)
    × (s'.local_dir ≡ some (record { files = 2 ∷ []; downloaded_at = some 5000 }))
unfolding happen_all happen advance_download unlink_child start_download s3_download_complete
    fetch_object mark_complete replace_dir
half_whole = (refl, refl)
