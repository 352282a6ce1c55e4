-- ===== src/Image/PullStatus.antt =====
-- pkg/image/docker/pull_status.go: the state of a pull by its events. The lock of the source makes each operation
-- one step. `M` is the type `progress.Manual` of go-progress, which the maps hold by pointer: a missing one is nil.
-- The counts of an event are not negative.
pub mod Tracked
use stereoscope.Errors.{Result, ok, err, ◌>>=◌, panics}
use stereoscope.Go.Maps.{GoMap, get, put, has}
use stereoscope.Prelude.{
  ℕ, List, [], ◌∷◌, ◌++◌, Option, none, some, Bool, true, false, Str, codes, str_eq, byte_string_eq,
  ◌==◌, leb, if◌then◌else◌,
}

-- `PullPhase`
pub data PullPhase : Type 0 where
  unknown_phase : PullPhase
  waiting_phase : PullPhase
  pulling_fs_phase : PullPhase
  downloading_phase : PullPhase
  download_complete_phase : PullPhase
  extracting_phase : PullPhase
  verifying_checksum_phase : PullPhase
  already_exists_phase : PullPhase
  pull_complete_phase : PullPhase

abbrev pub phase_number : PullPhase → ℕ
phase_number unknown_phase = 0
phase_number waiting_phase = 1
phase_number pulling_fs_phase = 2
phase_number downloading_phase = 3
phase_number download_complete_phase = 4
phase_number extracting_phase = 5
phase_number verifying_checksum_phase = 6
phase_number already_exists_phase = 7
phase_number pull_complete_phase = 8

-- `phaseLookup`, and the unknown phase where it has none
unfoldable pub phase_lookup : Str → PullPhase
phase_lookup s =
    if str_eq s (codes "Waiting")
    then waiting_phase
    else if str_eq s (codes "Pulling fs layer")
    then pulling_fs_phase
    else if str_eq s (codes "Downloading")
    then downloading_phase
    else if str_eq s (codes "Download complete")
    then download_complete_phase
    else if str_eq s (codes "Extracting")
    then extracting_phase
    else if str_eq s (codes "Verifying Checksum")
    then verifying_checksum_phase
    else if str_eq s (codes "Already exists")
    then already_exists_phase
    else if str_eq s (codes "Pull complete")
    then pull_complete_phase
    else unknown_phase

-- `pullEvent`, of which the rest is not read
pub record PullEvent : Type 0 where
  pub id : Str
  pub status : Str
  pub current : ℕ
  pub total : ℕ

-- The methods of `progress.Manual`.
pub record Manual (M : Type 0) : Type 0 where
  pub new : M
  pub set : ℕ → M → M
  pub set_total : ℕ → M → M
  pub set_completed : M → M
  pub size : M → ℕ

-- `PullStatus`; the list of layers is nil before the first event.
pub record PullStatus (M : Type 0) : Type 0 where
  pub phase_progress : GoMap Str M
  pub download_progress : GoMap Str M
  pub phase : GoMap Str PullPhase
  pub layers : Option (List Str)

-- `LayerState`
pub record LayerState (M : Type 0) : Type 0 where
  pub phase : PullPhase
  pub phase_progress : Option M
  pub download_progress : Option M

module _ {M : Type 0} where
  -- `newPullStatus`
  abbrev pub new_pull_status : PullStatus M
  new_pull_status = record {
    phase_progress = [];
    download_progress = [];
    phase = [];
    layers = none;
  }

  -- `Layers`
  unfoldable pub layers_of : PullStatus M → List Str
  layers_of p = elim p.layers [ none ↦ [] | some ls ↦ ls ]

  -- `Current`
  unfoldable pub current_of : Str → PullStatus M → LayerState M
  current_of layer p = record {
    phase = elim (get layer p.phase) [ none ↦ unknown_phase | some phase ↦ phase ];
    phase_progress = get layer p.phase_progress;
    download_progress = get layer p.download_progress;
  }

  -- A method of a map's value; that of a nil pointer is a panic.
  unfoldable pub change : Str → (M → M) → GoMap Str M → Result (GoMap Str M)
  change layer f m = elim (get layer m) [ none ↦ err panics | some v ↦ ok (put layer (f v) m) ]

module _ {M : Type 0} (manual : Manual M) where
  -- The start of `onEvent` for a layer that is new.
  unfoldable pub track : Str → List Str → PullStatus M → PullStatus M
  track layer ls p = record {
    phase_progress = put layer manual.new p.phase_progress;
    download_progress = put layer manual.new p.download_progress;
    phase = p.phase;
    layers = some (ls ++ layer ∷ []);
  }

  -- The change of the progress of a phase.
  unfoldable pub phase_change : PullPhase → PullEvent → M → M
  phase_change phase e m =
      if leb 7 (phase_number phase)
      then manual.set_completed m
      else manual.set_total e.total (manual.set e.current m)

  -- The change of the progress of a download.
  unfoldable pub download_change : Str → PullPhase → PullEvent → GoMap Str M → Result (GoMap Str M)
  unfolding change
  download_change layer phase e m =
      if phase_number phase == 3
      then change layer (λ d. manual.set_total e.total (manual.set e.current d)) m
      else if leb 4 (phase_number phase)
      then change layer (λ d. manual.set_completed (manual.set (manual.size d) d)) m
      else ok m

  -- The rest of `onEvent`, once the layer is tracked.
  unfoldable pub capture : Str → PullEvent → PullStatus M → Result (PullStatus M)
  unfolding change phase_change download_change phase_lookup
  capture layer e p = do
    let phase = phase_lookup e.status
    phases ← change layer (phase_change phase e) p.phase_progress
    downloads ← download_change layer phase e p.download_progress
    ok (record p {
      phase_progress = phases;
      download_progress = downloads;
      phase = put layer phase p.phase;
    })

  -- `onEvent`
  unfoldable pub on_event : PullEvent → PullStatus M → Result (PullStatus M)
  unfolding track capture
  on_event e p =
      let known = capture e.id e p in
      let new : Result (PullStatus M) = elim p.layers [
        | none ↦ ok (record p { layers = some [] })
        | some ls ↦ capture e.id e (track e.id ls p)
      ] in
      if str_eq e.id [] then ok p else if has e.id p.phase_progress then known else new

  -- All events of a pull.
  unfoldable pub on_events : List PullEvent → PullStatus M → Result (PullStatus M)
  unfolding on_event
  on_events [] p = ok p
  on_events (e ∷ es) p = on_event e p >>= on_events es
