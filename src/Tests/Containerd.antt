-- ===== src/Tests/Containerd.antt =====
-- Runs of the pull status of pkg/image/containerd.
use stereoscope.Errors.{Result, ok, err}
use stereoscope.Go.Maps.{elem}
use stereoscope.Image.Containerd.ApiState.{
  ApiState, Observed, stored, not_found, new_api_state, fetched, fetch_current_state,
}
use stereoscope.Image.Containerd.Update.{update_api}
use stereoscope.Image.Containerd.Completed.{PullOutcome, update_pull-PullOutcome}
use stereoscope.Image.Containerd.Jobs.{Descriptor, new_jobs, add_jobs}
use stereoscope.Image.Containerd.Listed.{Fetched, fetched-Fetched}
use stereoscope.Image.Containerd.PullStatus.{LayerPull, new_layer_pull, update_pull, is_complete}
use stereoscope.Image.Containerd.Settled.{UpdateOutcome, update_api-UpdateOutcome}
use stereoscope.Image.Containerd.Tracked.{digests, Distinct, add_jobs-Distinct}
use stereoscope.Tests.Images.{counter}
use stereoscope.Prelude.{
  ℕ, List, [], ◌∷◌, ◌++◌, Option, none, some, Bool, true, false, Str, codes, ◌≡◌, ◌≢◌, refl, ◌⊎◌,
  byte_string_eq, ◌==◌,
}

abbrev layer_job : Descriptor
layer_job = record { media_type = codes "tar"; digest = codes "sha256:1" }

abbrev config_job : Descriptor
config_job = record { media_type = codes "json"; digest = codes "sha256:2" }

-- One descriptor is met twice.
abbrev met : List Descriptor
met = layer_job ∷ config_job ∷ layer_job ∷ []

add_jobs-Distinct_example :
    Distinct (digests (add_jobs met (new_jobs (codes "alpine"))).descs)
    × ((x : Str)
        → elem x (digests (add_jobs met (new_jobs (codes "alpine"))).descs) ≡ elem x (digests met))
add_jobs-Distinct_example = add_jobs-Distinct (codes "alpine") met

-- The layer is in the store, since a later time than the start of the pull, with a size of 9.
abbrev all_stored : Observed
all_stored = record {
  is_resolved = true;
  jobs = layer_job ∷ config_job ∷ [];
  key_of = λ d. codes "layer-" ++ d.digest;
  list_statuses = ok [];
  info = λ d. stored 9 5;
}

-- The layer is downloaded.
abbrev one_active : Observed
one_active = record {
  is_resolved = true;
  jobs = layer_job ∷ config_job ∷ [];
  key_of = λ d. codes "layer-" ++ d.digest;
  list_statuses = ok (
      record { ref = codes "layer-sha256:1"; offset = 3; total = 9; started_at = 2; updated_at = 4 }
      ∷ []);
  info = λ d. not_found;
}

abbrev pulling : ApiState
pulling = new_api_state (codes "alpine") 1

abbrev in_store : Result (Option Str)
in_store = ok (some (codes "sha256:3"))

fetched-Fetched_example : Fetched pulling one_active (fetched pulling one_active)
fetched-Fetched_example = fetched-Fetched pulling one_active

update_api-UpdateOutcome_example :
    UpdateOutcome all_stored in_store all_stored pulling
      (update_api all_stored in_store all_stored pulling)
update_api-UpdateOutcome_example = update_api-UpdateOutcome all_stored in_store all_stored pulling

abbrev started : LayerPull ℕ
started = new_layer_pull (codes "alpine") 1

update_pull-PullOutcome_example :
    PullOutcome counter
      (λ n. n)
      in_store
      (update_pull counter (λ n. n) all_stored in_store all_stored started)
update_pull-PullOutcome_example =
    update_pull-PullOutcome counter (λ n. n) all_stored in_store all_stored started

abbrev is_done : Result (LayerPull ℕ) → Bool
is_done (ok p) = is_complete p
is_done (err e) = false

-- A pull goes on while a layer is downloaded, and ends once all are stored.
pull_goes_on : is_done (update_pull counter (λ n. n) one_active in_store one_active started) ≡ false
unfolding update_pull update_api stereoscope.File.Sets.size fetch_current_state fetched is_complete
    stereoscope.Prelude.str_eq
pull_goes_on = refl

pull_ends : is_done (update_pull counter (λ n. n) all_stored in_store all_stored started) ≡ true
unfolding update_pull update_api stereoscope.File.Sets.size fetch_current_state fetched is_complete
    stereoscope.Prelude.str_eq
pull_ends = refl
