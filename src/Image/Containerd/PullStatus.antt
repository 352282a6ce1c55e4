-- ===== src/Image/Containerd/PullStatus.antt =====
-- pkg/image/containerd/pull_status.go: the progress of a pull by the state of the API. `M` is the type
-- `progress.Manual` of go-progress, and `new_manual` makes one with a total.
use stereoscope.Errors.{Result, ok, ◌>>=◌}
use stereoscope.Go.Maps.{GoMap, get, put}
use stereoscope.Image.Containerd.ApiState.{
  ApiState, Observed, Status, no_status, StatusInfo, new_api_state,
}
use stereoscope.Image.Containerd.Update.{update_api}
use stereoscope.Image.PullStatus.{Manual}
use stereoscope.Prelude.{
  ℕ, List, [], ◌∷◌, ◌++◌, Option, none, some, Bool, true, false, Str, byte_string_eq, if◌then◌else◌,
}

-- `PullStatus`
pub record LayerPull (M : Type 0) : Type 0 where
  pub state : ApiState
  pub layers : List Str
  pub progress : GoMap Str M

-- `newPullStatus`
abbrev pub new_layer_pull : {M : Type 0} → Str → ℕ → LayerPull M
new_layer_pull name now = record { state = new_api_state name now; layers = []; progress = [] }

unfoldable pub layer_refs : List StatusInfo → List Str
layer_refs [] = []
layer_refs (i ∷ is) = i.ref ∷ layer_refs is

module _ {M : Type 0} where
  -- `Complete`
  unfoldable pub is_complete : LayerPull M → Bool
  is_complete p = p.state.done

  -- `Layers`
  unfoldable pub pull_layers : LayerPull M → List Str
  unfolding layer_refs
  pull_layers p = layer_refs p.state.ordered

abbrev pub has_no_status : Status → Bool
has_no_status no_status = true
has_no_status other = false

module _ {M : Type 0} (manual : Manual M) (new_manual : ℕ → M) where
  -- `Current`; `unknown` is `progress.NewManual(-1)`.
  unfoldable pub current_progress : M → Str → LayerPull M → M
  current_progress unknown layer p = elim (get layer p.progress) [ none ↦ unknown | some m ↦ m ]

  -- The progress of a layer, with the latest counts.
  unfoldable pub progressed : StatusInfo → Bool → Option M → M
  progressed i done before =
      let counted =
        manual.set i.offset
          (elim before [ none ↦ new_manual i.total | some m ↦ manual.set_total i.total m ]) in
      if done then manual.set_completed counted else counted

  -- The loop of `update` over the statuses.
  unfoldable pub set_progress : Bool → List StatusInfo → LayerPull M → LayerPull M
  unfolding progressed
  set_progress done [] p = p
  set_progress done (i ∷ is) p =
      let skipped = set_progress done is p in
      let changed = set_progress done is (record p {
        progress = put i.ref (progressed i done (get i.ref p.progress)) p.progress;
        layers = p.layers ++ i.ref ∷ [];
      }) in
      if has_no_status i.status then skipped else changed

  -- `update`
  unfoldable pub update_pull :
      Observed → Result (Option Str) → Observed → LayerPull M → Result (LayerPull M)
  unfolding update_api set_progress
  update_pull o1 image o2 p = update_api o1 image o2 p.state >>= λ s.
      ok (set_progress s.done s.ordered (record p { state = s; layers = [] }))
