-- ===== src/Image/Containerd/Completed.antt =====
-- The progress of the layers that pkg/image/containerd/pull_status.go lists.
use mathlib.Core.Path.{subst}
use stereoscope.Errors.{Result, ok, err, ◌>>=◌, panics}
use stereoscope.Go.Maps.{GoMap, get, put, get-put, elem}
use stereoscope.Image.Containerd.ApiState.{
  ApiState, Observed, StatusInfo, fetched, fetch_current_state,
}
use stereoscope.Image.Containerd.Update.{update_api}
use stereoscope.Image.Containerd.Listed.{fetched-Fetched, Fetched}
use stereoscope.Image.Containerd.PullStatus.{
  LayerPull, layer_refs, pull_layers, has_no_status, progressed, set_progress, update_pull,
}
use stereoscope.Image.Containerd.Settled.{UpdateOutcome, update_api-UpdateOutcome, fetched_first}
use stereoscope.Image.PullStatus.{Manual}
use stereoscope.Prelude.{
  ℕ, List, [], ◌∷◌, ◌++◌, append_assoc, append-nil, Option, none, some, Bool, true, false, Str,
  str_eq, byte_string_eq, ◌≡◌, refl, sym, ◌∙◌, ◌⊎◌, inl, inr, arith, All, Bool-cases,
}

-- No status is empty.
abbrev NoneEmpty : List StatusInfo → Type 0
NoneEmpty l = All (λ i. has_no_status i.status ≡ false) l

fetch_current_state-NoneEmpty : (s : ApiState) (o : Observed) → NoneEmpty (fetch_current_state s o)
unfolding fetch_current_state
fetch_current_state-NoneEmpty s o = go (fetched s o) (fetched-Fetched s o)
  where
    go :
        (x : Option (List StatusInfo))
        → Fetched s o x
        → NoneEmpty (elim x as (λ y. List StatusInfo) [ none ↦ [] | some l ↦ l ])
    go none h = tt
    go (some l) h = h.1

module _ {M : Type 0} (manual : Manual M) (new_manual : ℕ → M) where
  -- The layer has a progress, which is completed if the pull is done.
  abbrev pub HasProgress : Bool → GoMap Str M → Str → Type 0
  HasProgress done m l =
      (v : M) × (get l m ≡ some v) × (done ≡ true → (v0 : M) × (v ≡ manual.set_completed v0))

  progressed-completed :
      (i : StatusInfo) (done : Bool) (before : Option M)
      → done ≡ true
      → (v0 : M) × (progressed manual new_manual i done before ≡ manual.set_completed v0)
  unfolding progressed
  progressed-completed i true before e = (_, refl)
  progressed-completed i false before e = cc

  put-HasProgress :
      (done : Bool) (m : GoMap Str M) (i : StatusInfo) (l : Str)
      → (str_eq i.ref l ≡ true) ⊎ HasProgress done m l
      → HasProgress done (put i.ref (progressed manual new_manual i done (get i.ref m)) m) l
  put-HasProgress done m i l h = elim (Bool-cases (str_eq i.ref l)) [
    | inl same ↦ (
      progressed manual new_manual i done (get i.ref m),
      ground (arith, get-put i.ref l (progressed manual new_manual i done (get i.ref m)) m, same),
      progressed-completed i done (get i.ref m),
    )
    | inr other ↦ elim h [
      | inl same ↦ cc
      | inr (v, at, completed) ↦ (
        v,
        ground (
          arith,
          get-put i.ref l (progressed manual new_manual i done (get i.ref m)) m,
          other,
          at,
        ),
        completed,
      )
    ]
  ]

  -- What the loop of `update` leaves of a pull.
  abbrev Updated : Bool → List StatusInfo → LayerPull M → LayerPull M → Type 0
  Updated done is p p' =
      (p'.layers ≡ p.layers ++ layer_refs is)
      × (p'.state ≡ p.state)
      × ((l : Str)
          → (elem l (layer_refs is) ≡ true) ⊎ HasProgress done p.progress l
          → HasProgress done p'.progress l)

  set_progress-Updated :
      (done : Bool) (is : List StatusInfo) (p : LayerPull M)
      → NoneEmpty is
      → Updated done is p (set_progress manual new_manual done is p)
  unfolding set_progress layer_refs elem
  set_progress-Updated done [] p h =
      (sym (append-nil p.layers), refl, λ l k. elim k [ inl e ↦ cc | inr there ↦ there ])
  set_progress-Updated done (i ∷ is) p h = rw h.0 (one (set_progress-Updated done is _ h.1))
    where
      changed : LayerPull M
      changed = record p {
        progress =
            put i.ref (progressed manual new_manual i done (get i.ref p.progress)) p.progress;
        layers = p.layers ++ i.ref ∷ [];
      }

      reaches :
          (l : Str)
          → (elem l (i.ref ∷ layer_refs is) ≡ true) ⊎ HasProgress done p.progress l
          → (elem l (layer_refs is) ≡ true) ⊎ HasProgress done changed.progress l
      reaches l (inr k) = inr (put-HasProgress done p.progress i l (inr k))
      reaches l (inl k) = elim (Bool-cases (str_eq i.ref l)) [
        | inl same ↦ inr (put-HasProgress done p.progress i l (inl same))
        | inr other ↦ inl (ground arith)
      ]

      one :
          Updated done is changed (set_progress manual new_manual done is changed)
          → Updated done (i ∷ is) p (set_progress manual new_manual done is changed)
      one u = (
        u.0 ∙ append_assoc p.layers (i.ref ∷ []) (layer_refs is),
        u.1,
        λ l k. u.2 l (reaches l k),
      )

  -- What an update of a pull leaves: the layers that it lists are those of its statuses, and each has a progress,
  -- which is completed if the pull is done. It panics only on an image that is nil.
  abbrev pub PullOutcome : Result (Option Str) → Result (LayerPull M) → Type 0
  PullOutcome image (ok p) =
      (p.layers ≡ pull_layers p)
      × ((l : Str) → elem l (pull_layers p) ≡ true → HasProgress p.state.done p.progress l)
  PullOutcome image (err e) = (image ≡ ok none) × (e ≡ panics)

  -- After an update, each layer that `Layers` lists has a progress, which is completed if the pull is done, and the
  -- field of the layers lists the same ones. An update panics only on an image that is nil without an error.
  pub update_pull-PullOutcome :
      (o1 : Observed) (image : Result (Option Str)) (o2 : Observed) (p : LayerPull M)
      → PullOutcome image (update_pull manual new_manual o1 image o2 p)
  unfolding update_pull pull_layers
  update_pull-PullOutcome o1 image o2 p =
      go (update_api o1 image o2 p.state) (update_api-UpdateOutcome o1 image o2 p.state)
    where
      known : (s : ApiState) → UpdateOutcome o1 image o2 p.state (ok s) → NoneEmpty s.ordered
      known s (inl (same, why)) =
          subst (λ t. NoneEmpty t.ordered) (sym same) (fetch_current_state-NoneEmpty p.state o1)
      known s (inr (settled, found, same)) =
          subst (λ t. NoneEmpty t.ordered) (sym same)
            (fetch_current_state-NoneEmpty (fetched_first p.state o1) o2)

      go :
          (x : Result ApiState)
          → UpdateOutcome o1 image o2 p.state x
          → PullOutcome image (
              x >>= λ s. ok (
                set_progress manual new_manual s.done s.ordered
                  (record p { state = s; layers = [] })))
      go (err e) (nothing, panicked, settled) = (nothing, panicked)
      go (ok s) h =
          let u =
            set_progress-Updated s.done s.ordered (record p { state = s; layers = [] })
              (known s h) in
          (rw (u.1) u.0, rw (u.1) (λ l k. u.2 l (inl k)))
