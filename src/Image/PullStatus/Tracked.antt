-- ===== src/Image/PullStatus/Tracked.antt =====
-- The layers of a pull and their progress, for pkg/image/docker/pull_status.go.
use stereoscope.Errors.{Result, ok, err, ◌>>=◌}
use stereoscope.Go.Maps.{GoMap, get, put, get-put, has, elem, elem-append}
use stereoscope.Image.PullStatus.{
  PullEvent, Manual, PullStatus, PullPhase, phase_number, phase_lookup, new_pull_status, layers_of,
  change, track, phase_change, download_change, capture, on_event, on_events,
}
use stereoscope.Prelude.{
  List, [], ◌∷◌, none, some, true, ◌||◌, Str, str_eq, str_eq_iff, byte_string_eq, if-keeps,
  Option-keeps, ◌≡◌, refl, sym, ◌∙◌, arith, ◌==◌, leb,
}

module _ {M : Type 0} (manual : Manual M) where
  -- A layer is listed exactly if it has a progress of its phase and of its download.
  abbrev pub IsTracked : PullStatus M → Type 0
  IsTracked p =
      (l : Str)
      → (has l p.phase_progress ≡ elem l (layers_of p))
        × (has l p.download_progress ≡ elem l (layers_of p))

  abbrev Tracks : Result (PullStatus M) → Type 0
  Tracks (ok p) = IsTracked p
  Tracks (err e) = ⊥

  -- A change of a value that is there keeps the keys.
  abbrev SameKeys : GoMap Str M → Result (GoMap Str M) → Type 0
  SameKeys m (ok m') = (l : Str) → has l m' ≡ has l m
  SameKeys m (err e) = ⊥

  has-put : (k l : Str) (v : M) (m : GoMap Str M) → has l (put k v m) ≡ (str_eq k l || has l m)
  has-put k l v m = ground (arith, get-put k l v m)

  change-SameKeys :
      (layer : Str) (f : M → M) (m : GoMap Str M)
      → has layer m ≡ true
      → SameKeys m (change layer f m)
  unfolding change
  change-SameKeys layer f m h =
      Option-keeps (SameKeys m) (get layer m) _ _ (λ nothing. cc (rw (nothing, has) at h))
        (λ v something l. has-put layer l (f v) m ∙ (ground (arith, something, str_eq_iff layer l)))

  download_change-SameKeys :
      (layer : Str) (phase : PullPhase) (e : PullEvent) (m : GoMap Str M)
      → has layer m ≡ true
      → SameKeys m (download_change manual layer phase e m)
  unfolding download_change
  download_change-SameKeys layer phase e m h =
      if-keeps (SameKeys m) (phase_number phase == 3) _ _ (λ x. change-SameKeys layer _ m h)
        (λ x.
          if-keeps (SameKeys m) (leb 4 (phase_number phase)) _ _ (λ y. change-SameKeys layer _ m h)
            (λ y l. refl))

  capture-Tracks :
      (layer : Str) (e : PullEvent) (p : PullStatus M)
      → IsTracked p
      → elem layer (layers_of p) ≡ true
      → Tracks (capture manual layer e p)
  unfolding capture layers_of
  capture-Tracks layer e p t listed =
      go (change layer (phase_change manual (phase_lookup e.status) e) p.phase_progress)
        (download_change manual layer (phase_lookup e.status) e p.download_progress)
        (change-SameKeys layer _ p.phase_progress ((t layer).0 ∙ listed))
        (download_change-SameKeys layer (phase_lookup e.status) e p.download_progress
          ((t layer).1 ∙ listed))
    where
      go :
          (x y : Result (GoMap Str M))
          → SameKeys p.phase_progress x
          → SameKeys p.download_progress y
          → Tracks (
              x >>= λ phases. y >>= λ downloads. ok (record p {
                phase_progress = phases;
                download_progress = downloads;
                phase = put layer (phase_lookup e.status) p.phase;
              }))
      go (ok m) (ok n) hm hn = λ l. (hm l ∙ (t l).0, hn l ∙ (t l).1)
      go (err f) y hm hn = hm
      go (ok m) (err f) hm hn = hn

  track-IsTracked :
      (layer : Str) (ls : List Str) (p : PullStatus M)
      → p.layers ≡ some ls
      → IsTracked p
      → IsTracked (track manual layer ls p)
  unfolding track layers_of
  track-IsTracked layer ls p e t l = ground (
    arith,
    t l,
    elem-append l layer ls,
    has-put layer l manual.new p.phase_progress,
    has-put layer l manual.new p.download_progress,
  )

  listed_new :
      (layer : Str) (ls : List Str) (p : PullStatus M)
      → elem layer (layers_of (track manual layer ls p)) ≡ true
  unfolding track layers_of
  listed_new layer ls p = ground (arith, elem-append layer layer ls, str_eq_iff layer layer)

  none_listed :
      (p : PullStatus M) → p.layers ≡ none → IsTracked p → IsTracked (record p { layers = some [] })
  unfolding layers_of elem
  none_listed p e t l = ground (arith, t l, e)

  on_event-Tracks : (e : PullEvent) (p : PullStatus M) → IsTracked p → Tracks (on_event manual e p)
  unfolding on_event
  on_event-Tracks e p t =
      if-keeps Tracks (str_eq e.id []) _ _ (λ x. t)
        (λ x.
          if-keeps Tracks (has e.id p.phase_progress) _ _
            (λ y. capture-Tracks e.id e p t (sym (t e.id).0 ∙ y))
            (λ y.
              Option-keeps Tracks p.layers _ _ (λ none_yet. none_listed p none_yet t)
                (λ ls some_yet.
                  capture-Tracks e.id e (track manual e.id ls p)
                    (track-IsTracked e.id ls p some_yet t) (listed_new e.id ls p))))

  on_events-Tracks :
      (es : List PullEvent) (p : PullStatus M) → IsTracked p → Tracks (on_events manual es p)
  unfolding on_events
  on_events-Tracks [] p t = t
  on_events-Tracks (e ∷ es) p t =
      go (on_event manual e p) (on_event-Tracks e p t) (on_events-Tracks es)
    where
      go :
          (x : Result (PullStatus M))
          → Tracks x
          → ((p' : PullStatus M) → IsTracked p' → Tracks (on_events manual es p'))
          → Tracks (x >>= on_events manual es)
      go (ok p') h next = next p' h
      go (err f) h next = h

  started : IsTracked new_pull_status
  unfolding layers_of get elem
  started l = (refl, refl)

  -- No sequence of events panics, and after any of them a layer is listed exactly if it has a progress of its
  -- phase, and exactly if it has one of its download.
  pub on_events-tracked :
      (es : List PullEvent)
      → (p : PullStatus M) × (on_events manual es new_pull_status ≡ ok p)
        × ((l : Str)
            → (has l p.phase_progress ≡ elem l (layers_of p))
              × (has l p.download_progress ≡ elem l (layers_of p)))
  on_events-tracked es =
      go (on_events manual es new_pull_status) (on_events-Tracks es new_pull_status started)
    where
      go : (x : Result (PullStatus M)) → Tracks x → (p : PullStatus M) × (x ≡ ok p) × IsTracked p
      go (ok p) h = (p, refl, h)
      go (err f) h = absurd h
