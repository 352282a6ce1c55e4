-- ===== src/Image/Docker/Shown.antt =====
-- The events that `pull` of pkg/image/docker/daemon_provider.go shows.
use stereoscope.Errors.{Failure, Result, ok, err, bind-eq-ok, panics}
use stereoscope.Image.Docker.Pulls.{Decoded, is_closing, ended, show_events}
use stereoscope.Image.PullStatus.{
  PullEvent, Manual, PullStatus, new_pull_status, on_event, on_events,
}
use stereoscope.Image.PullStatus.Tracked.{IsTracked, on_events-tracked}
use stereoscope.Prelude.{
  List, [], ◌∷◌, Option, none, some, Bool, true, false, byte_string_eq, ◌≡◌, if◌then◌else◌,
  Bool-cases, inl, inr, ◌⊎◌,
}

-- The events of a stream, each decoded into the one before it, up to the first that is nil; and whether one is.
abbrev pub decoded : List Decoded → Option PullEvent → List PullEvent × Bool
decoded [] event = ([], false)
decoded (decode ∷ values) event = elim (decode event) [
  | none ↦ ([], true)
  | some e ↦ let (es, stopped) = decoded values (some e) in (e ∷ es, stopped)
]

-- The events but the last two kinds.
abbrev pub progressing : List PullEvent → List PullEvent
progressing [] = []
progressing (e ∷ es) = let rest = progressing es in if is_closing e then rest else e ∷ rest

module _ {M : Type 0} (manual : Manual M) where
  abbrev Left : Type 0
  Left = Result (Unit {0}) × PullStatus M

  -- The result of the loop, if the events that it showed were all taken in.
  abbrev Shows : List Decoded → Option Failure → Option PullEvent → PullStatus M → Type 0
  Shows values end event p =
      (p' : PullStatus M)
      → on_events manual (progressing (decoded values event).0) p ≡ ok p'
      → show_events manual values end event p
        ≡ ((if (decoded values event).1 then err panics else ended end), p')

  show_events-Shows :
      (values : List Decoded) (end : Option Failure) (event : Option PullEvent) (p : PullStatus M)
      → Shows values end event p
  unfolding show_events on_events
  show_events-Shows [] end event p p' h = same h
    where
      same : ok p ≡ ok p' → ◌≡◌ {A = Left} (ended end, p) (ended end, p')
      same e = cc
  show_events-Shows (decode ∷ values) end event p p' h =
      go (λ e. show_events-Shows values end (some e)) (decode event) h
    where
      found : Option PullEvent → List PullEvent × Bool
      found x = elim x [
        | none ↦ ([], true)
        | some e ↦ (e ∷ (decoded values (some e)).0, (decoded values (some e)).1)
      ]

      run : Option PullEvent → Left
      run x = elim x [
        | none ↦ (err panics, p)
        | some e ↦
            if is_closing e
            then show_events manual values end (some e) p
            else (elim (on_event manual e p) [
              | err f ↦ (err f, p)
              | ok q ↦ show_events manual values end (some e) q
            ])
      ]

      shown :
          (e : PullEvent)
          → (is_closing e ≡ true) ⊎ (is_closing e ≡ false)
          → ((q : PullStatus M) → Shows values end (some e) q)
          → on_events manual (progressing (e ∷ (decoded values (some e)).0)) p ≡ ok p'
          → (if is_closing e
              then show_events manual values end (some e) p
              else (elim (on_event manual e p) [
                | err f ↦ (err f, p)
                | ok q ↦ show_events manual values end (some e) q
              ]))
            ≡ ((if (decoded values (some e)).1 then err panics else ended end), p')
      shown e (inl last) rest k = rw last (rest p p' (rw last at k))
      shown e (inr other) rest k =
          let (q, taken, more) =
            bind-eq-ok (on_event manual e p)
              (on_events manual (progressing (decoded values (some e)).0)) (rw other at k) in
          rw (other, taken) (rest q p' more)

      go :
          ((e : PullEvent) (q : PullStatus M) → Shows values end (some e) q)
          → (x : Option PullEvent) → on_events manual (progressing (found x).0) p ≡ ok p'
          → run x ≡ ((if (found x).1 then err panics else ended end), p')
      go rest none k = stopped k
        where
          stopped : ok p ≡ ok p' → ◌≡◌ {A = Left} (err panics, p) (err panics, p')
          stopped e = cc
      go rest (some e) k = shown e (Bool-cases (is_closing e)) (rest e) k

  -- The loop over the events panics exactly if a value of the stream is null, and else ends as the stream does,
  -- with its error or with none. What it leaves is the status after the events that it decoded, in order, but those
  -- of the last two kinds; and a layer is listed in it exactly if it has a progress of its phase and of its download.
  pub show_events-tracked :
      (values : List Decoded) (end : Option Failure)
      → (p : PullStatus M) × (on_events manual (progressing (decoded values none).0) new_pull_status
          ≡ ok p)
        × (show_events manual values end none new_pull_status
            ≡ ((if (decoded values none).1 then err panics else ended end), p))
        × IsTracked manual p
  show_events-tracked values end =
      let (p, taken, tracked) = on_events-tracked manual (progressing (decoded values none).0) in
      (p, taken, show_events-Shows values end none new_pull_status p taken, tracked)
