-- ===== src/Image/Docker/Provided.antt =====
-- The images that `Provide` of pkg/image/docker/daemon_provider.go gives, and its pulls.
use stereoscope.Errors.{Result, ok, err, after, after-keeps, no_api_response}
use stereoscope.Image.Docker.Daemon.{
  ParsedName, parse_reference, Inspected, inspected, not_found, inspect_failed, DaemonApi,
  validate_platform, Saved, call, inspect_either, pull_image, pull_if_needed, pull_image_if_missing,
  save_validated, provide_saved,
}
use stereoscope.Image.Docker.Named.{IsNamed, ReturnsNamed, pull_image_if_missing-ReturnsNamed}
use stereoscope.Image.Docker.Saves.{SavedOf, save_validated-SavedAs}
use stereoscope.Image.Docker.Pulls.{AuthLibrary, Pull, completed_pull, pull}
use stereoscope.Image.Platform.{Platform}
use stereoscope.Image.PullStatus.{Manual}
use stereoscope.Prelude.{
  List, [], ◌∷◌, ◌++◌, Option, true, Str, str_eq, ◌≡◌, refl, ◌∙◌, ◌⊎◌, inl, inr, arith, if-keeps,
  if◌then◌else◌,
}

module _ {M A W R : Type 0} (manual : Manual M) (auth : AuthLibrary A) (api : DaemonApi W R)
    (name : Str) (platform : Option Platform) where
  abbrev State : Type 0
  State = W × List (Pull M)

  abbrev Keeps : State → State → Type 0
  Keeps s s' = s'.1 ≡ s.1

  -- There was one more pull, and it is complete, or none.
  abbrev pub OnePull : State → State → Type 0
  OnePull s s' = (s'.1 ≡ s.1) ⊎ ((p : Pull M) × (s'.1 ≡ s.1 ++ p ∷ []) × (p.complete ≡ true))

  pull_image-OnePull :
      (image_ref : Str) (s : State)
      → OnePull s (pull_image manual auth api name platform image_ref s).1
  unfolding pull_image pull completed_pull
  pull_image-OnePull image_ref s =
      after-keeps (OnePull s) (pull manual auth api.image_pull platform image_ref s) _
        (inr (_, refl, refl)) (λ u s' h. h)

  pull_if_needed-OnePull :
      (image_ref : Str) (x : Inspected) (s : State)
      → OnePull s (pull_if_needed manual auth api name platform image_ref x s).1
  unfolding pull_if_needed
  pull_if_needed-OnePull image_ref not_found s = pull_image-OnePull image_ref s
  pull_if_needed-OnePull image_ref (inspect_failed e) s = inl refl
  pull_if_needed-OnePull image_ref (inspected i) s = go (validate_platform platform i)
    where
      go :
          (x : Result (Unit {0}))
          → OnePull s
              (elim x as (λ y. Result Str × State) [
                | ok u ↦ (ok image_ref, s)
                | err e ↦ pull_image manual auth api name platform image_ref s
              ]).1
      go (ok u) = inl refl
      go (err e) = pull_image-OnePull image_ref s

  inspect_either-Keeps :
      (image_ref original : Str) (s : State)
      → Keeps s (inspect_either manual auth api name platform image_ref original s).1
  unfolding inspect_either
  inspect_either-Keeps image_ref original s = ground arith

  moved : (s s1 s2 : State) → Keeps s s1 → OnePull s1 s2 → OnePull s s2
  moved s s1 s2 same (inl h) = inl (h ∙ same)
  moved s s1 s2 same (inr (p, h, done)) = inr (p, rw same at h, done)

  pull_image_if_missing-OnePull :
      (parse_name : Str → Result ParsedName) (image_str : Str) (s : State)
      → OnePull s (pull_image_if_missing manual auth api name platform parse_name image_str s).1
  unfolding pull_image_if_missing
  pull_image_if_missing-OnePull parse_name image_str s = go (parse_reference parse_name image_str)
    where
      found : Str → Str → (Str × Inspected) × State
      found image_ref original = inspect_either manual auth api name platform image_ref original s

      go :
          (x : Result (Str × Str))
          → OnePull s
              (elim x as (λ y. Result Str × State) [
                | err e ↦ (err e, s)
                | ok (image_ref, original) ↦
                    pull_if_needed manual auth api name platform
                      (found image_ref original).0.0
                      (found image_ref original).0.1
                      (found image_ref original).1
              ]).1
      go (err e) = inl refl
      go (ok (image_ref, original)) =
          moved s (found image_ref original).1
            (pull_if_needed manual auth api name platform (found image_ref original).0.0
              (found image_ref original).0.1 (found image_ref original).1).1
            (inspect_either-Keeps image_ref original s)
            (pull_if_needed-OnePull (found image_ref original).0.0 (found image_ref original).0.1
              (found image_ref original).1)

  -- The state once the daemon has answered.
  abbrev pub answered_from : State → State
  answered_from s = ((api.ping (api.new_client s.0).1).1, s.1)

  -- What is handed on: the image of the reference that `pullImageIfMissing` returns.
  abbrev pub HandedOn : (Str → Result ParsedName) → Str → State → Result Saved × State → Type 0
  HandedOn parse_name image_str s (ok saved, s') =
      (image_ref : Str) × (s1 : State) × (pull_image_if_missing manual auth api name platform
          parse_name image_str (answered_from s)
        ≡ (ok image_ref, s1))
      × IsNamed manual auth api name platform parse_name image_str image_ref
      × SavedOf manual auth api name platform image_ref s1 (ok saved, s')
  HandedOn parse_name image_str s (err e, s') = Unit

  -- What `Provide` has done, with success or not.
  abbrev pub ProvideOutcome :
      (Str → Result ParsedName) → Str → State → Result Saved × State → Type 0
  ProvideOutcome parse_name image_str s x = HandedOn parse_name image_str s x × OnePull s x.1

  -- Whether it succeeds or not, `Provide` of the daemon pulls an image at most once, and the status of a pull is
  -- complete when it returns. What it hands to the provider for archives is of the one reference that
  -- `pullImageIfMissing` returns, which is the name that the user's text is parsed to, or this name less the suffix
  -- of the latest tag: what the daemon then says of this reference, with the system and the architecture of
  -- the platform that the user asks for, if there is one, and a file that was created, and then filled with what the
  -- daemon saves of this reference, which is not empty.
  pub provide_saved-ProvideOutcome :
      (parse_name : Str → Result ParsedName) (image_str : Str) (s : State)
      → ProvideOutcome parse_name image_str s
          (provide_saved manual auth api name platform parse_name image_str s)
  unfolding provide_saved
  provide_saved-ProvideOutcome parse_name image_str s = client (api.new_client s.0).0
    where
      handed :
          (image_ref : Str) (s3 : State) (x : Result Saved × State)
          → pull_image_if_missing manual auth api name platform parse_name image_str
              (answered_from s)
            ≡ (ok image_ref, s3)
          → IsNamed manual auth api name platform parse_name image_str image_ref
          → SavedOf manual auth api name platform image_ref s3 x
          → HandedOn parse_name image_str s x
      handed image_ref s3 (ok saved, s') e named h = (image_ref, s3, e, named, h)
      handed image_ref s3 (err f, s') e named h = tt

      pulled :
          (x : Result Str × State)
          → pull_image_if_missing manual auth api name platform parse_name image_str
              (answered_from s)
            ≡ x
          → ReturnsNamed manual auth api name platform parse_name image_str x
          → OnePull s x.1
          → ProvideOutcome parse_name image_str s
              (after x (save_validated manual auth api name platform))
      pulled (ok image_ref, s3) e named h =
          let (known, same) = save_validated-SavedAs manual auth api name platform image_ref s3 in
          (
            handed image_ref s3 _ e named known,
            elim h [ inl e' ↦ inl (same ∙ e') | inr (p, e', done) ↦ inr (p, same ∙ e', done) ],
          )
      pulled (err f, s3) e named h = (tt, h)

      version :
          (x : Result Str)
          → ProvideOutcome parse_name image_str s (
              after
                (x, answered_from s)
                (λ v s2.
                  if str_eq v []
                  then (err no_api_response, s2)
                  else after
                      (pull_image_if_missing manual auth api name platform parse_name image_str s2)
                      (save_validated manual auth api name platform)))
      version (err e) = (tt, inl refl)
      version (ok v) =
          if-keeps (ProvideOutcome parse_name image_str s) (str_eq v []) _ _ (λ e. (tt, inl refl))
            (λ e.
              pulled _ refl
                (pull_image_if_missing-ReturnsNamed manual auth api name platform parse_name
                  image_str (answered_from s))
                (pull_image_if_missing-OnePull parse_name image_str (answered_from s)))

      client :
          (x : Result (Unit {0}))
          → ProvideOutcome parse_name image_str s (
              after
                (x, ((api.new_client s.0).1, s.1))
                (λ u s1. after (call manual auth api name platform api.ping s1) (λ v s2.
                  if str_eq v []
                  then (err no_api_response, s2)
                  else after
                      (pull_image_if_missing manual auth api name platform parse_name image_str s2)
                      (save_validated manual auth api name platform))))
      client (err e) = (tt, inl refl)
      client (ok u) = version (api.ping (api.new_client s.0).1).0
