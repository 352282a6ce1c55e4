-- ===== src/Image/Docker/Named.antt =====
-- The reference that `pullImageIfMissing` of pkg/image/docker/daemon_provider.go returns.
use stereoscope.Errors.{Result, ok, err, after}
use stereoscope.Image.Docker.Daemon.{
  ParsedName, parse_reference, trim_suffix, Inspected, inspected, not_found, inspect_failed,
  DaemonApi, validate_platform, inspect_either, pull_image, pull_if_needed, pull_image_if_missing,
}
use stereoscope.Image.Docker.Pulls.{AuthLibrary, Pull, pull}
use stereoscope.Image.Platform.{Platform}
use stereoscope.Image.PullStatus.{Manual}
use stereoscope.Prelude.{List, Option, Str, codes, ◌≡◌, refl, ◌∙◌, ◌⊎◌, inl, inr}

module _ {M A W R : Type 0} (manual : Manual M) (auth : AuthLibrary A) (api : DaemonApi W R)
    (name : Str) (platform : Option Platform) where
  abbrev State : Type 0
  State = W × List (Pull M)

  -- The reference is the name that the user's text is parsed to, or this name without the suffix of the latest tag.
  abbrev pub IsNamed : (Str → Result ParsedName) → Str → Str → Type 0
  IsNamed parse_name image_str image_ref =
      (parsed original : Str) × (parse_reference parse_name image_str ≡ ok (parsed, original))
      × ((image_ref ≡ parsed) ⊎ (image_ref ≡ trim_suffix parsed (codes ":latest")))

  -- If there is a result, it is the reference.
  abbrev Returns : Str → Result Str × State → Type 0
  Returns image_ref (ok r, s) = r ≡ image_ref
  Returns image_ref (err e, s) = Unit

  pull_image-Returns :
      (image_ref : Str) (s : State)
      → Returns image_ref (pull_image manual auth api name platform image_ref s)
  unfolding pull_image
  pull_image-Returns image_ref s = go (pull manual auth api.image_pull platform image_ref s)
    where
      go :
          (x : Result (Unit {0}) × State) → Returns image_ref (after x (λ u s'. (ok image_ref, s')))
      go (ok u, s') = refl
      go (err e, s') = tt

  pull_if_needed-Returns :
      (image_ref : Str) (x : Inspected) (s : State)
      → Returns image_ref (pull_if_needed manual auth api name platform image_ref x s)
  unfolding pull_if_needed
  pull_if_needed-Returns image_ref not_found s = pull_image-Returns image_ref s
  pull_if_needed-Returns image_ref (inspect_failed e) s = tt
  pull_if_needed-Returns image_ref (inspected i) s = go (validate_platform platform i)
    where
      go :
          (x : Result (Unit {0}))
          → Returns image_ref (elim x as (λ y. Result Str × State) [
            | ok u ↦ (ok image_ref, s)
            | err e ↦ pull_image manual auth api name platform image_ref s
          ])
      go (ok u) = refl
      go (err e) = pull_image-Returns image_ref s

  -- The reference that is pulled.
  abbrev IsEither : Str → (Str × Inspected) × State → Type 0
  IsEither parsed x = (x.0.0 ≡ parsed) ⊎ (x.0.0 ≡ trim_suffix parsed (codes ":latest"))

  inspect_either-IsEither :
      (parsed original : Str) (s : State)
      → IsEither parsed (inspect_either manual auth api name platform parsed original s)
  unfolding inspect_either
  inspect_either-IsEither parsed original s =
      go (api.inspect parsed s.0).0 (api.inspect original (api.inspect parsed s.0).1).0
    where
      w1 : W
      w1 = (api.inspect parsed s.0).1

      again : Inspected → (Str × Inspected) × State
      again x = elim x [
        | inspected i ↦ (
          (trim_suffix parsed (codes ":latest"), inspected i),
          ((api.inspect original w1).1, s.1),
        )
        | not_found ↦ ((parsed, not_found), ((api.inspect original w1).1, s.1))
        | inspect_failed e ↦ ((parsed, inspect_failed e), ((api.inspect original w1).1, s.1))
      ]

      again-IsEither : (x : Inspected) → IsEither parsed (again x)
      again-IsEither (inspected i) = inr refl
      again-IsEither not_found = inl refl
      again-IsEither (inspect_failed e) = inl refl

      go :
          (first second : Inspected)
          → IsEither parsed (elim first as (λ y. (Str × Inspected) × State) [
            | inspected i ↦ ((parsed, inspected i), (w1, s.1))
            | not_found ↦ again second
            | inspect_failed e ↦ again second
          ])
      go (inspected i) second = inl refl
      go not_found second = again-IsEither second
      go (inspect_failed e) second = again-IsEither second

  -- If there is a result, it is named by the text of the user.
  abbrev pub ReturnsNamed : (Str → Result ParsedName) → Str → Result Str × State → Type 0
  ReturnsNamed parse_name image_str (ok r, s) = IsNamed parse_name image_str r
  ReturnsNamed parse_name image_str (err e, s) = Unit

  pub pull_image_if_missing-ReturnsNamed :
      (parse_name : Str → Result ParsedName) (image_str : Str) (s : State)
      → ReturnsNamed parse_name image_str
          (pull_image_if_missing manual auth api name platform parse_name image_str s)
  unfolding pull_image_if_missing
  pull_image_if_missing-ReturnsNamed parse_name image_str s =
      go (parse_reference parse_name image_str) refl
    where
      found : Str → Str → (Str × Inspected) × State
      found parsed original = inspect_either manual auth api name platform parsed original s

      named :
          (parsed original : Str) (x : Result Str × State)
          → parse_reference parse_name image_str ≡ ok (parsed, original)
          → Returns (found parsed original).0.0 x
          → ReturnsNamed parse_name image_str x
      named parsed original (ok r, s') e same = (
        parsed,
        original,
        e,
        elim (inspect_either-IsEither parsed original s) [
          | inl h ↦ inl (same ∙ h)
          | inr h ↦ inr (same ∙ h)
        ],
      )
      named parsed original (err f, s') e same = tt

      go :
          (x : Result (Str × Str))
          → parse_reference parse_name image_str ≡ x
          → ReturnsNamed parse_name image_str (elim x as (λ y. Result Str × State) [
            | err e ↦ (err e, s)
            | ok (parsed, original) ↦
                pull_if_needed manual auth api name platform
                  (found parsed original).0.0
                  (found parsed original).0.1
                  (found parsed original).1
          ])
      go (err e) h = tt
      go (ok (parsed, original)) h = named parsed original _ h (
          pull_if_needed-Returns (found parsed original).0.0 (found parsed original).0.1
            (found parsed original).1)
