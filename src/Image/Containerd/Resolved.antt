-- ===== src/Image/Containerd/Resolved.antt =====
-- The images that pkg/image/containerd/daemon_provider.go resolves, and its pulls.
use mathlib.Core.Path.{subst}
use stereoscope.Errors.{Failure, Result, ok, err, after, ◌>>=◌}
use stereoscope.Image.Containerd.Jobs.{Jobs, new_jobs}
use stereoscope.Image.Containerd.Provider.{
  check_registry_host_missing, validate_platform, pull_request, pull, resolve_image, validated,
  resolve_or_pull, pull_image_if_missing,
}
use stereoscope.Image.Containerd.Api.{
  PullRequest, ContainerdApi, ContainerdLibrary, handle_all, Resolved,
}
use stereoscope.Image.Containerd.Referred.{Same, SameWorld, resolve_image-Same}
use stereoscope.Image.Platform.{Platform}
use stereoscope.Image.Registry.{AuthKinds}
use stereoscope.Image.Registry.Tls.{RegistryOptions, TlsLibrary}
use stereoscope.Prelude.{
  List, [], ◌∷◌, ◌++◌, Option, none, some, not, Str, str_eq, str_eq_iff, ◌≡◌, refl, sym, ◌⊎◌, inl,
  inr, arith, Option-keeps, if-keeps, if◌then◌else◌,
}

-- The platform that was found is the one that the user asks for, if there is one.
abbrev pub Matches : Option Platform → Option Platform → Type 0
Matches none found = Unit
Matches (some p) found =
    (q : Platform) × (found ≡ some q)
    × (q.os ≡ p.os)
    × (q.architecture ≡ p.architecture)
    × (q.variant ≡ p.variant)

abbrev Validated : Option Platform → Option Platform → Result (Unit {0}) → Type 0
Validated wanted found (ok u) = Matches wanted found
Validated wanted found (err e) = Unit

validate_platform-Validated :
    (wanted found : Option Platform) → Validated wanted found (validate_platform wanted found)
unfolding validate_platform
validate_platform-Validated none found = tt
validate_platform-Validated (some p) none = tt
validate_platform-Validated (some p) (some q) =
    if-keeps (Validated (some p) (some q)) (not (str_eq q.os p.os)) _ _ (λ e. tt)
      (λ e1.
        if-keeps (Validated (some p) (some q)) (not (str_eq q.architecture p.architecture)) _ _
          (λ e. tt)
          (λ e2.
            if-keeps (Validated (some p) (some q)) (not (str_eq q.variant p.variant)) _ _ (λ e. tt)
              (λ e3. (
                q,
                refl,
                ground (arith, str_eq_iff q.os p.os),
                ground (arith, str_eq_iff q.architecture p.architecture),
                ground (arith, str_eq_iff q.variant p.variant),
              ))))

module _ {W C P Auth Keychain Pool : Type 0} (api : ContainerdApi W C P)
    (library : ContainerdLibrary P Auth) (kinds : AuthKinds Auth) (tls : TlsLibrary C Pool)
    (registry : RegistryOptions Auth Keychain) (platform : Option Platform) where
  abbrev State : Type 0
  State = W × List Jobs

  -- What was resolved is the reference, for the platform.
  abbrev pub ResolvedAs : Str → Result (Str × Option Platform) → Type 0
  ResolvedAs image (ok r) = (r.0 ≡ image) × Matches platform r.1
  ResolvedAs image (err e) = Unit

  validated-ResolvedAs :
      (image : Str) (r : Resolved)
      → r.image ≡ image
      → ResolvedAs image (validated api library kinds tls registry platform r)
  unfolding validated
  validated-ResolvedAs image r same =
      go (validate_platform platform r.platform) (validate_platform-Validated platform r.platform)
    where
      go :
          (x : Result (Unit {0}))
          → Validated platform r.platform x
          → ResolvedAs image (x >>= λ u. ok (r.image, r.platform))
      go (ok u) h = (same, h)
      go (err e) h = tt

  -- There was one more pull, or none.
  abbrev pub OnePull : State → State → Type 0
  OnePull s s' = (s'.1 ≡ s.1) ⊎ ((j : Jobs) × (s'.1 ≡ s.1 ++ j ∷ []))

  -- What `pullImageIfMissing` has done, with success or not.
  abbrev pub PullOutcome : Str → State → Result (Str × Option Platform) × State → Type 0
  PullOutcome image s x = ResolvedAs image x.0 × OnePull s x.1

  pull-OnePull :
      (image_str image : Str) (s : State)
      → OnePull s (pull api library kinds tls registry platform image_str image s).1
  unfolding pull
  pull-OnePull image_str image s = go (
      library.registry_of registry.insecure_use_http image_str
      >>= pull_request api library kinds tls registry platform)
    where
      go :
          (x : Result (PullRequest C))
          → OnePull s
              (elim x as (λ y. Result (Unit {0}) × State) [
                | err e ↦ (err e, (s.0, s.1 ++ new_jobs image ∷ []))
                | ok request ↦ (
                  (api.pull image request s.0).0.0,
                  (
                    (api.pull image request s.0).1,
                    s.1 ++ handle_all (api.pull image request s.0).0.1 (new_jobs image) ∷ [],
                  ),
                )
              ]).1
      go (err e) = inr (new_jobs image, refl)
      go (ok request) = inr (handle_all (api.pull image request s.0).0.1 (new_jobs image), refl)

  -- The reference that is pulled.
  abbrev pulled : Str → Resolved → Str
  pulled image r = if str_eq r.image [] then image else r.image

  pulled-Same : (image : Str) (r : Resolved) → Same image r → pulled image r ≡ image
  pulled-Same image r h =
      if-keeps (λ i. i ≡ image) (str_eq r.image []) _ _ (λ e. refl)
        (λ e. elim h [
          | inl same ↦ same
          | inr (nothing, f) ↦ cc (rw ((str_eq_iff r.image []).1 nothing) at e)
        ])

  -- What is returned after a pull.
  abbrev second_try : Str → State → Result (Str × Option Platform) × State
  second_try image s1 =
      let (second, w2) = resolve_image api library kinds tls registry platform image s1.0 in
      elim second.error [
        | some e2 ↦ (err e2, (w2, s1.1))
        | none ↦ (validated api library kinds tls registry platform second, (w2, s1.1))
      ]

  without_error : (image : Str) (r : Resolved) → r.error ≡ none → Same image r → r.image ≡ image
  without_error image r e (inl same) = same
  without_error image r e (inr (nothing, f)) = absurd (f e)

  second_try-PullOutcome :
      (image : Str) (s s1 : State) → OnePull s s1 → PullOutcome image s (second_try image s1)
  second_try-PullOutcome image s s1 one =
      let r = (resolve_image api library kinds tls registry platform image s1.0).0 in
      Option-keeps (PullOutcome image s) r.error _ _
        (λ e. (
          validated-ResolvedAs image r (
              without_error image r e
                (resolve_image-Same api library kinds tls registry platform image s1.0)),
          one,
        ))
        (λ f e. (tt, one))

  after_pull :
      (image : Str) (s : State) (x : Result (Unit {0}) × State)
      → OnePull s x.1
      → PullOutcome image s (after x (λ u s1. second_try image s1))
  after_pull image s (err e, s1) one = (tt, one)
  after_pull image s (ok u, s1) one = second_try-PullOutcome image s s1 one

  resolve_or_pull-PullOutcome :
      (image : Str) (s : State)
      → PullOutcome image s (resolve_or_pull api library kinds tls registry platform image s)
  unfolding resolve_or_pull
  resolve_or_pull-PullOutcome image s =
      go (resolve_image api library kinds tls registry platform image s.0)
        (resolve_image-Same api library kinds tls registry platform image s.0)
    where
      tried : Resolved → W → Str → Failure → Result (Str × Option Platform) × State
      tried r w i e =
          after (pull api library kinds tls registry platform image i (w, s.1))
            (λ u s1. second_try i s1)

      go :
          (x : Resolved × W)
          → SameWorld W image x
          → PullOutcome image s (elim x.0.error [
            | none ↦ (validated api library kinds tls registry platform x.0, (x.1, s.1))
            | some e ↦ tried x.0 x.1 (pulled image x.0) e
          ])
      go x h =
          Option-keeps (PullOutcome image s) x.0.error _ _
            (λ e. (validated-ResolvedAs image x.0 (without_error image x.0 e h), inl refl))
            (λ f e.
              subst (λ i. PullOutcome image s (tried x.0 x.1 i f)) (sym (pulled-Same image x.0 h))
                (after_pull image s _ (pull-OnePull image image (x.1, s.1))))

  -- Whether it succeeds or not, `pullImageIfMissing` pulls at most once. What it returns is the reference with its
  -- host, and where the user asks for a platform, a platform with the same system, architecture and variant.
  pub pull_image_if_missing-PullOutcome :
      (image_str : Str) (s : State)
      → PullOutcome
          (check_registry_host_missing image_str)
          s
          (pull_image_if_missing api library kinds tls registry platform image_str s)
  unfolding pull_image_if_missing
  pull_image_if_missing-PullOutcome image_str s =
      resolve_or_pull-PullOutcome (check_registry_host_missing image_str) s
