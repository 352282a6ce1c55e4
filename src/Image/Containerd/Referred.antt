-- ===== src/Image/Containerd/Referred.antt =====
-- The reference that `resolveImage` of pkg/image/containerd/daemon_provider.go returns.
use stereoscope.Errors.{Result, ok, err, after, no_platform, unknown_media_type}
use stereoscope.Image.Containerd.Jobs.{Descriptor}
use stereoscope.Image.Containerd.Provider.{
  fetch_manifest, fetch_platform_from_config, index_and_platform, matching_manifest,
  process_manifest, resolve_index, resolve_image,
}
use stereoscope.Image.Containerd.Api.{
  ContainerdApi, ContainerdLibrary, is_manifest, is_index, Resolved, unresolved, ManifestDescriptor,
}
use stereoscope.Image.Platform.{Platform}
use stereoscope.Image.Registry.{AuthKinds}
use stereoscope.Image.Registry.Tls.{RegistryOptions, TlsLibrary}
use stereoscope.Prelude.{
  List, [], Option, none, some, Str, ◌≡◌, ◌≢◌, refl, ◌⊎◌, inl, inr, if-keeps, if◌then◌else◌,
}

-- A resolution is of its reference, or of none beside an error.
abbrev pub Same : Str → Resolved → Type 0
Same image r = (r.image ≡ image) ⊎ ((r.image ≡ []) × (r.error ≢ none))

-- The same of what was resolved, beside a world.
abbrev pub SameWorld : (W : Type 0) → Str → Resolved × W → Type 0
SameWorld W image x = Same image x.0

module _ {W C P Auth Keychain Pool : Type 0} (api : ContainerdApi W C P)
    (library : ContainerdLibrary P Auth) (kinds : AuthKinds Auth) (tls : TlsLibrary C Pool)
    (registry : RegistryOptions Auth Keychain) (platform : Option Platform) where
  process_manifest-Same :
      (image : Str) (d : Descriptor) (w : W)
      → SameWorld W image (process_manifest api library kinds tls registry platform image d w)
  unfolding process_manifest
  process_manifest-Same image d w = go (
      after (fetch_manifest api library kinds tls registry platform d w)
        (fetch_platform_from_config api library kinds tls registry platform))
    where
      go :
          (x : Result Platform × W)
          → SameWorld W image (elim x.0 [
            | err e ↦ (unresolved [] e, x.1)
            | ok p ↦ (record { image = image; platform = some p; error = none }, x.1)
          ])
      go (ok p, w') = inl refl
      go (err e, w') = inr (refl, λ h. cc)

  resolve_index-Same :
      (image : Str) (d : Descriptor) (w : W)
      → SameWorld W image (resolve_index api library kinds tls registry platform image d w)
  unfolding resolve_index
  resolve_index-Same image d w = go (
      after (api.read_blob d w)
        (λ bytes w1. (index_and_platform api library kinds tls registry platform bytes, w1)))
    where
      found :
          (w' : W) (x : Option Descriptor)
          → SameWorld W image (elim x [
            | none ↦ (unresolved image no_platform, w')
            | some m ↦ process_manifest api library kinds tls registry platform image m w'
          ])
      found w' none = inl refl
      found w' (some m) = process_manifest-Same image m w'

      go :
          (x : Result (List ManifestDescriptor × P) × W)
          → SameWorld W image (elim x.0 [
            | err e ↦ (unresolved [] e, x.1)
            | ok (ms, p) ↦ elim (matching_manifest api library kinds tls registry platform p ms) [
              | none ↦ (unresolved image no_platform, x.1)
              | some m ↦ process_manifest api library kinds tls registry platform image m x.1
            ]
          ])
      go (err e, w') = inr (refl, λ h. cc)
      go (ok (ms, p), w') =
          found w' (matching_manifest api library kinds tls registry platform p ms)

  pub resolve_image-Same :
      (image : Str) (w : W)
      → SameWorld W image (resolve_image api library kinds tls registry platform image w)
  unfolding resolve_image
  resolve_image-Same image w = go (api.get_image image w)
    where
      chosen : Descriptor → W → Option Platform → Resolved × W
      chosen d w' x = elim x [
        | none ↦ (record { image = image; platform = none; error = none }, w')
        | some p ↦
            if is_manifest d.media_type
            then process_manifest api library kinds tls registry platform image d w'
            else if is_index d.media_type
            then resolve_index api library kinds tls registry platform image d w'
            else (unresolved [] (unknown_media_type d.media_type), w')
      ]

      for_platform :
          (d : Descriptor) (w' : W) (x : Option Platform) → SameWorld W image (chosen d w' x)
      for_platform d w' none = inl refl
      for_platform d w' (some p) =
          if-keeps (SameWorld W image) (is_manifest d.media_type) _ _
            (λ e. process_manifest-Same image d w')
            (λ e.
              if-keeps (SameWorld W image) (is_index d.media_type) _ _
                (λ e'. resolve_index-Same image d w') (λ e'. inr (refl, λ h. cc)))

      go :
          (x : Result Descriptor × W)
          → SameWorld W image
              (elim x.0 [ err e ↦ (unresolved image e, x.1) | ok d ↦ chosen d x.1 platform ])
      go (err e, w') = inl refl
      go (ok d, w') = for_platform d w' platform
