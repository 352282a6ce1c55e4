-- ===== src/Image/Containerd/Provider.antt =====
-- pkg/image/containerd/daemon_provider.go. The bus, the deferred calls and the progress of an export are left out.
use stereoscope.Errors.{
  Result, ok, err, Act, after, ◌>>=◌, unknown_media_type, wrong_platform, no_platform,
}
use stereoscope.Go.Strings.{slash, split, contains}
use stereoscope.Image.Containerd.Api.{
  PullRequest, ManifestDescriptor, ContainerdApi, ContainerdLibrary, is_manifest, is_index,
  is_config, handle_all, Resolved, unresolved,
}
use stereoscope.Image.Containerd.Jobs.{Descriptor, Jobs, new_jobs}
use stereoscope.Image.Metadata.{
  AdditionalMetadata, head_or_empty, with_tags, with_architecture, with_os,
}
use stereoscope.Image.Platform.{Platform, to_string}
use stereoscope.Image.Registry.{AuthKinds, authenticator_for}
use stereoscope.Image.Registry.Tls.{RegistryOptions, TlsLibrary, tls_config}
use stereoscope.Prelude.{
  List, [], ◌∷◌, ◌++◌, Option, none, some, not, Str, codes, str_eq, byte_string_eq, if◌then◌else◌,
}

-- `checkRegistryHostMissing`; a split has at least one part.
unfoldable pub check_registry_host_missing : Str → Str
check_registry_host_missing image_name = elim (split image_name slash) [
  | [] ↦ image_name
  | part ∷ parts ↦ elim parts [
    | [] ↦ codes "docker.io/library/" ++ image_name
    | p ∷ ps ↦
        if not (contains part (codes ".")) then codes "docker.io/" ++ image_name else image_name
  ]
]

-- `withMetadata`
unfoldable pub with_metadata : (Str → Result Str) → Option Platform → Str → List AdditionalMetadata
unfolding head_or_empty
with_metadata new_tag platform ref =
    (elim platform [
      | none ↦ []
      | some p ↦ with_architecture p.architecture p.variant ∷ with_os p.os ∷ []
    ])
    ++ (if contains ref (codes ":")
        then with_tags new_tag (head_or_empty (split ref b'@') ∷ []) ∷ []
        else [])

-- `validatePlatform`
unfoldable pub validate_platform : Option Platform → Option Platform → Result (Unit {0})
validate_platform none found = ok tt
validate_platform (some p) none = err no_platform
validate_platform (some p) (some q) =
    if not (str_eq q.os p.os)
    then err (wrong_platform q.os p.os)
    else if not (str_eq q.architecture p.architecture)
    then err (wrong_platform q.architecture p.architecture)
    else if not (str_eq q.variant p.variant)
    then err (wrong_platform q.variant p.variant)
    else ok tt

module _ {W C P Auth Keychain Pool : Type 0} (api : ContainerdApi W C P)
    (library : ContainerdLibrary P Auth) (kinds : AuthKinds Auth) (tls : TlsLibrary C Pool)
    (registry : RegistryOptions Auth Keychain) (platform : Option Platform) where
  -- `pullOptions`, with the function for the credentials of a host
  unfoldable pub credentials_of : Str → Result (Str × Str)
  unfolding authenticator_for
  credentials_of host = elim (authenticator_for kinds registry.credentials host) [
    | none ↦ ok ([], [])
    | some auth ↦ library.authorization auth
  ]

  unfoldable pub pull_request : Str → Result (PullRequest C)
  unfolding credentials_of tls_config
  pull_request registry_name = tls_config tls registry registry_name >>= λ c. ok (record {
    platform = to_string platform;
    credentials = elim registry.credentials [ [] ↦ none | x ∷ xs ↦ some credentials_of ];
    default_scheme = if registry.insecure_use_http then codes "http" else codes "https";
    default_tls = c;
  })

  -- The world and the jobs of the pulls so far.
  abbrev pub Session : Type 0
  Session = W × List Jobs

  -- `pull` of an image; `image_str` is the image of the provider.
  unfoldable pub pull : Str → Str → Act Session (Unit {0})
  unfolding pull_request handle_all
  pull image_str image s =
      elim (library.registry_of registry.insecure_use_http image_str >>= pull_request) [
        | err e ↦ (err e, (s.0, s.1 ++ new_jobs image ∷ []))
        | ok request ↦
            let (answer, w) = api.pull image request s.0 in
            (answer.0, (w, s.1 ++ handle_all answer.1 (new_jobs image) ∷ []))
      ]

  -- `fetchManifest`: the configuration of the manifest.
  unfoldable pub fetch_manifest : Descriptor → Act W Descriptor
  unfolding is_manifest
  fetch_manifest d w =
      if not (is_manifest d.media_type)
      then (err (unknown_media_type d.media_type), w)
      else after (api.read_blob d w) (λ bytes w'. (library.config_of bytes, w'))

  -- `fetchPlatformFromConfig`
  unfoldable pub fetch_platform_from_config : Descriptor → Act W Platform
  unfolding is_config
  fetch_platform_from_config d w =
      if not (is_config d.media_type)
      then (err (unknown_media_type d.media_type), w)
      else after (api.read_blob d w) (λ bytes w'. (library.platform_of bytes, w'))

  -- `processManifest`
  unfoldable pub process_manifest : Str → Descriptor → W → Resolved × W
  unfolding fetch_manifest fetch_platform_from_config
  process_manifest image d w =
      let (r, w') = after (fetch_manifest d w) fetch_platform_from_config in
      elim r [
        | err e ↦ (unresolved [] e, w')
        | ok p ↦ (record { image = image; platform = some p; error = none }, w')
      ]

  -- The first manifest of an index that matches.
  unfoldable pub matching_manifest : P → List ManifestDescriptor → Option Descriptor
  matching_manifest wanted [] = none
  matching_manifest wanted (m ∷ ms) =
      let rest = matching_manifest wanted ms in
      elim m.platform [
        | none ↦ rest
        | some p ↦ if library.matches wanted p then some m.descriptor else rest
      ]

  -- The manifests of an index, and the platform.
  unfoldable pub index_and_platform : Str → Result (List ManifestDescriptor × P)
  index_and_platform bytes = do
    manifests ← library.index_of bytes
    wanted ← library.parse_platform (to_string platform)
    ok (manifests, wanted)

  -- `resolveImage` for an index.
  unfoldable pub resolve_index : Str → Descriptor → W → Resolved × W
  unfolding matching_manifest process_manifest index_and_platform
  resolve_index image d w =
      let (r, w') = after (api.read_blob d w) (λ bytes w1. (index_and_platform bytes, w1)) in
      elim r [
        | err e ↦ (unresolved [] e, w')
        | ok (ms, p) ↦ elim (matching_manifest p ms) [
          | none ↦ (unresolved image no_platform, w')
          | some m ↦ process_manifest image m w'
        ]
      ]

  -- `resolveImage`
  unfoldable pub resolve_image : Str → W → Resolved × W
  unfolding process_manifest resolve_index is_manifest is_index
  resolve_image image w =
      let (target, w') = api.get_image image w in
      elim target [
        | err e ↦ (unresolved image e, w')
        | ok d ↦ elim platform [
          | none ↦ (record { image = image; platform = none; error = none }, w')
          | some p ↦
              if is_manifest d.media_type
              then process_manifest image d w'
              else if is_index d.media_type
              then resolve_index image d w'
              else (unresolved [] (unknown_media_type d.media_type), w')
        ]
      ]

  -- The end of `pullImageIfMissing`.
  unfoldable pub validated : Resolved → Result (Str × Option Platform)
  unfolding validate_platform
  validated r = validate_platform platform r.platform >>= λ u. ok (r.image, r.platform)

  -- `pullImageIfMissing` behind the check of the reference.
  unfoldable pub resolve_or_pull : Str → Act Session (Str × Option Platform)
  unfolding resolve_image validated pull
  resolve_or_pull image_str s =
      let (first, w) = resolve_image image_str s.0 in
      let image = if str_eq first.image [] then image_str else first.image in
      elim first.error [
        | none ↦ (validated first, (w, s.1))
        | some e ↦ after (pull image_str image (w, s.1)) (λ u s1.
            let (second, w2) = resolve_image image s1.0 in
            elim second.error [
              | some e2 ↦ (err e2, (w2, s1.1))
              | none ↦ (validated second, (w2, s1.1))
            ])
      ]

  -- `pullImageIfMissing`, which changes the image of the provider
  unfoldable pub pull_image_if_missing : Str → Act Session (Str × Option Platform)
  unfolding check_registry_host_missing resolve_or_pull
  pull_image_if_missing image_str s = resolve_or_pull (check_registry_host_missing image_str) s

  -- `exportPlatformComparer`, as the platform that it is strict about
  unfoldable pub export_platform : Result P
  export_platform =
      library.parse_platform
        (elim platform [ none ↦ codes "linux/amd64" | some p ↦ to_string (some p) ])

  -- A call of containerd.
  abbrev pub call : {B : Type 0} → Act W B → Act Session B
  call f s = ((f s.0).0, ((f s.0).1, s.1))

  -- `saveImage`; the size is read for the progress alone.
  unfoldable pub save_image : Str → Act Session Str
  unfolding export_platform
  save_image image s =
      after (call (api.new_directory (codes "containerd-daemon-image")) s) (λ dir s1.
        after (call (api.create_tar dir) s1) (λ file s2.
          after (call (api.get_image image) s2) (λ d s3.
            after (export_platform, s3)
              (λ p s4. after (call (api.export file image p) s4) (λ u s5. (ok file, s5))))))

  -- The calls of `Provide` before the provider for archives: the file, and the metadata.
  unfoldable pub provide_saved :
      (Str → Result Str) → Str → Act Session (Str × List AdditionalMetadata)
  unfolding pull_image_if_missing save_image with_metadata
  provide_saved new_tag image_str s = after (call api.new_client s) (λ u s1.
      after (pull_image_if_missing image_str s1) (λ resolved s2.
        after (save_image resolved.0 s2) (λ file s3. (
          ok (file, with_metadata new_tag resolved.1 (check_registry_host_missing image_str)),
          s3,
        ))))
