-- ===== src/Image/Oci.antt =====
-- pkg/image/oci: images in OCI directories and registries. The context and the log are left out.
pub mod Directory
use stereoscope.Errors.{Failure, Result, ok, err, Act, after, ◌>>=◌, manifest_count, panics}
use stereoscope.File.LazyReader.{LazyReader}
use stereoscope.File.Tar.{TarStep}
use stereoscope.File.Tar.Untar.{FileSystem, untar_to_directory}
use stereoscope.Go.Strings.{slash}
use stereoscope.Image.Images.{SourceImage, Image, read_image}
use stereoscope.Image.Layer.{LayerCache}
use stereoscope.Image.Metadata.{
  AdditionalMetadata, with_repo_digests, with_manifest, with_manifest_digest, with_architecture,
  with_os,
}
use stereoscope.Image.Platform.{Platform, new_platform}
use stereoscope.Image.Registry.{AuthKinds, authenticator_for}
use stereoscope.Image.Registry.Tls.{RegistryOptions, TlsLibrary, tls_config}
use stereoscope.Prelude.{
  ℕ, List, [], ◌∷◌, ◌++◌, Option, none, some, Bool, true, false, not, ◌&&◌, Str, codes, str_eq,
  length, ◌==◌, if◌then◌else◌,
}

-- An image of a library with its raw manifest, if that can be read.
pub record OciImage : Type 0 where
  pub source : SourceImage
  pub raw_manifest : Result Str

-- Whether all digests are the same one.
unfoldable pub all_same : Str → List Str → Bool
all_same digest [] = true
all_same digest (d ∷ ds) = str_eq d digest && all_same digest ds

-- `checkManifestDigestsEqual`, on the digests of the manifests
unfoldable pub check_manifest_digests_equal : List Str → Bool
unfolding all_same
check_manifest_digests_equal [] = false
check_manifest_digests_equal (d ∷ ds) = all_same d (d ∷ ds)

-- The checks of `Provide` of the provider for directories, and `indexManifest.Manifests[0]`.
unfoldable pub chosen_manifest : List Str → Result Str
unfolding check_manifest_digests_equal
chosen_manifest [] = err (manifest_count 0)
chosen_manifest (d ∷ ds) =
    if length (d ∷ ds) == 1
    then ok d
    else if check_manifest_digests_equal (d ∷ ds)
    then ok d
    else err (manifest_count (length (d ∷ ds)))

-- The manifest of an image as metadata, if it can be read.
unfoldable pub manifest_metadata : (Str → Str) → OciImage → List AdditionalMetadata
manifest_metadata sha256 image = elim image.raw_manifest [
  | err e ↦ []
  | ok raw ↦ with_manifest sha256 raw ∷ []
]

-- What the library reads of a directory: the path itself, the digests of the manifests of its index, and an image.
pub record OciLayout : Type 0 where
  pub from_path : Str → Result (Unit {0})
  pub index_digests : Str → Result (List Str)
  pub image_at : Str → Str → Result OciImage

module _ {W : Type 0} (new_directory : Str → Act W Str) (sha256 : Str → Str)
    (mime_of : LazyReader → Str) (tar_types : List Str) (next_id : ℕ) (cache : LayerCache) where
  -- The end of each `Provide`: a directory for the contents, and `Read`.
  unfoldable pub read_into : Str → SourceImage → List AdditionalMetadata → Act W Image
  read_into prefix source metadata w =
      after (new_directory prefix w)
        (λ dir w1. (read_image mime_of tar_types metadata dir source next_id cache, w1))

  -- `Provide` of the provider for directories
  unfoldable pub provide_directory : OciLayout → Str → Act W Image
  unfolding chosen_manifest manifest_metadata read_into
  provide_directory layout path w =
      after (layout.from_path path, w)
        (λ u w1.
          after (layout.index_digests path >>= chosen_manifest, w1)
            (λ digest w2.
              after (layout.image_at path digest, w2)
                (λ image w3.
                  read_into (codes "oci-dir-image") image.source
                    (with_manifest_digest digest ∷ manifest_metadata sha256 image) w3)))

module _ {F : Type 0} (fs : FileSystem F) (new_directory : Str → Act F Str) (sha256 : Str → Str)
    (mime_of : LazyReader → Str) (tar_types : List Str) (next_id : ℕ) (cache : LayerCache) where
  -- `Provide` of the provider for archives, on what opening the archive gives
  unfoldable pub provide_tarball : OciLayout → Result (List TarStep) → Act F Image
  unfolding untar_to_directory provide_directory
  provide_tarball layout opened s =
      after (opened, s)
        (λ steps s1. after (new_directory (codes "oci-tarball-image") s1) (λ dir s2.
          after (untar_to_directory fs dir steps s2) (λ u s3.
            provide_directory new_directory sha256 mime_of tar_types next_id cache layout dir s3)))

-- A reference: the registry and the repository.
pub record OciReference : Type 0 where
  pub registry : Str
  pub repository : Str

-- How a registry is asked: by an authenticator, a keychain, or the default keychain.
pub data AuthChoice (Auth Keychain : Type 0) : Type 0 where
  with_auth : Auth → AuthChoice Auth Keychain
  with_keychain : Keychain → AuthChoice Auth Keychain
  default_keychain : AuthChoice Auth Keychain

-- What the options of `prepareRemoteOptions` say.
pub record RemoteOptions (Auth Keychain C : Type 0) : Type 0 where
  pub platform : Option Platform
  pub auth : AuthChoice Auth Keychain
  pub transport : Option C

-- `defaultPlatformIfNil`, for the architecture of the running program, on the system `goos`
unfoldable pub default_platform_if_nil : Str → Str → Option Platform → Option Platform
unfolding new_platform
default_platform_if_nil goos goarch (some p) = some p
default_platform_if_nil goos goarch none = elim (new_platform goos (codes "linux/" ++ goarch)) [
  | err e ↦ none
  | ok p ↦ some p
]

module _ {Auth Keychain C Pool : Type 0} (kinds : AuthKinds Auth) (tls : TlsLibrary C Pool)
    (registry : RegistryOptions Auth Keychain) where
  -- `prepareRemoteOptions`, without the context
  unfoldable pub prepare_remote_options :
      OciReference → Option Platform → RemoteOptions Auth Keychain C
  unfolding authenticator_for tls_config
  prepare_remote_options ref platform = record {
    platform = platform;
    auth = elim (authenticator_for kinds registry.credentials ref.registry) [
      | some auth ↦ with_auth auth
      | none ↦ elim registry.keychain [ none ↦ default_keychain | some k ↦ with_keychain k ]
    ];
    transport = elim (tls_config tls registry ref.registry) [ err e ↦ none | ok c ↦ some c ];
  }

  -- What a registry answers: the digest of the descriptor, and the image.
  pub record Answer : Type 0 where
    pub digest : Str
    pub image : Result OciImage

  -- The repository digest of an image.
  unfoldable pub repo_digest : OciReference → Str → Str
  repo_digest ref digest = ref.registry ++ slash ∷ ref.repository ++ b'@' ∷ digest

  -- The metadata of `Provide` of the provider for registries.
  unfoldable pub registry_metadata :
      (Str → Str) → OciReference → Str → OciImage → Option Platform → List AdditionalMetadata
  unfolding repo_digest manifest_metadata
  registry_metadata sha256 ref digest image platform =
      with_repo_digests (repo_digest ref digest ∷ []) ∷ manifest_metadata sha256 image
      ++ (elim platform [
        | none ↦ []
        | some p ↦ with_architecture p.architecture p.variant ∷ with_os p.os ∷ []
      ])

  -- `Provide` of the provider for registries; `parse` is `name.ParseReference`, which may allow HTTP, `get` is
  -- `remote.Get`, and the directory is made before both.
  unfoldable pub provide_registry :
      {W : Type 0}
      → (Str → Act W Str)
      → (Bool → Str → Result OciReference)
      → (OciReference → RemoteOptions Auth Keychain C → Act W Answer)
      → (Str → Str)
      → (LazyReader → Str)
      → List Str
      → ℕ
      → LayerCache
      → Str
      → Str
      → Option Platform
      → Str
      → Act W Image
  unfolding default_platform_if_nil prepare_remote_options registry_metadata
  provide_registry new_directory parse get_answer sha256 mime_of tar_types next_id cache goos goarch
        platform image_str w =
      let wanted = default_platform_if_nil goos goarch platform in
      after (new_directory (codes "oci-registry-image") w) (λ dir w1.
        after (parse registry.insecure_use_http image_str, w1)
          (λ ref w2. after (get_answer ref (prepare_remote_options ref wanted) w2) (λ answer w3.
            after (answer.image, w3)
              (λ image w4. (
                read_image mime_of tar_types
                    (registry_metadata sha256 ref answer.digest image wanted) dir image.source
                    next_id cache,
                w4,
              )))))
