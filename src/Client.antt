-- ===== src/Client.antt =====
-- client.go, option.go, providers.go and deprecated.go: the entry points, which choose the provider of an image. Logs
-- and the bus are left out.
pub mod Scheme
pub mod Detected
use stereoscope.Errors.{Failure, Result, ok, err, ◌>>=◌}
use stereoscope.Go.Maps.{elem}
use stereoscope.Go.Strings.{trim_space}
use stereoscope.Image.Images.{Image}
use stereoscope.Image.Metadata.{AdditionalMetadata}
use stereoscope.Image.Platform.{Platform, new_platform, to_lower}
use stereoscope.Image.Registry.{RegistryCredentials}
use stereoscope.Image.Registry.Tls.{RegistryOptions}
use stereoscope.Prelude.{
  ℕ, List, [], ◌∷◌, ◌++◌, Option, none, some, Bool, true, false, Str, codes, str_eq, byte_string_eq,
  ◌==◌, if◌then◌else◌,
}

-- The errors of this package. `metadata_failed` is the join of the errors of the changes.
pub data ClientError : Type 0 where
  bad_option : Failure → ClientError
  no_source : ClientError
  no_provider : Str → ClientError
  undetected : Str → List Failure → ClientError
  metadata_failed : List Failure → ClientError

-- `strings.SplitN(s, ":", 2)`: the parts around the first separator, if there is one.
unfoldable pub cut_scheme : Str → Option (Str × Str)
cut_scheme [] = none
cut_scheme (c ∷ s) =
    let later : Option (Str × Str) = elim (cut_scheme s) [
      | none ↦ none
      | some (p, q) ↦ some (c ∷ p, q)
    ] in
    if c == b':' then some ([], s) else later

-- `ExtractSchemeSource`
unfoldable pub extract_scheme_source : Str → List Str → Str × Str
unfolding cut_scheme to_lower trim_space
extract_scheme_source input sources = elim (cut_scheme input) [
  | none ↦ ([], input)
  | some (hint, rest) ↦
      if elem (trim_space (to_lower hint)) sources
      then (trim_space (to_lower hint), rest)
      else ([], input)
]

-- `config`
pub record Config (Auth Keychain : Type 0) : Type 0 where
  pub registry : RegistryOptions Auth Keychain
  pub additional_metadata : List AdditionalMetadata
  pub platform : Option Platform

-- `Option`: a change of the configuration; what one that fails has changed is not read.
abbrev pub ClientOption : Type 0 → Type 0 → Type 0
ClientOption Auth Keychain = Config Auth Keychain → Result (Config Auth Keychain)

module _ {Auth Keychain : Type 0} where
  -- `WithRegistryOptions`
  unfoldable pub with_registry_options : RegistryOptions Auth Keychain → ClientOption Auth Keychain
  with_registry_options options c = ok (record c { registry = options })

  -- `WithInsecureSkipTLSVerify`
  unfoldable pub with_insecure_skip_tls_verify : ClientOption Auth Keychain
  with_insecure_skip_tls_verify c =
      ok (record c { registry = record c.registry { insecure_skip_tls_verify = true } })

  -- `WithInsecureAllowHTTP`
  unfoldable pub with_insecure_allow_http : ClientOption Auth Keychain
  with_insecure_allow_http c =
      ok (record c { registry = record c.registry { insecure_use_http = true } })

  -- `WithCredentials`
  unfoldable pub with_credentials : List (RegistryCredentials Auth) → ClientOption Auth Keychain
  with_credentials credentials c = ok (record c {
    registry = record c.registry { credentials = c.registry.credentials ++ credentials };
  })

  -- `WithAdditionalMetadata`
  unfoldable pub with_additional_metadata : List AdditionalMetadata → ClientOption Auth Keychain
  with_additional_metadata metadata c =
      ok (record c { additional_metadata = c.additional_metadata ++ metadata })

  -- `WithPlatform`
  unfoldable pub with_client_platform : Str → Str → ClientOption Auth Keychain
  unfolding new_platform
  with_client_platform goos platform c =
      new_platform goos platform >>= λ p. ok (record c { platform = some p })

  -- `applyOptions`; an option may be nil.
  unfoldable pub apply_options :
      List (Option (ClientOption Auth Keychain))
      → Config Auth Keychain
      → Result (Config Auth Keychain)
  apply_options [] c = ok c
  apply_options (none ∷ options) c = apply_options options c
  apply_options (some option ∷ options) c = option c >>= apply_options options

-- `applyAdditionalMetadata`: all changes are made, and the errors are joined.
unfoldable pub apply_additional_metadata : List AdditionalMetadata → Image → List Failure × Image
apply_additional_metadata [] image = ([], image)
apply_additional_metadata (change ∷ changes) image = elim (change image.metadata) [
  | ok m ↦ apply_additional_metadata changes (record image { metadata = m })
  | err e ↦ let (es, image') = apply_additional_metadata changes image in (e ∷ es, image')
]

-- `image.Provider`: what it provides is an image, an error, or both, and it acts on the world.
pub record Provider (W : Type 0) : Type 0 where
  pub name : Str
  pub provide : W → (Option Image × Option Failure) × W

-- `TaggedValue` and `TaggedValueSet` of go-collections.
pub record Collections (T S V : Type 0) : Type 0 where
  pub new_tagged_value : V → List Str → T
  pub empty : S
  pub joined_with : S → List T → S
  pub select : S → Str → S
  pub values : S → List V
  pub tags : S → List Str
  pub size : S → ℕ

-- The constructors of the providers in pkg/image, each with the image that the user asks for, and those for daemons and
-- registries with the platform and the options for registries.
pub record Makers (W Auth Keychain : Type 0) : Type 0 where
  pub docker_archive : Str → Provider W
  pub oci_archive : Str → Provider W
  pub oci_directory : Str → Provider W
  pub sif_archive : Str → Provider W
  pub docker_daemon : Str → Option Platform → Provider W
  pub podman_daemon : Str → Option Platform → Provider W
  pub containerd_daemon : RegistryOptions Auth Keychain → Str → Option Platform → Provider W
  pub oci_registry : RegistryOptions Auth Keychain → Str → Option Platform → Provider W

-- The error that a provider returns, if it does.
unfoldable pub listed : Option Failure → List Failure
listed none = []
listed (some e) = e ∷ []

-- `errors.Join`: nil if there is no error.
joined_errors : List Failure → Option ClientError
joined_errors [] = none
joined_errors (e ∷ es) = some (metadata_failed (e ∷ es))

-- The end of `getImageFromSource`, with the image that was found: the error of the provider is dropped.
unfoldable pub with_metadata : List AdditionalMetadata → Image → Option Image × Option ClientError
unfolding apply_additional_metadata joined_errors
with_metadata metadata image =
    let (es, image') = apply_additional_metadata metadata image in (some image', joined_errors es)

module _ {W : Type 0} where
  -- The loop of `getImageFromSource` over the providers, with the errors so far.
  unfoldable pub first_image :
      Str
      → List AdditionalMetadata
      → List (Provider W)
      → List Failure
      → W
      → (Option Image × Option ClientError) × W
  unfolding with_metadata listed
  first_image input metadata [] errs w = ((none, some (undetected input errs)), w)
  first_image input metadata (p ∷ ps) errs w =
      let ((provided, e), w') = p.provide w in
      elim provided [
        | some image ↦ (with_metadata metadata image, w')
        | none ↦ first_image input metadata ps (errs ++ listed e) w'
      ]

module _ {W Auth Keychain T S : Type 0} (collections : Collections T S (Provider W))
    (makers : Makers W Auth Keychain) where
  -- `taggedProvider`
  unfoldable pub tagged_provider : Provider W → List Str → T
  tagged_provider p tags = collections.new_tagged_value p (p.name ∷ tags)

  -- `ImageProviders`
  unfoldable pub image_providers : Str → Option Platform → RegistryOptions Auth Keychain → List T
  unfolding tagged_provider
  image_providers input platform registry =
      tagged_provider (makers.docker_archive input) (codes "file" ∷ [])
      ∷ tagged_provider (makers.oci_archive input) (codes "file" ∷ [])
      ∷ tagged_provider (makers.oci_directory input) (codes "file" ∷ codes "dir" ∷ [])
      ∷ tagged_provider (makers.sif_archive input) (codes "file" ∷ [])
      ∷ tagged_provider (makers.docker_daemon input platform) (codes "daemon" ∷ codes "pull" ∷ [])
      ∷ tagged_provider (makers.podman_daemon input platform) (codes "daemon" ∷ codes "pull" ∷ [])
      ∷ tagged_provider (makers.containerd_daemon registry input platform)
          (codes "daemon" ∷ codes "pull" ∷ [])
      ∷ tagged_provider (makers.oci_registry registry input platform)
          (codes "registry" ∷ codes "pull" ∷ [])
      ∷ []

  no_registry : RegistryOptions Auth Keychain
  no_registry = record {
    insecure_skip_tls_verify = false;
    insecure_use_http = false;
    credentials = [];
    keychain = none;
    ca_file_or_dir = [];
  }

  -- `allProviderTags`
  unfoldable pub all_provider_tags : List Str
  unfolding image_providers no_registry
  all_provider_tags =
      collections.tags
        (collections.joined_with collections.empty (image_providers [] none no_registry))

  -- The providers of a configuration.
  unfoldable pub joined_providers : Str → Config Auth Keychain → S
  unfolding image_providers
  joined_providers input c =
      collections.joined_with collections.empty (image_providers input c.platform c.registry)

  -- The selection of the providers by a source, and the loop over them.
  unfoldable pub provide_from :
      Str → Str → Config Auth Keychain → W → (Option Image × Option ClientError) × W
  unfolding joined_providers first_image trim_space to_lower
  provide_from input source c w =
      let all = joined_providers input c in
      let wanted = to_lower (trim_space source) in
      if str_eq source []
      then first_image input c.additional_metadata (collections.values all) [] w
      else if collections.size (collections.select all wanted) == 0
      then ((none, some (no_provider wanted)), w)
      else first_image input c.additional_metadata
          (collections.values (collections.select all wanted)) [] w

  -- `getImageFromSource`
  unfoldable pub get_image_from :
      Str
      → Str
      → List (Option (ClientOption Auth Keychain))
      → W
      → (Option Image × Option ClientError) × W
  unfolding provide_from no_registry apply_options
  get_image_from input source options w =
      elim (apply_options options
        (record { registry = no_registry; additional_metadata = []; platform = none })) [
          | err e ↦ ((none, some (bad_option e)), w)
          | ok c ↦ provide_from input source c w
        ]

  -- `GetImageFromSource`
  unfoldable pub get_image_from_source :
      Str
      → Str
      → List (Option (ClientOption Auth Keychain))
      → W
      → (Option Image × Option ClientError) × W
  unfolding get_image_from
  get_image_from_source input source options w =
      if str_eq source []
      then ((none, some no_source), w)
      else get_image_from input source options w

  -- `GetImage`
  unfoldable pub get_image :
      Str → List (Option (ClientOption Auth Keychain)) → W → (Option Image × Option ClientError) × W
  unfolding get_image_from extract_scheme_source all_provider_tags
  get_image input options w =
      let (source, location) = extract_scheme_source input all_provider_tags in
      get_image_from location source options w
