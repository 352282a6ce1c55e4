-- ===== src/Image/Containerd/Api.antt =====
-- The API of containerd as pkg/image/containerd/daemon_provider.go uses it, and the media types that it tells apart.
use stereoscope.Errors.{Failure, Result, Act}
use stereoscope.Image.Containerd.Jobs.{Descriptor, Jobs, add_job}
use stereoscope.Image.Platform.{Platform}
use stereoscope.Prelude.{
  List, [], ◌∷◌, Option, none, some, Bool, ◌||◌, Str, codes, str_eq, byte_string_eq, if◌then◌else◌,
}

-- What the options of `pullOptions` say: the platform, the credentials by host, the scheme, and the TLS configuration.
pub record PullRequest (C : Type 0) : Type 0 where
  pub platform : Str
  pub credentials : Option (Str → Result (Str × Str))
  pub default_scheme : Str
  pub default_tls : C

-- A manifest in an index.
pub record ManifestDescriptor : Type 0 where
  pub descriptor : Descriptor
  pub platform : Option Platform

-- The API of containerd, as calls on the world. A pull returns an error or none, and what its handler has met. `P` is
-- the type of the parsed platforms.
pub record ContainerdApi (W C P : Type 0) : Type 0 where
  pub new_client : Act W (Unit {0})
  pub get_image : Str → Act W Descriptor
  pub read_blob : Descriptor → Act W Str
  pub pull : Str → PullRequest C → W → (Result (Unit {0}) × List Descriptor) × W
  pub export : Str → Str → P → Act W (Unit {0})
  pub new_directory : Str → Act W Str
  pub create_tar : Str → Act W Str

-- The libraries: JSON, the platforms of containerd, the registry of a reference, which may be insecure, and the user
-- and the password of an authenticator.
pub record ContainerdLibrary (P Auth : Type 0) : Type 0 where
  pub index_of : Str → Result (List ManifestDescriptor)
  pub config_of : Str → Result Descriptor
  pub platform_of : Str → Result Platform
  pub parse_platform : Str → Result P
  pub matches : P → Platform → Bool
  pub registry_of : Bool → Str → Result Str
  pub authorization : Auth → Result (Str × Str)

unfoldable pub is_manifest : Str → Bool
is_manifest t =
    str_eq t (codes "application/vnd.docker.distribution.manifest.v2+json")
    || str_eq t (codes "application/vnd.oci.image.manifest.v1+json")

unfoldable pub is_index : Str → Bool
is_index t =
    str_eq t (codes "application/vnd.docker.distribution.manifest.list.v2+json")
    || str_eq t (codes "application/vnd.oci.image.index.v1+json")

unfoldable pub is_config : Str → Bool
is_config t =
    str_eq t (codes "application/vnd.docker.container.image.v1+json")
    || str_eq t (codes "application/vnd.oci.image.config.v1+json")

unfoldable pub is_schema1 : Str → Bool
is_schema1 t = str_eq t (codes "application/vnd.docker.distribution.manifest.v1+prettyjws")

-- The handler of `pull`, for all that a pull meets.
unfoldable pub handle_all : List Descriptor → Jobs → Jobs
unfolding add_job is_schema1
handle_all [] j = j
handle_all (d ∷ ds) j = handle_all ds (if is_schema1 d.media_type then j else add_job d j)

-- What `resolveImage` returns: a reference and a platform, each also beside an error.
pub record Resolved : Type 0 where
  pub image : Str
  pub platform : Option Platform
  pub error : Option Failure

abbrev pub unresolved : Str → Failure → Resolved
unresolved image e = record { image = image; platform = none; error = some e }
