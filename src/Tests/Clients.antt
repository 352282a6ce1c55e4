-- ===== src/Tests/Clients.antt =====
-- Runs of client.go, deprecated.go and of the certificates of pkg/image/registry_options.go.
use stereoscope.Client.{Provider, extract_scheme_source, first_image}
use stereoscope.Client.Detected.{Detection, first_image-Detection}
use stereoscope.Client.Scheme.{extract_scheme_source-append}
use stereoscope.Errors.{ok, panics}
use stereoscope.Go.Maps.{elem}
use stereoscope.Go.Strings.{trim_space, Lacks}
use stereoscope.Image.Images.{Image}
use stereoscope.Image.Metadata.{with_os}
use stereoscope.Image.Platform.{to_lower}
use stereoscope.Image.Registry.Tls.{
  RegistryOptions, TlsOptions, TlsLibrary, tls_options_or, certificate_files, start_pool,
  tls_config,
}
use stereoscope.Image.Registry.Trusted.{AllAdded, adds_certificates, tls_config_lem}
use stereoscope.FileTree.Edit.{new_file_tree}
use stereoscope.Image.Catalog.{new_file_catalog}
use stereoscope.Tests.Images.{by_token}
use stereoscope.Prelude.{
  ℕ, suc, List, [], ◌∷◌, ◌++◌, Option, none, some, true, false, Str, codes, ◌≡◌, refl, str_eq,
  byte_string_eq, arith,
}

-- An image with no layers.
abbrev empty_image : Image
empty_image = record {
  metadata = record {
    id = codes "sha256:1";
    size = 0;
    diff_ids = [];
    media_type = [];
    tags = [];
    raw_manifest = [];
    manifest_digest = [];
    raw_config = [];
    repo_digests = [];
    architecture = [];
    variant = [];
    os = [];
  };
  layers = [];
  catalog = new_file_catalog;
  squashed_search_context = record { tree = new_file_tree; index = none; link_backward_refs = [] };
}

-- A daemon that is not there, and a registry; the world counts the calls.
abbrev absent_daemon : Provider ℕ
absent_daemon = record {
  name = codes "docker";
  provide = λ calls. ((none, some panics), suc calls);
}

abbrev full_registry : Provider ℕ
full_registry = record {
  name = codes "oci-registry";
  provide = λ calls. ((some empty_image, none), suc calls);
}

abbrev two_providers : List (Provider ℕ)
two_providers = absent_daemon ∷ full_registry ∷ []

first_image-Detection_example :
    Detection
      (codes "alpine")
      (with_os (codes "linux") ∷ [])
      two_providers
      []
      0
      (first_image (codes "alpine") (with_os (codes "linux") ∷ []) two_providers [] 0)
first_image-Detection_example =
    first_image-Detection (codes "alpine") (with_os (codes "linux") ∷ []) two_providers [] 0

-- The calls of both providers are made.
first_image_runs : (first_image (codes "alpine") [] two_providers [] 0).1 ≡ 2
unfolding first_image
first_image_runs = refl

abbrev known_sources : List Str
known_sources = codes "docker" ∷ codes "registry" ∷ []

docker_is_known : elem (trim_space (to_lower (codes "Docker "))) known_sources ≡ true
unfolding elem trim_space to_lower stereoscope.Go.Strings.trim_left
    stereoscope.Go.Strings.trim_right str_eq
docker_is_known = refl

no_colon : Lacks 58 (codes "Docker ")
no_colon = ground arith

extract_scheme_source-append_example :
    extract_scheme_source (codes "Docker " ++ 58 ∷ codes "alpine:3") known_sources
    ≡ (trim_space (to_lower (codes "Docker ")), codes "alpine:3")
extract_scheme_source-append_example =
    extract_scheme_source-append (codes "Docker ") (codes "alpine:3") known_sources no_colon
      docker_is_known

-- A library whose configurations are their options and pools, and whose pools are lists of files.
abbrev pub TlsState : Type 0
TlsState = TlsOptions × Option (List Str)

abbrev pub file_library : TlsLibrary TlsState (List Str)
file_library = record {
  client = λ o. ok (o, none);
  root_cas = λ c. c.1;
  with_root_cas = λ pool c. (c.0, some pool);
  system_pool = ok (codes "system" ∷ []);
  new_pool = [];
  stat_is_dir = λ p. ok false;
  glob = λ pattern. ok [];
  join_path = λ p q. p ++ q;
  read_file = λ p. ok p;
  append_certs = λ pem pool. (true, pool ++ pem ∷ []);
}

abbrev pub one_authority : RegistryOptions Str Str
one_authority = record {
  insecure_skip_tls_verify = false;
  insecure_use_http = false;
  credentials = by_token [] (codes "any") ∷ [];
  keychain = none;
  ca_file_or_dir = codes "/ca.pem";
}

abbrev trusted : TlsState
trusted = (
  record { insecure_skip_verify = false; cert_file = []; key_file = [] },
  some (codes "system" ∷ codes "/ca.pem" ∷ []),
)

trusted-read : tls_config file_library one_authority (codes "docker.io") ≡ ok trusted
unfolding tls_config tls_options_or certificate_files start_pool str_eq
    stereoscope.Image.Registry.select_most_specific
trusted-read = refl

tls_config_example :
    (c0 : TlsState) × (file_library.client (tls_options_or one_authority (codes "docker.io"))
      ≡ ok c0)
    × ((tls_options_or one_authority (codes "docker.io")).insecure_skip_verify ≡ false)
    × (adds_certificates file_library one_authority (codes "docker.io") ≡ false → trusted ≡ c0)
    × (adds_certificates file_library one_authority (codes "docker.io") ≡ true
        → (files : List Str) × (pool : List Str) × (certificate_files file_library
              one_authority.ca_file_or_dir
            ≡ ok files)
          × AllAdded file_library files (start_pool file_library c0) pool
          × (trusted ≡ file_library.with_root_cas pool c0))
tls_config_example =
    tls_config_lem file_library one_authority (codes "docker.io") trusted trusted-read
