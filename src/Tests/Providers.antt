-- ===== src/Tests/Providers.antt =====
-- Runs of the providers of pkg/image/docker, containerd and oci.
use stereoscope.Errors.{Result, ok, err, from_library, panics}
use stereoscope.File.Tar.{TarStep, entry}
use stereoscope.Image.Containerd.Jobs.{Descriptor, Jobs}
use stereoscope.Image.Containerd.Provider.{check_registry_host_missing, pull_image_if_missing}
use stereoscope.Image.Containerd.Api.{ContainerdApi, ContainerdLibrary}
use stereoscope.Image.Containerd.Resolved.{PullOutcome, pull_image_if_missing-PullOutcome}
use stereoscope.Image.Docker.Daemon.{
  ParsedName, tag_name, Inspect, inspected, not_found, DaemonApi, provide_saved,
}
use stereoscope.Image.Docker.Manifest.{DockerEntry, ManifestLibrary, TarFile, generate_for}
use stereoscope.Image.Docker.Provided.{ProvideOutcome, provide_saved-ProvideOutcome}
use stereoscope.Image.Docker.Pulls.{Decoded, AuthLibrary, Pull, ended, show_events}
use stereoscope.Image.Docker.Shown.{decoded, progressing, show_events-tracked}
use stereoscope.Image.Docker.Sized.{GeneratedOutcome, generate_for-GeneratedOutcome}
use stereoscope.Image.Oci.{chosen_manifest}
use stereoscope.Image.Oci.Directory.{Chosen, chosen_manifest-Chosen}
use stereoscope.Image.Platform.{Platform}
use stereoscope.Image.PullStatus.{PullStatus, new_pull_status, on_events}
use stereoscope.Image.PullStatus.Tracked.{IsTracked}
use stereoscope.Tests.Clients.{one_authority, file_library, TlsState}
use stereoscope.Tests.Images.{counter, named_kinds}
use stereoscope.Prelude.{
  ℕ, suc, List, [], ◌∷◌, ◌++◌, none, some, true, Str, codes, str_eq, ◌≡◌, ◌≢◌, refl, if◌then◌else◌,
  ◌==◌,
}

-- A value that sets all fields, and one that sets the status alone.
abbrev whole_event : Str → Str → Decoded
whole_event id status before = some (record { id = id; status = status; current = 3; total = 9 })

abbrev new_status : Str → Decoded
new_status status none = some (record { id = []; status = status; current = 0; total = 0 })
new_status status (some e) = some (record e { status = status })

abbrev stream : List Decoded
stream =
    whole_event (codes "image") (codes "Pulling")
    ∷ whole_event (codes "layer") (codes "Downloading")
    ∷ new_status (codes "Digest: sha256:1")
    ∷ []

show_events-tracked_example :
    (p : PullStatus ℕ) × (on_events counter (progressing (decoded stream none).0) new_pull_status
      ≡ ok p)
    × (show_events counter stream none none new_pull_status
        ≡ ((if (decoded stream none).1 then err panics else ended none), p))
    × IsTracked counter p
show_events-tracked_example = show_events-tracked counter stream none

-- A daemon that has the image from the first pull on; its world counts the pulls.
abbrev amd64 : Platform
amd64 = record { architecture = codes "amd64"; os = codes "linux"; variant = [] }

abbrev alpine : Inspect
alpine = record {
  os = codes "linux";
  architecture = codes "amd64";
  repo_tags = codes "alpine:latest" ∷ [];
  repo_digests = [];
}

abbrev small_daemon : DaemonApi ℕ Str
small_daemon = record {
  new_client = λ w. (ok tt, w);
  ping = λ w. (ok (codes "1.44"), w);
  inspect = λ ref w. ((if w == 0 then not_found else inspected alpine), w);
  image_pull = λ ref options w. (ok (record { values = stream; end = none }), suc w);
  image_save = λ ref w. (ok (codes "tar"), w);
  new_directory = λ name w. (ok (codes "/tmp/1"), w);
  create_tar = λ dir w. (ok (dir ++ codes "/image.tar"), w);
  copy = λ file reader w. (ok 3, w);
}

abbrev no_login : AuthLibrary Str
no_login = record {
  load_config = ok tt;
  registry_of = λ ref. ok (codes "index.docker.io");
  get_auth_config = λ url. ok [];
  is_empty_auth = λ a. str_eq a [];
  encode_credentials = λ a. ok a;
}

abbrev as_tag : Str → Result ParsedName
as_tag s = ok (tag_name (s ++ codes ":latest") s)

abbrev unpulled : ℕ × List (Pull ℕ)
unpulled = (0, [])

provide_saved-ProvideOutcome_example :
    ProvideOutcome counter no_login small_daemon
      (codes "docker")
      (some amd64)
      as_tag
      (codes "alpine")
      unpulled
      (provide_saved counter no_login small_daemon
        (codes "docker")
        (some amd64)
        as_tag
        (codes "alpine")
        unpulled)
provide_saved-ProvideOutcome_example =
    provide_saved-ProvideOutcome counter no_login small_daemon (codes "docker") (some amd64) as_tag
      (codes "alpine") unpulled

-- An archive of a configuration and a layer.
abbrev archive_entry : Str → ℕ → TarStep
archive_entry name size =
    entry (record { name = name; type_flag = b'0'; link_name = []; uid = 0; gid = 0 }) size 420
      (codes "x") (codes "x") (ok 512)

abbrev docker_archive : TarFile
docker_archive = record {
  opened = ok (archive_entry (codes "config.json") 1 ∷ archive_entry (codes "1/layer.tar") 7 ∷ []);
  rewind = ok tt;
}

abbrev one_entry : DockerEntry
one_entry = record {
  config = codes "config.json";
  repo_tags = [];
  layers = codes "1/layer.tar" ∷ [];
}

-- A library for which each configuration has two layers.
abbrev two_ids : ManifestLibrary
two_ids = record {
  parse_manifest = λ raw. ok (one_entry ∷ []);
  diff_ids_of = λ config. ok (codes "sha256:1" ∷ codes "sha256:2" ∷ []);
  marshal = λ m. ok [];
  sha256 = λ s. codes "sha256:" ++ s;
  new_tag = λ t. ok t;
}

parses : (config : Str) → two_ids.diff_ids_of config ≢ err panics
parses config h = cc

generate_for-GeneratedOutcome_example :
    GeneratedOutcome two_ids docker_archive one_entry
      (generate_for two_ids docker_archive one_entry)
generate_for-GeneratedOutcome_example =
    generate_for-GeneratedOutcome two_ids docker_archive one_entry parses

-- The archive has one layer of the two.
archive_panics : generate_for two_ids docker_archive one_entry ≡ err panics
unfolding generate_for stereoscope.File.Tar.iterate_tar stereoscope.File.Tar.iterate_from
    stereoscope.File.Tar.visited stereoscope.File.Tar.take_reader str_eq
    stereoscope.File.Tar.is_stop
archive_panics = refl

-- A containerd that has the index of an image from the first pull on.
abbrev image_index : Descriptor
image_index = record {
  media_type = codes "application/vnd.oci.image.index.v1+json";
  digest = codes "sha256:1";
}

abbrev image_manifest : Descriptor
image_manifest = record {
  media_type = codes "application/vnd.oci.image.manifest.v1+json";
  digest = codes "sha256:2";
}

abbrev image_config : Descriptor
image_config = record {
  media_type = codes "application/vnd.oci.image.config.v1+json";
  digest = codes "sha256:3";
}

abbrev small_containerd : ContainerdApi ℕ TlsState Str
small_containerd = record {
  new_client = λ w. (ok tt, w);
  get_image = λ ref w. ((if w == 0 then err (from_library []) else ok image_index), w);
  read_blob = λ d w. (ok d.digest, w);
  pull = λ ref request w. ((ok tt, image_index ∷ image_manifest ∷ []), suc w);
  export = λ file image p w. (ok tt, w);
  new_directory = λ name w. (ok (codes "/tmp/1"), w);
  create_tar = λ dir w. (ok (dir ++ codes "/image.tar"), w);
}

abbrev small_library : ContainerdLibrary Str Str
small_library = record {
  index_of = λ bytes. ok (record { descriptor = image_manifest; platform = some amd64 } ∷ []);
  config_of = λ bytes. ok image_config;
  platform_of = λ bytes. ok amd64;
  parse_platform = λ p. ok p;
  matches = λ wanted p. true;
  registry_of = λ insecure ref. ok (codes "docker.io");
  authorization = λ auth. ok (auth, auth);
}

abbrev no_session : ℕ × List Jobs
no_session = (0, [])

pull_image_if_missing-PullOutcome_example :
    PullOutcome small_containerd small_library named_kinds file_library one_authority
      (some amd64)
      (check_registry_host_missing (codes "alpine"))
      no_session
      (pull_image_if_missing small_containerd small_library named_kinds file_library one_authority
        (some amd64)
        (codes "alpine")
        no_session)
pull_image_if_missing-PullOutcome_example =
    pull_image_if_missing-PullOutcome small_containerd small_library named_kinds file_library
      one_authority (some amd64) (codes "alpine") no_session

abbrev two_digests : List Str
two_digests = codes "sha256:1" ∷ codes "sha256:2" ∷ []

chosen_manifest-Chosen_example : Chosen two_digests (chosen_manifest two_digests)
chosen_manifest-Chosen_example = chosen_manifest-Chosen two_digests
