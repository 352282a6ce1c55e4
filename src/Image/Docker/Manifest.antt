-- ===== src/Image/Docker/Manifest.antt =====
-- pkg/image/docker/manifest.go and tarball_provider.go: an archive of docker, its manifest, and the image. A digest is
-- its text. What is written to the log is left out.
use stereoscope.Errors.{
  Failure, Result, ok, err, Act, ◌>>=◌, stop_iteration, from_library, multiple_manifests,
  no_manifest, panics,
}
use stereoscope.File.LazyReader.{LazyReader}
use stereoscope.File.Tar.{TarStep, TarFileEntry, iterate_tar, found_or, reader_from_tar}
use stereoscope.Image.Images.{SourceImage, Image, read_image}
use stereoscope.Image.Layer.{LayerCache}
use stereoscope.Image.Metadata.{AdditionalMetadata, with_tags, with_manifest, with_config}
use stereoscope.Prelude.{
  ℕ, List, [], ◌∷◌, ◌++◌, Option, none, some, Bool, true, false, Str, codes, str_eq, length,
  if◌then◌else◌,
}

-- An entry of `tarball.Manifest`.
pub record DockerEntry : Type 0 where
  pub config : Str
  pub repo_tags : List Str
  pub layers : List Str

-- `v1.Descriptor`
pub record OciDescriptor : Type 0 where
  pub media_type : Str
  pub size : ℕ
  pub digest : Str

-- `v1.Manifest`
pub record OciManifest : Type 0 where
  pub schema_version : ℕ
  pub media_type : Str
  pub config : OciDescriptor
  pub layers : List OciDescriptor

-- The libraries: the JSON of a manifest and its printing, the digests of the layers of a configuration, and SHA256.
pub record ManifestLibrary : Type 0 where
  pub parse_manifest : Str → Result (List DockerEntry)
  pub diff_ids_of : Str → Result (List Str)
  pub marshal : OciManifest → Result Str
  pub sha256 : Str → Str
  pub new_tag : Str → Result Str

-- A file: what opening it and reading its archive gives, and whether a seek to its start fails.
pub record TarFile : Type 0 where
  pub opened : Result (List TarStep)
  pub rewind : Result (Unit {0})

unfoldable pub take_size : Str → TarFileEntry → Act (Option ℕ) (Unit {0})
take_size path e s =
    if str_eq e.header.name path then (err stop_iteration, some e.size) else (ok tt, s)

-- `file.MetadataFromTar` of pkg/file/tarutil.go, of which the size alone is read here
unfoldable pub size_from_tar : List TarStep → Str → Result ℕ
unfolding take_size
size_from_tar steps path = found_or path (iterate_tar steps (take_size path) none)

-- The loop of `generateOCIManifest` over the layers.
unfoldable pub layer_sizes : TarFile → List TarStep → List Str → Result (List ℕ)
unfolding size_from_tar
layer_sizes f steps [] = ok []
layer_sizes f steps (path ∷ paths) = do
  u ← f.rewind
  size ← size_from_tar steps path
  sizes ← layer_sizes f steps paths
  ok (size ∷ sizes)

-- The loop of `assembleOCIManifest`: `layerSizes[idx]` is a panic if there are fewer sizes.
unfoldable pub layer_descriptors : List Str → List ℕ → Result (List OciDescriptor)
layer_descriptors [] sizes = ok []
layer_descriptors (d ∷ ds) [] = err panics
layer_descriptors (d ∷ ds) (size ∷ sizes) = layer_descriptors ds sizes >>= λ rest. ok (
    record {
      media_type = codes "application/vnd.docker.image.rootfs.diff.tar.gzip";
      size = size;
      digest = d;
    }
    ∷ rest)

-- `allTags`
unfoldable pub all_tags : List DockerEntry → List Str
all_tags [] = []
all_tags (e ∷ es) = e.repo_tags ++ all_tags es

-- What `generateOCIManifest` returns besides its error: a panic ends the program.
pub record Generated : Type 0 where
  pub manifest : Option OciManifest
  pub config : Option Str

abbrev pub is_panic : Failure → Bool
is_panic panics = true
is_panic other = false

-- The error text of go-containerregistry for archives with several images.
unfoldable pub is_not_single : Failure → Bool
is_not_single (from_library text) =
    str_eq text (codes "tarball must contain only a single image to be used with tarball.Image")
is_not_single other = false

module _ (library : ManifestLibrary) where
  -- `newManifest`
  unfoldable pub new_manifest : Str → Result (List DockerEntry)
  new_manifest raw = library.parse_manifest raw >>= λ parsed. elim parsed [
    | [] ↦ err no_manifest
    | e ∷ es ↦ ok (e ∷ es)
  ]

  -- `extractManifest`
  unfoldable pub extract_manifest : TarFile → Result (List DockerEntry)
  unfolding reader_from_tar new_manifest
  extract_manifest f = do
    steps ← f.opened
    contents ← reader_from_tar steps (codes "manifest.json")
    new_manifest contents

  -- `assembleOCIManifest`
  unfoldable pub assemble_oci_manifest : Str → List ℕ → Result OciManifest
  unfolding layer_descriptors
  assemble_oci_manifest config sizes = do
    diff_ids ← library.diff_ids_of config
    layers ← layer_descriptors diff_ids sizes
    ok (record {
      schema_version = 2;
      media_type = codes "application/vnd.docker.distribution.manifest.v2+json";
      config = record {
        media_type = codes "application/vnd.docker.container.image.v1+json";
        size = length config;
        digest = library.sha256 config;
      };
      layers = layers;
    })

  -- The contents of the configuration and the sizes of the layers, for the entry of a manifest.
  unfoldable pub config_and_sizes : TarFile → DockerEntry → Result (Str × List ℕ)
  unfolding reader_from_tar layer_sizes
  config_and_sizes f e = do
    steps ← f.opened
    config ← reader_from_tar steps e.config
    sizes ← layer_sizes f steps e.layers
    ok (config, sizes)

  -- `generateOCIManifest` behind its check of the number of entries. An error is logged by its caller only.
  unfoldable pub generate_for : TarFile → DockerEntry → Result Generated
  unfolding config_and_sizes assemble_oci_manifest
  generate_for f e = elim (config_and_sizes f e) [
    | err failure ↦ ok (record { manifest = none; config = none })
    | ok (config, sizes) ↦ elim (assemble_oci_manifest config sizes) [
      | ok m ↦ ok (record { manifest = some m; config = some config })
      | err failure ↦
          if is_panic failure
          then err panics
          else ok (record { manifest = none; config = some config })
    ]
  ]

  -- `generateOCIManifest`
  unfoldable pub generate_oci_manifest : TarFile → List DockerEntry → Result Generated
  unfolding generate_for
  generate_oci_manifest f [] = ok (record { manifest = none; config = none })
  generate_oci_manifest f (e ∷ []) = generate_for f e
  generate_oci_manifest f (e ∷ e2 ∷ es) = ok (record { manifest = none; config = none })

  -- The metadata of a manifest that was generated.
  unfoldable pub generated_metadata : Generated → List AdditionalMetadata
  generated_metadata g =
      (elim g.config [ none ↦ [] | some config ↦ with_config library.sha256 config ∷ [] ])
      ++ (elim g.manifest [
        | none ↦ []
        | some m ↦ elim (library.marshal m) [
          | err e ↦ []
          | ok raw ↦ with_manifest library.sha256 raw ∷ []
        ]
      ])

  -- The metadata that `Provide` makes of the archive, as far as it can.
  unfoldable pub archive_metadata : TarFile → Result (List AdditionalMetadata)
  unfolding extract_manifest generate_oci_manifest generated_metadata all_tags
  archive_metadata f = elim (extract_manifest f) [
    | err e ↦ ok []
    | ok es ↦ generate_oci_manifest f es >>= λ g.
        ok (with_tags library.new_tag (all_tags es) ∷ generated_metadata g)
  ]

  module _ (mime_of : LazyReader → Str) (tar_types : List Str) where
    -- `Provide` of the provider for archives, on what the library and the file give, and the result of making a
    -- directory.
    unfoldable pub provide_archive :
        Result SourceImage
        → TarFile
        → List AdditionalMetadata
        → Result Str
        → ℕ
        → LayerCache
        → Result Image
    unfolding archive_metadata is_not_single
    provide_archive image f additional new_directory next_id cache = elim image [
      | err e ↦ if is_not_single e then err multiple_manifests else err e
      | ok source ↦ do
        metadata ← archive_metadata f
        dir ← new_directory
        read_image mime_of tar_types (metadata ++ additional) dir source next_id cache
    ]
