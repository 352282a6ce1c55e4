-- ===== src/Image/Docker/Daemon.antt =====
-- `Provide` of pkg/image/docker/daemon_provider.go, and pkg/image/parse_reference.go. The deferred calls, which close
-- what was opened, and the progress of a save are left out.
use stereoscope.Errors.{
  Failure, Result, ok, err, Act, after, ◌>>=◌, no_api_response, wrong_platform, empty_image,
}
use stereoscope.Go.Strings.{has_suffix}
use stereoscope.Image.Docker.Pulls.{Events, PullOptions, AuthLibrary, Pull, pull}
use stereoscope.File.LazyReader.{LazyReader}
use stereoscope.Image.Docker.Manifest.{ManifestLibrary, TarFile, provide_archive}
use stereoscope.Image.Images.{SourceImage, Image}
use stereoscope.Image.Layer.{LayerCache}
use stereoscope.Image.Metadata.{
  AdditionalMetadata, with_tags, with_repo_digests, with_architecture, with_os,
}
use stereoscope.Image.Platform.{Platform}
use stereoscope.Image.PullStatus.{Manual}
use stereoscope.Prelude.{
  ℕ, List, [], ◌∷◌, ◌++◌, Option, none, some, not, Str, codes, str_eq, length, take, ◌-◌, ◌==◌,
  if◌then◌else◌,
}

-- A reference as `name.ParseReference` reads it: a tag with its name and its text, or another one.
pub data ParsedName : Type 0 where
  tag_name : Str → Str → ParsedName
  other_name : ParsedName

-- `ParseReference`, by `name.ParseReference` with no default registry
unfoldable pub parse_reference : (Str → Result ParsedName) → Str → Result (Str × Str)
parse_reference parse_name image_str = parse_name image_str >>= λ n. elim n [
  | tag_name name original ↦ ok (name, original)
  | other_name ↦ ok (image_str, [])
]

-- `strings.TrimSuffix`
unfoldable pub trim_suffix : Str → Str → Str
unfolding has_suffix
trim_suffix s suffix = if has_suffix s suffix then take (length s - length suffix) s else s

-- What the source reads of `types.ImageInspect`.
pub record Inspect : Type 0 where
  pub os : Str
  pub architecture : Str
  pub repo_tags : List Str
  pub repo_digests : List Str

-- What `ImageInspectWithRaw` returns: an image, that there is none (`IsErrNotFound`), or another error.
pub data Inspected : Type 0 where
  inspected : Inspect → Inspected
  not_found : Inspected
  inspect_failed : Failure → Inspected

-- The API of the daemon and the files, as calls on the world; `R` is the type of the readers of a saved image.
pub record DaemonApi (W R : Type 0) : Type 0 where
  pub new_client : Act W (Unit {0})
  pub ping : Act W Str
  pub inspect : Str → W → Inspected × W
  pub image_pull : Str → PullOptions → Act W Events
  pub image_save : Str → Act W R
  pub new_directory : Str → Act W Str
  pub create_tar : Str → Act W Str
  -- `io.Copy` into the file, with the number of bytes
  pub copy : Str → R → Act W ℕ

-- `validatePlatform`
unfoldable pub validate_platform : Option Platform → Inspect → Result (Unit {0})
validate_platform none i = ok tt
validate_platform (some p) i =
    if not (str_eq i.os p.os)
    then err (wrong_platform i.os p.os)
    else if not (str_eq i.architecture p.architecture)
    then err (wrong_platform i.architecture p.architecture)
    else ok tt

-- `withInspectMetadata`
unfoldable pub with_inspect_metadata : (Str → Result Str) → Inspect → List AdditionalMetadata
with_inspect_metadata new_tag i =
    with_tags new_tag i.repo_tags
    ∷ with_repo_digests i.repo_digests
    ∷ with_architecture i.architecture []
    ∷ with_os i.os
    ∷ []

-- An inspection as a result.
unfoldable pub inspection : Inspected → Result Inspect
inspection (inspected i) = ok i
inspection not_found = err (Failure.file_not_found [])
inspection (inspect_failed e) = err e

-- What go-containerregistry and the file system give for the path of an archive.
pub record Archives : Type 0 where
  pub image_from_path : Str → Result SourceImage
  pub tar_file : Str → TarFile

-- An image to provide: the file that it was saved to, and what was known of it.
pub record Saved : Type 0 where
  pub file : Str
  pub known : Inspect

module _ {M A W R : Type 0} (manual : Manual M) (auth : AuthLibrary A) (api : DaemonApi W R)
    (name : Str) (platform : Option Platform) where
  -- The world and the pulls so far.
  abbrev pub Daemon : Type 0
  Daemon = W × List (Pull M)

  -- A call of the daemon.
  abbrev pub call : {B : Type 0} → Act W B → Act Daemon B
  call f s = ((f s.0).0, ((f s.0).1, s.1))

  -- The two inspections of `pullImageIfMissing`, with the reference that is pulled.
  unfoldable pub inspect_either : Str → Str → Daemon → (Str × Inspected) × Daemon
  unfolding trim_suffix
  inspect_either image_ref original s =
      let (first, w1) = api.inspect image_ref s.0 in
      let (second, w2) = api.inspect original w1 in
      let again : (Str × Inspected) × Daemon = elim second [
        | inspected i ↦ ((trim_suffix image_ref (codes ":latest"), inspected i), (w2, s.1))
        | not_found ↦ ((image_ref, not_found), (w2, s.1))
        | inspect_failed e ↦ ((image_ref, inspect_failed e), (w2, s.1))
      ] in
      elim first [
        | inspected i ↦ ((image_ref, inspected i), (w1, s.1))
        | not_found ↦ again
        | inspect_failed e ↦ again
      ]

  -- A pull, and the reference of the image.
  unfoldable pub pull_image : Str → Act Daemon Str
  unfolding pull
  pull_image image_ref s =
      after (pull manual auth api.image_pull platform image_ref s) (λ u s'. (ok image_ref, s'))

  -- `pullImageIfMissing` on what the inspections say.
  unfoldable pub pull_if_needed : Str → Inspected → Act Daemon Str
  unfolding pull_image validate_platform
  pull_if_needed image_ref not_found s = pull_image image_ref s
  pull_if_needed image_ref (inspect_failed e) s = (err e, s)
  pull_if_needed image_ref (inspected i) s = elim (validate_platform platform i) [
    | ok u ↦ (ok image_ref, s)
    | err e ↦ pull_image image_ref s
  ]

  -- `pullImageIfMissing`
  unfoldable pub pull_image_if_missing : (Str → Result ParsedName) → Str → Act Daemon Str
  unfolding parse_reference inspect_either pull_if_needed
  pull_image_if_missing parse_name image_str s = elim (parse_reference parse_name image_str) [
    | err e ↦ (err e, s)
    | ok (image_ref, original) ↦
        let (found, s1) = inspect_either image_ref original s in pull_if_needed found.0 found.1 s1
  ]

  -- `saveImage`; it inspects the image first, to estimate the progress.
  unfoldable pub save_image : Str → Act Daemon Str
  unfolding inspection
  save_image image_ref s =
      let (i, w) = api.inspect image_ref s.0 in
      after (inspection i, (w, s.1))
        (λ size s1. after (call (api.new_directory (name ++ codes "-daemon-image")) s1) (λ dir s2.
          after (call (api.create_tar dir) s2) (λ file s3.
            after (call (api.image_save image_ref) s3) (λ reader s4.
              after (call (api.copy file reader) s4)
                (λ n s5. if n == 0 then (err empty_image, s5) else (ok file, s5))))))

  -- The calls of `Provide` on an image that is there, up to its file.
  unfoldable pub save_validated : Str → Act Daemon Saved
  unfolding save_image validate_platform inspection
  save_validated image_ref s =
      let (i, w) = api.inspect image_ref s.0 in
      after (inspection i, (w, s.1))
        (λ known s1.
          after (validate_platform platform known, s1)
            (λ u s2.
              after (save_image image_ref s2)
                (λ file s3. (ok (record { file = file; known = known }), s3))))

  -- The calls of `Provide` before the provider for archives.
  unfoldable pub provide_saved : (Str → Result ParsedName) → Str → Act Daemon Saved
  unfolding pull_image_if_missing save_validated
  provide_saved parse_name image_str s = after (call api.new_client s) (λ u s1.
      after (call api.ping s1) (λ version s2.
        if str_eq version []
        then (err no_api_response, s2)
        else after (pull_image_if_missing parse_name image_str s2) save_validated))

  module _ (library : ManifestLibrary) (archives : Archives) (mime_of : LazyReader → Str)
      (tar_types : List Str) (next_id : ℕ) (cache : LayerCache) where
    -- `Provide` of the provider for archives, at a file
    unfoldable pub provide_file : Saved → Act Daemon Image
    unfolding provide_archive with_inspect_metadata
    provide_file saved s =
        let (dir, w) = api.new_directory (codes "docker-tarball-image") s.0 in
        let image = archives.image_from_path saved.file in
        (
          provide_archive library mime_of tar_types image (archives.tar_file saved.file)
              (with_inspect_metadata library.new_tag saved.known) dir next_id cache,
          (elim image [ err e ↦ s.0 | ok source ↦ w ], s.1),
        )

    -- `Provide`
    unfoldable pub provide_image : (Str → Result ParsedName) → Str → Act Daemon Image
    unfolding provide_saved provide_file
    provide_image parse_name image_str s = after (provide_saved parse_name image_str s) provide_file
