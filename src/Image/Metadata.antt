-- ===== src/Image/Metadata.antt =====
-- pkg/image/image_metadata.go and the options of pkg/image/image.go: what is known of an image. `sha256` gives
-- the digest with its prefix; `new_tag` is `name.NewTag`, followed by the text of the tag.
use stereoscope.Errors.{Result, ok, err, ◌>>=◌, unknown_name}
use stereoscope.Go.Maps.{elem}
use stereoscope.Go.Strings.{contains, split}
use stereoscope.Image.Platform.{is_known_arch, is_known_os, new_platform}
use stereoscope.Prelude.{
  ℕ, List, [], ◌∷◌, ◌++◌, Option, none, some, not, Str, codes, str_eq, byte_string_eq,
  if◌then◌else◌,
}

-- `Metadata`; of its configuration, the digests of the layers. A tag is its text.
pub record ImageMetadata : Type 0 where
  pub id : Str
  pub size : ℕ
  pub diff_ids : List Str
  pub media_type : Str
  pub tags : List Str
  pub raw_manifest : Str
  pub manifest_digest : Str
  pub raw_config : Str
  pub repo_digests : List Str
  pub architecture : Str
  pub variant : Str
  pub os : Str

-- A `v1.Image` of go-containerregistry, without its layers.
pub record SourceMetadata : Type 0 where
  pub config_name : Result Str
  pub config_file : Result (List Str)
  pub media_type : Result Str
  pub raw_config_file : Result Str

-- `readImageMetadata`
unfoldable pub read_image_metadata : SourceMetadata → Result ImageMetadata
read_image_metadata img = do
  id ← img.config_name
  diff_ids ← img.config_file
  media_type ← img.media_type
  raw_config ← img.raw_config_file
  ok (record {
    id = id;
    size = 0;
    diff_ids = diff_ids;
    media_type = media_type;
    tags = [];
    raw_manifest = [];
    manifest_digest = [];
    raw_config = raw_config;
    repo_digests = [];
    architecture = [];
    variant = [];
    os = [];
  })

-- `AdditionalMetadata`: a change of the metadata, which is kept only if it does not fail.
abbrev pub AdditionalMetadata : Type 0
AdditionalMetadata = ImageMetadata → Result ImageMetadata

-- The first part of a text.
unfoldable pub head_or_empty : List Str → Str
head_or_empty [] = []
head_or_empty (x ∷ xs) = x

module _ (new_tag : Str → Result Str) where
  -- A text that names a tag, without its digest.
  unfoldable pub tag_of : Str → Option Str
  unfolding head_or_empty split contains
  tag_of t =
      let with_no_digest = head_or_empty (split t b'@') in
      if not (contains with_no_digest (codes ":"))
      then none
      else elim (new_tag with_no_digest) [ err e ↦ none | ok tag ↦ some tag ]

  -- The loop of `WithTags`; the tags that were there before the loop are passed over.
  unfoldable pub add_tags : List Str → List Str → List Str → List Str
  add_tags existing [] tags = tags
  add_tags existing (t ∷ ts) tags = elim (tag_of t) [
    | none ↦ add_tags existing ts tags
    | some tag ↦ add_tags existing ts (if elem tag existing then tags else tags ++ tag ∷ [])
  ]

  -- `WithTags`
  unfoldable pub with_tags : List Str → AdditionalMetadata
  unfolding add_tags
  with_tags given m = ok (record m { tags = add_tags m.tags given m.tags })

module _ (sha256 : Str → Str) where
  -- `WithManifest`
  unfoldable pub with_manifest : Str → AdditionalMetadata
  with_manifest manifest m =
      ok (record m { raw_manifest = manifest; manifest_digest = sha256 manifest })

  -- `WithConfig`
  unfoldable pub with_config : Str → AdditionalMetadata
  with_config config m = ok (record m { raw_config = config; id = sha256 config })

-- `WithManifestDigest`
unfoldable pub with_manifest_digest : Str → AdditionalMetadata
with_manifest_digest digest m = ok (record m { manifest_digest = digest })

-- `WithRepoDigests`
unfoldable pub with_repo_digests : List Str → AdditionalMetadata
with_repo_digests digests m = ok (record m { repo_digests = m.repo_digests ++ digests })

-- `WithPlatform`
unfoldable pub with_platform : Str → Str → AdditionalMetadata
unfolding new_platform
with_platform goos platform m = new_platform goos platform >>= λ p.
    ok (record m { architecture = p.architecture; variant = p.variant; os = p.os })

-- `WithArchitecture`
unfoldable pub with_architecture : Str → Str → AdditionalMetadata
unfolding is_known_arch
with_architecture architecture variant m =
    if str_eq architecture []
    then ok m
    else if not (is_known_arch architecture)
    then err (unknown_name architecture)
    else ok (record m { architecture = architecture; variant = variant })

-- `WithOS`
unfoldable pub with_os : Str → AdditionalMetadata
unfolding is_known_os
with_os o m =
    if str_eq o []
    then ok m
    else if not (is_known_os o)
    then err (unknown_name o)
    else ok (record m { os = o })

-- `applyOverrideMetadata`; the changes before one that fails are kept.
unfoldable pub apply_override_metadata :
    List AdditionalMetadata → ImageMetadata → Result (Unit {0}) × ImageMetadata
apply_override_metadata [] m = (ok tt, m)
apply_override_metadata (option ∷ options) m = elim (option m) [
  | err e ↦ (err e, m)
  | ok m' ↦ apply_override_metadata options m'
]
