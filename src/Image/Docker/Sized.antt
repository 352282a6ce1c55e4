-- ===== src/Image/Docker/Sized.antt =====
-- The manifests that pkg/image/docker/manifest.go makes of the archives of docker.
use mathlib.Core.Path.{subst}
use stereoscope.Errors.{Failure, Result, ok, err, ◌>>=◌, bind-eq-ok, panics}
use stereoscope.File.Tar.{TarStep, reader_from_tar}
use stereoscope.Image.Docker.Manifest.{
  DockerEntry, OciDescriptor, OciManifest, ManifestLibrary, TarFile, size_from_tar, layer_sizes,
  layer_descriptors, Generated, is_panic, assemble_oci_manifest, config_and_sizes, generate_for,
}
use stereoscope.Prelude.{
  ℕ, ◌<◌, List, [], ◌∷◌, none, some, true, Str, ◌++◌, length, map, ◌≡◌, ◌≢◌, codes, refl, ap, ◌∙◌,
  arith, if◌then◌else◌, if-keeps,
}

same : {A : Type 0} {x y : A} → ok x ≡ ok y → x ≡ y
same e = cc

given : {A : Type 0} {x y : A} → some x ≡ some y → x ≡ y
given e = cc

panic : (e : Failure) → is_panic e ≡ true → e ≡ panics
panic panics h = refl
panic other h = cc

-- Each size is that of the entry of the archive at the path.
abbrev pub SizesOf : List TarStep → List Str → List ℕ → Type 0
SizesOf steps [] [] = Unit
SizesOf steps (p ∷ ps) (n ∷ ns) = (size_from_tar steps p ≡ ok n) × SizesOf steps ps ns
SizesOf steps paths sizes = ⊥

layer_sizes-SizesOf :
    (f : TarFile) (steps : List TarStep) (paths : List Str) (sizes : List ℕ)
    → layer_sizes f steps paths ≡ ok sizes
    → SizesOf steps paths sizes
unfolding layer_sizes
layer_sizes-SizesOf f steps [] [] h = tt
layer_sizes-SizesOf f steps [] (n ∷ ns) h = cc
layer_sizes-SizesOf f steps (p ∷ ps) sizes h =
    let (u, back, h1) = bind-eq-ok f.rewind _ h in
    let (size, read, h2) = bind-eq-ok (size_from_tar steps p) _ h1 in
    let (rest, all, h3) = bind-eq-ok (layer_sizes f steps ps) _ h2 in
    subst (SizesOf steps (p ∷ ps)) (same h3) (read, layer_sizes-SizesOf f steps ps rest all)

-- The descriptors have the digests, and each has a size of a layer, in their order; a panic if the layers are fewer.
abbrev pub Described : List Str → List ℕ → Result (List OciDescriptor) → Type 0
Described ds sizes (ok layers) =
    (map (λ l. l.digest) layers ≡ ds)
    × ((rest : List ℕ) × (sizes ≡ map (λ l. l.size) layers ++ rest))
Described ds sizes (err e) = (e ≡ panics) × (length sizes < length ds)

layer_descriptors-Described :
    (ds : List Str) (sizes : List ℕ) → Described ds sizes (layer_descriptors ds sizes)
unfolding layer_descriptors
layer_descriptors-Described [] sizes = (refl, (sizes, refl))
layer_descriptors-Described (d ∷ ds) [] = (refl, omega arith)
layer_descriptors-Described (d ∷ ds) (n ∷ sizes) =
    go (layer_descriptors ds sizes) (layer_descriptors-Described ds sizes)
  where
    described : OciDescriptor
    described = record {
      media_type = codes "application/vnd.docker.image.rootfs.diff.tar.gzip";
      size = n;
      digest = d;
    }

    go :
        (x : Result (List OciDescriptor))
        → Described ds sizes x
        → Described (d ∷ ds) (n ∷ sizes) (x >>= λ rest. ok (described ∷ rest))
    go (ok layers) h = (ap (λ l. d ∷ l) h.0, (h.1.0, ap (λ l. n ∷ l) h.1.1))
    go (err e) h = (h.0, omega (arith, h.1))

module _ (library : ManifestLibrary) (f : TarFile) (entry : DockerEntry) where
  -- The configuration and the sizes of the layers of an archive.
  pub record Read (config : Str) (sizes : List ℕ) : Type 0 where
    pub steps : List TarStep
    pub opens : f.opened ≡ ok steps
    pub config_read : reader_from_tar steps entry.config ≡ ok config
    pub sizes_read : SizesOf steps entry.layers sizes

  config_and_sizes-Read :
      (config : Str) (sizes : List ℕ)
      → config_and_sizes library f entry ≡ ok (config, sizes)
      → Read config sizes
  unfolding config_and_sizes
  config_and_sizes-Read config sizes h =
      let (steps, opens, h1) = bind-eq-ok f.opened _ h in
      let (config', read, h2) = bind-eq-ok (reader_from_tar steps entry.config) _ h1 in
      let (sizes', all, h3) = bind-eq-ok (layer_sizes f steps entry.layers) _ h2 in
      let here : Read config' sizes' = record {
        steps = steps;
        opens = opens;
        config_read = read;
        sizes_read = layer_sizes-SizesOf f steps entry.layers sizes' all;
      } in
      subst (λ x. Read x.0 x.1) (same h3) here

  -- A manifest that was made of an archive.
  pub record Made (g : Generated) (m : OciManifest) : Type 0 where
    pub config : Str
    pub sizes : List ℕ
    pub is_read : Read config sizes
    pub diff_ids : List Str
    pub parsed : library.diff_ids_of config ≡ ok diff_ids
    pub described : Described diff_ids sizes (ok m.layers)
    pub is_config : g.config ≡ some config
    pub digest : m.config.digest ≡ library.sha256 config

  -- An archive with fewer layers than its configuration has digests.
  pub record TooFew : Type 0 where
    pub config : Str
    pub sizes : List ℕ
    pub is_read : Read config sizes
    pub diff_ids : List Str
    pub parsed : library.diff_ids_of config ≡ ok diff_ids
    pub fewer : length sizes < length diff_ids

  abbrev pub GeneratedOutcome : Result Generated → Type 0
  GeneratedOutcome (ok g) = (m : OciManifest) → g.manifest ≡ some m → Made g m
  GeneratedOutcome (err e) = (e ≡ panics) × TooFew

  -- A manifest that is made of an archive with one image has the digest of the configuration that the archive
  -- holds, and for each layer the digest of that configuration, in order, with the size of the entry of that
  -- layer in the archive. If parsing a configuration does not panic, then making a manifest panics only on an archive
  -- whose configuration has more digests than there are layers.
  pub generate_for-GeneratedOutcome :
      ((config : Str) → library.diff_ids_of config ≢ err panics)
      → GeneratedOutcome (generate_for library f entry)
  unfolding generate_for assemble_oci_manifest
  generate_for-GeneratedOutcome parses = go (config_and_sizes library f entry) config_and_sizes-Read
    where
      assembled : Str → List ℕ → Result OciManifest → Result Generated
      assembled config sizes x = elim x [
        | ok m ↦ ok (record { manifest = some m; config = some config })
        | err failure ↦
            if is_panic failure
            then err panics
            else ok (record { manifest = none; config = some config })
      ]

      from_layers : Str → Result (List OciDescriptor) → Result OciManifest
      from_layers config y = y >>= λ layers. ok (record {
        schema_version = 2;
        media_type = codes "application/vnd.docker.distribution.manifest.v2+json";
        config = record {
          media_type = codes "application/vnd.docker.container.image.v1+json";
          size = length config;
          digest = library.sha256 config;
        };
        layers = layers;
      })

      with_layers :
          (config : Str) (sizes : List ℕ) (ds : List Str)
          → Read config sizes
          → library.diff_ids_of config ≡ ok ds
          → (y : Result (List OciDescriptor)) → Described ds sizes y
          → GeneratedOutcome (assembled config sizes (from_layers config y))
      with_layers config sizes ds read at (ok layers) h = λ m is_m.
          subst (Made (record { manifest = some _; config = some config })) (given is_m) (record {
            config = config;
            sizes = sizes;
            is_read = read;
            diff_ids = ds;
            parsed = at;
            described = h;
            is_config = refl;
            digest = refl;
          })
      with_layers config sizes ds read at (err e) h = rw h.0 (
        refl,
        record {
          config = config;
          sizes = sizes;
          is_read = read;
          diff_ids = ds;
          parsed = at;
          fewer = h.1;
        },
      )

      with_ids :
          (config : Str) (sizes : List ℕ)
          → Read config sizes
          → (x : Result (List Str)) → library.diff_ids_of config ≡ x
          → GeneratedOutcome
              (assembled config sizes (x >>= λ ds. from_layers config (layer_descriptors ds sizes)))
      with_ids config sizes read (ok ds) at =
          with_layers config sizes ds read at (layer_descriptors ds sizes)
            (layer_descriptors-Described ds sizes)
      with_ids config sizes read (err e) at =
          if-keeps GeneratedOutcome (is_panic e) _ _
            (λ p. absurd (parses config (at ∙ ap (λ d. err d) (panic e p)))) (λ p m is_m. cc)

      go :
          (x : Result (Str × List ℕ))
          → ((config : Str) (sizes : List ℕ) → x ≡ ok (config, sizes) → Read config sizes)
          → GeneratedOutcome (elim x [
            | err failure ↦ ok (record { manifest = none; config = none })
            | ok (config, sizes) ↦
                assembled config sizes (assemble_oci_manifest library config sizes)
          ])
      go (err failure) read = λ m at. cc
      go (ok (config, sizes)) read =
          with_ids config sizes (read config sizes refl) (library.diff_ids_of config) refl
