-- ===== src/Tests/Images.antt =====
-- Runs of pkg/image, and of the search of pkg/filetree.
use stereoscope.Errors.{Result, ok, err, link_cycle, link_depth, panics}
use stereoscope.File.LazyReader.{LazyReader}
use stereoscope.File.Metadata.{Header}
use stereoscope.File.Paths.{FilePath}
use stereoscope.File.Tar.{TarStep, entry}
use stereoscope.FileTree.Edit.{new_file_tree}
use stereoscope.FileTree.Formed.{IsFormed}
use stereoscope.FileTree.Merge.{squash}
use stereoscope.FileTree.Nodes.{FileNode, new_file}
use stereoscope.Go.Maps.{get, has, elem}
use stereoscope.Image.Images.{SourceImage, Image, read_image, squash_layers, squashed_tree}
use stereoscope.Image.Images.Complete.{InSomeTree, read_image_complete}
use stereoscope.Image.Images.Ends.{IsSquashed}
use stereoscope.Image.Images.Squashes.{Agrees, trees_of, squash_layers-Agrees}
use stereoscope.Image.Layer.{SourceLayer, Layer}
use stereoscope.Image.Metadata.{AdditionalMetadata, with_os}
use stereoscope.Image.Platform.{Platform, new_platform, to_string}
use stereoscope.Image.Platform.RoundTrip.{new_platform-to_string}
use stereoscope.Image.PullStatus.{
  PullEvent, Manual, PullStatus, new_pull_status, layers_of, on_events,
}
use stereoscope.Image.PullStatus.Tracked.{on_events-tracked}
use stereoscope.Image.Registry.{
  RegistryCredentials, AuthKinds, can_be_used, has_authority, authenticator, authenticator_for,
}
use stereoscope.Image.Registry.Chosen.{Any, authenticator_for_lem}
use stereoscope.Index.{IndexEntry}
use stereoscope.Search.Paths.{BackwardRefs, all_paths_to_node}
use stereoscope.Search.Terminates.{all_paths_to_node-ends}
use stereoscope.Tests.Trees.{bin_sh, usr_sh, one_file, linked, linked-IsKeyed}
use stereoscope.Tree.{Tree}
use stereoscope.Prelude.{
  ℕ, ◌+◌, List, [], ◌∷◌, ◌++◌, All, Option, none, some, Bool, true, false, Str, codes, ◌≡◌, ◌≢◌,
  refl, ◌⊎◌, arith, byte_string_eq, nat_eq,
}

-- The link leads back to the file.
abbrev sh_links : BackwardRefs
sh_links = (bin_sh, (usr_sh, tt) ∷ []) ∷ []

all_paths_to_node-ends_example :
    ((paths : List FilePath) × (all_paths_to_node linked.tree sh_links (new_file bin_sh none)
        ≡ ok paths))
    ⊎ ((all_paths_to_node linked.tree sh_links (new_file bin_sh none) ≡ err link_cycle)
        ⊎ (all_paths_to_node linked.tree sh_links (new_file bin_sh none) ≡ err link_depth))
all_paths_to_node-ends_example =
    all_paths_to_node-ends linked.tree sh_links linked-IsKeyed (new_file bin_sh none)

-- "armhf" is read as linux on arm, variant v7.
abbrev armhf : Platform
armhf = record { architecture = codes "arm"; os = codes "linux"; variant = codes "v7" }

armhf-read : new_platform (codes "linux") (codes "armhf") ≡ ok armhf
unfolding new_platform stereoscope.Prelude.str_eq stereoscope.Image.Platform.is_known_arch
armhf-read = refl

new_platform-to_string_example : new_platform (codes "linux") (to_string (some armhf)) ≡ ok armhf
new_platform-to_string_example =
    new_platform-to_string (codes "linux") (codes "armhf") armhf armhf-read

abbrev layer_of_tree : Tree FileNode → Layer
layer_of_tree t = record {
  metadata = record { index = 0; digest = []; media_type = []; size = 0 };
  tree = t;
  squashed_tree = none;
}

abbrev two_layers : List Layer
two_layers = layer_of_tree one_file.tree ∷ layer_of_tree linked.tree ∷ []

squash_layers-Agrees_example :
    Agrees squashed_tree (squash_layers two_layers 7) (squash (trees_of two_layers) 7)
squash_layers-Agrees_example = squash_layers-Agrees two_layers 7

-- An image with one layer, an archive of one file.
abbrev tar_layer : SourceLayer
tar_layer = record {
  media_type = ok (codes "tar");
  uncompressed = ok (
    entry (record { name = codes "a"; type_flag = b'0'; link_name = []; uid = 0; gid = 0 }) 1 420
          (codes "x") (codes "x") (ok 512)
        ∷ [],
    none,
  );
  squashfs_walk = err panics;
}

abbrev one_layer : SourceImage
one_layer = record {
  metadata = record {
    config_name = ok (codes "sha256:1");
    config_file = ok (codes "sha256:2" ∷ []);
    media_type = ok (codes "oci");
    raw_config_file = ok [];
  };
  layers = ok (tar_layer ∷ []);
}

abbrev plain_text : LazyReader → Str
plain_text r = codes "text/plain"

abbrev reading : Result Image
reading =
    read_image plain_text (codes "tar" ∷ []) (with_os (codes "linux") ∷ []) (codes "/cache")
      one_layer 0 []

abbrev succeeds : Result Image → Bool
succeeds (ok image) = true
succeeds (err e) = false

image_of : (x : Result Image) → succeeds x ≡ true → (image : Image) × (x ≡ ok image)
image_of (ok image) h = (image, refl)
image_of (err e) h = cc

reading-succeeds : succeeds reading ≡ true
unfolding stereoscope.Builder.add_to_tree stereoscope.Builder.add
    stereoscope.File.Metadata.new_metadata stereoscope.File.Paths.trim_blanks
    stereoscope.File.Paths.clean_or_root stereoscope.File.Paths.normalize
    stereoscope.File.Paths.parent_path stereoscope.File.Tar.visited
    stereoscope.File.Tar.iterate_from stereoscope.File.Tar.iterate_tar
    stereoscope.File.Tar.index_visitor stereoscope.FileTree.Edit.new_file_tree
    stereoscope.FileTree.Edit.set_file_node stereoscope.FileTree.Edit.add_parent_paths
    stereoscope.FileTree.Edit.add_new stereoscope.FileTree.Edit.add_kind
    stereoscope.FileTree.Edit.add_file stereoscope.FileTree.Nodes.new_dir
    stereoscope.FileTree.Nodes.new_file stereoscope.FileTree.Nodes.has_file_node
    stereoscope.FileTree.Resolve.plain stereoscope.Go.Paths.push_element
    stereoscope.Go.Paths.push_elements stereoscope.Go.Paths.render stereoscope.Go.Paths.is_abs
    stereoscope.Go.Paths.split_path stereoscope.Go.Strings.trim_left
    stereoscope.Go.Strings.trim_right stereoscope.Go.Strings.count_byte
    stereoscope.Go.Strings.last_index_byte stereoscope.Go.Strings.split stereoscope.Go.Strings.join
    stereoscope.Image.Images.read_image stereoscope.Image.Metadata.with_os
    stereoscope.Prelude.str_eq stereoscope.Search.Context.new_search_context
    stereoscope.Tree.has_node stereoscope.Tree.node stereoscope.Tree.put_child
    stereoscope.Tree.add_node stereoscope.Tree.add_root stereoscope.Tree.ensure_node
    stereoscope.Tree.add_child
reading-succeeds = refl

abbrev read_to : (image : Image) × (reading ≡ ok image)
read_to = image_of reading reading-succeeds

read_image_complete_example :
    All IsFormed (trees_of read_to.0.layers)
    × All IsSquashed read_to.0.layers
    × ((id : ℕ) (entry : IndexEntry)
        → get id read_to.0.catalog.index.index ≡ some entry
        → InSomeTree (trees_of read_to.0.layers) entry)
read_image_complete_example =
    read_image_complete plain_text (codes "tar" ∷ []) (with_os (codes "linux") ∷ [])
      (codes "/cache") one_layer 0 [] read_to.0 read_to.1

-- Authenticators by name.
abbrev pub named_kinds : AuthKinds Str
named_kinds = record { basic = λ user password. user; bearer = λ token. token }

abbrev pub by_token : Str → Str → RegistryCredentials Str
by_token authority token = record {
  authority = authority;
  username = [];
  password = [];
  token = token;
  given = none;
  client_cert = [];
  client_key = [];
}

abbrev two_logins : List (RegistryCredentials Str)
two_logins = by_token [] (codes "any") ∷ by_token (codes "docker.io") (codes "docker") ∷ []

authenticator_for_example :
    (Any
        (λ c.
          (can_be_used c (codes "index.docker.io") ≡ true) × (authenticator named_kinds c ≢ none))
        two_logins
      → authenticator_for named_kinds two_logins (codes "index.docker.io") ≢ none)
    × ((a : Str)
        → authenticator_for named_kinds two_logins (codes "index.docker.io") ≡ some a
        → Any
            (λ c.
              (can_be_used c (codes "index.docker.io") ≡ true)
              × ((has_authority c ≡ true) × (authenticator named_kinds c ≢ none)))
            two_logins
        → Any
            (λ c.
              (can_be_used c (codes "index.docker.io") ≡ true)
              × ((has_authority c ≡ true) × (authenticator named_kinds c ≡ some a)))
            two_logins)
authenticator_for_example = authenticator_for_lem named_kinds two_logins (codes "index.docker.io")

-- The progress as its count alone.
abbrev pub counter : Manual ℕ
counter = record {
  new = 0;
  set = λ n m. n;
  set_total = λ n m. m;
  set_completed = λ m. m;
  size = λ m. m;
}

abbrev pull : List PullEvent
pull =
    record { id = codes "image"; status = codes "Pulling"; current = 0; total = 0 }
    ∷ record { id = codes "layer"; status = codes "Downloading"; current = 3; total = 9 }
    ∷ []

on_events-tracked_example :
    (p : PullStatus ℕ) × (on_events counter pull new_pull_status ≡ ok p)
    × ((l : Str)
        → (has l p.phase_progress ≡ elem l (layers_of p))
          × (has l p.download_progress ≡ elem l (layers_of p)))
on_events-tracked_example = on_events-tracked counter pull
