-- ===== src/FileTree/Nodes.antt =====
-- pkg/filetree/filenode/filenode.go, link_strategy.go and node_access.go.
use stereoscope.File.Kinds.{FileType, regular, hard_link, sym_link, directory, type_eq}
use stereoscope.File.Paths.{FilePath, is_absolute_path}
use stereoscope.File.Refs.{Reference, Resolution, resolution, end, new_resolution}
use stereoscope.Go.Paths.{clean, join_path, split_path}
use stereoscope.Go.Strings.{slash}
use stereoscope.Tree.{NodeId, Node}
use stereoscope.Prelude.{
  List, [], ◌∷◌, ◌++◌, Option, none, some, Bool, true, false, not, ◌||◌, if◌then◌else◌,
}

-- `FileNode`
pub record FileNode : Type 0 where
  pub real_path : FilePath
  pub file_type : FileType
  pub link_path : FilePath
  pub reference : Option Reference

-- `NewDir`
unfoldable pub new_dir : FilePath → Option Reference → FileNode
new_dir p ref = record { real_path = p; file_type = directory; link_path = []; reference = ref }

-- `NewFile`
unfoldable pub new_file : FilePath → Option Reference → FileNode
new_file p ref = record { real_path = p; file_type = regular; link_path = []; reference = ref }

-- `NewSymLink`
unfoldable pub new_sym_link : FilePath → FilePath → Option Reference → FileNode
new_sym_link p link ref = record {
  real_path = p;
  file_type = sym_link;
  link_path = link;
  reference = ref;
}

-- `NewHardLink`: the link is read as an absolute path.
unfoldable pub new_hard_link : FilePath → FilePath → Option Reference → FileNode
unfolding clean
new_hard_link p link ref = record {
  real_path = p;
  file_type = hard_link;
  link_path = clean (slash ∷ link);
  reference = ref;
}

-- `IDByPath`
abbrev pub id_by_path : FilePath → NodeId
id_by_path p = p

-- `ID`
abbrev pub file_node_id : FileNode → NodeId
file_node_id n = id_by_path n.real_path

-- `Copy`
abbrev pub copy_file_node : FileNode → FileNode
copy_file_node n = record {
  real_path = n.real_path;
  file_type = n.file_type;
  link_path = n.link_path;
  reference = n.reference;
}

instance abbrev pub file_node_as_node : Node FileNode
file_node_as_node = record { id = file_node_id; copy = copy_file_node }

-- `IsLink`
unfoldable pub is_link : FileNode → Bool
is_link n = type_eq n.file_type hard_link || type_eq n.file_type sym_link

-- `RenderLinkDestination`
unfoldable pub render_link_destination : FileNode → FilePath
unfolding is_link is_absolute_path clean join_path split_path
render_link_destination n =
    if not (is_link n)
    then []
    else if is_absolute_path n.link_path
    then n.link_path
    else clean (join_path (split_path n.real_path).0 n.link_path)

-- `LinkResolutionOption`
pub data LinkResolutionOption : Type 0 where
  follow_ancestor_links follow_basename_links do_not_follow_dead_basename_links :
      LinkResolutionOption

-- `linkResolutionStrategy`
pub record LinkResolutionStrategy : Type 0 where
  pub ancestor_links : Bool
  pub basename_links : Bool
  pub no_dead_basename_links : Bool

abbrev pub no_links : LinkResolutionStrategy
no_links = record { ancestor_links = false; basename_links = false; no_dead_basename_links = false }

unfoldable pub apply_option : LinkResolutionStrategy → LinkResolutionOption → LinkResolutionStrategy
apply_option s follow_basename_links = record s { basename_links = true }
apply_option s do_not_follow_dead_basename_links = record s { no_dead_basename_links = true }
apply_option s follow_ancestor_links = record s { ancestor_links = true }

unfoldable pub apply_options :
    LinkResolutionStrategy → List LinkResolutionOption → LinkResolutionStrategy
unfolding apply_option
apply_options s [] = s
apply_options s (o ∷ os) = apply_options (apply_option s o) os

-- `newLinkResolutionStrategy`
unfoldable pub new_link_resolution_strategy : List LinkResolutionOption → LinkResolutionStrategy
unfolding apply_options
new_link_resolution_strategy os = apply_options no_links os

-- `FollowLinks`
unfoldable pub follow_links : LinkResolutionStrategy → Bool
follow_links s = s.ancestor_links || s.basename_links

-- `nodeAccess`, with the list of its link resolutions in the same block.
mutual
  pub data NodeAccess : Type 0 where
    access : FilePath → Option FileNode → Accesses → NodeAccess

  pub data Accesses : Type 0 where
    nothing_before : Accesses
    before : NodeAccess → Accesses → Accesses

unfoldable pub append_accesses : Accesses → List NodeAccess → Accesses
append_accesses nothing_before [] = nothing_before
append_accesses nothing_before (a ∷ as_) = before a (append_accesses nothing_before as_)
append_accesses (before a rest) more = before a (append_accesses rest more)

unfoldable pub access_list : Accesses → List NodeAccess
access_list nothing_before = []
access_list (before a rest) = a ∷ access_list rest

abbrev pub file_node : NodeAccess → Option FileNode
file_node (access p n links) = n

abbrev pub requested : NodeAccess → FilePath
requested (access p n links) = p

unfoldable pub leaf_links : NodeAccess → List NodeAccess
unfolding access_list
leaf_links (access p n links) = access_list links

-- `na.RequestPath = p`
unfoldable pub with_request : FilePath → NodeAccess → NodeAccess
with_request p (access q n links) = access p n links

-- `na.LeafLinkResolution = append(na.LeafLinkResolution, more...)`
unfoldable pub with_links : List NodeAccess → NodeAccess → NodeAccess
unfolding append_accesses
with_links more (access p n links) = access p n (append_accesses links more)

-- `HasFileNode`; a nil access has none.
unfoldable pub has_file_node : Option NodeAccess → Bool
has_file_node none = false
has_file_node (some (access p none links)) = false
has_file_node (some (access p (some n) links)) = true

reference_in : Option FileNode → Option Reference
reference_in none = none
reference_in (some n) = n.reference

-- `newResolutions`: the last entry is left out, unless it is dead.
unfoldable pub new_resolutions : List NodeAccess → List Resolution
unfolding reference_in
new_resolutions [] = []
new_resolutions (access p (some n) links ∷ []) = []
new_resolutions (access p none links ∷ []) = resolution p none end ∷ []
new_resolutions (access p n links ∷ b ∷ rest) =
    resolution p (reference_in n) end ∷ new_resolutions (b ∷ rest)

-- `FileResolution`
unfoldable pub file_resolution : Option NodeAccess → Option Resolution
unfolding new_resolutions new_resolution access_list
file_resolution none = none
file_resolution (some (access p none links)) = none
file_resolution (some (access p (some n) links)) =
    some (new_resolution p n.reference (new_resolutions (access_list links)))

reference_list : Option Reference → List Reference
reference_list none = []
reference_list (some r) = r ∷ []

link_references : List NodeAccess → List Reference
unfolding reference_list
link_references [] = []
link_references (access p none links ∷ rest) = link_references rest
link_references (access p (some n) links ∷ rest) =
    reference_list n.reference ++ link_references rest

-- `References`
unfoldable pub references : Option NodeAccess → List Reference
unfolding reference_list link_references access_list
references none = []
references (some (access p none links)) = []
references (some (access p (some n) links)) =
    reference_list n.reference ++ link_references (access_list links)
