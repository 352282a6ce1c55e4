-- ===== src/Tests/Trees.antt =====
-- Runs of pkg/tree and pkg/filetree on small trees.
use stereoscope.Errors.{Result, ok, err, link_cycle, link_depth}
use stereoscope.File.CountSet.{PathCountSet}
use stereoscope.File.Kinds.{regular, directory, sym_link, hard_link}
use stereoscope.File.Paths.{FilePath, is_absolute_path, normalize}
use stereoscope.File.Paths.Canonical.{IsCanonical, normalize-IsCanonical}
use stereoscope.File.Refs.{Reference}
use stereoscope.FileTree.Adds.{Outcome, adds-Outcome}
use stereoscope.FileTree.Edit.{
  Files, add_file, add_dir, add_sym_link, add_hard_link, set_file_node, add_kind, remove_path,
}
use stereoscope.FileTree.Found.{file_access-node, file_access-end, file_access-fails}
use stereoscope.FileTree.Keyed.{IsKeyed, add_kind-IsKeyed}
use stereoscope.FileTree.Ancestors.{plain-FromTree}
use stereoscope.FileTree.Links.{LoopDone, node_links-LoopDone}
use stereoscope.FileTree.Lookup.{file_access}
use stereoscope.File.Paths.{is_dir_whiteout}
use stereoscope.FileTree.Nodes.{
  before, nothing_before, FileNode, NodeAccess, access, file_node, new_file, new_dir, new_sym_link,
  is_link, render_link_destination, follow_basename_links, new_link_resolution_strategy,
  apply_options, apply_option, file_node_as_node,
}
use stereoscope.FileTree.Edit.{new_file_tree}
use stereoscope.FileTree.Resolve.{plain, node_links, or_new_set}
use stereoscope.FileTree.Squash.{new_file_tree-IsKeyed}
use stereoscope.Go.Strings.{has_prefix}
use stereoscope.Tree
use stereoscope.Tree.{Tree, NodeId, node}
use stereoscope.Tree.Remove.{remove_node}
use stereoscope.Prelude.{
  ℕ, List, [], ◌∷◌, Option, none, some, Bool, true, false, not, ◌&&◌, ◌≡◌, ◌≢◌, refl, Str, str_eq,
  codes, byte_string_eq, if◌then◌else◌, arith, All, ◌⊎◌,
}

absolute : (p : Str) → is_absolute_path (47 ∷ p) ≡ true
unfolding is_absolute_path has_prefix
absolute p = refl

abbrev pub bin_sh : FilePath
bin_sh = normalize (codes "/bin/sh")

abbrev pub usr_sh : FilePath
usr_sh = normalize (codes "/usr/sh")

pub bin_sh-IsCanonical : IsCanonical bin_sh
bin_sh-IsCanonical = normalize-IsCanonical (codes "/bin/sh") (absolute (codes "bin/sh"))

abbrev pub no_files : Files
no_files = record { tree = new_file_tree; next_id = 0 }

-- A file.
abbrev pub one_file : Files
one_file = (add_file bin_sh no_files).1

-- A link to it.
abbrev pub linked : Files
linked = (add_sym_link usr_sh (codes "../bin/sh") one_file).1

pub one_file-IsKeyed : IsKeyed one_file.tree
unfolding add_file
one_file-IsKeyed = add_kind-IsKeyed regular bin_sh (new_file bin_sh) no_files new_file_tree-IsKeyed

pub linked-IsKeyed : IsKeyed linked.tree
unfolding add_sym_link
linked-IsKeyed =
    add_kind-IsKeyed sym_link usr_sh (new_sym_link usr_sh (codes "../bin/sh")) one_file
      one_file-IsKeyed

adds-Outcome_example :
    Outcome regular bin_sh linked (add_file bin_sh linked)
    × Outcome directory bin_sh linked (add_dir bin_sh linked)
    × Outcome sym_link bin_sh linked (add_sym_link bin_sh (codes "dash") linked)
    × Outcome hard_link bin_sh linked (add_hard_link bin_sh (codes "dash") linked)
adds-Outcome_example = adds-Outcome bin_sh (codes "dash") linked bin_sh-IsCanonical linked-IsKeyed

node_links-LoopDone_example :
    LoopDone linked.tree true [] (node_links linked.tree 100 true (plain linked.tree usr_sh) none)
node_links-LoopDone_example =
    node_links-LoopDone linked.tree 100 true (plain linked.tree usr_sh) none
      (plain-FromTree linked.tree usr_sh)

abbrev sh_node : FileNode
sh_node = record {
  real_path = bin_sh;
  file_type = regular;
  link_path = [];
  reference = some (record { id = 1; real_path = bin_sh });
}

abbrev link_node : FileNode
link_node = record {
  real_path = usr_sh;
  file_type = sym_link;
  link_path = codes "../bin/sh";
  reference = some (record { id = 2; real_path = usr_sh });
}

-- The file, by way of the link.
abbrev by_link : NodeAccess
by_link = access usr_sh (some sh_node) (
    before (access usr_sh (some link_node) nothing_before)
      (before (access bin_sh (some sh_node) nothing_before) nothing_before))

-- The lookup follows the link, which is relative, to the file.
linked-found : file_access linked.tree usr_sh (follow_basename_links ∷ []) ≡ ok (some by_link)
unfolding stereoscope.File.CountSet.contains_path stereoscope.File.Paths.trim_blanks
    stereoscope.File.Paths.clean_or_root stereoscope.File.Paths.normalize
    stereoscope.File.Paths.parent_path stereoscope.File.Paths.prefixes
    stereoscope.File.Paths.constituent_paths stereoscope.File.Refs.new_file_reference
    stereoscope.File.Sets.merge stereoscope.File.Sets.contains_any
    stereoscope.FileTree.Edit.new_file_tree stereoscope.FileTree.Edit.set_file_node
    stereoscope.FileTree.Edit.missing_paths stereoscope.FileTree.Edit.add_dirs
    stereoscope.FileTree.Edit.add_parent_paths stereoscope.FileTree.Edit.add_new
    stereoscope.FileTree.Edit.add_kind stereoscope.FileTree.Edit.add_file
    stereoscope.FileTree.Edit.add_sym_link stereoscope.FileTree.Lookup.before_basename
    stereoscope.FileTree.Lookup.at_basename stereoscope.FileTree.Lookup.node_access
    stereoscope.FileTree.Lookup.file_access stereoscope.FileTree.Nodes.new_dir
    stereoscope.FileTree.Nodes.new_file stereoscope.FileTree.Nodes.new_sym_link
    stereoscope.FileTree.Nodes.render_link_destination
    stereoscope.FileTree.Nodes.new_link_resolution_strategy stereoscope.FileTree.Nodes.follow_links
    stereoscope.FileTree.Nodes.with_request stereoscope.FileTree.Nodes.with_links
    stereoscope.FileTree.Nodes.has_file_node stereoscope.FileTree.Resolve.plain
    stereoscope.FileTree.Resolve.ancestor_links stereoscope.FileTree.Resolve.start_links
    stereoscope.FileTree.Resolve.finish stereoscope.FileTree.Resolve.seen_path
    stereoscope.FileTree.Resolve.link_loop stereoscope.FileTree.Resolve.node_links
    stereoscope.Go.Paths.back stereoscope.Go.Paths.push_element stereoscope.Go.Paths.push_elements
    stereoscope.Go.Paths.render stereoscope.Go.Paths.is_abs stereoscope.Go.Strings.trim_left
    stereoscope.Go.Strings.trim_right stereoscope.Go.Strings.count_byte
    stereoscope.Go.Strings.last_index_byte stereoscope.Go.Strings.split stereoscope.Go.Strings.join
    stereoscope.Go.Strings.split_str stereoscope.Prelude.str_eq stereoscope.Tree.has_node
    stereoscope.Tree.node stereoscope.Tree.put_child stereoscope.Tree.add_node
    stereoscope.Tree.add_root stereoscope.Tree.ensure_node stereoscope.Tree.add_child
linked-found = refl

file_access-node_example :
    (n : FileNode) × (file_node by_link ≡ some n)
    × ((k : NodeId) × (Tree.node k linked.tree ≡ some n))
file_access-node_example =
    file_access-node linked.tree usr_sh (follow_basename_links ∷ []) by_link linked-found

follows : (new_link_resolution_strategy (follow_basename_links ∷ [])).basename_links ≡ true
unfolding new_link_resolution_strategy apply_options apply_option
follows = refl

also_dead :
    (new_link_resolution_strategy (follow_basename_links ∷ [])).no_dead_basename_links ≡ false
unfolding new_link_resolution_strategy apply_options apply_option
also_dead = refl

file_access-end_example :
    is_link sh_node && not (str_eq (render_link_destination sh_node) []) ≡ false
file_access-end_example =
    file_access-end linked.tree usr_sh (follow_basename_links ∷ []) by_link sh_node follows
      also_dead linked-found refl

abbrev root_dir : FileNode
root_dir = record { real_path = codes "/"; file_type = directory; link_path = []; reference = none }

abbrev etc : FileNode
etc = record { real_path = codes "/etc"; file_type = directory; link_path = []; reference = none }

abbrev with_etc : Tree FileNode
with_etc = record {
  nodes = (codes "/", root_dir) ∷ (codes "/etc", etc) ∷ [];
  children = (codes "/", (codes "/etc", etc) ∷ []) ∷ (codes "/etc", []) ∷ [];
  parent = (codes "/", none) ∷ (codes "/etc", some root_dir) ∷ [];
}

etc-removed : remove_node 2 etc with_etc ≡ (ok (etc ∷ []), new_file_tree)
unfolding stereoscope.FileTree.Edit.new_file_tree stereoscope.FileTree.Nodes.new_dir
    stereoscope.Go.Maps.get stereoscope.Go.Maps.put stereoscope.Go.Maps.delete
    stereoscope.Prelude.str_eq stereoscope.Tree.has_node stereoscope.Tree.node
    stereoscope.Tree.child_map stereoscope.Tree.parent_of stereoscope.Tree.delete_child
    stereoscope.Tree.add_node stereoscope.Tree.add_root stereoscope.Tree.Remove.detach
    stereoscope.Tree.Remove.remove_each stereoscope.Tree.Remove.remove_node
etc-removed = refl

-- No path on the list is an opaque whiteout.
abbrev NoOpaque : List FilePath → Type 0
NoOpaque = All (λ p. is_dir_whiteout p ≡ false)

abbrev list_path : FileNode → List FilePath → Result (Unit {0}) × List FilePath
list_path n paths = (ok tt, n.real_path ∷ paths)

list_path-NoOpaque :
    (n : FileNode) (s : List FilePath)
    → not (is_dir_whiteout n.real_path) ≡ true
    → NoOpaque s
    → NoOpaque (list_path n s).1
list_path-NoOpaque n s e h = (ground arith, h)

etc-set : set_file_node etc new_file_tree ≡ ok with_etc
unfolding stereoscope.File.Paths.trim_blanks stereoscope.File.Paths.clean_or_root
    stereoscope.File.Paths.normalize stereoscope.File.Paths.parent_path
    stereoscope.FileTree.Edit.new_file_tree stereoscope.FileTree.Edit.set_file_node
    stereoscope.FileTree.Nodes.new_dir stereoscope.FileTree.Nodes.render_link_destination
    stereoscope.FileTree.Resolve.plain stereoscope.Go.Maps.get stereoscope.Go.Maps.put
    stereoscope.Go.Strings.trim_left stereoscope.Go.Strings.trim_right
    stereoscope.Go.Strings.count_byte stereoscope.Go.Strings.last_index_byte
    stereoscope.Prelude.str_eq stereoscope.Tree.has_node stereoscope.Tree.node
    stereoscope.Tree.put_child stereoscope.Tree.add_node stereoscope.Tree.add_root
    stereoscope.Tree.ensure_node stereoscope.Tree.add_child
etc-set = refl

file_access-fails_example :
    ((a : Option NodeAccess) × (file_access linked.tree usr_sh (follow_basename_links ∷ []) ≡ ok a))
    ⊎ ((file_access linked.tree usr_sh (follow_basename_links ∷ []) ≡ err link_cycle)
        ⊎ (file_access linked.tree usr_sh (follow_basename_links ∷ []) ≡ err link_depth))
file_access-fails_example = file_access-fails linked.tree usr_sh (follow_basename_links ∷ [])
