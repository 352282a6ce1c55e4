-- ===== src/Tests/Merges.antt =====
-- Runs of `Merge` and `Squash`, and of removals, on the trees of Tests/Trees.
use stereoscope.File.Kinds.{regular, sym_link}
use stereoscope.File.Paths.{FilePath, normalize, is_absolute_path}
use stereoscope.File.Paths.Canonical.{IsCanonical, normalize-IsCanonical}
use stereoscope.FileTree.Edit.{Files, add_file, add_sym_link, remove_path}
use stereoscope.FileTree.Ends.{
  new_file_tree-IsFormed, FormedResult, remove_path-Kept, merge-Kept, squash-FormedResult,
}
use stereoscope.FileTree.Formed.{IsFormed, Kept, add_kind-Kept}
use stereoscope.FileTree.Visits.{VisitOutcome, merge_visitor-VisitOutcome}
use stereoscope.FileTree.Merge.{has_opaque_directory, merge_visitor, merge, squash}
use stereoscope.FileTree.Nodes.{FileNode, file_node_as_node, new_dir, new_file, new_sym_link}
use stereoscope.Go.Strings.{has_prefix}
use stereoscope.Tests.Trees.{
  bin_sh, usr_sh, bin_sh-IsCanonical, no_files, one_file, linked, linked-IsKeyed,
}
use stereoscope.Tree.{node}
use stereoscope.Prelude.{◌≢◌, byte_string_eq, [], ◌∷◌, none, true, codes, ◌≡◌, refl}

abbrev bin : FilePath
bin = normalize (codes "/bin")

bin_is_absolute : is_absolute_path (codes "/bin") ≡ true
unfolding is_absolute_path has_prefix
bin_is_absolute = refl

bin-IsCanonical : IsCanonical bin
bin-IsCanonical = normalize-IsCanonical (codes "/bin") bin_is_absolute

-- An upper tree in which the directory is opaque.
abbrev opaque_bin : Files
opaque_bin = (add_file (normalize (codes "/bin/.wh..wh..opq")) no_files).1

merge_visitor-VisitOutcome_example :
    VisitOutcome opaque_bin.tree
      (new_dir bin none)
      linked
      (merge_visitor opaque_bin.tree (new_dir bin none) linked)
unfolding new_dir
merge_visitor-VisitOutcome_example =
    merge_visitor-VisitOutcome opaque_bin.tree (new_dir bin none) linked bin-IsCanonical
      linked-IsKeyed

-- The directory is opaque, and the visit removes the file in it, which is not a path that the visit writes.
opaque_clears :
    (has_opaque_directory opaque_bin.tree bin ≡ true)
    × (node bin_sh linked.tree ≢ none)
    × (node bin_sh (merge_visitor opaque_bin.tree (new_dir bin none) linked).1.tree ≡ none)
unfolding stereoscope.FileTree.Nodes.file_resolution stereoscope.File.Paths.basename
    stereoscope.Go.Paths.base stereoscope.Tree.replace stereoscope.File.CountSet.contains_path
    stereoscope.File.Paths.clean_or_root stereoscope.File.Paths.constituent_paths
    stereoscope.File.Paths.is_whiteout stereoscope.File.Paths.normalize
    stereoscope.File.Paths.parent_path stereoscope.File.Paths.prefixes
    stereoscope.File.Paths.trim_blanks stereoscope.File.Refs.new_file_reference
    stereoscope.File.Sets.contains_any stereoscope.File.Sets.merge
    stereoscope.FileTree.Edit.add_dirs stereoscope.FileTree.Edit.add_file
    stereoscope.FileTree.Edit.add_kind stereoscope.FileTree.Edit.add_new
    stereoscope.FileTree.Edit.add_parent_paths stereoscope.FileTree.Edit.add_sym_link
    stereoscope.FileTree.Edit.missing_paths stereoscope.FileTree.Edit.new_file_tree
    stereoscope.FileTree.Edit.remove_all stereoscope.FileTree.Edit.remove_child_paths
    stereoscope.FileTree.Edit.remove_children stereoscope.FileTree.Edit.remove_fuel
    stereoscope.FileTree.Edit.remove_in stereoscope.FileTree.Edit.set_file_node
    stereoscope.FileTree.Lookup.at_basename stereoscope.FileTree.Lookup.before_basename
    stereoscope.FileTree.Lookup.file stereoscope.FileTree.Lookup.file_access
    stereoscope.FileTree.Lookup.has_path stereoscope.FileTree.Lookup.node_access
    stereoscope.FileTree.Merge.clear_directory stereoscope.FileTree.Merge.graft
    stereoscope.FileTree.Merge.has_opaque_directory stereoscope.FileTree.Merge.merge_visitor
    stereoscope.FileTree.Merge.merged_node stereoscope.FileTree.Merge.prepare
    stereoscope.FileTree.Merge.replaces_directory stereoscope.FileTree.Nodes.follow_links
    stereoscope.FileTree.Nodes.has_file_node stereoscope.FileTree.Nodes.new_dir
    stereoscope.FileTree.Nodes.new_file stereoscope.FileTree.Nodes.new_link_resolution_strategy
    stereoscope.FileTree.Nodes.new_sym_link stereoscope.FileTree.Nodes.render_link_destination
    stereoscope.FileTree.Nodes.with_links stereoscope.FileTree.Nodes.with_request
    stereoscope.FileTree.Resolve.ancestor_links stereoscope.FileTree.Resolve.finish
    stereoscope.FileTree.Resolve.link_loop stereoscope.FileTree.Resolve.node_links
    stereoscope.FileTree.Resolve.plain stereoscope.FileTree.Resolve.seen_path
    stereoscope.FileTree.Resolve.start_links stereoscope.Go.Maps.delete stereoscope.Go.Maps.get
    stereoscope.Go.Maps.put stereoscope.Go.Paths.back stereoscope.Go.Paths.is_abs
    stereoscope.Go.Paths.join_path stereoscope.Go.Paths.push_element
    stereoscope.Go.Paths.push_elements stereoscope.Go.Paths.render stereoscope.Go.Strings.count_byte
    stereoscope.Go.Strings.join stereoscope.Go.Strings.last_index_byte stereoscope.Go.Strings.split
    stereoscope.Go.Strings.split_str stereoscope.Go.Strings.trim_left
    stereoscope.Go.Strings.trim_right stereoscope.Prelude.str_eq stereoscope.Tree.Remove.detach
    stereoscope.Tree.Remove.remove_each stereoscope.Tree.Remove.remove_node
    stereoscope.Tree.add_child stereoscope.Tree.add_node stereoscope.Tree.add_root
    stereoscope.Tree.child_map stereoscope.Tree.child_nodes stereoscope.Tree.delete_child
    stereoscope.Tree.ensure_node stereoscope.Tree.has_node stereoscope.Tree.node
    stereoscope.Tree.parent_of stereoscope.Tree.put_child
opaque_clears = (refl, (λ e. cc), refl)

one_file-IsFormed : IsFormed one_file.tree
unfolding add_file new_file
one_file-IsFormed =
    (add_kind-Kept regular bin_sh (new_file bin_sh) no_files (λ r. bin_sh-IsCanonical)
      bin_sh-IsCanonical new_file_tree-IsFormed).1

usr_is_absolute : is_absolute_path (codes "/usr/sh") ≡ true
unfolding is_absolute_path has_prefix
usr_is_absolute = refl

usr_sh-IsCanonical : IsCanonical usr_sh
usr_sh-IsCanonical = normalize-IsCanonical (codes "/usr/sh") usr_is_absolute

linked-IsFormed : IsFormed linked.tree
unfolding add_sym_link new_sym_link
linked-IsFormed =
    (add_kind-Kept sym_link usr_sh (new_sym_link usr_sh (codes "../bin/sh")) one_file
      (λ r. usr_sh-IsCanonical) usr_sh-IsCanonical one_file-IsFormed).1

remove_path-Kept_example : Kept (remove_path bin_sh linked)
remove_path-Kept_example = remove_path-Kept bin_sh linked linked-IsFormed

merge-Kept_example : Kept (merge linked.tree one_file)
merge-Kept_example = merge-Kept linked.tree one_file linked-IsFormed one_file-IsFormed

squash-FormedResult_example : FormedResult (squash (one_file.tree ∷ linked.tree ∷ []) 7).0
squash-FormedResult_example =
    squash-FormedResult (one_file.tree ∷ linked.tree ∷ []) 7
      (one_file-IsFormed, (linked-IsFormed, tt))
