-- ===== src/Tests/Searches.antt =====
-- Runs of the searches of pkg/filetree/search.go.
use stereoscope.File.Kinds.{regular}
use stereoscope.File.Metadata.{Metadata}
use stereoscope.File.Refs.{Reference}
use stereoscope.Index.{FileIndex, new_index, add, exists}
use stereoscope.Index.Tracks.{IsIndex, new_index-IsIndex, add-IsIndex}
use stereoscope.Search.{search_by_mime_type}
use stereoscope.Search.Context.{SearchContext}
use stereoscope.Search.Sound.{Listed, RefersTo, IsOfTypes, search_by_mime_type-Listed}
use stereoscope.Tests.Trees.{bin_sh, usr_sh, linked, linked-IsKeyed}
use stereoscope.Prelude.{[], ◌∷◌, some, false, ◌≡◌, refl, codes}

abbrev sh_reference : Reference
sh_reference = record { id = 1; real_path = bin_sh }

abbrev sh_data : Metadata
sh_data = record {
  path = bin_sh;
  link_destination = [];
  user_id = 0;
  group_id = 0;
  file_type = regular;
  mime_type = codes "text/x-shellscript";
}

abbrev sh_index : FileIndex
sh_index = add sh_reference sh_data new_index

sh-fresh : exists sh_reference new_index ≡ false
unfolding exists
sh-fresh = refl

sh_index-IsIndex : IsIndex sh_index
sh_index-IsIndex = add-IsIndex sh_reference sh_data new_index sh-fresh new_index-IsIndex

-- A file, and a link to it.
abbrev sh_context : SearchContext
sh_context = record {
  tree = linked.tree;
  index = some sh_index;
  link_backward_refs = (bin_sh, (usr_sh, tt) ∷ []) ∷ [];
}

search_by_mime_type-Listed_example :
    Listed
      (RefersTo (IsOfTypes sh_index (codes "text/x-shellscript" ∷ [])))
      (search_by_mime_type sh_context (codes "text/x-shellscript" ∷ []))
search_by_mime_type-Listed_example =
    search_by_mime_type-Listed sh_context linked-IsKeyed sh_index refl sh_index-IsIndex
      (codes "text/x-shellscript" ∷ [])
