-- ===== src/Tests/Indexes.antt =====
-- Runs of the index of pkg/filetree and of its lookups.
use stereoscope.Builder
use stereoscope.Builder.{Builder}
use stereoscope.Builder.Agrees.{BuildOutcome, add-BuildOutcome}
use stereoscope.Errors.{err, separator_in_basename}
use stereoscope.File.Kinds.{regular, sym_link, file_type_eq}
use stereoscope.File.Metadata.{Metadata}
use stereoscope.File.Paths.{is_absolute_path, normalize}
use stereoscope.File.Paths.Canonical.{normalize-IsCanonical}
use stereoscope.File.Refs.{Reference}
use stereoscope.FileTree.Edit.{new_file_tree}
use stereoscope.FileTree.Squash.{new_file_tree-IsKeyed}
use stereoscope.Go.Strings.{has_prefix}
use stereoscope.Index.{
  FileIndex, new_index, add, exists, get_by_file_type, get_by_mime_type, get_by_extension,
  get_by_basename,
}
use stereoscope.Index.Answers.{Answers, lookups-IsAnswer, get_by_basename-IsAnswer, any_slash}
use stereoscope.Index.Queries.{IsAnswer}
use stereoscope.Index.Tracks.{
  IsIndex, new_index-IsIndex, add-IsIndex, has_type, has_mime, has_extension, has_basename,
}
use stereoscope.Prelude.{[], ◌∷◌, true, false, ◌≡◌, refl, codes, byte_string_eq, ◌⊎◌}

abbrev notes : Reference
notes = record { id = 4; real_path = codes "/doc/notes.tar.gz" }

abbrev notes_data : Metadata
notes_data = record {
  path = codes "/doc/notes.tar.gz";
  link_destination = [];
  user_id = 0;
  group_id = 0;
  file_type = regular;
  mime_type = codes "application/gzip";
}

fresh : exists notes new_index ≡ false
unfolding exists
fresh = refl

add-IsIndex_example : IsIndex (add notes notes_data new_index)
add-IsIndex_example = add-IsIndex notes notes_data new_index fresh new_index-IsIndex

abbrev notes_index : FileIndex
notes_index = add notes notes_data new_index

-- The index of one file is in order.
notes_index-IsIndex : IsIndex notes_index
notes_index-IsIndex = add-IsIndex notes notes_data new_index fresh new_index-IsIndex

lookups-IsAnswer_example :
    Answers
      (get_by_file_type (regular ∷ sym_link ∷ []) notes_index)
      (IsAnswer has_type notes_index.by_file_type notes_index (regular ∷ sym_link ∷ []))
    × Answers
        (get_by_mime_type (codes "application/gzip" ∷ []) notes_index)
        (IsAnswer has_mime notes_index.by_mime_type notes_index (codes "application/gzip" ∷ []))
    × Answers (get_by_extension (codes ".gz" ∷ codes ".tar.gz" ∷ []) notes_index) (
        IsAnswer has_extension notes_index.by_extension notes_index
          (codes ".gz" ∷ codes ".tar.gz" ∷ []))
lookups-IsAnswer_example =
    lookups-IsAnswer notes_index notes_index-IsIndex (regular ∷ sym_link ∷ [])
      (codes "application/gzip" ∷ []) (codes ".gz" ∷ codes ".tar.gz" ∷ [])

get_by_basename-IsAnswer_example :
    ((any_slash (codes "notes.tar.gz" ∷ []) ≡ true)
      × (get_by_basename (codes "notes.tar.gz" ∷ []) notes_index ≡ err separator_in_basename))
    ⊎ ((any_slash (codes "notes.tar.gz" ∷ []) ≡ false)
        × Answers
            (get_by_basename (codes "notes.tar.gz" ∷ []) notes_index)
            (IsAnswer has_basename notes_index.by_basename notes_index (codes "notes.tar.gz" ∷ [])))
get_by_basename-IsAnswer_example =
    get_by_basename-IsAnswer notes_index (codes "notes.tar.gz" ∷ []) notes_index-IsIndex

abbrev built : Metadata
built = record notes_data { path = normalize (codes "/doc/notes.tar.gz") }

abbrev empty_builder : Builder
empty_builder = record { files = record { tree = new_file_tree; next_id = 0 }; index = new_index }

notes-IsAbsolute : is_absolute_path (codes "/doc/notes.tar.gz") ≡ true
unfolding is_absolute_path has_prefix
notes-IsAbsolute = refl

add-BuildOutcome_example : BuildOutcome built empty_builder (Builder.add built empty_builder)
add-BuildOutcome_example =
    add-BuildOutcome built empty_builder
      (normalize-IsCanonical (codes "/doc/notes.tar.gz") notes-IsAbsolute) new_file_tree-IsKeyed
