-- ===== src/File/Tar.antt =====
-- pkg/file/tarutil.go, tar_index.go and tar_index_entry.go: the entries of an archive in order. A reader of
-- archive/tar is the list of what its `Next` returns, up to the end of the archive.
pub mod Untar
use stereoscope.Errors.{Failure, Result, ok, err, Act, stop_iteration, file_not_found}
use stereoscope.File.LazyReader.{LazyReader, new_lazy_bounded_read_closer}
use stereoscope.File.Metadata.{Header, Metadata, new_metadata}
use stereoscope.Go.Maps.{GoMap, get, put}
use stereoscope.Prelude.{
  ℕ, suc, List, [], ◌∷◌, ◌++◌, map, Option, none, some, Bool, true, false, Str, str_eq,
  byte_string_eq, ltb, if◌then◌else◌,
}

-- An entry's header with its size and mode, what its reader gives, what is left in the archive, and the
-- position in the file; or no header; or an error.
pub data TarStep : Type 0 where
  entry : Header → ℕ → ℕ → Str → Str → Result ℕ → TarStep
  no_header : TarStep
  broken : Failure → TarStep

-- `TarFileEntry`
pub record TarFileEntry : Type 0 where
  pub sequence : ℕ
  pub header : Header
  pub size : ℕ
  pub mode : ℕ
  pub contents : Str
  pub remaining : Str
  pub position : Result ℕ

-- `errors.Is(err, ErrTarStopIteration)`
unfoldable pub is_stop : Failure → Bool
is_stop stop_iteration = true
is_stop _ = false

module _ {S : Type 0} where
  -- What a visit's result means for the iteration.
  unfoldable pub visited : Result (Unit {0}) × S → Act S (Unit {0}) → Result (Unit {0}) × S
  visited (ok u, s) next = next s
  visited (err e, s) next = (if is_stop e then ok tt else err e, s)

  -- The loop of `IterateTar`, from a sequence number on.
  unfoldable pub iterate_from :
      (TarFileEntry → Act S (Unit {0})) → ℕ → List TarStep → Act S (Unit {0})
  iterate_from visitor sequence [] s = (ok tt, s)
  iterate_from visitor sequence (no_header ∷ steps) s = iterate_from visitor (suc sequence) steps s
  iterate_from visitor sequence (broken e ∷ steps) s = (err e, s)
  iterate_from visitor sequence (entry header size mode contents remaining position ∷ steps) s =
      visited
        (visitor
          (record {
            sequence = sequence;
            header = header;
            size = size;
            mode = mode;
            contents = contents;
            remaining = remaining;
            position = position;
          })
          s)
        (iterate_from visitor (suc sequence) steps)

  -- `IterateTar`
  unfoldable pub iterate_tar : List TarStep → (TarFileEntry → Act S (Unit {0})) → Act S (Unit {0})
  iterate_tar steps visitor = iterate_from visitor 0 steps

-- What a search of an archive returns.
abbrev pub found_or : {A : Type 0} → Str → Result (Unit {0}) × Option A → Result A
found_or path (err e, a) = err e
found_or path (ok u, none) = err (file_not_found path)
found_or path (ok u, some a) = ok a

unfoldable pub take_reader : Str → TarFileEntry → Act (Option Str) (Unit {0})
take_reader path e s =
    if str_eq e.header.name path then (err stop_iteration, some e.contents) else (ok tt, s)

-- `ReaderFromTar`: what the reader of the entry gives.
unfoldable pub reader_from_tar : List TarStep → Str → Result Str
reader_from_tar steps path = found_or path (iterate_tar steps (take_reader path) none)

-- `mime_type` is `MIMEType`, which asks the package mimetype; there may be no contents.
module _ (mime_type : Option Str → Str) where
  unfoldable pub take_metadata : Str → TarFileEntry → Act (Option Metadata) (Unit {0})
  take_metadata path e s =
      let content = if ltb 0 e.size then some e.remaining else none in
      if str_eq e.header.name path
      then (err stop_iteration, some (new_metadata e.header (mime_type content)))
      else (ok tt, s)

  -- `MetadataFromTar`: the MIME type is that of what is left in the archive.
  unfoldable pub metadata_from_tar : List TarStep → Str → Result Metadata
  metadata_from_tar steps path = found_or path (iterate_tar steps (take_metadata path) none)

-- `TarIndexEntry`
pub record TarIndexEntry : Type 0 where
  pub path : Str
  pub sequence : ℕ
  pub header : Header
  pub size : ℕ
  pub seek_position : ℕ

-- `Open`
unfoldable pub open_entry : TarIndexEntry → LazyReader
open_entry e = new_lazy_bounded_read_closer e.path e.seek_position e.size

abbrev pub TarIndex : Type 0
TarIndex = GoMap Str (List TarIndexEntry)

-- `t.indexByName[name] = append(t.indexByName[name], entry)`
unfoldable pub append_entry : TarIndexEntry → TarIndex → TarIndex
append_entry e t =
    put e.header.name (elim (get e.header.name t) [ none ↦ e ∷ [] | some es ↦ es ++ e ∷ [] ]) t

module _ {S : Type 0} (tar_path : Str) (on_index : TarIndexEntry → Act S (Unit {0})) where
  -- An entry at its position enters the index and is visited.
  unfoldable pub index_at : TarFileEntry → ℕ → Act (TarIndex × S) (Unit {0})
  index_at e position (t, s) =
      let index_entry : TarIndexEntry = record {
        path = tar_path;
        sequence = e.sequence;
        header = e.header;
        size = e.size;
        seek_position = position;
      } in
      let (r, s') = on_index index_entry s in (r, (append_entry index_entry t, s'))

  -- The visitor of `NewTarIndex`.
  unfoldable pub index_visitor : TarFileEntry → Act (TarIndex × S) (Unit {0})
  unfolding index_at
  index_visitor e s = elim e.position [
    | err failure ↦ (err failure, s)
    | ok position ↦ index_at e position s
  ]

  -- `NewTarIndex`, once the file is open
  unfoldable pub new_tar_index : List TarStep → S → Result (Unit {0}) × (TarIndex × S)
  new_tar_index steps s = iterate_tar steps index_visitor ([], s)

-- `EntriesByName`: the entries of a name in the order of the archive.
unfoldable pub entries_by_name : Str → TarIndex → List TarIndexEntry
entries_by_name name t = elim (get name t) [ none ↦ [] | some es ↦ es ]
