-- ===== src/Index.antt =====
-- pkg/filetree/index.go: file entries by their ID, with sets of IDs by kind, MIME type, extension and
-- basename. The lock of the source makes each operation one step.
pub mod Tracks
pub mod Queries
pub mod Answers
use stereoscope.Errors.{Result, ok, err, ◌>>=◌, not_exist, separator_in_basename, unsupported_glob}
use stereoscope.File.Kinds.{FileType, file_type_eq}
use stereoscope.File.Metadata.{Metadata}
use stereoscope.File.Refs.{Reference}
use stereoscope.File.Sets
use stereoscope.File.Sets.{IdSet}
use stereoscope.Go.Maps.{GoMap, get, put, has}
use stereoscope.Go.Paths.{base}
use stereoscope.Go.Strings.{contains, has_suffix, trim_space, trim_left, str_lt}
use stereoscope.Prelude.{
  ℕ, List, [], ◌∷◌, ◌++◌, Option, none, some, Bool, true, false, Eq, nat_eq, byte_string_eq, Str,
  codes, str_eq, ◌==◌, ltb, if◌then◌else◌,
}

-- `IndexEntry`
pub record IndexEntry : Type 0 where
  pub reference : Reference
  pub metadata : Metadata

-- `index`
pub record FileIndex : Type 0 where
  pub index : GoMap ℕ IndexEntry
  pub by_file_type : GoMap FileType (IdSet ℕ)
  pub by_mime_type : GoMap Str (IdSet ℕ)
  pub by_extension : GoMap Str (IdSet ℕ)
  pub by_basename : GoMap Str (IdSet ℕ)
  pub basenames : IdSet Str

-- `NewIndex`
abbrev pub new_index : FileIndex
new_index = record {
  index = [];
  by_file_type = [];
  by_mime_type = [];
  by_extension = [];
  by_basename = [];
  basenames = [];
}

abbrev pub set_or_new {ℓ} : {A : Type ℓ} → Option (List A) → List A
set_or_new none = []
set_or_new (some s) = s

-- The ID is added to the set of its key, which is made if it is missing.
unfoldable pub add_to : {K : Type 0} ⦃e : Eq K⦄ → K → ℕ → GoMap K (IdSet ℕ) → GoMap K (IdSet ℕ)
unfolding get put Sets.add
add_to k id m = put k (Sets.add (id ∷ []) (set_or_new (get k m))) m

unfoldable pub add_to_all : List Str → ℕ → GoMap Str (IdSet ℕ) → GoMap Str (IdSet ℕ)
unfolding add_to
add_to_all [] id m = m
add_to_all (k ∷ ks) id m = add_to_all ks id (add_to k id m)

-- The suffixes that begin with a dot, the shortest first.
dotted_suffixes : Str → List Str
dotted_suffixes [] = []
dotted_suffixes (c ∷ s) =
    let rest = dotted_suffixes s in if c == b'.' then rest ++ (c ∷ s) ∷ [] else rest

-- `fileExtensions`
unfoldable pub file_extensions : Str → List Str
unfolding trim_space has_suffix base trim_left dotted_suffixes
file_extensions path =
    let p = trim_space path in
    if has_suffix p (codes ".")
    then []
    else if has_suffix p (codes "/")
    then []
    else dotted_suffixes (trim_left (base p) (codes "."))

-- `Add`
unfoldable pub add : Reference → Metadata → FileIndex → FileIndex
unfolding add_to add_to_all put base file_extensions Sets.add
add f m c = record {
  index = put f.id (record { reference = f; metadata = m }) c.index;
  by_file_type = add_to m.file_type f.id c.by_file_type;
  by_mime_type =
      if str_eq m.mime_type [] then c.by_mime_type else add_to m.mime_type f.id c.by_mime_type;
  by_extension = add_to_all (file_extensions f.real_path) f.id c.by_extension;
  by_basename = add_to (base f.real_path) f.id c.by_basename;
  basenames = Sets.add (base f.real_path ∷ []) c.basenames;
}

-- `Exists`
unfoldable pub exists : Reference → FileIndex → Bool
unfolding get
exists f c = has f.id c.index

-- `Get`
unfoldable pub get_entry : Reference → FileIndex → Result IndexEntry
unfolding get
get_entry f c = elim (get f.id c.index) [ none ↦ err not_exist | some entry ↦ ok entry ]

-- `Basenames`
unfoldable pub all_basenames : FileIndex → List Str
unfolding Sets.sorted str_lt
all_basenames c = Sets.sorted str_lt c.basenames

-- The entries of a list of IDs, in its order.
unfoldable pub entries_of : List ℕ → FileIndex → Result (List IndexEntry)
entries_of [] c = ok []
entries_of (id ∷ ids) c =
    let rest = entries_of ids c in
    elim (get id c.index) [ none ↦ err not_exist | some entry ↦ (rest >>= λ es. ok (entry ∷ es)) ]

-- The loop that `GetByFileType`, `GetByMIMEType` and `GetByExtension` share; a key with no set is
-- passed over.
unfoldable pub get_by :
    {K : Type 0} ⦃e : Eq K⦄ → GoMap K (IdSet ℕ) → List K → FileIndex → Result (List IndexEntry)
get_by m [] c = ok []
get_by m (k ∷ ks) c =
    let here : Result (List IndexEntry) = elim (get k m) [
      | none ↦ ok []
      | some ids ↦ entries_of (Sets.sorted ltb ids) c
    ] in
    let rest = get_by m ks c in here >>= λ es. rest >>= λ more. ok (es ++ more)

-- `GetByFileType`
unfoldable pub get_by_file_type : List FileType → FileIndex → Result (List IndexEntry)
unfolding get_by
get_by_file_type types c = get_by c.by_file_type types c

-- `GetByMIMEType`
unfoldable pub get_by_mime_type : List Str → FileIndex → Result (List IndexEntry)
unfolding get_by
get_by_mime_type types c = get_by c.by_mime_type types c

-- `GetByExtension`
unfoldable pub get_by_extension : List Str → FileIndex → Result (List IndexEntry)
unfolding get_by
get_by_extension extensions c = get_by c.by_extension extensions c

-- `GetByBasename`
unfoldable pub get_by_basename : List Str → FileIndex → Result (List IndexEntry)
unfolding get_by contains
get_by_basename [] c = ok []
get_by_basename (b ∷ bs) c =
    let here = get_by c.by_basename (b ∷ []) c in
    let rest = get_by_basename bs c in
    if contains b (codes "/")
    then err separator_in_basename
    else here >>= λ es. rest >>= λ more. ok (es ++ more)

-- Matching is done by the package wildmatch-go: `is_match glob basename`.
module _ (is_match : Str → Str → Bool) where
  -- The loop over the basenames.
  matching : Str → List Str → FileIndex → Result (List IndexEntry)
  unfolding get_by_basename
  matching glob [] c = ok []
  matching glob (b ∷ bs) c =
      let rest = matching glob bs c in
      let here = get_by_basename (b ∷ []) c >>= λ es. rest >>= λ more. ok (es ++ more) in
      if is_match glob b then here else rest

  -- `GetByBasenameGlob`
  unfoldable pub get_by_basename_glob : List Str → FileIndex → Result (List IndexEntry)
  unfolding matching contains all_basenames
  get_by_basename_glob [] c = ok []
  get_by_basename_glob (g ∷ gs) c =
      let rest = get_by_basename_glob gs c in
      let here = matching g (all_basenames c) c in
      if contains g (codes "**")
      then err unsupported_glob
      else if contains g (codes "/")
      then err separator_in_basename
      else here >>= λ es. rest >>= λ more. ok (es ++ more)
