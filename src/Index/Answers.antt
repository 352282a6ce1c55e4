-- ===== src/Index/Answers.antt =====
-- What `GetByFileType`, `GetByMIMEType`, `GetByExtension` and `GetByBasename` return, and what an
-- overwritten entry leaves behind.
use mathlib.Core.Logic.{◌≢◌}
use stereoscope.Errors.{Result, ok, err, ◌>>=◌, separator_in_basename}
use stereoscope.File.Kinds.{FileType, file_type_eq, type_eq_iff}
use stereoscope.File.Metadata.{Metadata}
use stereoscope.File.Refs.{Reference}
use stereoscope.Go.Maps.{put, get-put}
use stereoscope.Go.Strings.{contains}
use stereoscope.Index.{
  FileIndex, IndexEntry, add_to, get_by, get_by_file_type, get_by_mime_type, get_by_extension,
  get_by_basename, add,
}
use stereoscope.Index.Queries.{IsAnswer, get_by-IsAnswer}
use stereoscope.Index.Tracks.{
  IsIndex, has_member-add_to, has_type, has_mime, has_extension, has_basename,
}
use stereoscope.Prelude.{
  List, [], ◌∷◌, ◌++◌, Str, codes, Bool, true, false, ◌≡◌, refl, ap, nat_eq, byte_string_eq, arith,
  Bool-cases, inl, inr, ==_iff, ◌⊎◌, append-nil, ◌||◌,
}

-- A lookup returns, and what it returns is the answer for its keys.
abbrev pub Answers : Result (List IndexEntry) → (List IndexEntry → Type 0) → Type 0
Answers r P = (es : List IndexEntry) × (r ≡ ok es) × P es

module _ (c : FileIndex) (v : IsIndex c) where
  -- An index that is in order answers every lookup by kind, by MIME type and by extension: none fails,
  -- and each gives the IDs in the sets of the keys, sorted within each key, with the stored entry
  -- behind each ID, and every entry belongs to one of the keys.
  pub lookups-IsAnswer :
      (types : List FileType) (mimes extensions : List Str)
      → Answers (get_by_file_type types c) (IsAnswer has_type c.by_file_type c types)
        × Answers (get_by_mime_type mimes c) (IsAnswer has_mime c.by_mime_type c mimes)
        × Answers
            (get_by_extension extensions c)
            (IsAnswer has_extension c.by_extension c extensions)
  unfolding get_by_file_type get_by_mime_type get_by_extension
  lookups-IsAnswer types mimes extensions = (
    get_by-IsAnswer c v.ids has_type c.by_file_type v.types types,
    get_by-IsAnswer c v.ids has_mime c.by_mime_type v.mimes mimes,
    get_by-IsAnswer c v.ids has_extension c.by_extension v.extensions extensions,
  )

-- A basename that is asked for holds a slash.
abbrev pub any_slash : List Str → Bool
any_slash [] = false
any_slash (b ∷ bs) = contains b (codes "/") || any_slash bs

bind_nil : (r : Result (List IndexEntry)) → (r >>= λ es. ok [] >>= λ more. ok (es ++ more)) ≡ r
bind_nil (ok es) = ap ok (append-nil es)
bind_nil (err e) = refl

get_by_one :
    (c : FileIndex) (b : Str) (bs : List Str)
    → (get_by c.by_basename (b ∷ []) c >>= λ es.
        get_by c.by_basename bs c >>= λ more. ok (es ++ more))
      ≡ get_by c.by_basename (b ∷ bs) c
unfolding get_by
get_by_one c b bs =
    ap
      (λ (r : Result (List IndexEntry)).
        r >>= λ es. get_by c.by_basename bs c >>= λ more. ok (es ++ more))
      (bind_nil _)

-- Without a slash in a basename, `GetByBasename` is the lookup in the sets of basenames.
get_by_basename-eq :
    (c : FileIndex) (bs : List Str)
    → any_slash bs ≡ false
    → get_by_basename bs c ≡ get_by c.by_basename bs c
unfolding get_by_basename
get_by_basename-eq c [] h = unfold get_by in refl
get_by_basename-eq c (b ∷ bs) h = ground (arith, get_by_basename-eq c bs, get_by_one c b bs)

-- When a file is added a second time under the same ID, with another kind, the index is not in order after that.
pub overwritten_is_stale :
    (f : Reference) (m m' : Metadata) (c : FileIndex)
    → m.file_type ≢ m'.file_type
    → ¬ IsIndex (add f m' (add f m c))
unfolding add
overwritten_is_stale f m m' c other v =
    let e' : IndexEntry = record { reference = f; metadata = m' } in
    ground (
      arith,
      v.types m.file_type f.id,
      has_member-add_to m'.file_type m.file_type f.id f.id (add_to m.file_type f.id c.by_file_type),
      has_member-add_to m.file_type m.file_type f.id f.id c.by_file_type,
      get-put f.id f.id e' (put f.id (record { reference = f; metadata = m }) c.index),
      type_eq_iff m'.file_type m.file_type,
      type_eq_iff m.file_type m.file_type,
      ==_iff f.id f.id,
    )

-- A lookup in the sets of basenames does not fail, so a slash in any of the basenames is noticed.
slash_fails :
    (c : FileIndex) (v : IsIndex c) (bs : List Str)
    → any_slash bs ≡ true
    → get_by_basename bs c ≡ err separator_in_basename
unfolding get_by_basename
slash_fails c v [] h = cc
slash_fails c v (b ∷ bs) h =
    let (es, found, _) = get_by-IsAnswer c v.ids has_basename c.by_basename v.names (b ∷ []) in
    ground (arith, slash_fails c v bs, found)

-- In an index that is in order, `GetByBasename` fails exactly if a basename that is asked for holds a
-- slash; else it gives the answer for the basenames.
pub get_by_basename-IsAnswer :
    (c : FileIndex) (bs : List Str)
    → IsIndex c
    → ((any_slash bs ≡ true) × (get_by_basename bs c ≡ err separator_in_basename))
      ⊎ ((any_slash bs ≡ false)
          × Answers (get_by_basename bs c) (IsAnswer has_basename c.by_basename c bs))
get_by_basename-IsAnswer c bs v = elim (Bool-cases (any_slash bs)) [
  | inl h ↦ inl (h, with_slash bs h)
  | inr h ↦ inr (h, rw (get_by_basename-eq c bs h) (answer bs))
]
  where
    answer :
        (l : List Str)
        → Answers (get_by c.by_basename l c) (IsAnswer has_basename c.by_basename c l)
    answer l = get_by-IsAnswer c v.ids has_basename c.by_basename v.names l

    with_slash :
        (l : List Str) → any_slash l ≡ true → get_by_basename l c ≡ err separator_in_basename
    with_slash l h = slash_fails c v l h
