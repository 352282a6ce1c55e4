-- ===== src/File/Tar/Untar.antt =====
-- `UntarToDirectory` of pkg/file/tarutil.go: what it may touch.
use stereoscope.Errors.{
  Failure, Result, ok, err, Act, after, path_traversal, read_limit, after-keeps,
}
use stereoscope.File.LazyReader.{is_eof}
use stereoscope.File.Paths.Canonical.{IsCanonical, clean-IsCanonical}
use stereoscope.File.Tar.{
  TarStep, entry, no_header, broken, TarFileEntry, visited, iterate_from, iterate_tar,
}
use stereoscope.Go.Paths.{join_path}
use stereoscope.Go.Strings.{slash, has_prefix}
use stereoscope.Prelude.{
  ℕ, suc, ◌*◌, ◌^◌, List, [], ◌∷◌, ◌++◌, Option, none, some, Bool, true, not, ◌||◌, Str, ◌==◌, leb,
  take, if◌then◌else◌, if-keeps, ◌≡◌, arith,
}

-- `afero.Fs`, over the states of a file system: whether a path can be read, new directories, a file that is
-- opened to be written, the copy of bytes to it, and its close.
pub record FileSystem (F : Type 0) : Type 0 where
  pub stat : Str → F → Bool
  pub mkdir_all : Str → Act F (Unit {0})
  pub open_file : Str → ℕ → Act F (Unit {0})
  pub copy : Str → Str → F → (ℕ × Option Failure) × F
  pub close : Str → F → F

-- `perFileReadLimit`, 2 GB
abbrev pub per_file_read_limit : ℕ
per_file_read_limit = 2 * 2 ^ 30

module _ {F : Type 0} (fs : FileSystem F) (destination : Str) where
  -- The end of a copy: the limit, another error, or the close of the file.
  unfoldable pub copied : Str → (ℕ × Option Failure) × F → Result (Unit {0}) × F
  unfolding is_eof
  copied target ((bytes, failed), s) =
      if leb per_file_read_limit bytes || is_eof failed
      then (err read_limit, s)
      else elim failed [ some e ↦ (err e, s) | none ↦ (ok tt, fs.close target s) ]

  -- The cases of `visit` by the flag of the entry: links and special files are passed over.
  unfoldable pub extract : Str → TarFileEntry → Act F (Unit {0})
  unfolding copied
  extract target e s =
      let kind = e.header.type_flag in
      if kind == b'2' || kind == b'1'
      then (ok tt, s)
      else if kind == b'5'
      then if fs.stat target s then (ok tt, s) else fs.mkdir_all target s
      else if kind == b'0'
      then after (fs.open_file target e.mode s)
          (λ _ s1. copied target (fs.copy target (take per_file_read_limit e.contents) s1))
      else (ok tt, s)

  -- `tarVisitor.visit`
  unfoldable pub visit_entry : TarFileEntry → Act F (Unit {0})
  unfolding extract join_path has_prefix
  visit_entry e s =
      let target = join_path destination e.header.name in
      if not (has_prefix target (destination ++ (slash ∷ [])))
      then (err (path_traversal e.header.name), s)
      else extract target e s

  -- `UntarToDirectory`
  unfoldable pub untar_to_directory : List TarStep → Act F (Unit {0})
  unfolding visit_entry
  untar_to_directory steps = iterate_tar steps visit_entry

module _ {S : Type 0} (P : S → Type 0) (visitor : TarFileEntry → Act S (Unit {0}))
    (keeps : (e : TarFileEntry) (s : S) → P s → P (visitor e s).1) where
  visited-keeps :
      (x : Result (Unit {0}) × S) (next : Act S (Unit {0}))
      → P x.1
      → ((s : S) → P s → P (next s).1)
      → P (visited x next).1
  unfolding visited
  visited-keeps (ok u, s) next h k = k s h
  visited-keeps (err e, s) next h k = h

  iterate_from-keeps :
      (sequence : ℕ) (steps : List TarStep) (s : S)
      → P s
      → P (iterate_from visitor sequence steps s).1
  unfolding iterate_from
  iterate_from-keeps sequence [] s h = h
  iterate_from-keeps sequence (no_header ∷ steps) s h = iterate_from-keeps (suc sequence) steps s h
  iterate_from-keeps sequence (broken e ∷ steps) s h = h
  iterate_from-keeps sequence (entry header size mode contents remaining position ∷ steps) s h =
      visited-keeps (visitor _ s) _ (keeps _ s h) (iterate_from-keeps (suc sequence) steps)

  -- What every visit keeps, the iteration over an archive keeps, whether or not it fails.
  pub iterate_tar-keeps : (steps : List TarStep) (s : S) → P s → P (iterate_tar steps visitor s).1
  unfolding iterate_tar
  iterate_tar-keeps steps s h = iterate_from-keeps 0 steps s h

-- A path in the directory: it has no empty, "." or ".." element, and begins with the directory and a slash.
pub record Inside (destination target : Str) : Type 0 where
  pub canonical : IsCanonical target
  pub below : has_prefix target (destination ++ (slash ∷ [])) ≡ true

-- Each operation keeps `P` at the paths in the directory.
pub record KeepsInside {F : Type 0} (fs : FileSystem F) (destination : Str) (P : F → Type 0)
    : Type 0 where
  pub mkdir_all : (t : Str) (s : F) → Inside destination t → P s → P (fs.mkdir_all t s).1
  pub open_file :
      (t : Str) (mode : ℕ) (s : F) → Inside destination t → P s → P (fs.open_file t mode s).1
  pub copy : (t bytes : Str) (s : F) → Inside destination t → P s → P (fs.copy t bytes s).1
  pub close : (t : Str) (s : F) → Inside destination t → P s → P (fs.close t s)

module _ {F : Type 0} (fs : FileSystem F) (dir : Str) (P : F → Type 0)
    (keeps : KeepsInside fs (slash ∷ dir) P) where
  abbrev Kept : Result (Unit {0}) × F → Type 0
  Kept x = P x.1

  copied-keeps :
      (t : Str) (x : (ℕ × Option Failure) × F)
      → Inside (slash ∷ dir) t
      → P x.1
      → Kept (copied fs (slash ∷ dir) t x)
  unfolding copied
  copied-keeps t ((bytes, none), s) inside h =
      if-keeps Kept (leb per_file_read_limit bytes || is_eof none) _ _ (λ e. h)
        (λ e. keeps.close t s inside h)
  copied-keeps t ((bytes, some failure), s) inside h =
      if-keeps Kept (leb per_file_read_limit bytes || is_eof (some failure)) _ _ (λ e. h) (λ e. h)

  extract-keeps :
      (t : Str) (e : TarFileEntry) (s : F)
      → Inside (slash ∷ dir) t
      → P s
      → Kept (extract fs (slash ∷ dir) t e s)
  unfolding extract
  extract-keeps t e s inside h =
      if-keeps Kept (e.header.type_flag == b'2' || e.header.type_flag == b'1') _ _ (λ x. h)
        (λ x.
          if-keeps Kept (e.header.type_flag == b'5') _ _
            (λ x. if-keeps Kept (fs.stat t s) _ _ (λ x. h) (λ x. keeps.mkdir_all t s inside h))
            (λ x.
              if-keeps Kept (e.header.type_flag == b'0') _ _
                (λ x.
                  after-keeps P (fs.open_file t e.mode s) _ (keeps.open_file t e.mode s inside h)
                    (λ u s1 h1.
                      copied-keeps t (fs.copy t (take per_file_read_limit e.contents) s1) inside
                        (keeps.copy t (take per_file_read_limit e.contents) s1 inside h1)))
                (λ x. h)))

  target-Inside :
      (name : Str)
      → has_prefix (join_path (slash ∷ dir) name) ((slash ∷ dir) ++ (slash ∷ [])) ≡ true
      → Inside (slash ∷ dir) (join_path (slash ∷ dir) name)
  unfolding join_path
  target-Inside name h = record { canonical = clean-IsCanonical (dir ++ (slash ∷ name)); below = h }

  visit_entry-keeps : (e : TarFileEntry) (s : F) → P s → Kept (visit_entry fs (slash ∷ dir) e s)
  unfolding visit_entry
  visit_entry-keeps e s h =
      if-keeps Kept
        (not (has_prefix (join_path (slash ∷ dir) e.header.name) ((slash ∷ dir) ++ (slash ∷ [])))) _
        _ (λ x. h) (λ x. extract-keeps _ e s (target-Inside e.header.name (ground arith)) h)

  -- Untarring to an absolute directory keeps whatever each operation of the file system keeps at paths in that
  -- directory, for any archive, on errors too. Such a path has no "..", "." or empty element and begins with
  -- the directory and a slash.
  pub untar_to_directory-keeps :
      (steps : List TarStep) (s : F) → P s → P (untar_to_directory fs (slash ∷ dir) steps s).1
  unfolding untar_to_directory
  untar_to_directory-keeps = iterate_tar-keeps P (visit_entry fs (slash ∷ dir)) visit_entry-keeps
