-- ===== src/File/Paths.antt =====
-- pkg/file/path.go and pkg/file/path_stack.go.
pub mod Canonical
use mathlib.Core.Option
use stereoscope.Go.Paths.{clean, base, split_path, join_path}
use stereoscope.Go.Strings.{
  slash, has_prefix, trim_prefix, trim_left, trim_right, count_byte, split, join,
}
use stereoscope.Prelude.{
  ℕ, zero, suc, List, [], ◌∷◌, ◌++◌, Option, none, some, Bool, Str, codes, str_eq, ltb,
  if◌then◌else◌, length, take,
}

abbrev pub FilePath : Type 0
FilePath = Str

abbrev pub root : FilePath
root = slash ∷ []

abbrev pub whiteout_prefix : Str
whiteout_prefix = codes ".wh."

abbrev pub opaque_whiteout : Str
opaque_whiteout = whiteout_prefix ++ (whiteout_prefix ++ codes ".opq")

abbrev pub blank : Str
blank = b' ' ∷ []

-- A path of blanks alone keeps them.
unfoldable pub trim_blanks : FilePath → Str
trim_blanks p = if ltb (count_byte p b' ') (length p) then trim_left p blank else p

-- What is left of the trimmed path, or the root.
unfoldable pub clean_or_root : Str → FilePath
clean_or_root [] = root
clean_or_root (c ∷ s) = clean (c ∷ s)

-- `Normalize`
unfoldable pub normalize : FilePath → FilePath
normalize p = clean_or_root (trim_right (trim_blanks p) root)

-- `IsAbsolutePath`
unfoldable pub is_absolute_path : FilePath → Bool
is_absolute_path p = has_prefix p root

-- `Basename`
unfoldable pub basename : FilePath → Str
basename p = base p

-- `IsDirWhiteout`
unfoldable pub is_dir_whiteout : FilePath → Bool
is_dir_whiteout p = str_eq (basename p) opaque_whiteout

-- `IsWhiteout`
unfoldable pub is_whiteout : FilePath → Bool
is_whiteout p = has_prefix (basename p) whiteout_prefix

-- `ParentPath`; `none` is the error "no parent".
unfoldable pub parent_path : FilePath → Option FilePath
parent_path p =
    let (parent, child) = split_path p in
    let sanitized = normalize parent in
    if str_eq sanitized root then (if str_eq child [] then none else some root) else some sanitized

-- `UnWhiteoutPath`
unfoldable pub un_whiteout_path : FilePath → Option FilePath
un_whiteout_path p =
    if has_prefix (basename p) opaque_whiteout
    then parent_path p
    else Option.map (λ parent. join_path parent (trim_prefix (basename p) whiteout_prefix))
        (parent_path p)

-- The paths `"/" + parts[:idx]` for the indices from `idx` on, one for each part left.
unfoldable pub prefixes : List Str → ℕ → List Str → List FilePath
prefixes parts idx [] = []
prefixes parts idx (e ∷ es) = (slash ∷ join (take idx parts) slash) ∷ prefixes parts (suc idx) es

-- `ConstituentPaths`
unfoldable pub constituent_paths : FilePath → List FilePath
constituent_paths p =
    let parents = split (trim_right (trim_left p root) root) slash in prefixes parents 0 parents

-- `AllPaths`
unfoldable pub all_paths : FilePath → List FilePath
all_paths p = if str_eq p root then constituent_paths p else constituent_paths p ++ p ∷ []
