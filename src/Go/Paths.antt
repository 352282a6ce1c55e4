-- ===== src/Go/Paths.antt =====
-- Go's package `path`: `Clean`, `Join`, `Base`, `Split`, `IsAbs`. A `Clean` walks the elements of
-- the path with the elements that it keeps on a stack, the last one first.
use mathlib.Core.List.{reverse}
use stereoscope.Go.Strings.{slash, split, join, trim_right, last_index_byte}
use stereoscope.Prelude.{
  suc, List, [], ◌∷◌, ◌++◌, none, some, Bool, true, false, ◌||◌, Str, codes, str_eq, ◌==◌,
  if◌then◌else◌, take, drop,
}

abbrev pub dot : Str
dot = codes "."

abbrev pub dotdot : Str
dotdot = codes ".."

-- ".." drops the element before it; with none to drop it stays, unless the path is rooted.
unfoldable pub back : Bool → List Str → List Str
back true [] = []
back false [] = dotdot ∷ []
back rooted (e ∷ es) = if str_eq e dotdot then dotdot ∷ e ∷ es else es

unfoldable pub push_element : Bool → List Str → Str → List Str
push_element rooted stack e =
    if str_eq e [] || str_eq e dot
    then stack
    else if str_eq e dotdot
    then back rooted stack
    else e ∷ stack

unfoldable pub push_elements : Bool → List Str → List Str → List Str
push_elements rooted stack [] = stack
push_elements rooted stack (e ∷ es) = push_elements rooted (push_element rooted stack e) es

unfoldable pub render : Bool → List Str → Str
render true stack = slash ∷ join (reverse stack) slash
render false [] = dot
render false (e ∷ es) = join (reverse (e ∷ es)) slash

-- `path.IsAbs`
unfoldable pub is_abs : Str → Bool
is_abs [] = false
is_abs (c ∷ s) = c == slash

-- `path.Clean`
unfoldable pub clean : Str → Str
clean p = render (is_abs p) (push_elements (is_abs p) [] (split p slash))

-- `path.Join(a, b)`: empty elements are passed over.
unfoldable pub join_path : Str → Str → Str
join_path [] [] = []
join_path [] (c ∷ b) = clean (c ∷ b)
join_path (c ∷ a) b = clean ((c ∷ a) ++ (slash ∷ b))

after_slash : Str → Str
after_slash p = elim (last_index_byte p slash) [ none ↦ p | some i ↦ drop (suc i) p ]

-- `path.Split`: the directory keeps its slash.
unfoldable pub split_path : Str → Str × Str
unfolding after_slash
split_path p =
    (elim (last_index_byte p slash) [ none ↦ [] | some i ↦ take (suc i) p ], after_slash p)

base_of : Str → Str
base_of [] = slash ∷ []
base_of (c ∷ s) = c ∷ s

-- `path.Base`
unfoldable pub base : Str → Str
unfolding after_slash base_of
base [] = dot
base (c ∷ s) = base_of (after_slash (trim_right (c ∷ s) (slash ∷ [])))
