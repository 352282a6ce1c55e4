-- ===== src/Go/Strings.antt =====
-- The functions of Go's `strings` that the source calls, over byte lists.
use mathlib.Core.List.{reverse}
use stereoscope.Prelude.{
  ℕ, zero, suc, ◌-◌, List, [], ◌∷◌, ◌++◌, Option, none, some, Bool, true, false, ◌&&◌, ◌||◌, ◌≡◌,
  ◌≢◌, refl, ap, ◌∙◌, Str, ◌==◌, ltb, leb, arith, if◌then◌else◌, length, All, Bool-cases, inl, inr,
}

abbrev pub slash : ℕ
slash = b'/'

-- `strings.HasPrefix(s, prefix)`
unfoldable pub has_prefix : Str → Str → Bool
has_prefix s [] = true
has_prefix [] (p ∷ ps) = false
has_prefix (c ∷ s) (p ∷ ps) = (c == p) && has_prefix s ps

-- `strings.HasSuffix(s, suffix)`
unfoldable pub has_suffix : Str → Str → Bool
has_suffix s suffix = has_prefix (reverse s) (reverse suffix)

-- `strings.TrimPrefix(s, prefix)`: what follows the prefix, if it is there.
strip : Str → Str → Option Str
strip s [] = some s
strip [] (p ∷ ps) = none
strip (c ∷ s) (p ∷ ps) = if c == p then strip s ps else none

unfoldable pub trim_prefix : Str → Str → Str
unfolding strip
trim_prefix s prefix = elim (strip s prefix) [ none ↦ s | some rest ↦ rest ]

-- A cut set of bytes, as `TrimLeft`, `TrimRight` and `ContainsAny` take.
unfoldable pub byte_in : Str → ℕ → Bool
byte_in [] c = false
byte_in (x ∷ xs) c = x == c || byte_in xs c

-- `strings.TrimLeft(s, cutset)`
unfoldable pub trim_left : Str → Str → Str
unfolding byte_in
trim_left [] cut = []
trim_left (c ∷ s) cut = let rest = trim_left s cut in if byte_in cut c then rest else c ∷ s

-- `strings.TrimRight(s, cutset)`: a byte goes exactly if it and all behind it are in the set.
unfoldable pub trim_right : Str → Str → Str
unfolding byte_in
trim_right [] cut = []
trim_right (c ∷ s) cut = elim (trim_right s cut) [
  | [] ↦ if byte_in cut c then [] else c ∷ []
  | d ∷ r ↦ c ∷ d ∷ r
]

is_space : ℕ → Bool
is_space c = c == b' ' || (leb 9 c && leb c 13)

-- `strings.TrimSpace`, with the white space of ASCII
unfoldable pub trim_left_space : Str → Str
unfolding is_space
trim_left_space [] = []
trim_left_space (c ∷ s) = let rest = trim_left_space s in if is_space c then rest else c ∷ s

unfoldable pub trim_space : Str → Str
unfolding trim_left_space
trim_space s = reverse (trim_left_space (reverse (trim_left_space s)))

-- `strings.ContainsAny(s, chars)`
unfoldable pub contains_any : Str → Str → Bool
unfolding byte_in
contains_any [] cs = false
contains_any (c ∷ s) cs = byte_in cs c || contains_any s cs

-- `strings.Contains(s, sub)`, for a `sub` that is not empty
unfoldable pub contains : Str → Str → Bool
unfolding has_prefix
contains [] sub = false
contains (c ∷ s) sub = has_prefix (c ∷ s) sub || contains s sub

-- `strings.Count(s, c)`, for one byte
unfoldable pub count_byte : Str → ℕ → ℕ
count_byte [] c = 0
count_byte (d ∷ s) c = let rest = count_byte s c in if d == c then suc rest else rest

-- `strings.Index(s, c)`, for one byte
unfoldable pub index_byte : Str → ℕ → Option ℕ
index_byte [] c = none
index_byte (d ∷ s) c =
    let rest = index_byte s c in
    if d == c then some 0 else elim rest [ none ↦ none | some i ↦ some (suc i) ]

-- `strings.LastIndex(s, c)`, for one byte
unfoldable pub last_index_byte : Str → ℕ → Option ℕ
last_index_byte [] c = none
last_index_byte (d ∷ s) c = elim (last_index_byte s c) [
  | none ↦ if d == c then some 0 else none
  | some i ↦ some (suc i)
]

push_head : ℕ → List Str → List Str
push_head c [] = (c ∷ []) ∷ []
push_head c (p ∷ ps) = (c ∷ p) ∷ ps

-- `strings.Split(s, sep)`, for one byte
unfoldable pub split : Str → ℕ → List Str
unfolding push_head
split [] sep = [] ∷ []
split (c ∷ s) sep = let rest = split s sep in if c == sep then [] ∷ rest else push_head c rest

-- `strings.Join(parts, sep)`, for one byte
unfoldable pub join : List Str → ℕ → Str
join [] sep = []
join (p ∷ []) sep = p
join (p ∷ q ∷ ps) sep = p ++ (sep ∷ join (q ∷ ps) sep)

-- `strings.Split(s, sep)`, for a longer separator; the number counts the bytes of the
-- separator that are still to be passed over.
split_from : ℕ → Str → Str → List Str
unfolding has_prefix push_head
split_from skip [] sep = [] ∷ []
split_from (suc k) (c ∷ s) sep = split_from k s sep
split_from zero (c ∷ s) sep =
    let cut = split_from (length sep - 1) s sep in
    let keep = split_from zero s sep in
    if has_prefix (c ∷ s) sep then [] ∷ cut else push_head c keep

unfoldable pub split_str : Str → Str → List Str
unfolding split_from
split_str s sep = split_from 0 s sep

-- `strings.Join(parts, sep)`, for any separator
unfoldable pub join_str : List Str → Str → Str
join_str [] sep = []
join_str (p ∷ []) sep = p
join_str (p ∷ q ∷ ps) sep = p ++ (sep ++ join_str (q ∷ ps) sep)

-- `strings.ReplaceAll(s, old, new)`, for an `old` that is not empty
unfoldable pub replace_all : Str → Str → Str → Str
unfolding split_str join_str
replace_all s old new = join_str (split_str s old) new

-- `a < b` on strings
unfoldable pub str_lt : Str → Str → Bool
str_lt [] [] = false
str_lt [] (d ∷ t) = true
str_lt (c ∷ s) [] = false
str_lt (c ∷ s) (d ∷ t) = ltb c d || ((c == d) && str_lt s t)

abbrev pub Lacks : ℕ → Str → Type 0
Lacks b = All (λ c. c ≢ b)

pub split-Lacks : (p : Str) (sep : ℕ) → Lacks sep p → split p sep ≡ p ∷ []
unfolding split
split-Lacks [] sep h = refl
split-Lacks (c ∷ p) sep h = ground (arith, split-Lacks p sep)

split_at_sep :
    (p rest : Str) (sep : ℕ) → Lacks sep p → split (p ++ (sep ∷ rest)) sep ≡ p ∷ split rest sep
unfolding split
split_at_sep [] rest sep h = ground arith
split_at_sep (c ∷ p) rest sep h = ground (arith, split_at_sep p rest sep)

-- Parts that hold no separator come back from their join.
pub split-join :
    (ps : List Str) (sep : ℕ) → ps ≢ [] → All (Lacks sep) ps → split (join ps sep) sep ≡ ps
unfolding join
split-join [] sep ne h = absurd (ne refl)
split-join (p ∷ []) sep ne h = split-Lacks p sep h.0
split-join (p ∷ q ∷ ps) sep ne h =
    split_at_sep p (join (q ∷ ps) sep) sep h.0 ∙ ap (◌∷◌ p) (split-join (q ∷ ps) sep (cc) h.1)

push_head-Lacks :
    (c : ℕ) (ps : List Str) (sep : ℕ)
    → c ≢ sep
    → All (Lacks sep) ps
    → All (Lacks sep) (push_head c ps)
unfolding push_head
push_head-Lacks c [] sep ne h = ((ne, tt), tt)
push_head-Lacks c (p ∷ ps) sep ne h = ((ne, h.0), h.1)

-- The parts of a split hold no separator.
pub split_parts-Lacks : (s : Str) (sep : ℕ) → All (Lacks sep) (split s sep)
unfolding split
split_parts-Lacks [] sep = (tt, tt)
split_parts-Lacks (c ∷ s) sep = part (split s sep) (split_parts-Lacks s sep)
  where
    part :
        (ps : List Str)
        → All (Lacks sep) ps
        → All (Lacks sep) (if c == sep then [] ∷ ps else push_head c ps)
    part ps h = elim (Bool-cases (c == sep)) [
      | inl same ↦ rw same (tt, h)
      | inr other ↦ rw other (push_head-Lacks c ps sep (ground arith) h)
    ]
