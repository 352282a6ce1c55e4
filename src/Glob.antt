-- ===== src/Glob.antt =====
-- pkg/filetree/glob_parser.go: what a glob asks of the index.
pub mod Clean
pub mod Streaks
pub mod Whole
use stereoscope.Glob.Clean.{clean_glob}
use stereoscope.Go.Strings.{
  slash, contains_any, count_byte, index_byte, last_index_byte, split, split_str, replace_all,
}
use stereoscope.Prelude.{
  ℕ, suc, ◌-◌, List, [], ◌∷◌, map, Option, none, some, Bool, true, false, not, ◌&&◌, ◌||◌, Str,
  codes, str_eq, ◌==◌, ltb, if◌then◌else◌, length, take, drop,
}

-- `searchBasis`
pub data SearchBasis : Type 0 where
  by_glob by_full_path by_extension by_basename by_basename_glob by_sub_directory : SearchBasis

-- `searchRequest`
pub record SearchRequest : Type 0 where
  pub basis : SearchBasis
  pub value : Str
  pub requirement : Str

abbrev pub special : Str
special = codes "*?[]{}"

abbrev pub request : SearchBasis → Str → SearchRequest
request basis value = record { basis = basis; value = value; requirement = [] }

-- `splitAtBasename`: what stands before the last slash, and the basename behind it.
unfoldable pub split_at_basename : Str → Str × Str
unfolding last_index_byte
split_at_basename glob = elim (last_index_byte glob slash) [
  | none ↦ ([], glob)
  | some i ↦ if ltb i (length glob - 1) then (take i glob, drop (suc i) glob) else ([], [])
]

unfoldable pub is_extension : SearchBasis → Bool
is_extension by_extension = true
is_extension _ = false

unfoldable pub is_by_glob : SearchBasis → Bool
is_by_glob by_glob = true
is_by_glob _ = false

-- The requirement that `applyRequirement` gives a request.
unfoldable pub required : SearchRequest → Str → Str → Str
unfolding is_extension
required r before glob =
    if str_eq before []
    then []
    else if (str_eq before (codes "**") || str_eq before r.requirement)
        && not (is_extension r.basis)
    then []
    else glob

-- `applyRequirement`
unfoldable pub apply_requirement : Str → Str → SearchRequest → SearchRequest
unfolding required is_by_glob
apply_requirement before glob r =
    let requirement = required r before glob in
    if is_by_glob r.basis
    then record r {
      value = glob;
      requirement = if str_eq glob requirement then [] else requirement;
    }
    else record r { requirement = requirement }

-- A section of a list `{a,b,c}`.
unfoldable pub section_request : Str → SearchRequest
unfolding contains_any
section_request s =
    if contains_any s (codes "*?") then request by_basename_glob s else request by_basename s

-- `strings.Index(s, c) == i`
at_index : Str → ℕ → ℕ → Bool
unfolding index_byte
at_index s c i = elim (index_byte s c) [ none ↦ false | some j ↦ j == i ]

-- What stands between the first and the last byte.
inner : Str → Str
inner s = take (length s - 1 - 1) (drop 1 s)

-- The requests of a list of more than one section.
section_requests : Str → List Str → List SearchRequest
unfolding section_request
section_requests basename (a ∷ b ∷ rest) = map section_request (a ∷ b ∷ rest)
section_requests basename _ = request by_basename_glob basename ∷ []

-- `parseBasenameAltAndClassGlobSections`
unfoldable pub parse_basename_alt_and_class : Str → List SearchRequest
unfolding count_byte at_index inner section_requests split
parse_basename_alt_and_class s =
    if not (count_byte s b'{' == count_byte s b'}') || not (count_byte s b'[' == count_byte s b']')
    then request by_glob [] ∷ []
    else if ltb 0 (count_byte s b'[')
    then request by_basename_glob s ∷ []
    else if (count_byte s b'{' == 1) && at_index s b'{' 0 && at_index s b'}' (length s - 1)
    then section_requests s (split (inner s) b',')
    else request by_basename_glob s ∷ []

-- The extension of a basename that is `*.` and no other pattern.
plain_extension : List Str → Option Str
unfolding contains_any
plain_extension (a ∷ b ∷ []) =
    if str_eq a [] && not (contains_any b (codes "*?")) then some b else none
plain_extension _ = none

-- The end of `parseGlobBasename`, for a basename that is no plain extension.
parse_other_basename : Str → List SearchRequest
unfolding contains_any replace_all
parse_other_basename s =
    if not (contains_any s (codes "*?"))
    then request by_basename s ∷ []
    else if str_eq (replace_all (replace_all s (codes "?") []) (codes "*") []) []
    then request by_glob [] ∷ []
    else request by_basename_glob s ∷ []

-- `parseGlobBasename`
unfoldable pub parse_glob_basename : Str → List SearchRequest
unfolding contains_any parse_basename_alt_and_class plain_extension parse_other_basename split_str
parse_glob_basename s =
    if contains_any s (codes "[]{}")
    then parse_basename_alt_and_class s
    else elim (plain_extension (split_str s (codes "*."))) [
      | some e ↦ request by_extension (b'.' ∷ e) ∷ []
      | none ↦ parse_other_basename s
    ]

-- The end of `parseGlob`, for a basename that is no `*` below a plain directory.
unfoldable pub parse_at_basename : Str → Str → Str → List SearchRequest
unfolding parse_glob_basename apply_requirement
parse_at_basename glob before basename =
    map (apply_requirement before glob) (parse_glob_basename basename)

-- `parseGlob`, of a glob that `cleanGlob` has been through
unfoldable pub parse_clean_glob : Str → List SearchRequest
unfolding contains_any split_at_basename parse_at_basename
parse_clean_glob glob =
    let (before, basename) = split_at_basename glob in
    let nested = (split_at_basename before).1 in
    if not (contains_any glob special)
    then request by_full_path glob ∷ []
    else if str_eq basename (codes "*") && not (contains_any nested special)
    then record { basis = by_sub_directory; value = nested; requirement = before } ∷ []
    else parse_at_basename glob before basename

-- `parseGlob`
unfoldable pub parse_glob : Str → List SearchRequest
unfolding clean_glob parse_clean_glob
parse_glob glob = parse_clean_glob (clean_glob glob)
