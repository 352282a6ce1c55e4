-- ===== src/Glob/Whole.antt =====
-- The requests that `parseGlob` of pkg/filetree/glob_parser.go leaves to a search by the whole glob.
use stereoscope.Glob.{
  SearchRequest, by_sub_directory, special, is_by_glob, required, apply_requirement,
  parse_at_basename, parse_clean_glob, parse_glob, parse_glob_basename, split_at_basename,
}
use stereoscope.Glob.Clean.{clean_glob}
use stereoscope.Go.Strings.{contains_any}
use stereoscope.Prelude.{
  List, [], ◌∷◌, map, All, Bool, true, not, ◌&&◌, ◌||◌, ◌≡◌, refl, arith, Str, str_eq, str_eq_iff,
  if◌then◌else◌, if-keeps, ◌⊎◌,
}

-- A request by glob carries the whole glob and no further requirement.
abbrev pub is_whole : Str → SearchRequest → Bool
is_whole glob r = not (is_by_glob r.basis) || str_eq r.value glob && str_eq r.requirement []

abbrev pub AllWhole : Str → List SearchRequest → Type 0
AllWhole glob = All (λ r. is_whole glob r ≡ true)

required-cases :
    (before glob : Str) (r : SearchRequest)
    → (required r before glob ≡ []) ⊎ (required r before glob ≡ glob)
unfolding required
required-cases before glob r = ground arith

cleared :
    (glob q : Str) → (q ≡ []) ⊎ (q ≡ glob) → str_eq (if str_eq glob q then [] else q) [] ≡ true
cleared glob q h = ground (arith, str_eq_iff glob q, str_eq_iff q [], str_eq_iff [] [])

apply_requirement-whole :
    (before glob : Str) (r : SearchRequest) → is_whole glob (apply_requirement before glob r) ≡ true
unfolding apply_requirement
apply_requirement-whole before glob r =
    if-keeps (λ x. is_whole glob x ≡ true) (is_by_glob r.basis) _ _
      (λ e. ground (
        arith,
        str_eq_iff glob glob,
        cleared glob (required r before glob) (required-cases before glob r),
      ))
      (λ e. ground arith)

all-whole :
    (before glob : Str) (rs : List SearchRequest)
    → AllWhole glob (map (apply_requirement before glob) rs)
all-whole before glob [] = tt
all-whole before glob (r ∷ rs) = (apply_requirement-whole before glob r, all-whole before glob rs)

parse_clean_glob-AllWhole : (glob : Str) → AllWhole glob (parse_clean_glob glob)
unfolding parse_clean_glob parse_at_basename is_by_glob
parse_clean_glob-AllWhole glob =
    if-keeps (AllWhole glob) (not (contains_any glob special)) _ _ (λ e. (refl, tt))
      (λ e.
        if-keeps (AllWhole glob) _
          (record {
            basis = by_sub_directory;
            value = (split_at_basename (split_at_basename glob).0).1;
            requirement = (split_at_basename glob).0;
          }
            ∷ [])
          _ (λ e'. (refl, tt))
          (λ e'.
            all-whole (split_at_basename glob).0 glob
              (parse_glob_basename (split_at_basename glob).1)))

-- Each request of `parseGlob` that is to be searched by glob carries the whole cleaned glob and no requirement.
pub parse_glob-AllWhole : (glob : Str) → AllWhole (clean_glob glob) (parse_glob glob)
unfolding parse_glob
parse_glob-AllWhole glob = parse_clean_glob-AllWhole (clean_glob glob)
