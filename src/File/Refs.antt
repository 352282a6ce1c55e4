-- ===== src/File/Refs.antt =====
-- pkg/file/reference.go, id.go and resolution.go: unique files, and how a request reached one.
use stereoscope.File.Paths.{FilePath}
use stereoscope.File.Sets
use stereoscope.File.Sets.{IdSet}
use stereoscope.Go.Strings.{str_lt}
use stereoscope.Prelude.{
  ℕ, suc, ◌+◌, ◌^◌, ◌%◌, List, [], ◌∷◌, ◌++◌, Option, none, some, Bool, true, false, ◌&&◌, not,
  ◌==◌, str_eq, byte_string_eq, if◌then◌else◌,
}

-- `Reference`
pub record Reference : Type 0 where
  pub id : ℕ
  pub real_path : FilePath

-- `NewFileReference`, over the counter `nextID` (an atomic uint64): the new reference, and the counter
-- after it.
unfoldable pub new_file_reference : FilePath → ℕ → Reference × ℕ
new_file_reference path next_id =
    let id = (next_id + 1) % 2 ^ 64 in (record { id = id; real_path = path }, id)

-- `Resolution`, with the list of its link resolutions in the same block.
mutual
  pub data Resolution : Type 0 where
    resolution : FilePath → Option Reference → Resolutions → Resolution

  pub data Resolutions : Type 0 where
    end : Resolutions
    also : Resolution → Resolutions → Resolutions

unfoldable pub from_list : List Resolution → Resolutions
from_list [] = end
from_list (r ∷ rs) = also r (from_list rs)

unfoldable pub to_list : Resolutions → List Resolution
to_list end = []
to_list (also r rs) = r ∷ to_list rs

unfoldable pub request_path : Resolution → FilePath
request_path (resolution p ref links) = p

unfoldable pub reference_of : Resolution → Option Reference
reference_of (resolution p ref links) = ref

unfoldable pub link_resolutions : Resolution → List Resolution
unfolding to_list
link_resolutions (resolution p ref links) = to_list links

-- `NewResolution`
unfoldable pub new_resolution : FilePath → Option Reference → List Resolution → Resolution
unfolding from_list
new_resolution path ref leafs = resolution path ref (from_list leafs)

is_real : Resolution → Bool
is_real (resolution p none links) = false
is_real (resolution p (some ref) links) = str_eq ref.real_path p

-- `Resolutions.Less`
unfoldable pub resolution_less : Resolution → Resolution → Bool
unfolding is_real request_path str_lt
resolution_less a b =
    if is_real a && not (is_real b)
    then true
    else if not (is_real a) && is_real b
    then false
    else str_lt (request_path a) (request_path b)

-- `HasReference`; a missing resolution has none.
unfoldable pub has_reference : Option Resolution → Bool
has_reference none = false
has_reference (some (resolution p none links)) = false
has_reference (some (resolution p (some ref) links)) = true

paths_of_reference : Option Reference → List FilePath
paths_of_reference none = []
paths_of_reference (some ref) = ref.real_path ∷ []

all_link_paths : List Resolution → List FilePath
unfolding paths_of_reference
all_link_paths [] = []
all_link_paths (resolution p ref links ∷ rs) = p ∷ (paths_of_reference ref ++ all_link_paths rs)

-- `AllPaths`: the set of paths, sorted.
unfoldable pub all_paths : Resolution → List FilePath
unfolding all_link_paths link_resolutions Sets.new_set Sets.sorted str_lt
all_paths (resolution p ref links) =
    Sets.sorted str_lt
      (Sets.new_set (p ∷ (paths_of_reference ref ++ all_link_paths (to_list links))))

request_paths : List Resolution → List FilePath
request_paths [] = []
request_paths (resolution p ref links ∷ rs) = p ∷ request_paths rs

-- `AllRequestPaths`
unfoldable pub all_request_paths : Resolution → List FilePath
unfolding request_paths to_list Sets.new_set Sets.sorted str_lt
all_request_paths (resolution p ref links) =
    Sets.sorted str_lt (Sets.new_set (p ∷ request_paths (to_list links)))

-- Whether the last of the link resolutions has no reference.
unfoldable pub last_is_dead : List Resolution → Bool
last_is_dead [] = false
last_is_dead (resolution p none links ∷ []) = true
last_is_dead (resolution p (some ref) links ∷ []) = false
last_is_dead (r ∷ s ∷ rs) = last_is_dead (s ∷ rs)

references_of : Option Reference → List Reference
references_of none = []
references_of (some ref) = ref ∷ []

link_references : List Resolution → List Reference
unfolding references_of
link_references [] = []
link_references (resolution p ref links ∷ rs) = references_of ref ++ link_references rs

-- `References`
unfoldable pub references : Resolution → List Reference
unfolding link_references last_is_dead to_list
references (resolution p ref links) =
    let links' = to_list links in
    link_references links' ++ (if last_is_dead links' then [] else references_of ref)

-- The loop of `RequestResolutionPath` from the link at `i` on: the first path, and the paths so far.
resolution_path :
    FilePath → ℕ → List Resolution → FilePath → List FilePath → FilePath × List FilePath
resolution_path asked i [] first paths = (first, paths)
resolution_path asked i (resolution p ref links ∷ rs) first paths =
    let skipped = resolution_path asked (suc i) rs first paths in
    let taken =
      resolution_path asked (suc i) rs (if str_eq first [] then p else first) (paths ++ p ∷ []) in
    if (i == 0) && str_eq p asked then skipped else taken

-- Whether the flag `lastLinkResolutionIsDead` is set: not by a first link that the loop passes over.
flagged_dead : FilePath → List Resolution → Bool
unfolding last_is_dead request_path
flagged_dead asked [] = false
flagged_dead asked (r ∷ []) = if str_eq (request_path r) asked then false else last_is_dead (r ∷ [])
flagged_dead asked (r ∷ s ∷ rs) = last_is_dead (s ∷ rs)

final_path : Option Reference → FilePath → Bool → List FilePath
final_path none first dead = []
final_path (some ref) first dead =
    if not (str_eq first ref.real_path) && not dead then ref.real_path ∷ [] else []

-- `RequestResolutionPath`
unfoldable pub request_resolution_path : Resolution → List FilePath
unfolding resolution_path flagged_dead final_path to_list
request_resolution_path (resolution p ref links) =
    let start = if str_eq p [] then [] else p ∷ [] in
    let (first, paths) = resolution_path p 0 (to_list links) p start in
    paths ++ final_path ref first (flagged_dead p (to_list links))
