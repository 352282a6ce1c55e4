-- ===== src/File/CountSet.antt =====
-- `PathCountSet` of pkg/file/path_set.go: how often a path is being resolved. The counts are Go
-- integers, here without their upper bound.
use stereoscope.Go.Maps.{GoMap, get, put, delete, get-put, get-delete}
use stereoscope.File.Paths.{FilePath}
use stereoscope.Prelude.{
  ℕ, suc, ◌+◌, ◌-◌, Bool, false, ◌≡◌, Option, none, some, byte_string_eq, leb, ltb, if◌then◌else◌,
  arith,
}

abbrev pub PathCountSet : Type 0
PathCountSet = GoMap FilePath ℕ

add_one_to : Option ℕ → FilePath → PathCountSet → PathCountSet
add_one_to none i s = put i 1 s
add_one_to (some n) i s = put i (n + 1) s

-- `Add`, of one path
unfoldable pub add_path : FilePath → PathCountSet → PathCountSet
unfolding add_one_to
add_path i s = add_one_to (get i s) i s

take_one_from : Option ℕ → FilePath → PathCountSet → PathCountSet
take_one_from none i s = s
take_one_from (some n) i s = if leb (n - 1) 0 then delete i s else put i (n - 1) s

-- `Remove`, of one path
unfoldable pub remove_path : FilePath → PathCountSet → PathCountSet
unfolding take_one_from
remove_path i s = take_one_from (get i s) i s

has_count : Option ℕ → Bool
has_count none = false
has_count (some n) = ltb 0 n

-- `Contains`
unfoldable pub contains_path : PathCountSet → FilePath → Bool
unfolding has_count
contains_path s i = has_count (get i s)

-- How often a path is in the set.
abbrev pub count_of : PathCountSet → FilePath → ℕ
count_of s i = elim (get i s) [ none ↦ 0 | some n ↦ n ]

module _ (i j : FilePath) (s : PathCountSet) where
  -- `Add` counts its path once more, and no other.
  pub count_of-add_path :
      count_of (add_path i s) j
      ≡ (if byte_string_eq.beq i j then suc (count_of s j) else count_of s j)
  unfolding add_path
  count_of-add_path =
      ground (arith, get-put i j 1 s, get-put i j (count_of s i + 1) s, byte_string_eq.beq_iff i j)

  -- `Remove` counts its path once less, down to 0, and no other.
  pub count_of-remove_path :
      count_of (remove_path i s) j
      ≡ (if byte_string_eq.beq i j then count_of s j - 1 else count_of s j)
  unfolding remove_path
  count_of-remove_path =
      ground (arith, get-delete i j s, get-put i j (count_of s i - 1) s, byte_string_eq.beq_iff i j)

-- A path is in the set exactly if its count is above 0.
pub contains_path-count_of :
    (s : PathCountSet) (i : FilePath) → contains_path s i ≡ ltb 0 (count_of s i)
unfolding contains_path
contains_path-count_of s i = ground arith
