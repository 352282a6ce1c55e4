-- ===== src/File/Sets.antt =====
-- pkg/file/id_set.go: sets as Go maps with no value. `PathSet`, `StringSet` and `node.IDSet` are the
-- same text at other key types.
pub mod Laws
use mathlib.Core.Bool
use stereoscope.Go.Maps.{GoMap, get, put, delete, has, keys}
use stereoscope.Go.Sort.{sort}
use stereoscope.Prelude.{ℕ, List, [], ◌∷◌, Bool, true, false, Eq, length, ltb, if◌then◌else◌}

-- `IDSet`
abbrev pub IdSet {ℓ} : Type ℓ → Type ℓ
IdSet K = GoMap K (Unit {0})

module _ {ℓ} {K : Type ℓ} where
  -- `Size`
  unfoldable pub size : IdSet K → ℕ
  size s = length s

  -- `List`
  unfoldable pub to_list : IdSet K → List K
  to_list s = keys s

  -- `Sorted`
  unfoldable pub sorted : (K → K → Bool) → IdSet K → List K
  unfolding to_list sort
  sorted less s = sort less (to_list s)

module _ {ℓ} {K : Type ℓ} ⦃e : Eq K⦄ where
  -- `Add`
  unfoldable pub add : List K → IdSet K → IdSet K
  unfolding put
  add [] s = s
  add (i ∷ is) s = add is (put i tt s)

  -- `NewIDSet`
  unfoldable pub new_set : List K → IdSet K
  unfolding add
  new_set is = add is []

  -- `Merge`
  unfoldable pub merge : IdSet K → IdSet K → IdSet K
  unfolding add to_list
  merge s other = add (to_list other) s

  -- `Remove`
  unfoldable pub remove : List K → IdSet K → IdSet K
  unfolding delete
  remove [] s = s
  remove (i ∷ is) s = remove is (delete i s)

  -- `Contains`
  unfoldable pub has_member : IdSet K → K → Bool
  unfolding get
  has_member s i = has i s

  -- `Clear`: each key of the range is deleted.
  unfoldable pub clear : IdSet K → IdSet K
  unfolding remove
  clear s = remove (keys s) s

  -- `ContainsAny`
  unfoldable pub contains_any : IdSet K → List K → Bool
  unfolding has_member
  contains_any s [] = false
  contains_any s (i ∷ is) = if has_member s i then true else contains_any s is
