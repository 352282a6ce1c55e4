-- ===== src/File/Sets/Laws.antt =====
-- The sets of pkg/file/id_set.go against membership: each operation by its members.
use mathlib.Core.List.{Perm}
use stereoscope.File.Sets.{
  IdSet, size, to_list, sorted, add, merge, remove, has_member, clear, contains_any,
}
use stereoscope.Go.Maps.{get, put, delete, get-put, get-delete, has, keys, elem}
use stereoscope.Go.Sort.{sort-perm, elem-sort}
use stereoscope.Prelude.{
  suc, List, [], ◌∷◌, Bool, true, false, not, ◌&&◌, ◌||◌, ◌≡◌, refl, Eq, length, arith,
  if◌then◌else◌,
}

module _ {ℓ} {K : Type ℓ} ⦃e : Eq K⦄ where
  has-put : (k j : K) (s : IdSet K) → has j (put k tt s) ≡ (e.beq k j || has j s)
  has-put k j s = ground (arith, get-put k j tt s)

  has-delete : (k j : K) (s : IdSet K) → has j (delete k s) ≡ (not (e.beq k j) && has j s)
  has-delete k j s = ground (arith, get-delete k j s)

  -- After `Add` a set holds the keys that were added and those that it held, and no others.
  pub has_member-add :
      (ks : List K) (s : IdSet K) (j : K) → has_member (add ks s) j ≡ (elem j ks || has_member s j)
  unfolding has_member add elem
  has_member-add [] s j = refl
  has_member-add (k ∷ ks) s j = ground (arith, has_member-add ks (put k tt s) j, has-put k j s)

  -- After `Remove` a set holds the keys that it held, less those that were removed.
  pub has_member-remove :
      (ks : List K) (s : IdSet K) (j : K)
      → has_member (remove ks s) j ≡ (not (elem j ks) && has_member s j)
  unfolding has_member remove elem
  has_member-remove [] s j = refl
  has_member-remove (k ∷ ks) s j =
      ground (arith, has_member-remove ks (delete k s) j, has-delete k j s)

  pub has-keys : (s : IdSet K) (j : K) → elem j (keys s) ≡ has j s
  unfolding elem get
  has-keys [] j = refl
  has-keys ((k, v) ∷ s) j = ground (arith, has-keys s j)

  -- `Merge` is the union.
  pub has_member-merge :
      (s other : IdSet K) (j : K)
      → has_member (merge s other) j ≡ (has_member other j || has_member s j)
  unfolding merge to_list
  has_member-merge s other j =
      rw (has_member-add (keys other) s j, has-keys) (unfold has_member in refl)

  -- `Clear` leaves no member.
  pub has_member-clear : (s : IdSet K) (j : K) → has_member (clear s) j ≡ false
  unfolding clear
  has_member-clear s j =
      rw (has_member-remove (keys s) s j, has-keys) (unfold has_member in ground arith)

  -- `ContainsAny` asks whether one of the keys is a member.
  pub contains_any-append :
      (s : IdSet K) (j : K) (ks : List K)
      → has_member s j ≡ true
      → elem j ks ≡ true
      → contains_any s ks ≡ true
  unfolding contains_any elem
  contains_any-append s j [] h m = cc
  contains_any-append s j (k ∷ ks) h m = ground (arith, contains_any-append s j ks h, e.beq_iff k j)

  -- `Sorted` gives the members, each as often as `List` does.
  pub sorted-perm : (less : K → K → Bool) (s : IdSet K) → Perm (sorted less s) (to_list s)
  unfolding sorted
  sorted-perm less s = sort-perm less (to_list s)

  -- `Sorted` lists the members and nothing else.
  pub elem-sorted :
      (less : K → K → Bool) (s : IdSet K) (j : K) → elem j (sorted less s) ≡ has_member s j
  unfolding sorted to_list has_member
  elem-sorted less s j = rw (elem-sort less j (keys s), has-keys s j)

  -- No key stands twice in the map, as Go's maps are.
  abbrev pub IsMap : IdSet K → Type 0
  IsMap [] = Unit
  IsMap ((k, v) ∷ s) = (has k s ≡ false) × IsMap s

  put-IsMap : (k : K) (s : IdSet K) → IsMap s → IsMap (put k tt s)
  unfolding put get
  put-IsMap k [] h = ground arith
  put-IsMap k ((j, v) ∷ s) h =
      ground (arith, put-IsMap k s h.1, has-put k j s, e.beq_iff j k, e.beq_iff k j)

  length-put :
      (k : K) (s : IdSet K) → length (put k tt s) ≡ (if has k s then length s else suc (length s))
  unfolding put get
  length-put k [] = refl
  length-put k ((j, v) ∷ s) = ground (arith, length-put k s)

  -- A key that is new makes a set larger by one, and one that is there leaves its size.
  pub size-add :
      (k : K) (s : IdSet K)
      → size (add (k ∷ []) s) ≡ (if has_member s k then size s else suc (size s))
  unfolding size add has_member
  size-add k s = length-put k s
