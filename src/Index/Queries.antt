-- ===== src/Index/Queries.antt =====
-- Lookups in one of the sets of the index of pkg/filetree/index.go.
use mathlib.Core.List.{flat_map, map-append}
use mathlib.Core.Path.{subst, sym, ap₂, ◌∙◌}
use stereoscope.Errors.{ok}
use stereoscope.File.Kinds.{file_type_eq}
use stereoscope.File.Sets
use stereoscope.File.Sets.{IdSet}
use stereoscope.File.Sets.Laws.{elem-sorted}
use stereoscope.Go.Maps.{GoMap, get, get-put, elem}
use stereoscope.Index.{FileIndex, IndexEntry, entries_of, get_by, add, get_entry}
use stereoscope.Index.Tracks.{Tracks, bucket}
use stereoscope.File.Metadata.{Metadata}
use stereoscope.File.Refs.{Reference}
use stereoscope.Prelude.{
  ℕ, List, [], ◌∷◌, ◌++◌, map, some, Bool, true, false, ◌||◌, ◌≡◌, refl, Eq, nat_eq, byte_string_eq,
  ltb, ==_iff, arith, Option-cases, inl, inr, All, All-append,
}

-- `Get` of a reference that was added last gives its entry.
pub get_entry-add :
    (f : Reference) (m : Metadata) (c : FileIndex)
    → get_entry f (add f m c) ≡ ok (record { reference = f; metadata = m })
unfolding get_entry add
get_entry-add f m c =
    ground
      (arith, get-put f.id f.id (record { reference = f; metadata = m }) c.index, ==_iff f.id f.id)

abbrev entry_id : IndexEntry → ℕ
entry_id e = e.reference.id

-- One of the keys has the entry.
abbrev pub any_of : {K : Type 0} → (IndexEntry → K → Bool) → List K → IndexEntry → Bool
any_of belongs [] e = false
any_of belongs (k ∷ ks) e = belongs e k || any_of belongs ks e

-- What a lookup of `ks` returns: the IDs in the sets of the keys, sorted within each, and behind each
-- ID the entry that the index has under it.
pub record IsAnswer {K : Type 0} ⦃e : Eq K⦄ (belongs : IndexEntry → K → Bool)
    (m : GoMap K (IdSet ℕ)) (c : FileIndex) (ks : List K) (es : List IndexEntry) : Type 0 where
  pub ids : map entry_id es ≡ flat_map (λ k. Sets.sorted ltb (bucket k m)) ks
  pub stored : All (λ e. get e.reference.id c.index ≡ some e) es
  pub asked : All (λ e. any_of belongs ks e ≡ true) es

module _ (c : FileIndex)
    (ids : (id : ℕ) (entry : IndexEntry)
      → get id c.index ≡ some entry
      → entry.reference.id ≡ id) where
  -- IDs that the index knows give their entries.
  entries_of-ok :
      (P : IndexEntry → Type 0) (l : List ℕ)
      → ((i : ℕ) → elem i l ≡ true → (e : IndexEntry) × (get i c.index ≡ some e) × P e)
      → (es : List IndexEntry) × (entries_of l c ≡ ok es)
        × (map entry_id es ≡ l)
        × All (λ e. get e.reference.id c.index ≡ some e) es
        × All P es
  unfolding entries_of elem
  entries_of-ok P [] known = ([], refl, refl, tt, tt)
  entries_of-ok P (i ∷ l) known =
      let (e, at, p) = known i (ground (arith, ==_iff i i)) in
      let (es, found, same, stored, all) = entries_of-ok P l (λ j h. known j (ground arith)) in
      let own = ids i e at in
      (
        e ∷ es,
        ground (arith, at, found),
        cc (own, same),
        (subst (λ j. get j c.index ≡ some e) (sym own) at, stored),
        (p, all),
      )

  module _ {K : Type 0} ⦃e : Eq K⦄ (belongs : IndexEntry → K → Bool) (m : GoMap K (IdSet ℕ))
      (tracks : Tracks belongs m c.index) where
    in_bucket :
        (k : K) (i : ℕ)
        → elem i (Sets.sorted ltb (bucket k m)) ≡ true
        → (e : IndexEntry) × (get i c.index ≡ some e) × (belongs e k ≡ true)
    in_bucket k i h = ground (arith, elem-sorted ltb (bucket k m) i, tracks k i)

    any_of_first :
        (k : K) (ks : List K) (es : List IndexEntry)
        → All (λ e. belongs e k ≡ true) es
        → All (λ e. any_of belongs (k ∷ ks) e ≡ true) es
    any_of_first k ks [] h = tt
    any_of_first k ks (e ∷ es) (p, h) = (ground arith, any_of_first k ks es h)

    any_of_later :
        (k : K) (ks : List K) (es : List IndexEntry)
        → All (λ e. any_of belongs ks e ≡ true) es
        → All (λ e. any_of belongs (k ∷ ks) e ≡ true) es
    any_of_later k ks [] h = tt
    any_of_later k ks (e ∷ es) (p, h) = (ground arith, any_of_later k ks es h)

    get_by_step :
        (k : K) (ks : List K) (es more : List IndexEntry)
        → entries_of (Sets.sorted ltb (bucket k m)) c ≡ ok es
        → get_by m ks c ≡ ok more
        → get_by m (k ∷ ks) c ≡ ok (es ++ more)
    unfolding get_by entries_of Sets.sorted
    get_by_step k ks es more here rest = elim (Option-cases (get k m)) [
      | inl p ↦ ground arith
      | inr (l, p) ↦ ground arith
    ]

    -- A lookup in the sets that track the entries gives an answer.
    pub get_by-IsAnswer :
        (ks : List K)
        → (es : List IndexEntry) × (get_by m ks c ≡ ok es) × IsAnswer belongs m c ks es
    unfolding get_by flat_map
    get_by-IsAnswer [] = ([], refl, record { ids = refl; stored = tt; asked = tt })
    get_by-IsAnswer (k ∷ ks) =
        let (more, rest, answer) = get_by-IsAnswer ks in
        let (es, here, same, stored, own) =
          entries_of-ok (λ e. belongs e k ≡ true) (Sets.sorted ltb (bucket k m)) (in_bucket k) in
        (
          es ++ more,
          get_by_step k ks es more here rest,
          record {
            ids = map-append entry_id es more ∙ ap₂ ◌++◌ same answer.ids;
            stored = All-append _ es more stored answer.stored;
            asked =
                All-append _ es more (any_of_first k ks es own)
                  (any_of_later k ks more answer.asked);
          },
        )
