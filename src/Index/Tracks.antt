-- ===== src/Index/Tracks.antt =====
-- The sets of the index of pkg/filetree/index.go against its entries.

use stereoscope.File.Kinds.{FileType, type_eq, file_type_eq}
use stereoscope.File.Sets
use stereoscope.File.Sets.{IdSet}
use stereoscope.File.Sets.Laws.{has_member-add}
use stereoscope.Go.Maps.{GoMap, get, put, get-put, elem}
use stereoscope.Go.Paths.{base}
use stereoscope.Index.{
  FileIndex, IndexEntry, new_index, set_or_new, add_to, add_to_all, file_extensions, add, exists,
}
use stereoscope.File.Metadata.{Metadata}
use stereoscope.File.Refs.{Reference}
use stereoscope.Prelude.{
  ℕ, List, [], ◌∷◌, Option, none, some, Bool, false, not, ◌&&◌, ◌||◌, ◌≡◌, refl, Eq, nat_eq,
  byte_string_eq, Str, str_eq, ◌==◌, ==_iff, arith, Bool-cases, inl, inr,
}

abbrev pub bucket : {K : Type 0} ⦃e : Eq K⦄ → K → GoMap K (IdSet ℕ) → IdSet ℕ
bucket k m = set_or_new (get k m)

abbrev pub belongs_to : {K : Type 0} → (IndexEntry → K → Bool) → Option IndexEntry → K → Bool
belongs_to belongs none k = false
belongs_to belongs (some e) k = belongs e k

-- The set of each key holds the IDs of the entries that belong to it, and no others.
abbrev pub Tracks :
    {K : Type 0} ⦃e : Eq K⦄
    → (IndexEntry → K → Bool)
    → GoMap K (IdSet ℕ)
    → GoMap ℕ IndexEntry
    → Type 0
Tracks {K} belongs m ix =
    (k : K) (id : ℕ) → Sets.has_member (bucket k m) id ≡ belongs_to belongs (get id ix) k

module _ {K : Type 0} ⦃e : Eq K⦄ where
  pub has_member-add_to :
      (k j : K) (id i : ℕ) (m : GoMap K (IdSet ℕ))
      → Sets.has_member (bucket j (add_to k id m)) i
        ≡ ((e.beq k j && (id == i)) || Sets.has_member (bucket j m) i)
  unfolding add_to elem
  has_member-add_to k j id i m = ground (
    arith,
    get-put k j (Sets.add (id ∷ []) (bucket k m)) m,
    has_member-add (id ∷ []) (bucket k m) i,
    e.beq_iff k j,
  )

  -- A fresh entry that belongs to one key goes to the set of that key.
  pub add_to-Tracks :
      (belongs : IndexEntry → K → Bool) (k : K) (id : ℕ) (entry : IndexEntry)
      (m : GoMap K (IdSet ℕ)) (ix : GoMap ℕ IndexEntry)
      → ((j : K) → belongs entry j ≡ e.beq k j)
      → get id ix ≡ none
      → Tracks belongs m ix
      → Tracks belongs (add_to k id m) (put id entry ix)
  add_to-Tracks belongs k id entry m ix own fresh tracks j i =
      ground
        (arith, has_member-add_to k j id i m, get-put id i entry ix, tracks j i, own j, ==_iff id i)

  -- A fresh entry that belongs to no key goes to no set.
  pub none-Tracks :
      (belongs : IndexEntry → K → Bool) (id : ℕ) (entry : IndexEntry) (m : GoMap K (IdSet ℕ))
      (ix : GoMap ℕ IndexEntry)
      → ((j : K) → belongs entry j ≡ false)
      → get id ix ≡ none
      → Tracks belongs m ix
      → Tracks belongs m (put id entry ix)
  none-Tracks belongs id entry m ix own fresh tracks j i =
      ground (arith, get-put id i entry ix, tracks j i, own j, ==_iff id i)

has_member-add_to_all :
    (ks : List Str) (j : Str) (id i : ℕ) (m : GoMap Str (IdSet ℕ))
    → Sets.has_member (bucket j (add_to_all ks id m)) i
      ≡ ((elem j ks && (id == i)) || Sets.has_member (bucket j m) i)
unfolding add_to_all elem
has_member-add_to_all [] j id i m = refl
has_member-add_to_all (k ∷ ks) j id i m =
    ground (arith, has_member-add_to_all ks j id i (add_to k id m), has_member-add_to k j id i m)

add_to_all-Tracks :
    (belongs : IndexEntry → Str → Bool) (ks : List Str) (id : ℕ) (entry : IndexEntry)
    (m : GoMap Str (IdSet ℕ)) (ix : GoMap ℕ IndexEntry)
    → ((j : Str) → belongs entry j ≡ elem j ks)
    → get id ix ≡ none
    → Tracks belongs m ix
    → Tracks belongs (add_to_all ks id m) (put id entry ix)
add_to_all-Tracks belongs ks id entry m ix own fresh tracks j i = ground (
  arith,
  has_member-add_to_all ks j id i m,
  get-put id i entry ix,
  tracks j i,
  own j,
  ==_iff id i,
)

abbrev pub has_type : IndexEntry → FileType → Bool
has_type entry k = type_eq entry.metadata.file_type k

abbrev pub has_mime : IndexEntry → Str → Bool
has_mime entry k = not (str_eq entry.metadata.mime_type []) && str_eq entry.metadata.mime_type k

abbrev pub has_extension : IndexEntry → Str → Bool
has_extension entry k = elem k (file_extensions entry.reference.real_path)

abbrev pub has_basename : IndexEntry → Str → Bool
has_basename entry k = str_eq (base entry.reference.real_path) k

-- Every set of the index holds the IDs of the entries that belong to its key, each entry has its own ID,
-- and the basenames are those of the entries.
pub record IsIndex (c : FileIndex) : Type 0 where
  pub types : Tracks has_type c.by_file_type c.index
  pub mimes : Tracks has_mime c.by_mime_type c.index
  pub extensions : Tracks has_extension c.by_extension c.index
  pub names : Tracks has_basename c.by_basename c.index
  pub ids : (id : ℕ) (entry : IndexEntry) → get id c.index ≡ some entry → entry.reference.id ≡ id

pub new_index-IsIndex : IsIndex new_index
unfolding Sets.has_member get
new_index-IsIndex = record {
  types = λ k id. refl;
  mimes = λ k id. refl;
  extensions = λ k id. refl;
  names = λ k id. refl;
  ids = λ id entry h. cc;
}

module _ (f : Reference) (m : Metadata) (c : FileIndex) (fresh : exists f c ≡ false)
    (v : IsIndex c) where
  abbrev entry : IndexEntry
  entry = record { reference = f; metadata = m }

  unknown : get f.id c.index ≡ none
  unfolding exists
  unknown = ground arith

  add_mimes : Tracks has_mime (add f m c).by_mime_type (add f m c).index
  unfolding add
  add_mimes = elim (Bool-cases (str_eq m.mime_type [])) [
    | inl h ↦ rw h (none-Tracks has_mime f.id entry _ _ (λ j. ground arith) unknown v.mimes)
    | inr h ↦
        rw h (add_to-Tracks has_mime m.mime_type f.id entry _ _ (λ j. ground arith) unknown v.mimes)
  ]

  add_ids : (id : ℕ) (e : IndexEntry) → get id (add f m c).index ≡ some e → e.reference.id ≡ id
  unfolding add
  add_ids id e h = ground (arith, get-put f.id id entry c.index, v.ids id e, ==_iff f.id id)

  -- A file with a new ID keeps an index in order: it enters the sets of its kind, its MIME type (unless that is
  -- empty), its extensions and its basename, and no other set.
  pub add-IsIndex : IsIndex (add f m c)
  add-IsIndex = record {
    types =
        unfold add in add_to-Tracks has_type m.file_type f.id entry _ _ (λ j. refl) unknown v.types;
    mimes = add_mimes;
    extensions =
        unfold add in
        add_to_all-Tracks has_extension (file_extensions f.real_path) f.id entry _ _ (λ j. refl)
          unknown v.extensions;
    names =
        unfold add in
        add_to-Tracks has_basename (base f.real_path) f.id entry _ _ (λ j. refl) unknown v.names;
    ids = add_ids;
  }
