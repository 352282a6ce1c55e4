-- ===== src/Image/Containerd/Settled.antt =====
-- When `update` of pkg/image/containerd/api_state.go ends a pull.
use mathlib.Core.Path.{subst}
use stereoscope.Errors.{Failure, Result, ok, err, panics}
use stereoscope.File.Sets
use stereoscope.File.Sets.{IdSet}
use stereoscope.File.Sets.Laws.{has_member-add, has_member-remove}
use stereoscope.Go.Maps.{get, elem}
use stereoscope.Image.Containerd.ApiState.{
  ApiState, Observed, fetch_current_state, Status, StatusInfo, no_status, resolved_status,
  resolving_status, waiting_status, committing_status, done_status, downloading_status,
  uploading_status, exists_status,
}
use stereoscope.Image.Containerd.Update.{status_text, add_statuses, completed_texts, update_api}
use stereoscope.Prelude.{
  List, [], ◌∷◌, Option, none, some, true, false, not, ◌&&◌, ◌||◌, Str, str_eq, str_eq_iff,
  byte_string_eq, ◌≡◌, ◌≢◌, refl, sym, ap, ◌∙◌, if-keeps, Bool-cases, ◌⊎◌, inl, inr, arith, All,
  ◌==◌,
}

-- The download with the status is completed.
abbrev pub IsSettled : Status → Type 0
IsSettled status = (status ≡ done_status) ⊎ (status ≡ exists_status) ⊎ (status ≡ resolved_status)

-- Some status of the list is that of a download that is not completed.
abbrev pub HasUnsettled : List StatusInfo → Type 0
HasUnsettled [] = ⊥
HasUnsettled (i ∷ is) = ¬ IsSettled i.status ⊎ HasUnsettled is

texts_of : List StatusInfo → List Str
texts_of [] = []
texts_of (i ∷ is) = status_text i.status ∷ texts_of is

-- The set of the statuses holds their texts and what it held.
has_member-add_statuses :
    (l : List StatusInfo) (s : IdSet Str) (j : Str)
    → Sets.has_member (add_statuses l s) j ≡ (elem j (texts_of l) || Sets.has_member s j)
unfolding add_statuses texts_of elem
has_member-add_statuses [] s j = refl
has_member-add_statuses (i ∷ is) s j = ground (
  arith,
  has_member-add_statuses is (Sets.add (status_text i.status ∷ []) s) j,
  has_member-add (status_text i.status ∷ []) s j,
)

-- A text of the known statuses is that of a status of a completed download, and of no other.
text-IsSettled : (st : Status) → elem (status_text st) completed_texts ≡ true → IsSettled st
unfolding elem str_eq
text-IsSettled no_status h = cc
text-IsSettled resolved_status h = inr (inr refl)
text-IsSettled resolving_status h = cc
text-IsSettled waiting_status h = cc
text-IsSettled committing_status h = cc
text-IsSettled done_status h = inl refl
text-IsSettled downloading_status h = cc
text-IsSettled uploading_status h = cc
text-IsSettled exists_status h = inr (inl refl)

text_of_IsSettled : (st : Status) → IsSettled st → elem (status_text st) completed_texts ≡ true
unfolding elem str_eq
text_of_IsSettled st (inl e) = rw e refl
text_of_IsSettled st (inr (inl e)) = rw e refl
text_of_IsSettled st (inr (inr e)) = rw e refl

-- A set without members has the size 0.
no_member : (s : IdSet Str) (j : Str) → (Sets.size s == 0) ≡ true → Sets.has_member s j ≡ false
unfolding Sets.size Sets.has_member get
no_member [] j h = refl
no_member (x ∷ s) j h = ground arith

-- Any other set has a member.
some_member :
    (s : IdSet Str) → (Sets.size s == 0) ≡ false → (j : Str) × (Sets.has_member s j ≡ true)
unfolding Sets.size Sets.has_member get
some_member [] h = cc
some_member ((j, u) ∷ s) h = (j, ground (arith, str_eq_iff j j))

All_of_texts :
    (l : List StatusInfo)
    → ((j : Str) → elem j (texts_of l) ≡ true → elem j completed_texts ≡ true)
    → All (λ i. IsSettled i.status) l
unfolding elem texts_of
All_of_texts [] h = tt
All_of_texts (i ∷ is) h = (
  text-IsSettled i.status (
      h (status_text i.status)
        (ground (arith, str_eq_iff (status_text i.status) (status_text i.status)))),
  All_of_texts is (λ j e. h j (ground arith)),
)

texts-HasUnsettled :
    (l : List StatusInfo) (j : Str)
    → elem j (texts_of l) ≡ true
    → elem j completed_texts ≡ false
    → HasUnsettled l
unfolding elem texts_of
texts-HasUnsettled [] j h k = cc
texts-HasUnsettled (i ∷ is) j h k = elim (Bool-cases (str_eq (status_text i.status) j)) [
  | inl same ↦ inl (λ settled.
      let e = (str_eq_iff (status_text i.status) j).0 same in
      cc
        (sym k ∙ subst (λ t. elem t completed_texts ≡ true) e (text_of_IsSettled i.status settled)))
  | inr other ↦ inr (texts-HasUnsettled is j (ground arith) k)
]

-- The set of the statuses, as `update` fills it.
abbrev seen_of : List StatusInfo → IdSet Str
seen_of l = add_statuses l (Sets.new_set [])

has_member-seen_of :
    (l : List StatusInfo) (j : Str) → Sets.has_member (seen_of l) j ≡ elem j (texts_of l)
unfolding Sets.new_set Sets.add Sets.has_member get
has_member-seen_of l j = has_member-add_statuses l (Sets.new_set []) j ∙ nothing_else
  where
    nothing_else :
        (elem j (texts_of l) || Sets.has_member (Sets.new_set []) j) ≡ elem j (texts_of l)
    nothing_else = ground arith

abbrev left_of : List StatusInfo → IdSet Str
left_of l = Sets.remove completed_texts (seen_of l)

has_member-left_of :
    (l : List StatusInfo) (j : Str)
    → Sets.has_member (left_of l) j ≡ (not (elem j completed_texts) && elem j (texts_of l))
has_member-left_of l j =
    has_member-remove completed_texts (seen_of l) j
    ∙ ap (λ b. not (elem j completed_texts) && b) (has_member-seen_of l j)

-- The set is empty exactly if the list is.
empty_of_size : (l : List StatusInfo) → (Sets.size (seen_of l) == 0) ≡ true → l ≡ []
unfolding texts_of elem
empty_of_size [] h = refl
empty_of_size (i ∷ is) h = ground (
  arith,
  no_member (seen_of (i ∷ is)) (status_text i.status) h,
  has_member-seen_of (i ∷ is) (status_text i.status),
  str_eq_iff (status_text i.status) (status_text i.status),
)

nonempty_of_size : (l : List StatusInfo) → (Sets.size (seen_of l) == 0) ≡ false → l ≢ []
unfolding add_statuses Sets.new_set Sets.add Sets.size
nonempty_of_size [] h e = cc
nonempty_of_size (i ∷ is) h e = cc

-- No status is left exactly if all are settled.
size-IsSettled :
    (l : List StatusInfo) → (Sets.size (left_of l) == 0) ≡ true → All (λ i. IsSettled i.status) l
size-IsSettled l h =
    All_of_texts l (λ j e. ground (arith, no_member (left_of l) j h, has_member-left_of l j))

size-HasUnsettled : (l : List StatusInfo) → (Sets.size (left_of l) == 0) ≡ false → HasUnsettled l
size-HasUnsettled l h =
    let (j, member) = some_member (left_of l) h in
    texts-HasUnsettled l j (ground (arith, has_member-left_of l j))
      (ground (arith, has_member-left_of l j))

-- The state with the statuses that were fetched first.
abbrev pub fetched_first : ApiState → Observed → ApiState
fetched_first s o = record s { ordered = fetch_current_state s o }

-- There are statuses, and each is that of a completed download.
abbrev pub AllSettled : List StatusInfo → Type 0
AllSettled l = l ≢ [] × All (λ i. IsSettled i.status) l

-- The pull goes on, since there is no status, or one of a download that is not completed, or its image is not
-- in the store.
abbrev pub GoesOn : Observed → Result (Option Str) → ApiState → ApiState → Type 0
GoesOn o1 image s s' =
    (s' ≡ fetched_first s o1)
    × ((fetch_current_state s o1 ≡ [])
        ⊎ HasUnsettled (fetch_current_state s o1)
        ⊎ ((e : Failure) × (image ≡ err e)))

-- The pull ends.
abbrev pub EndsPull : Observed → Result (Option Str) → Observed → ApiState → ApiState → Type 0
EndsPull o1 image o2 s s' =
    AllSettled (fetch_current_state s o1)
    × ((digest : Str) × (image ≡ ok (some digest)))
    × (s' ≡ record (fetched_first s o1) {
      ordered = fetch_current_state (fetched_first s o1) o2;
      done = true;
    })

abbrev pub UpdateOutcome :
    Observed → Result (Option Str) → Observed → ApiState → Result ApiState → Type 0
UpdateOutcome o1 image o2 s (ok s') = GoesOn o1 image s s' ⊎ EndsPull o1 image o2 s s'
UpdateOutcome o1 image o2 s (err e) =
    (image ≡ ok none) × (e ≡ panics) × AllSettled (fetch_current_state s o1)

-- `update` ends the pull if it has fetched a status, each that it has fetched is done, exists or is resolved, and
-- the image is in the store; the statuses are then fetched again. It goes on, with the statuses that it has
-- fetched, only if there is none, if one of them is neither done nor exists nor is resolved, or if the image is
-- not in the store. It panics only on an image that is nil without an error, where it would else have ended the
-- pull.
pub update_api-UpdateOutcome :
    (o1 : Observed) (image : Result (Option Str)) (o2 : Observed) (s : ApiState)
    → UpdateOutcome o1 image o2 s (update_api o1 image o2 s)
unfolding update_api
update_api-UpdateOutcome o1 image o2 s =
    if-keeps (UpdateOutcome o1 image o2 s) (Sets.size (seen_of first) == 0) _ _
      (λ e. inl (refl, inl (empty_of_size first e)))
      (λ e.
        if-keeps (UpdateOutcome o1 image o2 s) (not (Sets.size (left_of first) == 0)) _ _
          (λ e'. inl (refl, inr (inl (size-HasUnsettled first (ground arith)))))
          (λ e'. found image (nonempty_of_size first e, size-IsSettled first (ground arith)) refl))
  where
    first : List StatusInfo
    first = fetch_current_state s o1

    found :
        (x : Result (Option Str))
        → AllSettled (fetch_current_state s o1)
        → image ≡ x
        → UpdateOutcome o1 image o2 s (elim x [
          | err e ↦ ok (fetched_first s o1)
          | ok found ↦ elim found [
            | none ↦ err panics
            | some digest ↦ ok (record (fetched_first s o1) {
              ordered = fetch_current_state (fetched_first s o1) o2;
              done = true;
            })
          ]
        ])
    found (err e) r h = inl (refl, inr (inr (e, h)))
    found (ok none) r h = (h, refl, r)
    found (ok (some digest)) r h = inr (r, (digest, h), refl)
