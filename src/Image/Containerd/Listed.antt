-- ===== src/Image/Containerd/Listed.antt =====
-- The statuses that `fetchCurrentState` of pkg/image/containerd/api_state.go returns.
use stereoscope.Go.Maps.{get, put, get-put, has, elem}
use stereoscope.Go.Strings.{contains}
use stereoscope.Image.Containerd.ApiState.{
  ApiState, Observed, StatusInfo, ActiveStatus, Statuses, downloading, add_active, StoreInfo,
  info_status, done_status_of, wants_info, is_finished, job_status, add_job_statuses, status_at,
  order_statuses, active_of, first_status, fetched,
}
use stereoscope.Image.Containerd.Jobs.{Descriptor}
use stereoscope.Image.Containerd.PullStatus.{layer_refs, has_no_status}
use stereoscope.Prelude.{
  List, [], ◌∷◌, map, Option, none, some, true, false, Str, codes, str_eq, str_eq_iff,
  byte_string_eq, ltb, ◌≡◌, refl, arith, All, if-keeps, Option-cases, Bool-cases, inl, inr,
  if◌then◌else◌,
}

-- A status of a key: its reference is the key, and it is not empty.
abbrev IsOf : Str → StatusInfo → Type 0
IsOf key i = (i.ref ≡ key) × (has_no_status i.status ≡ false)

abbrev Own : Statuses → Type 0
Own m = (k : Str) (i : StatusInfo) → get k m ≡ some i → IsOf k i

-- What a step leaves: each status is of its key, and no key is gone.
abbrev After : Statuses → Statuses → Type 0
After m m' = Own m' × ((k : Str) → has k m ≡ true → has k m' ≡ true)

put-After : (k : Str) (i : StatusInfo) (m : Statuses) → IsOf k i → Own m → After m (put k i m)
put-After k i m h own = (
  (λ j i' at. ground (arith, get-put k j i m, own j i', h, str_eq_iff k j)),
  (λ j at. ground (arith, get-put k j i m, at)),
)

has-put : (k : Str) (i : StatusInfo) (m : Statuses) → has k (put k i m) ≡ true
has-put k i m = ground (arith, get-put k k i m, str_eq_iff k k)

add_active-After :
    (as_ : List ActiveStatus) (m : Statuses)
    → Own m
    → After m (add_active as_ m)
      × ((k : Str) → elem k (map (λ a. a.ref) as_) ≡ true → has k (add_active as_ m) ≡ true)
unfolding add_active elem
add_active-After [] m own = ((own, λ k h. h), λ k h. cc)
add_active-After (a ∷ as_) m own =
    let step = put-After a.ref (downloading a) m (refl, refl) own in
    let (rest, all) = add_active-After as_ (put a.ref (downloading a) m) step.0 in
    (
      (rest.0, λ k h. rest.1 k (step.1 k h)),
      λ k h. elim (Bool-cases (str_eq a.ref k)) [
        | inl same ↦ rest.1 k (ground (arith, get-put a.ref k (downloading a) m, same))
        | inr other ↦ all k (ground arith)
      ],
    )

-- A step for a key that worked, if it did.
abbrev Stepped : Str → Statuses → Option Statuses → Type 0
Stepped k m none = Unit
Stepped k m (some m') = After m m' × (has k m' ≡ true)

put-Stepped :
    (k : Str) (i : StatusInfo) (m : Statuses) → IsOf k i → Own m → Stepped k m (some (put k i m))
put-Stepped k i m h own = (put-After k i m h own, has-put k i m)

info_status-Stepped :
    (s : ApiState) (k : Str) (x : StoreInfo) (m : Statuses)
    → Own m
    → Stepped k m (elim (info_status s k x) as (λ y. Option Statuses) [
      | none ↦ none
      | some i ↦ some (put k i m)
    ])
unfolding info_status
info_status-Stepped s k StoreInfo.store_failed m own = tt
info_status-Stepped s k StoreInfo.not_found m own = put-Stepped k _ m (refl, refl) own
info_status-Stepped s k (StoreInfo.stored size created_at) m own =
    elim (Bool-cases (ltb s.started_at created_at)) [
      | inl new ↦ rw new (put-Stepped k _ m (refl, refl) own)
      | inr old ↦ rw old (put-Stepped k _ m (refl, refl) own)
    ]

done_status_of-IsOf :
    (k : Str) (o : Option StatusInfo)
    → ((i : StatusInfo) → o ≡ some i → IsOf k i)
    → IsOf k (done_status_of k o)
unfolding done_status_of
done_status_of-IsOf k none h = (refl, refl)
done_status_of-IsOf k (some i) h =
    if-keeps (IsOf k) (is_finished i.status) _ _ (λ e. h i refl) (λ e. ((h i refl).0, refl))

job_status-Stepped :
    (s : ApiState) (o : Observed) (d : Descriptor) (m : Statuses)
    → Own m
    → Stepped (o.key_of d) m (job_status s o d m)
unfolding job_status
job_status-Stepped s o d m own =
    if-keeps (Stepped (o.key_of d) m) (wants_info s (get (o.key_of d) m)) _ _
      (λ e. info_status-Stepped s (o.key_of d) (o.info d.digest) m own)
      (λ e.
        if-keeps (Stepped (o.key_of d) m) s.done _ _
          (λ e'.
            put-Stepped (o.key_of d) _ m
              (done_status_of-IsOf (o.key_of d) (get (o.key_of d) m) (own (o.key_of d))) own)
          (λ e'. ((own, λ k h. h), there (get (o.key_of d) m) e e')))
  where
    there :
        (x : Option StatusInfo)
        → wants_info s x ≡ false
        → s.done ≡ false
        → (elim x [ none ↦ false | some i ↦ true ]) ≡ true
    there none e e' = unfold wants_info in ground arith
    there (some i) e e' = refl

abbrev AllJobs : Observed → List Descriptor → Statuses → Option Statuses → Type 0
AllJobs o ds m none = Unit
AllJobs o ds m (some m') = After m m' × All (λ d. has (o.key_of d) m' ≡ true) ds

add_job_statuses-AllJobs :
    (s : ApiState) (o : Observed) (active : List Str) (ds : List Descriptor) (m : Statuses)
    → Own m
    → ((k : Str) → elem k active ≡ true → has k m ≡ true)
    → AllJobs o ds m (add_job_statuses s o active ds m)
unfolding add_job_statuses
add_job_statuses-AllJobs s o active [] m own seen = ((own, λ k h. h), tt)
add_job_statuses-AllJobs s o active (d ∷ ds) m own seen =
    if-keeps (AllJobs o (d ∷ ds) m) (elem (o.key_of d) active) _ _
      (λ e.
        passed (add_job_statuses s o active ds m) (seen (o.key_of d) e)
          (add_job_statuses-AllJobs s o active ds m own seen))
      (λ e.
        stepped (job_status s o d m) (add_job_statuses-AllJobs s o active ds)
          (job_status-Stepped s o d m own))
  where
    passed :
        (x : Option Statuses)
        → has (o.key_of d) m ≡ true
        → AllJobs o ds m x
        → AllJobs o (d ∷ ds) m x
    passed none h rest = tt
    passed (some m') h rest = (rest.0, (rest.0.1 (o.key_of d) h, rest.1))

    further :
        (m1 : Statuses) (x : Option Statuses)
        → After m m1
        → has (o.key_of d) m1 ≡ true
        → AllJobs o ds m1 x
        → AllJobs o (d ∷ ds) m x
    further m1 none step h rest = tt
    further m1 (some m') step h rest =
        ((rest.0.0, λ k g. rest.0.1 k (step.1 k g)), (rest.0.1 (o.key_of d) h, rest.1))

    stepped :
        (x : Option Statuses)
        → ((m1 : Statuses)
            → Own m1
            → ((k : Str) → elem k active ≡ true → has k m1 ≡ true)
            → AllJobs o ds m1 (add_job_statuses s o active ds m1))
        → Stepped (o.key_of d) m x
        → AllJobs o
            (d ∷ ds)
            m
            (elim x [ none ↦ none | some m' ↦ add_job_statuses s o active ds m' ])
    stepped none rest h = tt
    stepped (some m1) rest h =
        further m1 (add_job_statuses s o active ds m1) h.0 h.1
          (rest m1 h.0.0 (λ k g. h.0.1 k (seen k g)))

-- The keys of layers.
abbrev pub layer_keys : List Str → List Str
layer_keys [] = []
layer_keys (k ∷ ks) =
    let rest = layer_keys ks in if contains k (codes "layer") then k ∷ rest else rest

-- One status for each key of a layer, in their order, and none of them empty.
abbrev pub Lists : List Str → List StatusInfo → Type 0
Lists keys l = (layer_refs l ≡ layer_keys keys) × All (λ i. has_no_status i.status ≡ false) l

order_statuses-Lists :
    (m : Statuses) (keys : List Str)
    → Own m
    → All (λ k. has k m ≡ true) keys
    → Lists keys (order_statuses m keys)
unfolding order_statuses layer_refs
order_statuses-Lists m [] own h = (refl, tt)
order_statuses-Lists m (k ∷ ks) own h = elim (Option-cases (get k m)) [
  | inl nothing ↦ ground (arith, nothing, h.0)
  | inr (i, found) ↦
      let rest = order_statuses-Lists m ks own h.1 in
      if-keeps (Lists (k ∷ ks)) (contains k (codes "layer")) _ _
        (λ layer. (
          rw (layer, here i found) (ground (arith, (own k i found).0, rest.0)),
          (rw (here i found) (own k i found).1, rest.1),
        ))
        (λ other. (rw other rest.0, rest.1))
]
  where
    here : (i : StatusInfo) → get k m ≡ some i → status_at m k ≡ i
    here i found = rw (found, status_at) refl

all_keys :
    (o : Observed) (m : Statuses) (ds : List Descriptor)
    → All (λ d. has (o.key_of d) m ≡ true) ds
    → All (λ k. has k m ≡ true) (map o.key_of ds)
all_keys o m [] h = tt
all_keys o m (d ∷ ds) h = (h.0, all_keys o m ds h.1)

abbrev pub Fetched : ApiState → Observed → Option (List StatusInfo) → Type 0
Fetched s o none = Unit
Fetched s o (some l) = Lists (s.name ∷ map o.key_of o.jobs) l

-- Where the store does not fail, `fetchCurrentState` gives one status for each key of a layer among the name of
-- the image and the keys of the jobs, in their order; each has its key for a reference, and none is empty.
pub fetched-Fetched : (s : ApiState) (o : Observed) → Fetched s o (fetched s o)
unfolding fetched
fetched-Fetched s o = with_active (active_of s o)
  where
    none_there : Own []
    none_there k i at = cc

    named_status : has_no_status (first_status s o).status ≡ false
    named_status = ground arith

    statuses : List ActiveStatus → Option Statuses
    statuses as_ =
        add_job_statuses s o (map (λ a. a.ref) as_) o.jobs
          (add_active as_ (put s.name (first_status s o) []))

    with_jobs :
        (as_ : List ActiveStatus) (x : Option Statuses)
        → has s.name (add_active as_ (put s.name (first_status s o) [])) ≡ true
        → AllJobs o o.jobs (add_active as_ (put s.name (first_status s o) [])) x
        → Fetched s o (elim x [
          | none ↦ none
          | some m ↦ some (order_statuses m (s.name ∷ map o.key_of o.jobs))
        ])
    with_jobs as_ none named h = tt
    with_jobs as_ (some m) named h =
        order_statuses-Lists m (s.name ∷ map o.key_of o.jobs) h.0.0
          (h.0.1 s.name named, all_keys o m o.jobs h.1)

    with_active :
        (x : Option (List ActiveStatus))
        → Fetched s o (elim x [
          | none ↦ none
          | some as_ ↦ elim (statuses as_) [
            | none ↦ none
            | some m ↦ some (order_statuses m (s.name ∷ map o.key_of o.jobs))
          ]
        ])
    with_active none = tt
    with_active (some as_) =
        let step = put-After s.name (first_status s o) [] (refl, named_status) none_there in
        let (active, all) = add_active-After as_ (put s.name (first_status s o) []) step.0 in
        with_jobs as_ (statuses as_) (active.1 s.name (has-put s.name (first_status s o) []))
          (add_job_statuses-AllJobs s o (map (λ a. a.ref) as_) o.jobs _ active.0 all)
