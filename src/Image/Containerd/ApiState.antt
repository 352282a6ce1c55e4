-- ===== src/Image/Containerd/ApiState.antt =====
-- `fetchCurrentState` of pkg/image/containerd/api_state.go: what the API of containerd says of a pull. Other goroutines add jobs, and the
-- daemon works on, between the calls of an update: what each call returns is an argument. A time is a number, the
-- zero time 0.
use stereoscope.Errors.{Result, ok, err}
use stereoscope.Go.Maps.{GoMap, get, put, elem}
use stereoscope.Go.Strings.{contains}
use stereoscope.Image.Containerd.Jobs.{Descriptor}
use stereoscope.Prelude.{
  ℕ, List, [], ◌∷◌, map, Option, none, some, Bool, true, false, not, ◌&&◌, Str, codes,
  byte_string_eq, ltb, if◌then◌else◌,
}

-- `StatusInfoStatus` of pull_status.go, and the empty one
pub data Status : Type 0 where
  no_status : Status
  resolved_status : Status
  resolving_status : Status
  waiting_status : Status
  committing_status : Status
  done_status : Status
  downloading_status : Status
  uploading_status : Status
  exists_status : Status

-- `statusInfo`
pub record StatusInfo : Type 0 where
  pub ref : Str
  pub status : Status
  pub offset : ℕ
  pub total : ℕ
  pub started_at : ℕ
  pub updated_at : ℕ

-- `apiState`; the map of statuses is made anew by each fetch and read by no other function.
pub record ApiState : Type 0 where
  pub name : Str
  pub started_at : ℕ
  pub ordered : List StatusInfo
  pub done : Bool

-- `newAPIState`, at a time
abbrev pub new_api_state : Str → ℕ → ApiState
new_api_state name now = record { name = name; started_at = now; ordered = []; done = false }

-- `content.Status`
pub record ActiveStatus : Type 0 where
  pub ref : Str
  pub offset : ℕ
  pub total : ℕ
  pub started_at : ℕ
  pub updated_at : ℕ

-- What `Info` of the content store says: the size and the time of creation, that there is nothing, or an error.
pub data StoreInfo : Type 0 where
  stored : ℕ → ℕ → StoreInfo
  not_found : StoreInfo
  store_failed : StoreInfo

-- What one fetch sees: whether the jobs are resolved, the jobs with the keys of `remotes.MakeRefKey`, and the answers
-- of the content store.
pub record Observed : Type 0 where
  pub is_resolved : Bool
  pub jobs : List Descriptor
  pub key_of : Descriptor → Str
  pub list_statuses : Result (List ActiveStatus)
  pub info : Str → StoreInfo

abbrev pub Statuses : Type 0
Statuses = GoMap Str StatusInfo

-- A status with no counts.
abbrev pub plain_status : Str → Status → StatusInfo
plain_status ref status = record {
  ref = ref;
  status = status;
  offset = 0;
  total = 0;
  started_at = 0;
  updated_at = 0;
}

abbrev pub downloading : ActiveStatus → StatusInfo
downloading a = record {
  ref = a.ref;
  status = downloading_status;
  offset = a.offset;
  total = a.total;
  started_at = a.started_at;
  updated_at = a.updated_at;
}

-- The active entries, and their references as `activeSeen`.
unfoldable pub add_active : List ActiveStatus → Statuses → Statuses
add_active [] m = m
add_active (a ∷ as_) m = add_active as_ (put a.ref (downloading a) m)

-- The status of a job that is not active, before the pull is done; `none` is an error of the store.
unfoldable pub info_status : ApiState → Str → StoreInfo → Option StatusInfo
info_status s key store_failed = none
info_status s key not_found = some (plain_status key waiting_status)
info_status s key (stored size created_at) =
    if ltb s.started_at created_at
    then some (record {
      ref = key;
      status = done_status;
      offset = size;
      total = size;
      started_at = 0;
      updated_at = created_at;
    })
    else some (plain_status key exists_status)

abbrev pub is_downloading : Status → Bool
is_downloading downloading_status = true
is_downloading other = false

abbrev pub is_finished : Status → Bool
is_finished done_status = true
is_finished exists_status = true
is_finished other = false

-- The status of a job once the pull is done.
unfoldable pub done_status_of : Str → Option StatusInfo → StatusInfo
done_status_of key none = plain_status key done_status
done_status_of key (some i) = if is_finished i.status then i else record i { status = done_status }

-- Whether the store is asked for the status of a job.
unfoldable pub wants_info : ApiState → Option StatusInfo → Bool
wants_info s none = not s.done
wants_info s (some i) = not s.done && is_downloading i.status

-- The body of the loop over the jobs, for a job that is not active.
unfoldable pub job_status : ApiState → Observed → Descriptor → Statuses → Option Statuses
unfolding info_status done_status_of wants_info get put
job_status s o d m =
    let key = o.key_of d in
    let asked : Option Statuses = elim (info_status s key (o.info d.digest)) [
      | none ↦ none
      | some i ↦ some (put key i m)
    ] in
    if wants_info s (get key m)
    then asked
    else if s.done
    then some (put key (done_status_of key (get key m)) m)
    else some m

-- The loop over the jobs; `none` is the early return of nil.
unfoldable pub add_job_statuses :
    ApiState → Observed → List Str → List Descriptor → Statuses → Option Statuses
unfolding job_status elem
add_job_statuses s o active [] m = some m
add_job_statuses s o active (d ∷ ds) m =
    let seen = add_job_statuses s o active ds m in
    let unseen : Option Statuses = elim (job_status s o d m) [
      | none ↦ none
      | some m' ↦ add_job_statuses s o active ds m'
    ] in
    if elem (o.key_of d) active then seen else unseen

-- `s.statuses[key]`, with the zero value where there is none.
unfoldable pub status_at : Statuses → Str → StatusInfo
unfolding get
status_at m key = elim (get key m) [ none ↦ plain_status [] no_status | some i ↦ i ]

-- The statuses of the keys of layers, in the order of the keys.
unfoldable pub order_statuses : Statuses → List Str → List StatusInfo
unfolding status_at contains
order_statuses m [] = []
order_statuses m (key ∷ keys) =
    let rest = order_statuses m keys in
    if contains key (codes "layer") then status_at m key ∷ rest else rest

-- The active entries of the store, which is not asked once the pull is done; `none` is an error.
unfoldable pub active_of : ApiState → Observed → Option (List ActiveStatus)
active_of s o =
    if s.done then some [] else elim o.list_statuses [ err e ↦ none | ok as_ ↦ some as_ ]

abbrev pub first_status : ApiState → Observed → StatusInfo
first_status s o = plain_status s.name (if o.is_resolved then resolved_status else resolving_status)

-- `fetchCurrentState`, without the early returns of nil as empty lists.
unfoldable pub fetched : ApiState → Observed → Option (List StatusInfo)
unfolding add_active add_job_statuses order_statuses active_of
fetched s o = elim (active_of s o) [
  | none ↦ none
  | some as_ ↦
      elim (add_job_statuses s o (map (λ a. a.ref) as_) o.jobs
        (add_active as_ (put s.name (first_status s o) []))) [
          | none ↦ none
          | some m ↦ some (order_statuses m (s.name ∷ map o.key_of o.jobs))
        ]
]

-- `fetchCurrentState`
unfoldable pub fetch_current_state : ApiState → Observed → List StatusInfo
unfolding fetched
fetch_current_state s o = elim (fetched s o) [ none ↦ [] | some l ↦ l ]
