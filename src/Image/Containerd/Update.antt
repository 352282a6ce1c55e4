-- ===== src/Image/Containerd/Update.antt =====
-- `update` of pkg/image/containerd/api_state.go. The set of strings of the library strset, like those of
-- pkg/file/id_set.go, is a map with no values.
use stereoscope.Errors.{Result, ok, err, panics}
use stereoscope.File.Sets
use stereoscope.File.Sets.{IdSet}
use stereoscope.Image.Containerd.ApiState.{
  ApiState, Observed, fetch_current_state, Status, StatusInfo, no_status, resolved_status,
  resolving_status, waiting_status, committing_status, done_status, downloading_status,
  uploading_status, exists_status,
}
use stereoscope.Prelude.{
  List, [], ◌∷◌, Option, none, some, true, Str, codes, byte_string_eq, not, ◌==◌, if◌then◌else◌,
}

-- The text of a `StatusInfoStatus`
abbrev pub status_text : Status → Str
status_text no_status = []
status_text resolved_status = codes "resolved"
status_text resolving_status = codes "resolving"
status_text waiting_status = codes "waiting"
status_text committing_status = codes "committing"
status_text done_status = codes "done"
status_text downloading_status = codes "downloading"
status_text uploading_status = codes "uploading"
status_text exists_status = codes "exists"

-- The loop that fills `seenStatus`.
unfoldable pub add_statuses : List StatusInfo → IdSet Str → IdSet Str
unfolding Sets.add
add_statuses [] seen = seen
add_statuses (i ∷ is) seen = add_statuses is (Sets.add (status_text i.status ∷ []) seen)

-- The known statuses of a download that is completed.
abbrev pub completed_texts : List Str
completed_texts =
    status_text done_status ∷ status_text exists_status ∷ status_text resolved_status ∷ []

-- `update`, on what it sees first, what `GetImage` returns, and what it sees then. An image that is nil without an
-- error is a panic in the log's argument.
unfoldable pub update_api : Observed → Result (Option Str) → Observed → ApiState → Result ApiState
unfolding fetch_current_state add_statuses Sets.new_set Sets.size Sets.remove
update_api o1 image o2 s =
    let first = fetch_current_state s o1 in
    let s1 = record s { ordered = first } in
    let seen = add_statuses first (Sets.new_set []) in
    let found : Result ApiState = elim image [
      | err e ↦ ok s1
      | ok found ↦ elim found [
        | none ↦ err panics
        | some digest ↦ ok (record s1 { ordered = fetch_current_state s1 o2; done = true })
      ]
    ] in
    if Sets.size seen == 0
    then ok s1
    else if not (Sets.size (Sets.remove completed_texts seen) == 0)
    then ok s1
    else found
