-- ===== src/Image/Containerd/Jobs.antt =====
-- pkg/image/containerd/jobs.go: the descriptors that a pull has met. The lock makes each operation one step.
use stereoscope.Go.Maps.{elem}
use stereoscope.Prelude.{List, [], ◌∷◌, ◌++◌, Bool, true, false, Str, byte_string_eq, if◌then◌else◌}

-- `ocispec.Descriptor`, of which the rest is not read here
pub record Descriptor : Type 0 where
  pub media_type : Str
  pub digest : Str

-- `jobs`; the set of digests is their list.
pub record Jobs : Type 0 where
  pub name : Str
  pub added : List Str
  pub descs : List Descriptor
  pub resolved : Bool

-- `newJobs`
abbrev pub new_jobs : Str → Jobs
new_jobs name = record { name = name; added = []; descs = []; resolved = false }

-- `Add`
unfoldable pub add_job : Descriptor → Jobs → Jobs
unfolding elem
add_job d j =
    if elem d.digest j.added
    then record j { resolved = true }
    else record j { resolved = true; descs = j.descs ++ d ∷ []; added = j.added ++ d.digest ∷ [] }

-- All that a pull adds.
unfoldable pub add_jobs : List Descriptor → Jobs → Jobs
unfolding add_job
add_jobs [] j = j
add_jobs (d ∷ ds) j = add_jobs ds (add_job d j)
