-- ===== src/Image/Docker/Pulls.antt =====
-- The pull of pkg/image/docker/daemon_provider.go. `M` is the type `progress.Manual` of go-progress, `A` the type
-- `types.AuthConfig` of the docker command.
use stereoscope.Errors.{Failure, Result, ok, err, Act, ◌>>=◌, panics}
use stereoscope.Go.Strings.{has_prefix}
use stereoscope.Image.Platform.{Platform, to_string}
use stereoscope.Image.PullStatus.{PullEvent, Manual, PullStatus, new_pull_status, on_event}
use stereoscope.Prelude.{
  List, [], ◌∷◌, ◌++◌, Option, none, some, Bool, true, false, ◌&&◌, ◌||◌, Str, codes, str_eq,
  if◌then◌else◌,
}

-- What one JSON value of the stream does to the pointer that it is decoded into: fields that the value lacks are
-- kept, and null makes it nil.
abbrev pub Decoded : Type 0
Decoded = Option PullEvent → Option PullEvent

-- The stream of events: its values, and the error at its end, if that is not `io.EOF`.
pub record Events : Type 0 where
  pub values : List Decoded
  pub end : Option Failure

-- `types.ImagePullOptions`, of which the rest is not set
pub record PullOptions : Type 0 where
  pub platform : Str
  pub registry_auth : Str

-- The configuration of the docker command: `config.Load`, `name.ParseReference` with the registry of the reference,
-- `GetAuthConfig`, whether it is empty, and its encoding as JSON in base64.
pub record AuthLibrary (A : Type 0) : Type 0 where
  pub load_config : Result (Unit {0})
  pub registry_of : Str → Result Str
  pub get_auth_config : Str → Result A
  pub is_empty_auth : A → Bool
  pub encode_credentials : A → Result Str

-- A pull that has ended, with its status.
pub record Pull (M : Type 0) : Type 0 where
  pub image_ref : Str
  pub status : PullStatus M
  pub complete : Bool

module _ {A : Type 0} (auth : AuthLibrary A) where
  -- `authURL`
  unfoldable pub auth_url : Str → Bool → Result Str
  auth_url image_ref workaround = auth.registry_of image_ref >>= λ url.
      if workaround && str_eq url (codes "index.docker.io")
      then ok (url ++ codes "/v1/")
      else ok url

  -- The credentials for the URL of an image.
  unfoldable pub credentials_at : Str → Bool → Result A
  unfolding auth_url
  credentials_at image_ref workaround = auth_url image_ref workaround >>= auth.get_auth_config

  -- The credentials that `pullOptions` encodes; an error of the lookup is logged only.
  unfoldable pub pull_credentials : Str → Result A
  unfolding credentials_at
  pull_credentials image_ref = credentials_at image_ref true >>= λ a.
      if auth.is_empty_auth a then credentials_at image_ref false else ok a

  -- `pullOptions`
  unfoldable pub pull_options : Option Platform → Str → Result PullOptions
  unfolding pull_credentials
  pull_options platform image_ref = auth.load_config >>= λ u.
      elim (pull_credentials image_ref >>= auth.encode_credentials) [
        | err e ↦ ok (record { platform = to_string platform; registry_auth = [] })
        | ok encoded ↦ ok (record { platform = to_string platform; registry_auth = encoded })
      ]

-- Whether an event is one of the last two of a pull.
unfoldable pub is_closing : PullEvent → Bool
unfolding has_prefix
is_closing e = has_prefix e.status (codes "Digest:") || has_prefix e.status (codes "Status:")

-- The end of the loop over the events.
unfoldable pub ended : Option Failure → Result (Unit {0})
ended none = ok tt
ended (some e) = err e

module _ {M : Type 0} (manual : Manual M) where
  -- The loop of `pull` over the stream: one event is decoded into after another, and a nil one is a panic.
  unfoldable pub show_events :
      List Decoded → Option Failure → Option PullEvent → Act (PullStatus M) (Unit {0})
  unfolding ended is_closing
  show_events [] end event p = (ended end, p)
  show_events (decode ∷ values) end event p = elim (decode event) [
    | none ↦ (err panics, p)
    | some e ↦
        let skipped = show_events values end (some e) p in
        let shown : Result (Unit {0}) × PullStatus M = elim (on_event manual e p) [
          | err f ↦ (err f, p)
          | ok p' ↦ show_events values end (some e) p'
        ] in
        if is_closing e then skipped else shown
  ]

  -- The status of a pull, which is complete when it returns.
  unfoldable pub completed_pull : Str → PullStatus M → Pull M
  completed_pull image_ref p = record { image_ref = image_ref; status = p; complete = true }

  module _ {A W : Type 0} (auth : AuthLibrary A)
      (image_pull : Str → PullOptions → Act W Events) where
    -- The calls of `pull`, on a new status, with the status that they leave.
    unfoldable pub pull_into : Option Platform → Str → W → Result (Unit {0}) × (PullStatus M × W)
    unfolding pull_options show_events
    pull_into platform image_ref w = elim (pull_options auth platform image_ref) [
      | err e ↦ (err e, (new_pull_status, w))
      | ok options ↦
          let (stream, w') = image_pull image_ref options w in
          elim stream [
            | err e ↦ (err e, (new_pull_status, w'))
            | ok events ↦
                let (r, p) = show_events events.values events.end none new_pull_status in
                (r, (p, w'))
          ]
    ]

    -- `pull`, with the pulls so far
    unfoldable pub pull : Option Platform → Str → Act (W × List (Pull M)) (Unit {0})
    unfolding pull_into completed_pull
    pull platform image_ref (w, pulls) =
        let (r, left) = pull_into platform image_ref w in
        (r, (left.1, pulls ++ completed_pull image_ref left.0 ∷ []))
