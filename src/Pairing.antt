-- ===== src/Pairing.antt =====
-- main.go, `establishSession`, `fetchICEConfiguration` and `connectAndAwaitResponse`: a request, the wait
-- for its answer, and what is kept of it. The cloud is an argument: the answer of each request and of each
-- round of a wait. The clock, the key derivation and the file system are arguments too.
pub mod Reconnect
pub mod Exchange
use teleport_client.Base.{
  ℕ, Bool, true, false, not, ◌||◌, Option, none, some, List, [], ◌∷◌, ◌++◌, Text, codes, is_empty,
  is_nonempty, if◌then◌else◌,
}
use teleport_client.Session.{
  SessionCodec, FileSystem, PairedSession, Stage, load_session, save_session,
}
use teleport_client.Flags.{CliFlags}
use teleport_client.Candidates.{Candidate}
use teleport_client.Api.{
  RequestError, ApiResponse, IceServer, PollAnswer, PollResult, poll_for_response, context_error,
  request_error, response, nothing,
}
use teleport_client.Api.Request.{ApiResult, refused, succeeded}

-- The payload of a POST, by its `request_type`.
pub data Payload : Type 0 where
  request_access : Text → Text → Text → Payload
  get_ice_configuration : Text → Payload
  connect : Text → Text → Text → Text → List Candidate → List IceServer → Payload

-- `post` is the answer to an envelope of a token and a payload, `poll` that of each round of a wait for a
-- request under a token, and `done_after` says whether the context is done once the metadata is read.
pub record Cloud : Type 0 where
  pub post : Text → Payload → ApiResult
  pub poll : Text → Text → ℕ → PollAnswer
  pub done_after : Bool

-- How a step ends, by the error that it returns; `panics` where the token cannot be derived.
pub data Failure : Type 0 where
  panics : Failure
  no_session : Failure
  post_error : RequestError → Failure
  poll_context_error : Failure
  poll_error : RequestError → Failure
  timed_out : Failure
  context_done : Failure

pub data Outcome (A : Type 0) : Type 0 where
  failed : Failure → Outcome A
  returned : A → Outcome A

pub record SessionResult : Type 0 where
  pub token : Text
  pub secret : Text
  pub device_token : Text
  pub access : Option ApiResponse

-- A wait that fails returns its error; one that ends without the answer is `none`.
abbrev pub polled : PollResult → Outcome (Option ApiResponse)
polled context_error = failed poll_context_error
polled (request_error err) = failed (poll_error err)
polled (response r) = returned (some r)
polled nothing = returned none

module _ (cloud : Cloud) where
  -- A request under a token and the wait for its answer, with the request's own response.
  abbrev pub awaited : Text → Text → ℕ → ApiResult → Outcome (ApiResponse × Option ApiResponse)
  awaited token want max_tries (refused err text) = failed (post_error err)
  awaited token want max_tries (succeeded first) =
      elim (polled
        (poll_for_response (cloud.poll token first.teleport_request_id) want max_tries)) [
          | failed err ↦ failed err
          | returned answer ↦ returned (first, answer)
        ]

  unfoldable pub request_and_await :
      Text → Payload → Text → ℕ → Outcome (ApiResponse × Option ApiResponse)
  unfolding poll_for_response
  request_and_await token payload want max_tries =
      awaited token want max_tries (cloud.post token payload)

  abbrev pub ice_of : Option ApiResponse → List IceServer
  ice_of none = []
  ice_of (some r) = r.ice_configuration

  abbrev pub ice_or_timeout : List IceServer → Outcome (List IceServer)
  ice_or_timeout [] = failed timed_out
  ice_or_timeout (server ∷ servers) = returned (server ∷ servers)

  abbrev pub ice_outcome : Outcome (ApiResponse × Option ApiResponse) → Outcome (List IceServer)
  ice_outcome (failed err) = failed err
  ice_outcome (returned (first, answer)) = ice_or_timeout (ice_of answer)

  unfoldable pub fetch_ice_configuration : Text → Text → Outcome (List IceServer)
  unfolding request_and_await
  fetch_ice_configuration session_token session_secret = ice_outcome (
      request_and_await session_token (get_ice_configuration session_secret)
        (codes "ICE_CONFIGURATION") 100)

  abbrev pub connect_outcome : Outcome (ApiResponse × Option ApiResponse) → Outcome ApiResponse
  connect_outcome (failed err) = failed err
  connect_outcome (returned (first, none)) = failed timed_out
  connect_outcome (returned (first, some answer)) = returned answer

  unfoldable pub connect_and_await_response :
      SessionResult → Text → Text → Text → List Candidate → List IceServer → Outcome ApiResponse
  unfolding request_and_await
  connect_and_await_response session name public_key stun_secret local ice = connect_outcome (
      request_and_await session.token (connect session.secret name public_key stun_secret local ice)
        (codes "CONNECT_RESPONSE") 200)

  abbrev pub token_of : Option ApiResponse → Text
  token_of none = []
  token_of (some r) = r.token

  abbrev pub secret_of : Option ApiResponse → Text
  secret_of none = []
  secret_of (some r) = r.secret

  -- The session of an answer to the invite's request; a session that cannot be saved is used all the same.
  module _ (F : FileSystem) (codec : SessionCodec) (now : ℕ) where
    abbrev pub granted_session : Option ApiResponse → PairedSession
    granted_session answer = record {
      session_token = token_of answer;
      session_secret = secret_of answer;
      saved_at = now;
    }

    abbrev pub saved_state : Text → Option ApiResponse → F.State → F.State
    saved_state session_file answer s =
        if is_nonempty session_file
        then (save_session F codec session_file (granted_session answer) s).1
        else s

    abbrev pub granted :
        Text
        → Text
        → F.State
        → Outcome (ApiResponse × Option ApiResponse)
        → Outcome SessionResult × F.State
    granted session_file device_token s (failed err) = (failed err, s)
    granted session_file device_token s (returned (first, answer)) =
        if is_empty (token_of answer)
        then (failed timed_out, s)
        else if cloud.done_after
        then (failed context_done, s)
        else (
          returned (record {
            token = token_of answer;
            secret = secret_of answer;
            device_token = device_token;
            access = some first;
          }),
          saved_state session_file answer s,
        )

    abbrev pub paired : CliFlags → Text → F.State → Option Text → Outcome SessionResult × F.State
    paired flags client_id s none = (failed panics, s)
    paired flags client_id s (some token) = granted flags.session_file token s (
        request_and_await token (request_access flags.invite client_id flags.name)
          (codes "ACCESS_GRANTED") 60)

    abbrev pub reused : Option PairedSession → Outcome SessionResult
    reused none = failed no_session
    reused (some session) = returned (record {
      token = session.session_token;
      secret = session.session_secret;
      device_token = [];
      access = none;
    })

    unfoldable pub establish_session :
        (Text → Option Text) → CliFlags → Text → F.State → Outcome SessionResult × F.State
    unfolding load_session save_session request_and_await
    establish_session secret_to_token flags client_id s =
        if is_empty flags.invite
        then (reused (load_session F codec s flags.session_file), s)
        else paired flags client_id s (secret_to_token flags.invite)
