-- ===== src/Api.antt =====
-- api.go: the loop that polls the cloud for a response, and which errors it takes as transient. The
-- requests are the argument `world`, and a response has the fields that their callers read.
pub mod Polling
pub mod Request
use teleport_client.Base.{
  ℕ, zero, suc, ◌+◌, Bool, true, false, not, ◌||◌, Option, none, some, List, [], ℤ, pos, Text,
  text_eq, leb, ◌==◌, if◌then◌else◌,
}
use teleport_client.Candidates.{Candidate}

-- An error of a request: with a status (0 without a response) when it is an `apiError`.
pub data RequestError : Type 0 where
  api_error : ℕ → RequestError
  other_error : RequestError

unfoldable pub is_transient_api_error : RequestError → Bool
is_transient_api_error (api_error status) = status == 0 || (leb 500 status || status == 429)
is_transient_api_error other_error = false

pub record IceServer : Type 0 where
  pub urls : List Text
  pub username : Text
  pub credential : Text

pub record ServerInfo : Type 0 where
  pub peer_candidates : List Candidate
  pub wg_pub_key : Text
  pub udp_echo_port : ℤ
  pub udp_echo_addr : Text
  pub tunnel_mask : ℤ
  pub tunnel_addr : Text

-- The fields that the client reads; of the peer's description, its candidates.
pub record ApiResponse : Type 0 where
  pub teleport_request_id : Text
  pub response_type : Text
  pub token : Text
  pub secret : Text
  pub ice_configuration : List IceServer
  pub server_info : ServerInfo
  pub client_ip : Text
  pub dns_addrs : List Text
  pub status_code : ℕ

-- `apiResponse{StatusCode: status}`.
abbrev pub empty_response : ℕ → ApiResponse
empty_response status = record {
  teleport_request_id = [];
  response_type = [];
  token = [];
  secret = [];
  ice_configuration = [];
  server_info = record {
    peer_candidates = [];
    wg_pub_key = [];
    udp_echo_port = pos 0;
    udp_echo_addr = [];
    tunnel_mask = pos 0;
    tunnel_addr = [];
  };
  client_ip = [];
  dns_addrs = [];
  status_code = status;
}

-- What happens in a round: the context ends the wait, or the request fails or is answered.
pub data PollAnswer : Type 0 where
  wait_cancelled : PollAnswer
  failed : RequestError → PollAnswer
  answered : ApiResponse → PollAnswer

pub data PollResult : Type 0 where
  context_error : PollResult
  request_error : RequestError → PollResult
  response : ApiResponse → PollResult
  nothing : PollResult

abbrev pub max_consecutive_poll_errors : ℕ
max_consecutive_poll_errors = 5

-- The end of a round: `again` is the rest of the loop, from a number of consecutive errors.
unfoldable pub poll_round : Text → ℕ → (ℕ → PollResult) → PollAnswer → PollResult
unfolding is_transient_api_error
poll_round want consecutive_errors again wait_cancelled = context_error
poll_round want consecutive_errors again (failed err) =
    if not (is_transient_api_error err)
    then request_error err
    else if leb max_consecutive_poll_errors (consecutive_errors + 1)
    then request_error err
    else again (consecutive_errors + 1)
poll_round want consecutive_errors again (answered poll) =
    if text_eq poll.response_type want then response poll else again 0

-- The rounds from `i` on, of which `left` are left.
unfoldable pub poll_from : (ℕ → PollAnswer) → Text → ℕ → ℕ → ℕ → PollResult
unfolding poll_round
poll_from world want consecutive_errors i zero = nothing
poll_from world want consecutive_errors i (suc left) =
    poll_round want consecutive_errors (λ errors. poll_from world want errors (suc i) left)
      (world i)

unfoldable pub poll_for_response : (ℕ → PollAnswer) → Text → ℕ → PollResult
unfolding poll_from
poll_for_response world want max_tries = poll_from world want 0 0 max_tries
