-- ===== src/Echo/Response.antt =====
-- udpecho.go, `parseUDPEchoResponse`, and how `runUDPEchoPinger` starts. The decoder of a JSON object is an
-- argument, and so are the reader of an address and the dialer of the stack.
use teleport_client.Base.{
  ℕ, ◌≡◌, refl, Bool, true, not, ◌||◌, Option, none, some, List, Text, ℤ, pos, ltb_ℤ, is_empty,
  if◌then◌else◌, get_elem?,
}
use teleport_client.Net.{Ip, NetLib}
use teleport_client.Redaction.{Value, number, string}
use teleport_client.Api.{ServerInfo}
use teleport_client.Echo.Wait.{ReadRound, packet, wait_for_echo_response, wait-match}

-- The struct that the decoder fills: the value of `req_id`, where there is one.
pub record EchoResponse : Type 0 where
  pub req_id : Option Value

-- A string, or the digits of a number.
abbrev pub request_id : Option Value → Option Text
request_id (some (string id)) = some id
request_id (some (number digits)) = some digits
request_id _ = none

abbrev pub response_id : Option EchoResponse → Option Text
response_id none = none
response_id (some response) = request_id response.req_id

unfoldable pub parse_udp_echo_response : (Text → Option EchoResponse) → Text → Option Text
parse_udp_echo_response unmarshal bytes = response_id (unmarshal bytes)

-- How the pinger starts.
pub data PingerStart : Type 0 where
  no_endpoint invalid_endpoint not_dialled dialled : PingerStart

unfoldable pub start_udp_echo_pinger : NetLib → (Ip → ℤ → Bool) → Bool → ServerInfo → PingerStart
start_udp_echo_pinger net dials has_net info =
    if not has_net
      || (is_empty info.udp_echo_addr
          || not (ltb_ℤ info.udp_echo_port (pos 0) || ltb_ℤ (pos 0) info.udp_echo_port))
    then no_endpoint
    else elim (net.parse_ip info.udp_echo_addr) [
      | none ↦ invalid_endpoint
      | some ip ↦ if dials ip info.udp_echo_port then dialled else not_dialled
    ]

-- A read of one of the rounds that carries a reply with the id.
pub record Replies (unmarshal : Text → Option EchoResponse) (id : Text) (rs : List ReadRound)
    : Type 0 where
  pub index : ℕ
  pub round : ReadRound
  pub bytes : Text
  pub response : EchoResponse
  pub at_index : get_elem? rs index ≡ some round
  pub read : round.result ≡ packet bytes
  pub decoded : unmarshal bytes ≡ some response
  pub answers : request_id response.req_id ≡ some id

response_id-some :
    (o : Option EchoResponse) (id : Text)
    → response_id o ≡ some id
    → (response : EchoResponse) × (o ≡ some response) × (request_id response.req_id ≡ some id)
response_id-some none id e = absurd cc
response_id-some (some response) id e = (response, refl, e)

-- A wait for a reply ends with a match only when one of its reads is a JSON object whose `req_id` is the
-- id that it waits for, as a string or as a number.
pub wait-parse_udp_echo_response :
    (unmarshal : Text → Option EchoResponse) (want_id : Text) (is_startup has_resend : Bool)
    (ceiling n k : ℕ) (rs : List ReadRound)
    → wait_for_echo_response
        (parse_udp_echo_response unmarshal)
        want_id
        is_startup
        has_resend
        ceiling
        n
        rs
      ≡ some (true, k)
    → Replies unmarshal want_id rs
wait-parse_udp_echo_response unmarshal want_id is_startup has_resend ceiling n k rs e =
    let (index, round, found, accepted) =
      wait-match (parse_udp_echo_response unmarshal) want_id is_startup has_resend ceiling n k rs
        e in
    let (response, decoded, answers) =
      response_id-some (unmarshal accepted.bytes) want_id
        (unfold parse_udp_echo_response in accepted.parsed) in
    record {
      index = index;
      round = round;
      bytes = accepted.bytes;
      response = response;
      at_index = found;
      read = accepted.read;
      decoded = decoded;
      answers = answers;
    }
