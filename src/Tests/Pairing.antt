-- ===== src/Tests/Pairing.antt =====
-- session.go, main.go and api.go, on files in memory: a session is saved, loaded, and redacted.
use teleport_client.Base.{
  ℕ, zero, suc, ◌≡◌, refl, true, false, ◌||◌, none, some, [], Text, codes, text_eq, is_empty,
  if◌then◌else◌, pos,
}
use teleport_client.Session.{
  PairedSession, save_prefix, save_session, load_session, data_of, save_step, save_steps,
}
use teleport_client.Flags.{CliFlags}
use teleport_client.Candidates.{family_dual}
use teleport_client.Api.{
  poll_for_response, poll_from, poll_round, is_transient_api_error, ApiResponse, PollAnswer,
  answered, empty_response, api_error,
}
use teleport_client.Api
use teleport_client.Api.Request.{succeeded}
use teleport_client.Pairing.{
  Cloud, returned, SessionResult, request_access, request_and_await, establish_session,
}
use teleport_client.Pairing.Exchange.{IsAnswer, request_and_await_lem}
use teleport_client.Pairing.Reconnect.{establish_session_reconnects}
use teleport_client.Session.Reload.{
  is_committed, contents-save_prefix, contents-failed_save_session, load_session-save_session,
}
use teleport_client.Tests.Files.{
  Files, removed-succeeds, memory_files, memory_files-IsLawful, plain_codec,
  plain_codec-IsRoundTrip, update,
}

abbrev path : Text
path = codes "session.json"

abbrev paired_session : PairedSession
paired_session = record { session_token = codes "tok"; session_secret = codes "key"; saved_at = 7 }

abbrev old_files : Files
old_files = update path (some (codes "old")) (λ q. none)

contents-save_prefix_example :
    (save_prefix (memory_files true) plain_codec 4 path paired_session old_files).1 path ≡ (
      if is_committed
        (save_prefix (memory_files true) plain_codec 4 path paired_session old_files).0
      then some (data_of (plain_codec.marshal paired_session))
      else old_files path)
contents-save_prefix_example =
    contents-save_prefix (memory_files true) (memory_files-IsLawful true) plain_codec 4 path
      paired_session old_files

-- Where no rename succeeds, the temporary file is gone after the save.
contents-failed_save_session_example :
    (save_session (memory_files false) plain_codec path paired_session old_files).1
      (codes "session.json.tmp-*")
    ≡ none
contents-failed_save_session_example =
    unfold text_eq in
    contents-failed_save_session (memory_files false) (memory_files-IsLawful false) plain_codec path
      paired_session old_files (codes "session.json.tmp-*")
      (unfold save_session save_prefix save_steps save_step text_eq in refl) removed-succeeds

load_session-save_session_example :
    load_session
      (memory_files true)
      plain_codec
      (save_session (memory_files true) plain_codec path paired_session old_files).1
      path
    ≡ (if is_empty (codes "tok") || is_empty (codes "key") then none else some paired_session)
load_session-save_session_example =
    load_session-save_session (memory_files true) (memory_files-IsLawful true) plain_codec path
      paired_session old_files plain_codec-IsRoundTrip
      (unfold save_session save_prefix save_steps save_step text_eq in refl)

abbrev accepted : ApiResponse
accepted = record (empty_response 200) { teleport_request_id = codes "id" }

abbrev grant : ApiResponse
grant = record (empty_response 200) {
  response_type = codes "ACCESS_GRANTED";
  token = codes "tok";
  secret = codes "key";
}

-- The first round of a wait fails.
abbrev rounds : ℕ → PollAnswer
rounds zero = Api.failed (api_error 503)
rounds (suc i) = answered grant

abbrev cloud : Cloud
cloud = record {
  post = λ token payload. succeeded accepted;
  poll = λ token id. rounds;
  done_after = false;
}

abbrev silent_cloud : Cloud
silent_cloud = record {
  post = λ token payload. succeeded accepted;
  poll = λ token id i. Api.wait_cancelled;
  done_after = true;
}

request_and_await_lem_example :
    (succeeded accepted ≡ succeeded accepted) × IsAnswer rounds (codes "ACCESS_GRANTED") 60 grant
request_and_await_lem_example =
    request_and_await_lem cloud (codes "t") (request_access (codes "i") (codes "c") (codes "n"))
      (codes "ACCESS_GRANTED") 60 accepted grant
      (unfold request_and_await poll_for_response poll_from poll_round is_transient_api_error
          text_eq in
        refl)

abbrev with_invite : Text → CliFlags
with_invite invite = record {
  invite = invite;
  name = codes "laptop";
  endpoint_override = [];
  force_turn = false;
  socks5_addr = [];
  socks5_user = [];
  socks5_pass = [];
  family = family_dual;
  session_file = path;
  mtu = pos 0;
  tcp_congestion_control = [];
}

abbrev device : SessionResult
device = record {
  token = codes "tok";
  secret = codes "key";
  device_token = codes "t";
  access = some accepted;
}

establish_session_reconnects_example :
    establish_session silent_cloud
      (memory_files true)
      plain_codec
      9
      (λ secret. some (codes "t"))
      (with_invite [])
      (codes "d")
      (save_session (memory_files true) plain_codec path paired_session old_files).1
    ≡ (
      returned
          (record { token = codes "tok"; secret = codes "key"; device_token = []; access = none }),
      (save_session (memory_files true) plain_codec path paired_session old_files).1,
    )
establish_session_reconnects_example =
    establish_session_reconnects (memory_files true) (memory_files-IsLawful true) plain_codec
      plain_codec-IsRoundTrip (λ secret. some (codes "t")) cloud silent_cloud 7 9
      (with_invite (codes "invite")) (with_invite []) (codes "c") (codes "d") old_files
      (save_session (memory_files true) plain_codec path paired_session old_files).1 device
      (unfold is_empty in refl) (unfold is_empty in refl) (unfold is_empty in refl) refl
      (unfold establish_session request_and_await poll_for_response poll_from poll_round
          is_transient_api_error text_eq is_empty in
        refl)
      (unfold save_session save_prefix save_steps save_step text_eq in refl)
      (unfold is_empty in refl)
