-- ===== src/Tests/Starting.antt =====
-- main.go and wireguard.go on concrete inputs: flags, an invite, attempts, an endpoint and the bind.
use teleport_client.Base.{
  has_prefix, append_all, append_unseen, sort_by_score, insert_by_score, insert, ◌*◌, ◌≤◌, ◌≡◌,
  refl, true, false, not, ◌&&◌, ◌||◌, Option, some, none, List, [], ◌∷◌, Text, codes, pos, length,
  is_empty, text_eq, contains, keep, distinct, trim_space, parse_int64,
}
use teleport_client.Net.{
  host_ip, is_global_unicast, is_private, is_broadcast, is_unspecified, is_loopback, is_multicast,
  is_link_local_unicast,
}
use teleport_client.Echo.{second}
use teleport_client.Candidates.{
  Candidate, family_dual, compatible_candidates, candidates_of_type, build_candidate_retry_queue,
  candidate_type_map, candidate_type_map_from, is_publicly_routable_candidate_addr,
  local_candidate_families, local_families_from, peer_ip, trim_brackets, drop_brackets,
  is_compatible_ip, rank_candidates, score,
}
use teleport_client.PathMtu.{resolve_configured_mtu, resolve_tcp_congestion_control}
use teleport_client.Bind.{open_bind, close_bind}
use teleport_client.Bind.Lifecycle.{
  opens, closes, calls, new_bind, any_closed, all_closed, waits, wakes, BindCall,
  open_bind-close_bind,
}
use teleport_client.Client.{
  ConnectionAttempt, run_client, NominationWorld, Negotiated, per_tuple_nomination,
  negotiate_endpoint, resolve_nominated_endpoint, observed_from, first_request,
}
use teleport_client.Client.Backoff.{in_range, no_faster, run_client_waits}
use teleport_client.Client.Offered.{has_request, is_offered_over}
use teleport_client.Client.Endpoint.{negotiate_endpoint_lem}
use teleport_client.Tests.Gathering.{readers, sockets, lan}
use teleport_client.Socks.{
  Socks5Proxy, user_pass, start_socks5_proxy, socks5_auth_methods, is_loopback_bind_host,
}
use teleport_client.Socks.Egress.{is_open, reaches_beyond, start_socks5_proxy_lem}
use teleport_client.Flags.{
  validate_socks5_addr, validate_port, InviteUrl, RawFlags, CliFlags, is_uuid,
  normalize_invite_secret, parse_flags,
}
use teleport_client.Flags.Accepted.{is_acceptable, is_acceptable-parse_flags}

abbrev held : ConnectionAttempt
held = record {
  context_done = false;
  printed_config = false;
  error_is_canceled = false;
  tunnel_started = true;
  tunnel_duration = 10 * second;
  wait_completes = true;
}

run_client_waits_example :
    (in_range (run_client (held ∷ held ∷ [])).0 ≡ true)
    × (no_faster (2 * second) (run_client (held ∷ held ∷ [])).0 ≡ true)
    × (length (run_client (held ∷ held ∷ [])).0 ≤ length (held ∷ held ∷ []))
run_client_waits_example = run_client_waits (held ∷ held ∷ [])

abbrev cycle : List BindCall
cycle = opens ∷ closes ∷ []

open_bind-close_bind_example :
    (any_closed
        (open_bind (calls (new_bind true false) cycle)).0.closed
        (open_bind (calls (new_bind true false) cycle)).1
      ≡ false)
    × (waits (open_bind (calls (new_bind true false) cycle)).0 ≡ true)
    × (all_closed
          (close_bind (open_bind (calls (new_bind true false) cycle)).0).closed
          (open_bind (calls (new_bind true false) cycle)).1
        ≡ true)
    × (wakes (close_bind (open_bind (calls (new_bind true false) cycle)).0) ≡ true)
    × ((close_bind (close_bind (open_bind (calls (new_bind true false) cycle)).0)).closed
        ≡ (close_bind (open_bind (calls (new_bind true false) cycle)).0).closed)
open_bind-close_bind_example = open_bind-close_bind true false cycle

-- Three peers, of which one is a relay and one has no address, and a request in the log.
abbrev relay : Candidate
relay = record { type = codes "turn"; addr = codes "wan" }

abbrev nowhere : Candidate
nowhere = record { type = codes "turn"; addr = codes "nowhere" }

abbrev offers : List Candidate
offers = lan ∷ relay ∷ nowhere ∷ []

abbrev pub nominated : NominationWorld
nominated = record {
  selected = codes "peer";
  done_after_wait = false;
  logs =
      record { inbound = true; addr = codes "six"; bytes = 20; is_stun = true; is_request = true }
      ∷ [];
  probed = [];
  done_after_probe = false;
}

abbrev negotiated : Negotiated
negotiated = record {
  endpoint = codes "peer";
  mode = per_tuple_nomination;
  candidate_queue = codes "six" ∷ codes "wan" ∷ [];
  candidate_types = (codes "wan", codes "turn") ∷ [];
}

negotiate_endpoint_lem_example :
    (is_empty negotiated.endpoint ≡ false)
    × ((is_empty [] || text_eq [] negotiated.endpoint) ≡ true)
    × (distinct negotiated.candidate_queue ≡ true)
    × (contains negotiated.candidate_queue (codes "wan") ≡ (
        ((is_empty [] && has_request nominated.logs (codes "wan"))
          || is_offered_over readers true (some sockets) (lan ∷ []) offers (codes "wan"))
        && (not (is_empty (codes "wan")) && not (text_eq negotiated.endpoint (codes "wan")))))
negotiate_endpoint_lem_example =
    negotiate_endpoint_lem readers [] true (some sockets) offers (lan ∷ []) nominated negotiated
      (codes "wan")
      (unfold negotiate_endpoint resolve_nominated_endpoint observed_from first_request
          compatible_candidates candidates_of_type build_candidate_retry_queue candidate_type_map
          candidate_type_map_from append_all append_unseen is_publicly_routable_candidate_addr
          local_candidate_families local_families_from peer_ip trim_brackets drop_brackets
          is_compatible_ip rank_candidates score sort_by_score insert_by_score keep contains text_eq
          is_empty host_ip is_global_unicast is_private is_broadcast is_unspecified is_loopback
          is_multicast is_link_local_unicast insert in
        refl)

abbrev no_url : Text → Option InviteUrl
no_url s = none

abbrev invite : Text
invite = codes "0A1b2c3d-0000-4000-8000-0123456789ab"

abbrev secret : Text
secret = codes "0a1b2c3d-0000-4000-8000-0123456789ab"

abbrev raw : RawFlags
raw = record {
  invite = invite;
  name = codes "laptop";
  endpoint_override = [];
  force_turn = false;
  socks5_addr = codes "host";
  socks5_user = codes "u";
  socks5_pass = [];
  force_ipv4 = false;
  force_ipv6 = false;
  session_file = [];
  mtu = pos 1400;
  positional = 0;
  env_pass = codes "p";
  env_mtu = [];
  env_cc = [];
}

abbrev pub parsed : CliFlags
parsed = record {
  invite = secret;
  name = codes "laptop";
  endpoint_override = [];
  force_turn = false;
  socks5_addr = codes "host";
  socks5_user = codes "u";
  socks5_pass = codes "p";
  family = family_dual;
  session_file = [];
  mtu = pos 1400;
  tcp_congestion_control = [];
}

is_acceptable-parse_flags_example :
    (is_acceptable parsed ≡ true)
    × (resolve_configured_mtu (pos 1400) [] ≡ some (pos 1400))
    × (resolve_tcp_congestion_control [] ≡ some [])
is_acceptable-parse_flags_example =
    is_acceptable-parse_flags readers no_url (λ s. none) raw parsed
      (unfold parse_flags normalize_invite_secret is_uuid has_prefix trim_space
          resolve_configured_mtu resolve_tcp_congestion_control parse_int64 is_empty in
        refl)

abbrev proxy : Socks5Proxy
proxy = record {
  methods = user_pass (codes "u") (codes "p") ∷ [];
  warned = false;
  listening = true;
}

start_socks5_proxy_lem_example :
    (is_open proxy.methods ≡ is_empty (codes "u"))
    × (false ≡ (
        is_open proxy.methods && reaches_beyond readers (readers.split_host_port (codes "host"))))
start_socks5_proxy_lem_example =
    start_socks5_proxy_lem readers no_url (λ s. none) raw parsed true true proxy
      (unfold parse_flags normalize_invite_secret is_uuid has_prefix trim_space
          resolve_configured_mtu resolve_tcp_congestion_control parse_int64 is_empty in
        refl)
      (unfold start_socks5_proxy socks5_auth_methods validate_socks5_addr validate_port parse_int64
          is_empty is_loopback_bind_host in
        refl)
