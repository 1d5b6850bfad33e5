-- ===== src/Tests/Attempting.antt =====
-- stun.go, nomination.go and main.go, on a configuration with one STUN and one TURN server.
use teleport_client.Base.{
  ◌≤◌, ◌≡◌, refl, true, false, ◌&&◌, Option, none, some, List, [], ◌∷◌, ◌++◌, map, keep, Text,
  codes, text_eq, is_empty, if◌then◌else◌, has_byte,
}
use teleport_client.Candidates.{Candidate, family_ipv4}
use teleport_client.Api.{IceServer, ApiResponse, empty_response}
use teleport_client.Ice.{
  IceUrl, StunWorld, StunSocket, received, stun_network, stun_server_from_ice, turn_server_from_ice,
  validate_turn_prerequisites, reflexive_candidate_from_conn, with_authority, join_host_port,
  parse_console_ice_url, server_from_ice, server_of_urls, read_mapped,
}
use teleport_client.Ice.Servers.{
  urls_of, first_host_port, is_stun_url, is_udp_turn_url, any_url, any_reflexive,
  validate_turn_prerequisites_lem,
}
use teleport_client.Ice.Answers.{asked, expected}
use teleport_client.Ice.Reflexive.{is_sound, deadline_of, reflexive_candidate_from_conn_lem}
use teleport_client.Probes.{response, grace_over, timer_over, probe_candidates}
use teleport_client.Probes.Best.{choice, probe_candidates_lem}
use teleport_client.Probes.Guess.{ordered_of}
use teleport_client.Pairing.{returned, SessionResult}
use teleport_client.Attempt.{AttemptWorld, run_connection_attempt}
use teleport_client.Attempt.Orderly.{is_failed, run_connection_attempt_lem}
use teleport_client.Attempt.Holding.{nothing_held, hold_all}
use teleport_client.Client.{run_client}
use teleport_client.Lifetime.{Round, client_lifetime, attempts_of}
use teleport_client.Lifetime.Waits.{outcome_of}
use teleport_client.Lifetime.Accounted.{deletions, pending}
use teleport_client.Lifetime.Deletions.{client_lifetime_lem}
use teleport_client.Tests.Gathering.{readers, lan, peers, sockets}
use teleport_client.Tests.Starting.{nominated, parsed}

-- A reader that knows two URLs.
abbrev parse : Text → Option IceUrl
parse s =
    if text_eq s (codes "stun://a.example")
    then some
        (record { scheme = codes "stun"; hostname = codes "a.example"; port = []; transport = [] })
    else if text_eq s (codes "turn://b.example?transport=udp")
    then some (record {
      scheme = codes "turn";
      hostname = codes "b.example";
      port = codes "99";
      transport = codes "udp";
    })
    else none

abbrev ice : List IceServer
ice =
    record { urls = codes "x" ∷ []; username = []; credential = [] }
    ∷ record {
      urls = codes "stun:a.example" ∷ codes "turn:b.example?transport=udp" ∷ [];
      username = [];
      credential = [];
    }
    ∷ []

stun_server : stun_server_from_ice parse ice ≡ some (codes "a.example:3478")
unfolding stun_server_from_ice server_from_ice server_of_urls parse_console_ice_url with_authority
    join_host_port text_eq is_empty has_byte
stun_server = refl

validate_turn_prerequisites_lem_example :
    (stun_server_from_ice parse ice ≡ first_host_port (keep is_stun_url (urls_of parse ice)))
    × (turn_server_from_ice parse ice ≡ first_host_port (keep is_udp_turn_url (urls_of parse ice)))
    × (validate_turn_prerequisites parse ice peers ≡ (
        any_url is_stun_url (urls_of parse ice)
        && (any_url is_udp_turn_url (urls_of parse ice) && any_reflexive peers)))
validate_turn_prerequisites_lem_example = validate_turn_prerequisites_lem parse ice peers

-- A stray datagram comes before the answer.
abbrev stun_world : StunWorld
stun_world = record {
  resolve = λ network server. some (codes "1.1.1.1:3478");
  deadline_set = true;
  written = true;
  reads =
      received (codes "2.2.2.2:1") (codes "noise")
      ∷ received (codes "1.1.1.1:3478") (codes "m")
      ∷ [];
  mapped = λ bytes. some bytes;
}

abbrev idle : StunSocket
idle = record { requests = []; has_deadline = false }

abbrev found : Candidate
found = record { type = codes "reflex"; addr = codes "m" }

reflexive_candidate_from_conn_lem_example :
    ((reflexive_candidate_from_conn parse stun_world (some idle) ice family_ipv4).0
      ≡ expected stun_world (some idle) (asked parse stun_world ice (stun_network family_ipv4)))
    × (is_sound stun_world
          (asked parse stun_world ice (stun_network family_ipv4))
          (reflexive_candidate_from_conn parse stun_world (some idle) ice family_ipv4).0
        ≡ true)
    × (deadline_of (reflexive_candidate_from_conn parse stun_world (some idle) ice family_ipv4).1
        ≡ false)
reflexive_candidate_from_conn_lem_example =
    reflexive_candidate_from_conn_lem parse stun_world (some idle) ice family_ipv4 refl

stun_answer :
    (reflexive_candidate_from_conn parse stun_world (some idle) ice family_ipv4).0 ≡ some found
stun_answer =
    unfold reflexive_candidate_from_conn stun_network stun_server_from_ice server_from_ice
      server_of_urls parse_console_ice_url with_authority join_host_port read_mapped text_eq
      is_empty in
    refl

probe_candidates_lem_example :
    (probe_candidates readers
        (some sockets)
        peers
        peers
        (map response (codes "stray" ∷ codes "wan" ∷ []) ++ timer_over ∷ [])
      ≡ some (
          choice readers
            (some sockets)
            (ordered_of readers (some sockets) peers peers)
            (codes "stray" ∷ codes "wan" ∷ [])))
    × (probe_candidates readers
          (some sockets)
          peers
          peers
          (map response (codes "stray" ∷ codes "wan" ∷ []) ++ grace_over ∷ timer_over ∷ [])
        ≡ some (
            choice readers
              (some sockets)
              (ordered_of readers (some sockets) peers peers)
              (codes "stray" ∷ codes "wan" ∷ [])))
probe_candidates_lem_example =
    probe_candidates_lem readers (some sockets) peers peers (codes "stray" ∷ codes "wan" ∷ []) []

abbrev attempt_world : AttemptWorld
attempt_world = record {
  keypair_ok = true;
  ice = returned ice;
  v4_ok = true;
  v6_ok = false;
  gathered = λ s servers. lan ∷ [];
  connected = λ local servers. returned (empty_response 200);
  nominated = nominated;
}

abbrev access : ApiResponse
access = record (empty_response 200) { teleport_request_id = codes "id" }

abbrev session : SessionResult
session = record {
  token = codes "t";
  secret = codes "s";
  device_token = codes "d";
  access = some access;
}

run_connection_attempt_lem_example :
    (hold_all nothing_held
        (run_connection_attempt readers parse parsed false session attempt_world).0
      ≡ some nothing_held)
    × ((run_connection_attempt readers parse parsed false session attempt_world).2 ≡ (
        if is_failed (run_connection_attempt readers parse parsed false session attempt_world).1
        then some access
        else none))
run_connection_attempt_lem_example =
    run_connection_attempt_lem readers parse parsed false session attempt_world

-- The first attempt gets a tunnel, and the context ends before the second.
abbrev rounds : List Round
rounds =
    record {
      context_done = false;
      world = attempt_world;
      error_is_canceled = false;
      tunnel_duration = 0;
      wait_completes = true;
    }
    ∷ record {
      context_done = true;
      world = attempt_world;
      error_is_canceled = false;
      tunnel_duration = 0;
      wait_completes = true;
    }
    ∷ []

client_lifetime_lem_example :
    (hold_all nothing_held (client_lifetime readers parse parsed false session rounds).events
      ≡ some nothing_held)
    × (deletions (client_lifetime readers parse parsed false session rounds).events
        ≤ pending (some access))
    × (outcome_of (client_lifetime readers parse parsed false session rounds)
        ≡ run_client (attempts_of readers parse parsed false session rounds))
client_lifetime_lem_example = client_lifetime_lem readers parse parsed false session rounds
