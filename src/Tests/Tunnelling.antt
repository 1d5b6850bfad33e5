-- ===== src/Tests/Tunnelling.antt =====
-- tunnel.go on concrete inputs: reports of the device, a recovery, rounds of the retry, supervision.
use teleport_client.Base.{
  ◌+◌, ◌-◌, ◌*◌, ◌≤◌, ◌≡◌, refl, true, false, ◌&&◌, some, none, is_some, List, [], ◌∷◌, ◌++◌, Text,
  codes, contains, fresh, length, drop, leb, arith, if◌then◌else◌, parse_uint64, has_byte,
}
use teleport_client.Net.{NetLib}
use teleport_client.Echo.{second, unhealthy, healthy}
use teleport_client.Tunnel.Stats.{
  WireGuardPeerStats, no_stats, parse_wire_guard_peer_stats, with_endpoint, with_handshake,
  with_rx_bytes, positive_seconds, parse_wire_guard_peer_stats_line,
}
use teleport_client.Tunnel.Recovery.{
  RecoveryWorld, exhausted, stopped, recover_wire_guard_endpoints, recover_wire_guard_endpoints_lem,
  endpoint_between, time_between, second_pass, last_switched, pass_end,
}
use teleport_client.Tunnel.Retry.{
  Retry, RetryInput, RetryEnd, runs, connected, ticked, candidate_dwell, retry_round,
}
use teleport_client.Tunnel.Switching.{
  has_handshake, all_skipped, new_retry, retry_loop, retry_loop_bounds, retry_round-tick,
}
use teleport_client.Tunnel.Supervisor.{
  Supervisor, SupervisorInput, health_event, renegotiate, supervise, one_at_a_time, live_after,
  is_over, supervise_recoveries,
}

abbrev report : Text
report = codes "rx_bytes=42"

abbrev value : Text
value = codes "1700000000"

parse_wire_guard_peer_stats_line_example :
    (parse_wire_guard_peer_stats (report ++ b'\n' ∷ (codes "endpoint=" ++ value))
      ≡ with_endpoint (parse_wire_guard_peer_stats report) value)
    × (parse_wire_guard_peer_stats (report ++ b'\n' ∷ (codes "last_handshake_time_sec=" ++ value))
        ≡ with_handshake (parse_wire_guard_peer_stats report) (positive_seconds value))
    × (parse_wire_guard_peer_stats (report ++ b'\n' ∷ (codes "rx_bytes=" ++ value))
        ≡ with_rx_bytes (parse_wire_guard_peer_stats report) (parse_uint64 value))
    × (parse_wire_guard_peer_stats (report ++ b'\n' ∷ []) ≡ parse_wire_guard_peer_stats report)
parse_wire_guard_peer_stats_line_example =
    parse_wire_guard_peer_stats_line report value (unfold has_byte in refl)

abbrev quiet : WireGuardPeerStats
quiet = record { endpoint = codes "a"; last_handshake = some 100; rx_bytes = 7; valid = true }

-- A world in which nothing is cancelled and every switch takes a second.
abbrev calm : RecoveryWorld
calm = record {
  cancelled = λ t. false;
  completes = λ t d. true;
  switch_ok = λ t e. true;
  switch_time = λ t e. second;
  signal_sent = λ t. true;
}

abbrev known : List Text
known = codes "a" ∷ codes "b" ∷ []

recover_wire_guard_endpoints_lem_example :
    (contains (codes "a" ∷ known) (endpoint_between calm 0 (codes "a") known) ≡ true)
    × ((recover_wire_guard_endpoints calm 0 (codes "a") known).0.attempts
        ≡ fresh [] (codes "a" ∷ known) ++ second_pass calm 0 (codes "a") known)
    × ((recover_wire_guard_endpoints calm 0 (codes "a") known).0.current_endpoint
        ≡ last_switched calm
            (time_between calm 0 (codes "a") known)
            (endpoint_between calm 0 (codes "a") known)
            (second_pass calm 0 (codes "a") known))
    × ((recover_wire_guard_endpoints calm 0 (codes "a") known).0.now
        ≡ pass_end calm
            (time_between calm 0 (codes "a") known)
            (second_pass calm 0 (codes "a") known)
          + 10 * second)
    × (0
          + 15 * second * length (recover_wire_guard_endpoints calm 0 (codes "a") known).0.attempts
          + 15 * second
        ≤ (recover_wire_guard_endpoints calm 0 (codes "a") known).0.now)
    × ((recover_wire_guard_endpoints calm 0 (codes "a") known).1 ≡ (
        if calm.signal_sent (recover_wire_guard_endpoints calm 0 (codes "a") known).0.now
        then exhausted
        else stopped))
recover_wire_guard_endpoints_lem_example =
    recover_wire_guard_endpoints_lem calm (λ t. refl) (λ t d. refl) 0 (codes "a") known

-- Readers that know no address.
abbrev readers : NetLib
readers = record {
  parse_ip = λ s. none;
  split_host_port = λ s. none;
  join_host_port = λ ip port. [];
  parse_addr_port = λ s. none;
}

-- A tick, four seconds after the start, with no handshake.
abbrev tick : RetryInput
tick = record {
  wakeup = ticked;
  ipc_data = some (codes "rx_bytes=0");
  now = 4 * second;
  nominated_ok = true;
  next_ok = true;
}

retry_loop_bounds_example :
    (length (retry_loop readers [] known 0 (new_retry (codes "a") 0 true) (tick ∷ [])).0.switched
      ≤ length known + 1)
    × (contains
          (retry_loop readers [] known 0 (new_retry (codes "a") 0 true) (tick ∷ [])).0.switched
          []
        ≡ false)
    × ((retry_loop readers [] known 0 (new_retry (codes "a") 0 true) (tick ∷ [])).0.queue_idx
        ≤ length known)
retry_loop_bounds_example = retry_loop_bounds readers [] known 0 (codes "a") 0 true (tick ∷ [])

abbrev begun : Retry
begun = new_retry (codes "a") 0 true

retry_round-tick_example : (retry_round readers [] known 0 begun tick).1 ≡ (
    if has_handshake tick.ipc_data
    then connected
    else if leb (60 * second) (tick.now - 0)
    then RetryEnd.exhausted
    else if is_some tick.ipc_data
        && (leb
              (candidate_dwell readers begun.current_endpoint [])
              (tick.now - begun.last_switch_time)
            && all_skipped begun.current_endpoint (drop begun.queue_idx known))
    then RetryEnd.exhausted
    else runs)
retry_round-tick_example = retry_round-tick readers [] known 0 begun tick refl (omega arith)

abbrev supervisor : Supervisor
supervisor = record { baseline = no_stats; recovering = false }

abbrev inputs : List SupervisorInput
inputs =
    health_event unhealthy no_stats 5
    ∷ health_event unhealthy no_stats 6
    ∷ health_event healthy quiet 7
    ∷ health_event unhealthy quiet 8
    ∷ renegotiate
    ∷ []

supervise_recoveries_example :
    (one_at_a_time false (supervise supervisor inputs).0 ≡ true)
    × ((is_over (supervise supervisor inputs).1 && live_after false (supervise supervisor inputs).0)
        ≡ false)
supervise_recoveries_example = supervise_recoveries supervisor inputs
