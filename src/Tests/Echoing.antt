-- ===== src/Tests/Echoing.antt =====
-- udpecho.go on concrete inputs: rounds of the pinger, the health, the statistics and the waits.
use teleport_client.Base.{
  ◌+◌, ◌%◌, ◌≤◌, ◌≡◌, refl, true, false, not, Option, some, none, List, [], ◌∷◌, Text, codes, arith,
  ◌==◌, if◌then◌else◌, is_some, text_eq, keep,
}
use teleport_client.PeerMtu.{
  PeerMtuProber, next_probe_mtu, record_probe_result, start_index_from, new_peer_mtu_prober,
  base_tunnel_mtu,
}
use teleport_client.PeerMtu.Invariant.{new_peer_mtu_prober-IsValid}
use teleport_client.Echo.{
  healthy, startup_failed, unhealthy, observe_health, observe_rtt, max_consecutive_echo_failures,
  empty_stats,
}
use teleport_client.Tunnet.Mtu.{set_mtu}
use teleport_client.Echo.Health.{run, fresh, any_success, trailing_failures, observe_after_run}
use teleport_client.Echo.Wait.{
  ReadRound, packet, wait_for_echo_response, wait-ends, ticking, round_verdict, on_read, on_packet,
}
use teleport_client.Echo.Response.{
  EchoResponse, Replies, parse_udp_echo_response, wait-parse_udp_echo_response,
}
use teleport_client.Redaction.{string}
use teleport_client.Echo.Pinger.{Pinger, RoundInput, next_round, ping_round}
use teleport_client.Echo.Tracking.{run_rounds, run_rounds_mtu}
use teleport_client.Echo.Settling.{Tracks}

observe_after_run_example :
    ((observe_health (run fresh (true ∷ false ∷ [])) false).1 ≡ (
      if false
      then some healthy
      else if any_success false (true ∷ false ∷ [])
      then (if (trailing_failures 0 (true ∷ false ∷ []) + 1) % max_consecutive_echo_failures == 0
          then some unhealthy
          else none)
      else some startup_failed))
    × ((observe_health (run fresh (true ∷ false ∷ [])) false).2
        ≡ (if false then not (any_success false (true ∷ false ∷ [])) else false))
observe_after_run_example = observe_after_run (true ∷ false ∷ []) false

-- A decoder of replies whose bytes are their id.
abbrev decode : Text → Option EchoResponse
decode bytes = some (record { req_id = some (string bytes) })

abbrev rounds : List ReadRound
rounds =
    record {
      now = 1;
      cancelled_before = false;
      result = packet (codes "6");
      cancelled_after = false;
      resend_ok = true;
    }
    ∷ record {
      now = 2;
      cancelled_before = false;
      result = packet (codes "7");
      cancelled_after = false;
      resend_ok = true;
    }
    ∷ []

wait-parse_udp_echo_response_example : Replies decode (codes "7") rounds
wait-parse_udp_echo_response_example =
    wait-parse_udp_echo_response decode (codes "7") true false 9 0 0 rounds matched
  where
    matched :
        wait_for_echo_response (parse_udp_echo_response decode) (codes "7") true false 9 0 rounds
        ≡ some (true, 0)
    matched =
        unfold wait_for_echo_response round_verdict on_read on_packet text_eq
          parse_udp_echo_response in
        refl

wait-ends_example :
    is_some
      (wait_for_echo_response (parse_udp_echo_response decode) (codes "7") true false 2 0 rounds)
    ≡ true
wait-ends_example =
    wait-ends (parse_udp_echo_response decode) (codes "7") true false 2 0 1 rounds
      (unfold ticking in refl) (omega arith)

abbrev pinger : Pinger
pinger = record {
  request_id = 1;
  health = record { ready = true; consecutive_failures = 0 };
  stats = empty_stats none;
  prober = some (new_peer_mtu_prober 1280 1440 0);
  stack = record { device = 1280; link = 1280; nic = 1280; pending_events = 0 };
}

-- A round in which a probe of 1360 bytes is answered.
abbrev answered : RoundInput
answered = record {
  cancelled_first = false;
  set_probe_ok = true;
  started = 1;
  write_ok = true;
  set_after_write_ok = true;
  cancelled_backoff = false;
  matched = true;
  cancelled_wait = false;
  set_locked_ok = true;
  set_base_ok = true;
  cancelled_event = false;
  now = 2;
  cancelled_pause = false;
}

abbrev pinged : PeerMtuProber
pinged = record (new_peer_mtu_prober 1280 1440 0) { confirmed_mtu = 1360; current_index = 1 }

run_rounds_mtu_example :
    ((run_rounds (codes "hash") true pinger (answered ∷ [])).0.stack.nic ≡ pinged.confirmed_mtu)
    × (base_tunnel_mtu ≤ (run_rounds (codes "hash") true pinger (answered ∷ [])).0.stack.nic)
    × ((run_rounds (codes "hash") true pinger (answered ∷ [])).0.stack.nic ≤ pinged.max_target_mtu)
run_rounds_mtu_example =
    run_rounds_mtu (codes "hash") true pinger (answered ∷ []) pinged
      (record { after_write = refl; locked = refl; base = refl }, tt) tracked ran probed
  where
    tracked : Tracks pinger.prober pinger.stack.nic
    tracked = record {
      prober = new_peer_mtu_prober 1280 1440 0;
      is_some = refl;
      valid = new_peer_mtu_prober-IsValid 1280 1440 0 (λ h. omega arith) (λ h. omega (arith, h));
      manual = unfold new_peer_mtu_prober in λ h. cc;
      locked = unfold new_peer_mtu_prober in refl;
    }

    ran : (run_rounds (codes "hash") true pinger (answered ∷ [])).1 ≡ next_round
    ran =
        unfold run_rounds ping_round observe_health observe_rtt next_probe_mtu new_peer_mtu_prober
          keep start_index_from set_mtu record_probe_result in
        refl

    probed : (run_rounds (codes "hash") true pinger (answered ∷ [])).0.prober ≡ some pinged
    probed =
        unfold run_rounds ping_round observe_health observe_rtt next_probe_mtu new_peer_mtu_prober
          keep start_index_from set_mtu record_probe_result in
        refl
