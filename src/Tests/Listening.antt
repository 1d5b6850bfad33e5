-- ===== src/Tests/Listening.antt =====
-- The early listener on two packets, with a codec that takes every datagram for a Binding Request.
use teleport_client.Base.{
  ◌≤◌, ◌≡◌, refl, true, false, ◌||◌, some, none, map, List, [], ◌∷◌, Text, codes, length, text_eq,
  is_empty, pos, arith,
}
use teleport_client.Nomination.{new_nomination_tracker}
use teleport_client.Nomination.Consistency.{new-IsConsistent}
use teleport_client.Listener.{StunLib, EarlyListener, read_loop, max_early_nomination_logs}
use teleport_client.Listener.Stopping.{
  StopperEvent, start, turn, stop, stopped, new_udp_read_stopper, run_stopper, stopper_step,
  stop_step, start_reader, turns, read_udp_packet, all_ended,
}
use teleport_client.Listener.Stopped.{none_reads, run_stopper-stopped, run_stopper-stops}
use teleport_client.Listener.Guard.{passed, read_loop-allows}

abbrev codec : StunLib
codec = record {
  decodes = λ m. true;
  is_binding_request = λ m. true;
  check_integrity = λ secret m. text_eq m secret;
  nomination_wait = λ m. some (pos 2000);
  success = λ secret m. codes "ok";
}

abbrev listener : EarlyListener
listener = record {
  allowed = some (codes "relay" ∷ []);
  logs = [];
  nomination = new_nomination_tracker;
  sent = [];
}

abbrev packets : List (Text × Text)
packets = (codes "relay", codes "secret") ∷ (codes "direct", codes "secret") ∷ []

read_loop-allows_example :
    (l' : EarlyListener) × (read_loop codec (codes "secret") listener packets ≡ some l')
    × (length l'.logs ≤ max_early_nomination_logs)
    × ((text_eq listener.nomination.selected l'.nomination.selected
          || passed codec (codes "secret") listener.allowed l'.nomination.selected packets)
        ≡ true)
read_loop-allows_example =
    read_loop-allows codec (codes "secret") listener packets new-IsConsistent (omega arith)
      (unfold is_empty in refl)

-- Two readers, of which one has a packet when `Stop` is called.
abbrev stopping : List StopperEvent
stopping =
    start true
    ∷ start true
    ∷ turn (some true ∷ some true ∷ [])
    ∷ turn (some true ∷ none ∷ [])
    ∷ stop
    ∷ stop
    ∷ []

abbrev returned : List StopperEvent
returned =
    start true ∷ turn (some true ∷ []) ∷ stop ∷ stop ∷ turn (some true ∷ []) ∷ stop ∷ stop ∷ []

run_stopper-stopped_example :
    ((run_stopper new_udp_read_stopper returned).expired ≡ false)
    × (none_reads (run_stopper new_udp_read_stopper returned).readers ≡ true)
run_stopper-stopped_example = run_stopper-stopped returned (
    unfold run_stopper new_udp_read_stopper stopper_step stop_step start_reader turns
      read_udp_packet all_ended in
    refl)

run_stopper-stops_example :
    (run_stopper (run_stopper new_udp_read_stopper stopping) (
      turn (map some (true ∷ false ∷ []))
      ∷ turn (map some (true ∷ true ∷ []))
      ∷ stop
      ∷ stop
      ∷ [])).stage
    ≡ stopped
run_stopper-stops_example =
    run_stopper-stops stopping (true ∷ false ∷ []) (true ∷ true ∷ [])
      (unfold run_stopper new_udp_read_stopper stopper_step stop_step start_reader turns
          read_udp_packet in
        refl)
      (unfold run_stopper new_udp_read_stopper stopper_step stop_step start_reader turns
          read_udp_packet in
        refl)
      (unfold run_stopper new_udp_read_stopper stopper_step stop_step start_reader turns
          read_udp_packet in
        refl)
