-- ===== src/Echo/Pinger.antt =====
-- udpecho.go, `runUDPEchoPinger`: one round of the loop, from the test of the context to the pause.
-- `secret_hash` is the base64 text of the SHA-256 digest of the session secret.
use teleport_client.Base.{
  ℕ, ◌+◌, ◌-◌, Bool, true, false, not, ◌&&◌, Option, none, some, Text, ltb, itoa, if◌then◌else◌,
}
use teleport_client.PeerMtu.{
  PeerMtuProber, DplpmtudState, disabled, base_tunnel_mtu, next_probe_mtu, record_probe_result, arm,
  reset,
}
use teleport_client.PeerMtu.Padding.{build_padded_echo_payload, bare_request}
use teleport_client.Tunnet.Mtu.{MtuState, set_mtu}
use teleport_client.Echo.{
  UdpEchoHealth, UdpEchoHealthEvent, unhealthy, observe_health, UdpEchoStats, EchoSummary,
  observe_rtt, log_and_reset,
}

pub record Pinger : Type 0 where
  pub request_id : ℕ
  pub health : UdpEchoHealth
  pub stats : UdpEchoStats
  pub prober : Option PeerMtuProber
  pub stack : MtuState

-- What the world answers in one round, in the order in which the round asks.
pub record RoundInput : Type 0 where
  pub cancelled_first : Bool
  pub set_probe_ok : Bool
  pub started : ℕ
  pub write_ok : Bool
  pub set_after_write_ok : Bool
  pub cancelled_backoff : Bool
  pub matched : Bool
  pub cancelled_wait : Bool
  pub set_locked_ok : Bool
  pub set_base_ok : Bool
  pub cancelled_event : Bool
  pub now : ℕ
  pub cancelled_pause : Bool

pub data RoundEnd : Type 0 where
  next_round : RoundEnd
  stopped : RoundEnd
  write_failed : RoundEnd

pub record RoundOutput : Type 0 where
  pub after : Pinger
  pub sent : Option Text
  pub event : Option UdpEchoHealthEvent
  pub summary : Option EchoSummary
  pub outcome : RoundEnd

pub record Attempt : Type 0 where
  pub pinger : Pinger
  pub probing : Option ℕ

-- The request's payload and, while probing, the MTU of the probe.
unfoldable pub start_probe : Pinger → PeerMtuProber → ℕ → Bool → Attempt
start_probe s p target set_ok =
    let (stack, accepted) = set_mtu s.stack target set_ok in
    if accepted
    then record { pinger = record s { stack = stack }; probing = some target }
    else record {
      pinger = record s { stack = stack; prober = some (record_probe_result p target false).0 };
      probing = none;
    }

unfoldable pub probe_next : Pinger → PeerMtuProber → Option ℕ → Bool → Attempt
unfolding start_probe
probe_next s p none set_ok = record { pinger = s; probing = none }
probe_next s p (some target) set_ok = start_probe s p target set_ok

unfoldable pub choose_probe : Pinger → Option PeerMtuProber → Bool → Attempt
unfolding probe_next
choose_probe s none set_ok = record { pinger = s; probing = none }
choose_probe s (some p) set_ok =
    if ltb 0 s.request_id && s.health.ready
    then probe_next s p (next_probe_mtu p) set_ok
    else record { pinger = s; probing = none }

abbrev pub ip_header_len : Bool → ℕ
ip_header_len is_v4 = if is_v4 then 20 else 40

unfoldable pub payload : Text → Bool → ℕ → Option ℕ → Text
payload secret_hash is_v4 request_id none = bare_request secret_hash (itoa request_id) 3000
payload secret_hash is_v4 request_id (some target) =
    build_padded_echo_payload secret_hash (itoa request_id) 3000 target (ip_header_len is_v4)

-- The result of a probe is recorded, and the stack is set to the confirmed MTU.
unfoldable pub settle_probe : Pinger → Option PeerMtuProber → Option ℕ → Bool → Bool → Pinger
settle_probe s none probing success set_ok = s
settle_probe s (some p) none success set_ok = s
settle_probe s (some p) (some target) success set_ok =
    let (q, result) = record_probe_result p target success in
    record s { prober = some q; stack = (set_mtu s.stack result.new_mtu set_ok).0 }

abbrev pub is_disabled : DplpmtudState → Bool
is_disabled disabled = true
is_disabled _ = false

abbrev pub is_unhealthy : Option UdpEchoHealthEvent → Bool
is_unhealthy (some unhealthy) = true
is_unhealthy _ = false

-- On an unhealthy tunnel probing starts again from the base MTU, unless the MTU is configured.
unfoldable pub fall_back : Pinger → Option PeerMtuProber → Bool → Bool → Pinger
fall_back s none lost set_ok = s
fall_back s (some p) lost set_ok =
    if lost && not (is_disabled p.state)
    then record s { prober = some (reset p); stack = (set_mtu s.stack base_tunnel_mtu set_ok).0 }
    else s

abbrev pub arm_unless : Option ℕ → Option PeerMtuProber → Option PeerMtuProber
arm_unless (some target) p = p
arm_unless none none = none
arm_unless none (some p) = some (arm p)

abbrev pub next_request : Pinger → Pinger
next_request s = record s { request_id = s.request_id + 1 }

-- A match arms the prober, if it was no probe, and enters the statistics.
unfoldable pub note_match : Pinger → Option ℕ → ℕ → ℕ → Pinger × Option EchoSummary
note_match s probing now rtt =
    let armed = record s { prober = arm_unless probing s.prober } in
    let (stats, over) = observe_rtt s.stats now rtt in
    let (fresh, summary) = log_and_reset stats now in
    if over
    then (record armed { stats = fresh }, some summary)
    else (record armed { stats = stats }, none)

abbrev pub is_some_event : Option UdpEchoHealthEvent → Bool
is_some_event none = false
is_some_event (some e) = true

-- The round from the write on.
module _ (sent : Text) (i : RoundInput) where
  unfoldable pub after_write_error : Pinger → Option ℕ → RoundOutput
  unfolding settle_probe
  after_write_error s none = record {
    after = s;
    sent = none;
    event = none;
    summary = none;
    outcome = write_failed;
  }
  after_write_error s (some target) = record {
    after = next_request (settle_probe s s.prober (some target) false i.set_after_write_ok);
    sent = none;
    event = none;
    summary = none;
    outcome = if i.cancelled_backoff then stopped else next_round;
  }

  -- The health's event, and the fall back to the base MTU that it may cause.
  unfoldable pub observe_round : Pinger → Pinger × Option UdpEchoHealthEvent
  unfolding fall_back
  observe_round s =
      let (health, event, first_success) = observe_health s.health i.matched in
      let observed = record s { health = health } in
      (fall_back observed observed.prober (is_unhealthy event) i.set_base_ok, event)

  -- The event is sent, a match is noted, and the loop pauses.
  unfoldable pub finish_round : Pinger → Option ℕ → Option UdpEchoHealthEvent → RoundOutput
  unfolding note_match
  finish_round s probing event =
      let (noted, summary) = note_match s probing i.now (i.now - i.started) in
      let pause = if i.cancelled_pause then stopped else next_round in
      if is_some_event event && i.cancelled_event
      then record { after = s; sent = some sent; event = none; summary = none; outcome = stopped }
      else if i.matched
      then record {
        after = next_request noted;
        sent = some sent;
        event = event;
        summary = summary;
        outcome = pause;
      }
      else record {
        after = next_request s;
        sent = some sent;
        event = event;
        summary = none;
        outcome = pause;
      }

  unfoldable pub after_wait : Pinger → Option ℕ → RoundOutput
  unfolding settle_probe observe_round finish_round
  after_wait s probing =
      let settled = settle_probe s s.prober probing i.matched i.set_locked_ok in
      let (observed, event) = observe_round settled in finish_round observed probing event

  unfoldable pub after_send : Pinger → Option ℕ → RoundOutput
  unfolding after_write_error after_wait
  after_send s probing =
      if not i.write_ok
      then after_write_error s probing
      else if i.cancelled_wait
      then record { after = s; sent = some sent; event = none; summary = none; outcome = stopped }
      else after_wait s probing

unfoldable pub ping_round : Text → Bool → Pinger → RoundInput → RoundOutput
unfolding choose_probe after_send
ping_round secret_hash is_v4 s i =
    let attempt = choose_probe s s.prober i.set_probe_ok in
    if i.cancelled_first
    then record { after = s; sent = none; event = none; summary = none; outcome = stopped }
    else after_send (payload secret_hash is_v4 s.request_id attempt.probing) i attempt.pinger
        attempt.probing
