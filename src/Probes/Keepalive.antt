-- ===== src/Probes/Keepalive.antt =====
-- nomination.go, `startPeerCandidateProbes` and `sendPeerCandidateProbe`: a probe to each candidate at once,
-- at every tick of a burst, and then at every tick of a slower clock until the stop. What the select
-- receives is the list of what the world gives, and a probe is the address that it is written to.
use teleport_client.Base.{
  ℕ, zero, suc, ◌||◌, ◌≡◌, refl, ap, Bool, true, false, not, Option, none, some, is_some, List, [],
  ◌∷◌, ◌++◌, Text, length, ◌==◌, if◌then◌else◌, arith,
}
use teleport_client.Net.{Ip, NetLib, is_v4, host_ip}
use teleport_client.Candidates.{Candidate, UdpSockets}

module _ (net : NetLib) (resolve : Bool → Text → Option Text) (writes : Text → Bool) where
  abbrev pub has_socket : Option UdpSockets → Bool → Bool
  has_socket none is4 = false
  has_socket (some s) is4 = if is4 then s.v4_open else s.v6_open

  abbrev pub write_probe : Option Text → Option Text
  write_probe none = none
  write_probe (some remote) = if writes remote then some remote else none

  abbrev pub probe_ip : Option UdpSockets → Text → Option Ip → Option Text
  probe_ip s addr none = none
  probe_ip s addr (some ip) =
      if has_socket s (is_v4 ip) then write_probe (resolve (is_v4 ip) addr) else none

  -- The remote address of the probe, or `none` where the function returns false.
  unfoldable pub send_peer_candidate_probe : Option UdpSockets → Text → Option Text
  unfolding host_ip
  send_peer_candidate_probe none addr = none
  send_peer_candidate_probe (some s) addr = probe_ip (some s) addr (host_ip net addr)

  abbrev pub with_sent : Option Text → List Text → List Text
  with_sent none sent = sent
  with_sent (some remote) sent = remote ∷ sent

  unfoldable pub send_all : Option UdpSockets → List Candidate → List Text
  unfolding send_peer_candidate_probe
  send_all s [] = []
  send_all s (c ∷ candidates) =
      with_sent (send_peer_candidate_probe s c.addr) (send_all s candidates)

-- A tick of the clock that runs, the end of the burst, or the stop.
pub data KeepaliveEvent : Type 0 where
  tick : KeepaliveEvent
  burst_over : KeepaliveEvent
  stopped : KeepaliveEvent

-- The second loop: the timer of the burst is stopped, and gives nothing.
unfoldable pub keep_alive : List Text → List KeepaliveEvent → List Text
keep_alive round [] = []
keep_alive round (tick ∷ events) = round ++ keep_alive round events
keep_alive round (burst_over ∷ events) = keep_alive round events
keep_alive round (stopped ∷ events) = []

unfoldable pub burst : List Text → List KeepaliveEvent → List Text
unfolding keep_alive
burst round [] = []
burst round (tick ∷ events) = round ++ burst round events
burst round (burst_over ∷ events) = keep_alive round events
burst round (stopped ∷ events) = []

-- All the probes, in the order in which they are written.
unfoldable pub start_peer_candidate_probes :
    NetLib
    → (Bool → Text → Option Text)
    → (Text → Bool)
    → Option UdpSockets
    → List Candidate
    → List KeepaliveEvent
    → List Text
unfolding send_all burst
start_peer_candidate_probes net resolve writes s candidates events =
    let round = send_all net resolve writes s candidates in
    if not (is_some s) || length candidates == 0 then [] else round ++ burst round events

-- The ticks before the stop.
unfoldable pub ticks : List KeepaliveEvent → ℕ
ticks [] = 0
ticks (tick ∷ events) = suc (ticks events)
ticks (burst_over ∷ events) = ticks events
ticks (stopped ∷ events) = 0

unfoldable pub times : ℕ → List Text → List Text
times zero round = []
times (suc n) round = round ++ times n round

keep_alive-times :
    (round : List Text) (events : List KeepaliveEvent)
    → keep_alive round events ≡ times (ticks events) round
unfolding keep_alive ticks times
keep_alive-times round [] = refl
keep_alive-times round (tick ∷ events) = ap (◌++◌ round) (keep_alive-times round events)
keep_alive-times round (burst_over ∷ events) = keep_alive-times round events
keep_alive-times round (stopped ∷ events) = refl

burst-times :
    (round : List Text) (events : List KeepaliveEvent)
    → burst round events ≡ times (ticks events) round
unfolding burst ticks times
burst-times round [] = refl
burst-times round (tick ∷ events) = ap (◌++◌ round) (burst-times round events)
burst-times round (burst_over ∷ events) = keep_alive-times round events
burst-times round (stopped ∷ events) = refl

times-nil : (n : ℕ) → times n [] ≡ []
unfolding times
times-nil zero = refl
times-nil (suc n) = times-nil n

send_all-none :
    (net : NetLib) (resolve : Bool → Text → Option Text) (writes : Text → Bool)
    (candidates : List Candidate)
    → send_all net resolve writes none candidates ≡ []
unfolding send_all send_peer_candidate_probe
send_all-none net resolve writes [] = refl
send_all-none net resolve writes (c ∷ candidates) = send_all-none net resolve writes candidates

-- The probes are the ones of one round, once at the start and once for each tick before the stop, and
-- none after it.
pub start_peer_candidate_probes_lem :
    (net : NetLib) (resolve : Bool → Text → Option Text) (writes : Text → Bool)
    (s : Option UdpSockets) (candidates : List Candidate) (events : List KeepaliveEvent)
    → start_peer_candidate_probes net resolve writes s candidates events
      ≡ times (suc (ticks events)) (send_all net resolve writes s candidates)
unfolding start_peer_candidate_probes times send_all
start_peer_candidate_probes_lem net resolve writes none candidates events =
    rw (send_all-none net resolve writes candidates, times-nil (ticks events)) refl
start_peer_candidate_probes_lem net resolve writes (some s) [] events =
    rw (times-nil (ticks events)) refl
start_peer_candidate_probes_lem net resolve writes (some s) (c ∷ candidates) events =
    by_length (length (c ∷ candidates) == 0) (ground arith)
  where
    round : List Text
    round = send_all net resolve writes (some s) (c ∷ candidates)

    by_length :
        (is_none : Bool)
        → is_none ≡ false
        → (if is_none then [] else round ++ burst round events)
          ≡ round ++ times (ticks events) round
    by_length true h = cc
    by_length false h = ap (◌++◌ round) (burst-times round events)
