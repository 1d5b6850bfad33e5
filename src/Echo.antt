-- ===== src/Echo.antt =====
-- udpecho.go: the health of the in-tunnel echo and its statistics. Times and durations are
-- nanoseconds; `none` is the zero time.
pub mod Health
pub mod Stats
pub mod Wait
pub mod Response
pub mod Pinger
pub mod Settling
pub mod Tracking
use teleport_client.Base.{
  ℕ, ◌+◌, ◌-◌, ◌*◌, ◌/◌, Bool, true, false, not, ◌||◌, Option, none, some, ltb, leb, ◌==◌,
  if◌then◌else◌,
}

abbrev pub second : ℕ
second = 1_000_000_000

abbrev pub millisecond : ℕ
millisecond = 1_000_000

abbrev pub udp_echo_summary_interval : ℕ
udp_echo_summary_interval = 30 * second

abbrev pub max_consecutive_echo_failures : ℕ
max_consecutive_echo_failures = 12

pub record UdpEchoHealth : Type 0 where
  pub ready : Bool
  pub consecutive_failures : ℕ

pub data UdpEchoHealthEvent : Type 0 where
  healthy startup_failed unhealthy : UdpEchoHealthEvent

-- The method `observe` of `udpEchoHealth`: the new health, the event (`none` for 0) and whether this
-- is the first success.
unfoldable pub observe_health :
    UdpEchoHealth → Bool → UdpEchoHealth × Option UdpEchoHealthEvent × Bool
observe_health h matched =
    let failures = h.consecutive_failures + 1 in
    if matched
    then (record h { ready = true; consecutive_failures = 0 }, some healthy, not h.ready)
    else if not h.ready
    then (h, some startup_failed, false)
    else if leb max_consecutive_echo_failures failures
    then (record h { consecutive_failures = 0 }, some unhealthy, false)
    else (record h { consecutive_failures = failures }, none, false)

pub record UdpEchoStats : Type 0 where
  pub window_start : Option ℕ
  pub count : ℕ
  pub total : ℕ
  pub min : ℕ
  pub max : ℕ

abbrev pub empty_stats : Option ℕ → UdpEchoStats
empty_stats start = record { window_start = start; count = 0; total = 0; min = 0; max = 0 }

abbrev pub or_now : Option ℕ → ℕ → ℕ
or_now none now = now
or_now (some t) now = t

-- The method `observe` of `udpEchoStats`; the answer is whether the window is over.
unfoldable pub observe_rtt : UdpEchoStats → ℕ → ℕ → UdpEchoStats × Bool
observe_rtt s now rtt =
    let start = or_now s.window_start now in
    (
      record {
        window_start = some start;
        count = s.count + 1;
        total = s.total + rtt;
        min = if s.min == 0 || ltb rtt s.min then rtt else s.min;
        max = if ltb s.max rtt then rtt else s.max;
      },
      leb udp_echo_summary_interval (now - start),
    )

-- `Duration.Round(time.Millisecond)`, halves away from zero.
unfoldable pub round_ms : ℕ → ℕ
round_ms d = (d + millisecond / 2) / millisecond * millisecond

pub record EchoSummary : Type 0 where
  pub samples : ℕ
  pub average : ℕ
  pub minimum : ℕ
  pub maximum : ℕ

-- What `logAndReset` logs, and the statistics it leaves. It is called after an observation, so the
-- count is not 0.
unfoldable pub summarize : UdpEchoStats → EchoSummary
unfolding round_ms
summarize s = record {
  samples = s.count;
  average = round_ms (s.total / s.count);
  minimum = round_ms s.min;
  maximum = round_ms s.max;
}

unfoldable pub log_and_reset : UdpEchoStats → ℕ → UdpEchoStats × EchoSummary
unfolding summarize
log_and_reset s now = (empty_stats (some now), summarize s)
