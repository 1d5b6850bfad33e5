-- ===== src/PeerMtu.antt =====
-- peermtu.go: the state of the RFC 8899 prober and its methods. MTUs are non-negative integers.
pub mod Invariant
pub mod Search
pub mod Padding
use teleport_client.Base.{
  ℕ, zero, suc, ◌+◌, Bool, true, false, not, ◌&&◌, ◌||◌, Option, none, some, List, [], ◌∷◌, keep,
  get_elem?, length, ltb, leb, ◌==◌, if◌then◌else◌,
}

pub data DplpmtudState : Type 0 where
  base searching search_complete disabled : DplpmtudState

abbrev pub is_searching : DplpmtudState → Bool
is_searching searching = true
is_searching _ = false

abbrev pub default_probe_milestones : List ℕ
default_probe_milestones = 1360 ∷ 1400 ∷ 1420 ∷ 1440 ∷ []

abbrev pub max_probes_per_milestone : ℕ
max_probes_per_milestone = 2

abbrev pub base_tunnel_mtu : ℕ
base_tunnel_mtu = 1280

pub record PeerMtuProber : Type 0 where
  pub state : DplpmtudState
  pub milestones : List ℕ
  pub current_index : ℕ
  pub confirmed_mtu : ℕ
  pub max_target_mtu : ℕ
  pub failed_attempts : ℕ
  pub manual_override : Bool
  pub armed : Bool

-- `if x < floor { x = floor }`
abbrev pub clamp_up : ℕ → ℕ → ℕ
clamp_up floor x = if ltb x floor then floor else x

-- The loop `for i, m := range candidates { if m <= confirmed { startIdx = i + 1 } }`.
unfoldable pub start_index_from : ℕ → ℕ → ℕ → List ℕ → ℕ
start_index_from confirmed i start_idx [] = start_idx
start_index_from confirmed i start_idx (m ∷ ms) =
    start_index_from confirmed (i + 1) (if leb m confirmed then i + 1 else start_idx) ms

unfoldable pub new_auto_prober : ℕ → ℕ → PeerMtuProber
new_auto_prober initial_mtu max_target =
    let max_target_mtu = clamp_up base_tunnel_mtu max_target in
    let candidates = keep (λ m. leb m max_target_mtu) default_probe_milestones in
    let confirmed = clamp_up base_tunnel_mtu initial_mtu in
    let start_idx = start_index_from confirmed 0 0 candidates in
    record {
      state = if leb (length candidates) start_idx then search_complete else searching;
      milestones = candidates;
      current_index = start_idx;
      confirmed_mtu = confirmed;
      max_target_mtu = max_target_mtu;
      failed_attempts = 0;
      manual_override = false;
      armed = true;
    }

unfoldable pub new_peer_mtu_prober : ℕ → ℕ → ℕ → PeerMtuProber
unfolding new_auto_prober
new_peer_mtu_prober initial_mtu max_target_mtu manual_mtu =
    if ltb 0 manual_mtu
    then record {
      state = disabled;
      milestones = [];
      current_index = 0;
      confirmed_mtu = manual_mtu;
      max_target_mtu = manual_mtu;
      failed_attempts = 0;
      manual_override = true;
      armed = false;
    }
    else new_auto_prober initial_mtu max_target_mtu

unfoldable pub arm : PeerMtuProber → PeerMtuProber
arm p = record p { armed = true }

-- `none` is the result `(0, false)`.
unfoldable pub next_probe_mtu : PeerMtuProber → Option ℕ
next_probe_mtu p =
    if not p.armed || not (is_searching p.state)
    then none
    else get_elem? p.milestones p.current_index

pub record ProbeOutcome : Type 0 where
  pub mtu_changed : Bool
  pub new_mtu : ℕ
  pub search_done : Bool

abbrev outcome : Bool → ℕ → Bool → ProbeOutcome
outcome changed mtu done = record { mtu_changed = changed; new_mtu = mtu; search_done = done }

-- `p.milestones[p.currentIndex] != targetMTU`, or the index is past the end.
abbrev is_current : Option ℕ → ℕ → Bool
is_current none target = false
is_current (some m) target = m == target

record_success : PeerMtuProber → ℕ → PeerMtuProber × ProbeOutcome
record_success p target =
    let q = record p {
      failed_attempts = 0;
      confirmed_mtu = target;
      current_index = p.current_index + 1;
    } in
    let changed = ltb p.confirmed_mtu target in
    if leb (length p.milestones) (p.current_index + 1)
    then (record q { state = search_complete }, outcome changed target true)
    else (q, outcome changed target false)

record_failure : PeerMtuProber → PeerMtuProber × ProbeOutcome
record_failure p =
    let q = record p { failed_attempts = p.failed_attempts + 1 } in
    if leb max_probes_per_milestone (p.failed_attempts + 1)
    then (record q { state = search_complete }, outcome false p.confirmed_mtu true)
    else (q, outcome false p.confirmed_mtu false)

unfoldable pub record_probe_result : PeerMtuProber → ℕ → Bool → PeerMtuProber × ProbeOutcome
unfolding record_success record_failure
record_probe_result p target success =
    if not (is_searching p.state)
    then (p, outcome false p.confirmed_mtu true)
    else if not (is_current (get_elem? p.milestones p.current_index) target)
    then (p, outcome false p.confirmed_mtu false)
    else if success
    then record_success p target
    else record_failure p

unfoldable pub reset : PeerMtuProber → PeerMtuProber
reset p = if p.manual_override then p else record p {
  state = searching;
  confirmed_mtu = base_tunnel_mtu;
  current_index = 0;
  failed_attempts = 0;
  armed = false;
}
