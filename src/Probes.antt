-- ===== src/Probes.antt =====
-- nomination.go, `probeCandidates`: a Binding Request to each candidate that can be reached, and the choice
-- among the ones that answer. What the select receives is the list of what the world gives; the sockets
-- and the goroutines that read them are not modelled.
pub mod Keepalive
pub mod Ranks
pub mod Guess
pub mod Best
pub mod Answering
pub mod Gathered
use teleport_client.Base.{
  ℕ, ◌+◌, Bool, true, false, not, ◌&&◌, ◌||◌, Option, none, some, is_some, List, [], ◌∷◌, ◌++◌,
  Text, length, ltb, ◌==◌, if◌then◌else◌, get_elem?, lookup, insert,
}
use teleport_client.Net.{NetLib, AddrPort}
use teleport_client.Candidates.{Candidate, UdpSockets, compatible_candidates, guess_candidate}

pub record Target : Type 0 where
  pub addr : Text
  pub remote : Text

-- The targets, and the rank of each remote address.
pub record Targets : Type 0 where
  pub targets : List Target
  pub rank_by_remote : List (Text × ℕ)

abbrev pub has_conn : Option UdpSockets → Bool → Bool
has_conn none is6 = false
has_conn (some s) is6 = if is6 then s.v6_open else s.v4_open

unfoldable pub add_target : Option UdpSockets → Targets → Text → Option AddrPort → Targets
unfolding insert
add_target s t addr none = t
add_target s t addr (some ap) = if not (has_conn s ap.is6) then t else record {
  targets = t.targets ++ record { addr = addr; remote = ap.remote } ∷ [];
  rank_by_remote = insert ap.remote (length t.targets) t.rank_by_remote;
}

module _ (net : NetLib) where
  unfoldable pub targets_from : Option UdpSockets → Targets → List Candidate → Targets
  unfolding add_target
  targets_from s t [] = t
  targets_from s t (c ∷ ordered) =
      targets_from s (add_target s t c.addr (net.parse_addr_port c.addr)) ordered

  abbrev pub no_targets : Targets
  no_targets = record { targets = []; rank_by_remote = [] }

-- What the select receives: a response from a remote address, the end of the grace period, or the timeout.
pub data ProbeEvent : Type 0 where
  response : Text → ProbeEvent
  grace_over : ProbeEvent
  timer_over : ProbeEvent

-- `targets[rank].addr`.
abbrev pub target_addr : Option Target → Text
target_addr none = []
target_addr (some t) = t.addr

abbrev pub addr_at : Targets → ℕ → Text
addr_at t rank = target_addr (get_elem? t.targets rank)

-- The best rank after a response.
abbrev pub improve : Option ℕ → ℕ → Option ℕ
improve none rank = some rank
improve (some best) rank = if ltb rank best then some rank else some best

-- The loop, with `bestRank` and whether the grace timer runs; `none` while it goes on. A channel that is
-- nil gives nothing.
unfoldable pub probe_loop : Targets → Text → Option ℕ → Bool → List ProbeEvent → Option Text
unfolding lookup
probe_loop t guess best grace [] = none
probe_loop t guess best grace (response remote ∷ events) = elim (lookup remote t.rank_by_remote) [
  | none ↦ probe_loop t guess best grace events
  | some rank ↦
      let better = probe_loop t guess (improve best rank) true events in
      if rank == 0 then some (addr_at t rank) else better
]
probe_loop t guess none grace (grace_over ∷ events) = probe_loop t guess none grace events
probe_loop t guess (some best) grace (grace_over ∷ events) =
    let rest = probe_loop t guess (some best) grace events in
    if grace then some (addr_at t best) else rest
probe_loop t guess none grace (timer_over ∷ events) = some guess
probe_loop t guess (some best) grace (timer_over ∷ events) = some (addr_at t best)

module _ (net : NetLib) where
  abbrev pub probe_targets : Text → Targets → List ProbeEvent → Option Text
  probe_targets guess t events =
      let probed = probe_loop t guess none false events in
      if length t.targets == 0 then some guess else probed

  unfoldable pub probe_candidates :
      Option UdpSockets → List Candidate → List Candidate → List ProbeEvent → Option Text
  unfolding probe_loop targets_from compatible_candidates guess_candidate
  probe_candidates s cands local events =
      let ordered = compatible_candidates net s cands local in
      let probed =
        probe_targets (guess_candidate net ordered) (targets_from net s (no_targets net) ordered)
          events in
      if not (is_some s) || length ordered == 0 then some (guess_candidate net ordered) else probed
