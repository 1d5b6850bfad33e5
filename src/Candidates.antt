-- ===== src/Candidates.antt =====
-- nomination.go and main.go: the candidates of both peers, how they are gathered, filtered, ranked
-- and queued. The readers of addresses are the parameter `net`.
pub mod Sorting
pub mod Ranking
pub mod Compatible
pub mod Queue
use teleport_client.Base.{
  sort_by_score, insert_by_score, ℕ, ◌+◌, ◌-◌, Bool, true, false, not, ◌&&◌, ◌||◌, Option, none,
  some, List, [], ◌∷◌, ◌++◌, map, reverse, Text, codes, ℤ, pos, negsuc, ltb_ℤ, ltb, leb, ◌==◌,
  is_empty, text_eq, contains, keep, if◌then◌else◌, append_all, Gathered, insert,
}
use teleport_client.Net.{Ip, NetLib, AddrPort, is_v4, is_private, is_global_unicast, host_ip}

pub record Candidate : Type 0 where
  pub type : Text
  pub addr : Text

pub data NetworkFamily : Type 0 where
  family_dual family_ipv4 family_ipv6 : NetworkFamily

abbrev pub is_ipv4_only : NetworkFamily → Bool
is_ipv4_only family_ipv4 = true
is_ipv4_only _ = false

abbrev pub is_ipv6_only : NetworkFamily → Bool
is_ipv6_only family_ipv6 = true
is_ipv6_only _ = false

unfoldable pub is_routable_candidate_ip : Ip → NetworkFamily → Bool
is_routable_candidate_ip ip family =
    if not (is_global_unicast ip)
    then false
    else if not (is_v4 ip) && is_private ip
    then false
    else if is_ipv4_only family && not (is_v4 ip)
    then false
    else if is_ipv6_only family && is_v4 ip
    then false
    else true

-- `net.Addr` of an interface.
pub data NetAddr : Type 0 where
  ip_net ip_addr : Ip → NetAddr
  other_addr : NetAddr

unfoldable pub interface_addr_ip : NetAddr → Option Ip
interface_addr_ip (ip_net ip) = some ip
interface_addr_ip (ip_addr ip) = some ip
interface_addr_ip other_addr = none

pub record Interface : Type 0 where
  pub is_up : Bool
  pub is_loopback_interface : Bool
  pub addrs : List NetAddr

-- `*udpSockets`: which of the two sockets are open.
pub record UdpSockets : Type 0 where
  pub v4_open : Bool
  pub v6_open : Bool

abbrev pub addrs_of : List Candidate → List Text
addrs_of = map (λ c. c.addr)

-- `strings.Trim(s, "[]")`.
abbrev is_bracket : ℕ → Bool
is_bracket c = c == b'[' || c == b']'

unfoldable pub drop_brackets : Text → Text
drop_brackets [] = []
drop_brackets (c ∷ s) = if is_bracket c then drop_brackets s else c ∷ s

unfoldable pub trim_brackets : Text → Text
unfolding drop_brackets
trim_brackets s = reverse (drop_brackets (reverse (drop_brackets s)))

unfoldable pub candidates_of_type : List Candidate → Text → List Candidate
candidates_of_type candidates type = keep (λ c. text_eq c.type type) candidates

-- `candidateTypeMap`: the last candidate of an address decides its type.
unfoldable pub candidate_type_map_from : List (Text × Text) → List Candidate → List (Text × Text)
candidate_type_map_from types [] = types
candidate_type_map_from types (c ∷ cs) = candidate_type_map_from (insert c.addr c.type types) cs

unfoldable pub candidate_type_map : List Candidate → List (Text × Text)
unfolding candidate_type_map_from
candidate_type_map peer_candidates = candidate_type_map_from [] peer_candidates

abbrev pub base_score : Text → ℕ
base_score type =
    if text_eq type (codes "iface")
    then 0
    else if text_eq type (codes "reflex")
    then 10
    else if text_eq type (codes "turn")
    then 20
    else 100

-- An address that does not parse is the zero address, which is not IPv6.
abbrev pub is_ipv6_addr : Option AddrPort → Bool
is_ipv6_addr none = false
is_ipv6_addr (some ap) = ap.is6

abbrev pub lower_by_two : ℕ → ℤ
lower_by_two s = if leb 2 s then pos (s - 2) else negsuc (1 - s)

-- What `localCandidateFamilies` has found so far: IPv4, IPv6.
abbrev pub note_family : Option Ip → Bool × Bool → Bool × Bool
note_family none (have_v4, have_v6) = (have_v4, have_v6)
note_family (some ip) (have_v4, have_v6) = if is_v4 ip then (true, have_v6) else (have_v4, true)

module _ (net : NetLib) where
  -- One address of an interface, through the map of those seen.
  unfoldable pub gather_ip : ℕ → NetworkFamily → Gathered → Option Ip → Gathered
  gather_ip port family g none = g
  gather_ip port family g (some ip) =
      let addr = net.join_host_port ip port in
      if not (is_routable_candidate_ip ip family) || contains g.seen addr
      then g
      else record { seen = addr ∷ g.seen; out = g.out ++ addr ∷ [] }

  unfoldable pub gather_addrs : ℕ → NetworkFamily → Gathered → List NetAddr → Gathered
  unfolding gather_ip
  gather_addrs port family g [] = g
  gather_addrs port family g (a ∷ rest) =
      gather_addrs port family (gather_ip port family g (interface_addr_ip a)) rest

  unfoldable pub gather_interfaces : ℕ → NetworkFamily → Gathered → List Interface → Gathered
  unfolding gather_addrs
  gather_interfaces port family g [] = g
  gather_interfaces port family g (iface ∷ rest) =
      gather_interfaces port family
        (if not iface.is_up || iface.is_loopback_interface
          then g
          else gather_addrs port family g iface.addrs)
        rest

  unfoldable pub local_candidates : ℕ → NetworkFamily → List Interface → List Candidate
  unfolding gather_interfaces
  local_candidates port family interfaces =
      map (λ addr. record { type = codes "iface"; addr = addr })
        (gather_interfaces port family (record { seen = []; out = [] }) interfaces).out

  unfoldable pub score : Candidate → ℤ
  score c =
      if is_ipv6_addr (net.parse_addr_port c.addr)
      then lower_by_two (base_score c.type)
      else pos (base_score c.type)

  unfoldable pub rank_candidates : List Candidate → List Candidate
  unfolding score sort_by_score
  rank_candidates cs = sort_by_score score cs

  abbrev pub is_public_ip : Option Ip → Bool
  is_public_ip none = false
  is_public_ip (some ip) = is_global_unicast ip && not (is_private ip)

  unfoldable pub is_publicly_routable_candidate_addr : Text → Bool
  is_publicly_routable_candidate_addr addr = is_public_ip (host_ip net addr)

  abbrev pub first_addr : List Candidate → Text
  first_addr [] = []
  first_addr (c ∷ cs) = c.addr

  -- The first public candidate, or else `fallback`.
  unfoldable pub first_public : Text → List Candidate → Text
  unfolding is_publicly_routable_candidate_addr
  first_public fallback [] = fallback
  first_public fallback (c ∷ cs) =
      let rest = first_public fallback cs in
      if is_publicly_routable_candidate_addr c.addr then c.addr else rest

  unfoldable pub guess_candidate : List Candidate → Text
  unfolding first_public
  guess_candidate ordered = first_public (first_addr ordered) ordered

  unfoldable pub local_families_from : Bool × Bool → List Candidate → Bool × Bool
  local_families_from (have_v4, have_v6) [] = (have_v4, have_v6)
  local_families_from (have_v4, have_v6) (c ∷ cs) =
      let rest = local_families_from (note_family (host_ip net c.addr) (have_v4, have_v6)) cs in
      if have_v4 && have_v6 then (have_v4, have_v6) else rest

  unfoldable pub local_candidate_families : List Candidate → Bool × Bool
  unfolding local_families_from
  local_candidate_families local = local_families_from (false, false) local

  -- The address of a peer candidate, with brackets trimmed off its host.
  unfoldable pub peer_ip : Option (Text × Text) → Option Ip
  unfolding trim_brackets
  peer_ip none = none
  peer_ip (some (host, port)) = net.parse_ip (trim_brackets host)

  unfoldable pub is_compatible_ip : UdpSockets → Bool × Bool → Option Ip → Bool
  is_compatible_ip s (have_v4, have_v6) none = false
  is_compatible_ip s (have_v4, have_v6) (some ip) =
      (is_v4 ip && (s.v4_open && have_v4)) || (not (is_v4 ip) && (s.v6_open && have_v6))

  unfoldable pub compatible_candidates :
      Option UdpSockets → List Candidate → List Candidate → List Candidate
  unfolding local_candidate_families peer_ip is_compatible_ip rank_candidates
  compatible_candidates none cands local = []
  compatible_candidates (some s) cands local = rank_candidates (
      keep
        (λ c.
          is_compatible_ip s (local_candidate_families local)
            (peer_ip (net.split_host_port c.addr)))
        cands)

  -- `buildCandidateRetryQueue`: what has been observed, then the public candidates, then the others.
  unfoldable pub build_candidate_retry_queue : Text → List Text → List Candidate → List Text
  unfolding append_all is_publicly_routable_candidate_addr
  build_candidate_retry_queue endpoint observed advertised =
      let seen_observed = append_all (record { seen = endpoint ∷ []; out = [] }) observed in
      let is_public = λ (c : Candidate). is_publicly_routable_candidate_addr c.addr in
      let public = append_all seen_observed (addrs_of (keep is_public advertised)) in
      (append_all public (addrs_of (keep (λ c. not (is_public c)) advertised))).out
