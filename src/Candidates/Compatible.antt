-- ===== src/Candidates/Compatible.antt =====
-- Which of the peer's candidates are compatible: the families that the local candidates have, and
-- the filter on them.
use mathlib.Core.List.{Perm}
use std.Path.{fun_ext}
use teleport_client.Base.{
  ◌≡◌, refl, ap, Text, Bool, true, false, not, ◌&&◌, ◌||◌, Option, none, some, List, [], ◌∷◌, keep,
  map, arith, if◌then◌else◌,
}
use teleport_client.Net.{Ip, NetLib, is_v4, host_ip}
use teleport_client.Candidates.{
  Candidate, UdpSockets, local_families_from, note_family, local_candidate_families,
  is_compatible_ip, peer_ip, compatible_candidates, rank_candidates, trim_brackets,
}
use teleport_client.Candidates.Ranking.{in_rank_order, same_rank, rank_candidates_lem}

abbrev pub is_some_v4 : Option Ip → Bool
is_some_v4 none = false
is_some_v4 (some ip) = is_v4 ip

abbrev pub is_some_v6 : Option Ip → Bool
is_some_v6 none = false
is_some_v6 (some ip) = not (is_v4 ip)

unfoldable pub any_ip : (Option Ip → Bool) → List (Option Ip) → Bool
any_ip p [] = false
any_ip p (x ∷ xs) = p x || any_ip p xs

module _ (net : NetLib) where
  abbrev pub ips_of : List Candidate → List (Option Ip)
  ips_of = map (λ c. host_ip net c.addr)

  families_from :
      (have_v4 have_v6 : Bool) (local : List Candidate)
      → local_families_from net (have_v4, have_v6) local
        ≡ (have_v4 || any_ip is_some_v4 (ips_of local), have_v6 || any_ip is_some_v6 (ips_of local))
  unfolding local_families_from any_ip
  families_from have_v4 have_v6 [] = ground arith
  families_from have_v4 have_v6 (c ∷ cs) =
      one_more have_v4 have_v6 (host_ip net c.addr) (λ a b. families_from a b cs)
    where
      one_more :
          (have_v4 have_v6 : Bool) (ip : Option Ip)
          → ((a b : Bool)
              → local_families_from net (a, b) cs
                ≡ (a || any_ip is_some_v4 (ips_of cs), b || any_ip is_some_v6 (ips_of cs)))
          → (if have_v4 && have_v6
              then (have_v4, have_v6)
              else local_families_from net (note_family ip (have_v4, have_v6)) cs)
            ≡ (
              have_v4 || (is_some_v4 ip || any_ip is_some_v4 (ips_of cs)),
              have_v6 || (is_some_v6 ip || any_ip is_some_v6 (ips_of cs)),
            )
      one_more true true ip ih = refl
      one_more true false none ih = ih true false
      one_more true false (some (Ip.v4 a b c d)) ih = ih true false
      one_more true false (some (Ip.v6 n)) ih = ih true true
      one_more false h none ih = ih false h
      one_more false h (some (Ip.v4 a b c d)) ih = ih true h
      one_more false true (some (Ip.v6 n)) ih = ih false true
      one_more false false (some (Ip.v6 n)) ih = ih false true

  -- The early end of the loop loses nothing: the result says whether some local candidate has an
  -- IPv4 address, and whether some has an IPv6 address.
  pub local_candidate_families_lem :
      (local : List Candidate)
      → local_candidate_families net local
        ≡ (any_ip is_some_v4 (ips_of local), any_ip is_some_v6 (ips_of local))
  unfolding local_candidate_families
  local_candidate_families_lem local = families_from false false local

  -- The address that a peer's candidate names, if it can be read.
  abbrev pub named_ip : Option (Text × Text) → Option Ip
  named_ip none = none
  named_ip (some (host, port)) = net.parse_ip (trim_brackets host)

  -- There are a socket and a local candidate of the address's family.
  abbrev pub can_reach : UdpSockets → List Candidate → Option Ip → Bool
  can_reach s local none = false
  can_reach s local (some (Ip.v4 a b c d)) = s.v4_open && any_ip is_some_v4 (ips_of local)
  can_reach s local (some (Ip.v6 n)) = s.v6_open && any_ip is_some_v6 (ips_of local)

  abbrev pub is_reachable : UdpSockets → List Candidate → Candidate → Bool
  is_reachable s local c = can_reach s local (named_ip (net.split_host_port c.addr))

  is_compatible_ip-is_reachable :
      (s : UdpSockets) (local : List Candidate) (c : Candidate)
      → is_compatible_ip net s
          (local_candidate_families net local)
          (peer_ip net (net.split_host_port c.addr))
        ≡ is_reachable s local c
  unfolding is_compatible_ip peer_ip
  is_compatible_ip-is_reachable s local c =
      rw (local_candidate_families_lem local) (by_split (net.split_host_port c.addr))
    where
      by_ip :
          (o : Option Ip)
          → is_compatible_ip net s
              (any_ip is_some_v4 (ips_of local), any_ip is_some_v6 (ips_of local))
              o
            ≡ can_reach s local o
      by_ip none = refl
      by_ip (some (Ip.v4 a b c d)) = ground arith
      by_ip (some (Ip.v6 n)) = ground arith

      by_split :
          (o : Option (Text × Text))
          → is_compatible_ip net s
              (any_ip is_some_v4 (ips_of local), any_ip is_some_v6 (ips_of local))
              (peer_ip net o)
            ≡ can_reach s local (named_ip o)
      by_split none = refl
      by_split (some (host, port)) = by_ip (net.parse_ip (trim_brackets host))

  -- The compatible candidates are the ones that are reachable, in the order of the ranking.
  pub compatible_candidates-reachable :
      (s : UdpSockets) (cands local : List Candidate)
      → compatible_candidates net (some s) cands local
        ≡ rank_candidates net (keep (is_reachable s local) cands)
  unfolding compatible_candidates
  compatible_candidates-reachable s cands local =
      ap (λ p. rank_candidates net (keep p cands)) (fun_ext (is_compatible_ip-is_reachable s local))

  -- With sockets, the compatible candidates are those of the given ones whose address can be read,
  -- once its brackets are trimmed, and whose family has an open socket and a local candidate, each as
  -- often as it is given: the interfaces' addresses first, then the reflexive ones, the relays and all
  -- others, in each of these IPv6 before IPv4, and otherwise in the order given. With no sockets there
  -- are none.
  pub compatible_candidates_lem :
      (s : UdpSockets) (cands local : List Candidate) (k : Candidate)
      → Perm (compatible_candidates net (some s) cands local) (keep (is_reachable s local) cands)
        × (in_rank_order net (compatible_candidates net (some s) cands local) ≡ true)
        × (keep (same_rank net k) (compatible_candidates net (some s) cands local)
            ≡ keep (same_rank net k) (keep (is_reachable s local) cands))
        × (compatible_candidates net none cands local ≡ [])
  compatible_candidates_lem s cands local k =
      let kept = keep (is_reachable s local) cands in
      let (perm, in_order, stable) = rank_candidates_lem net kept k in
      let e = compatible_candidates-reachable s cands local in
      (rw e perm, rw e in_order, rw e stable, unfold compatible_candidates in refl)
