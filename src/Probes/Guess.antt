-- ===== src/Probes/Guess.antt =====
-- The candidates that are probed, in order, and the guess when none of them answers.
use teleport_client.Base.{
  ◌≡◌, refl, ap, ◌∙◌, Bool, true, false, not, ◌&&◌, keep, Option, none, some, List, [], ◌∷◌, Text,
  if◌then◌else◌,
}
use teleport_client.Net.{Ip, NetLib, host_ip, is_global_unicast, is_private}
use teleport_client.Candidates.{
  Candidate, UdpSockets, compatible_candidates, guess_candidate, rank_candidates, first_public,
  first_addr, is_public_ip, is_publicly_routable_candidate_addr,
}
use teleport_client.Candidates.Compatible.{is_reachable, compatible_candidates-reachable}

-- Whether an address is that of a host that the internet can reach.
abbrev pub is_public_host : Option Ip → Bool
is_public_host none = false
is_public_host (some ip) = is_global_unicast ip && not (is_private ip)

abbrev pub addr_or : Text → List Candidate → Text
addr_or fallback [] = fallback
addr_or fallback (c ∷ cs) = c.addr

-- The first candidate with a public address, or else the first one.
abbrev pub guess_of : NetLib → List Candidate → Text
guess_of net cs = addr_or (addr_or [] cs) (keep (λ c. is_public_host (host_ip net c.addr)) cs)

-- The candidates that can be reached, in the order of the ranking.
abbrev pub ordered_of :
    NetLib → Option UdpSockets → List Candidate → List Candidate → List Candidate
ordered_of net none cands local = []
ordered_of net (some s) cands local = rank_candidates net (keep (is_reachable net s local) cands)

pub compatible_candidates-ordered_of :
    (net : NetLib) (s : Option UdpSockets) (cands local : List Candidate)
    → compatible_candidates net s cands local ≡ ordered_of net s cands local
compatible_candidates-ordered_of net none cands local = unfold compatible_candidates in refl
compatible_candidates-ordered_of net (some s) cands local =
    compatible_candidates-reachable net s cands local

first_public-addr_or :
    (net : NetLib) (fallback : Text) (cs : List Candidate)
    → first_public net fallback cs
      ≡ addr_or fallback (keep (λ c. is_public_host (host_ip net c.addr)) cs)
unfolding first_public is_publicly_routable_candidate_addr keep
first_public-addr_or net fallback [] = refl
first_public-addr_or net fallback (c ∷ cs) =
    by_host (host_ip net c.addr) (first_public-addr_or net fallback cs)
  where
    rest : List Candidate
    rest = keep (λ d. is_public_host (host_ip net d.addr)) cs

    by_host :
        (o : Option Ip)
        → first_public net fallback cs ≡ addr_or fallback rest
        → (if is_public_ip net o then c.addr else first_public net fallback cs)
          ≡ addr_or fallback (if is_public_host o then c ∷ rest else rest)
    by_host none ih = ih
    by_host (some ip) ih = by_test (is_global_unicast ip && not (is_private ip)) ih
      where
        by_test :
            (public : Bool)
            → first_public net fallback cs ≡ addr_or fallback rest
            → (if public then c.addr else first_public net fallback cs)
              ≡ addr_or fallback (if public then c ∷ rest else rest)
        by_test true ih = refl
        by_test false ih = ih

pub guess_candidate-guess_of :
    (net : NetLib) (cs : List Candidate) → guess_candidate net cs ≡ guess_of net cs
unfolding guess_candidate
guess_candidate-guess_of net cs =
    first_public-addr_or net (first_addr net cs) cs
    ∙ ap (λ d. addr_or d (keep (λ c. is_public_host (host_ip net c.addr)) cs)) (first cs)
  where
    first : (cs : List Candidate) → first_addr net cs ≡ addr_or [] cs
    first [] = refl
    first (c ∷ cs) = refl
