-- ===== src/Client/Offered.antt =====
-- What the nomination has observed in the log, and which of the peer's candidates are offered.
use teleport_client.Base.{
  ◌≡◌, refl, ap, subst, ◌∙◌, ℤ, insert_by_score, sort_by_score, text_eq_refl, text_eq_iff,
  Bool-cases, inl, inr, Bool, true, false, not, ◌&&◌, ◌||◌, Option, none, some, is_some,
  is_nonempty, List, [], ◌∷◌, Text, codes, text_eq, contains, keep, if◌then◌else◌, arith,
}
use teleport_client.Net.{NetLib}
use teleport_client.Candidates.{
  Candidate, UdpSockets, addrs_of, candidates_of_type, compatible_candidates, rank_candidates,
  score,
}
use teleport_client.Candidates.Compatible.{is_reachable, compatible_candidates-reachable}
use teleport_client.Listener.{PacketLog}
use teleport_client.Client.{
  NominationWorld, EndpointMode, peer_candidates_for, resolve_nominated_endpoint, observed_from,
  first_request, per_tuple_nomination, fallback_probe,
}

abbrev pub observed_of : Option (Text × EndpointMode × List Text) → List Text
observed_of none = []
observed_of (some (endpoint, mode, observed)) = observed

-- Whether a Binding Request from the address is in the log.
unfoldable pub has_request : List PacketLog → Text → Bool
has_request [] a = false
has_request (p ∷ logs) a =
    (text_eq p.addr a && (p.inbound && (p.is_stun && p.is_request))) || has_request logs a

pub contains-observed_from :
    (seen : List Text) (logs : List PacketLog) (a : Text)
    → contains (observed_from seen logs) a ≡ (has_request logs a && not (contains seen a))
unfolding observed_from has_request contains
contains-observed_from seen [] a = refl
contains-observed_from seen (p ∷ logs) a = elim (Bool-cases (text_eq p.addr a)) [
  | inl e ↦
      let same : p.addr ≡ a = (text_eq_iff p.addr a).0 e in
      rw same (
        ground (
          arith,
          text_eq_refl a,
          contains-observed_from seen logs a,
          contains-observed_from (a ∷ seen) logs a,
        ))
  | inr e ↦
      ground (
        arith,
        e,
        contains-observed_from seen logs a,
        contains-observed_from (p.addr ∷ seen) logs a,
      )
]

pub resolved-observed :
    (w : NominationWorld)
    → is_some (resolve_nominated_endpoint w) ≡ true
    → observed_of (resolve_nominated_endpoint w) ≡ observed_from [] w.logs
unfolding resolve_nominated_endpoint
resolved-observed w h =
    by_tests w.done_after_wait
      (is_nonempty (first_request w.selected per_tuple_nomination w.logs).0) w.done_after_probe h
  where
    resolution : Bool → Bool → Bool → Option (Text × EndpointMode × List Text)
    resolution waited nonempty probed =
        if waited
        then none
        else if nonempty
        then some (
          (first_request w.selected per_tuple_nomination w.logs).0,
          (first_request w.selected per_tuple_nomination w.logs).1,
          observed_from [] w.logs,
        )
        else if probed
        then none
        else some (w.probed, fallback_probe, observed_from [] w.logs)

    by_tests :
        (waited nonempty probed : Bool)
        → is_some (resolution waited nonempty probed) ≡ true
        → observed_of (resolution waited nonempty probed) ≡ observed_from [] w.logs
    by_tests true nonempty probed h = cc
    by_tests false true probed h = refl
    by_tests false false true h = cc
    by_tests false false false h = refl

module _ (score : Candidate → ℤ) (p : Candidate → Bool) (a : Text) where
  contains-kept_insert :
      (c : Candidate) (cs : List Candidate)
      → contains (addrs_of (keep p (insert_by_score score c cs))) a
        ≡ ((text_eq c.addr a && p c) || contains (addrs_of (keep p cs)) a)
  unfolding insert_by_score keep contains
  contains-kept_insert c [] = ground arith
  contains-kept_insert c (d ∷ cs) = ground (arith, contains-kept_insert c cs)

  contains-kept_sort :
      (cs : List Candidate)
      → contains (addrs_of (keep p (sort_by_score score cs))) a ≡ contains (addrs_of (keep p cs)) a
  unfolding sort_by_score keep contains
  contains-kept_sort [] = refl
  contains-kept_sort (c ∷ cs) =
      contains-kept_insert c (sort_by_score score cs) ∙ ground (arith, contains-kept_sort cs)

keep-all : (cs : List Candidate) → keep (λ c. true) cs ≡ cs
unfolding keep
keep-all [] = refl
keep-all (c ∷ cs) = ap (◌∷◌ c) (keep-all cs)

module _ (net : NetLib) where
  -- Whether an address is offered by a peer's candidate that is reachable, and a relay's in TURN-only
  -- mode.
  unfoldable pub is_offered : Bool → UdpSockets → List Candidate → List Candidate → Text → Bool
  is_offered force_turn s local [] a = false
  is_offered force_turn s local (c ∷ peers) a =
      (text_eq c.addr a
        && (is_reachable net s local c && (not force_turn || text_eq c.type (codes "turn"))))
      || is_offered force_turn s local peers a

  abbrev pub is_offered_over :
      Bool → Option UdpSockets → List Candidate → List Candidate → Text → Bool
  is_offered_over force_turn none local peers a = false
  is_offered_over force_turn (some s) local peers a = is_offered force_turn s local peers a

  contains-ranked :
      (cs : List Candidate) (a : Text)
      → contains (addrs_of (rank_candidates net cs)) a ≡ contains (addrs_of cs) a
  unfolding rank_candidates
  contains-ranked cs a =
      subst (λ xs. contains (addrs_of xs) a ≡ contains (addrs_of cs) a)
        (keep-all (sort_by_score (score net) cs))
        (contains-kept_sort (score net) (λ c. true) a cs
          ∙ ap (λ xs. contains (addrs_of xs) a) (keep-all cs))

  contains-kept :
      (s : UdpSockets) (local peers : List Candidate) (a : Text)
      → contains (addrs_of (keep (is_reachable net s local) peers)) a
        ≡ is_offered false s local peers a
  unfolding keep contains is_offered
  contains-kept s local [] a = refl
  contains-kept s local (c ∷ peers) a = ground (arith, contains-kept s local peers a)

  contains-kept_turn :
      (s : UdpSockets) (local peers : List Candidate) (a : Text)
      → contains
          (addrs_of (
            keep
              (is_reachable net s local)
              (keep (is_reachable net s local) (candidates_of_type peers (codes "turn")))))
          a
        ≡ is_offered true s local peers a
  unfolding keep contains is_offered candidates_of_type
  contains-kept_turn s local [] a = refl
  contains-kept_turn s local (c ∷ peers) a = ground (arith, contains-kept_turn s local peers a)

  kept_ranked :
      (s : UdpSockets) (local cs : List Candidate) (a : Text)
      → contains (addrs_of (keep (is_reachable net s local) (rank_candidates net cs))) a
        ≡ contains (addrs_of (keep (is_reachable net s local) cs)) a
  unfolding rank_candidates
  kept_ranked s local cs a = contains-kept_sort (score net) (is_reachable net s local) a cs

  -- The candidates that are queued are those that are offered.
  pub offered :
      (force_turn : Bool) (sockets : Option UdpSockets) (peers local : List Candidate) (a : Text)
      → contains
          (addrs_of (
            compatible_candidates net sockets
              (peer_candidates_for net force_turn sockets peers local)
              local))
          a
        ≡ is_offered_over force_turn sockets local peers a
  offered force_turn none peers local a = unfold compatible_candidates contains in refl
  offered false (some s) peers local a =
      rw (compatible_candidates-reachable net s peers local)
        (contains-ranked (keep (is_reachable net s local) peers) a ∙ contains-kept s local peers a)
  offered true (some s) peers local a =
      let relays = candidates_of_type peers (codes "turn") in
      let kept = keep (is_reachable net s local) relays in
      rw
        (
          compatible_candidates-reachable net s (compatible_candidates net (some s) relays local)
              local,
          compatible_candidates-reachable net s relays local,
        )
        (contains-ranked (keep (is_reachable net s local) (rank_candidates net kept)) a
          ∙ kept_ranked s local kept a
          ∙ contains-kept_turn s local peers a)
