-- ===== src/Client/Endpoint.antt =====
-- What the choice of an endpoint gives: an endpoint, and a queue of other ones.
use teleport_client.Base.{
  ◌≡◌, refl, sym, text_eq_refl, Bool, true, false, not, ◌&&◌, ◌||◌, Option, none, some, is_some,
  List, [], Text, is_empty, text_eq, contains, distinct, if◌then◌else◌, arith,
}
use teleport_client.Net.{NetLib}
use teleport_client.Candidates.{Candidate, UdpSockets, addrs_of, compatible_candidates}
use teleport_client.Candidates.Queue.{build_candidate_retry_queue_lem}
use teleport_client.Client.{
  NominationWorld, EndpointMode, override, Negotiated, chosen_endpoint, with_queue,
  peer_candidates_for, negotiate_endpoint, resolve_nominated_endpoint,
}
use teleport_client.Client.Offered.{
  observed_of, has_request, contains-observed_from, resolved-observed, is_offered_over, offered,
}

module _ (net : NetLib) where
  -- A negotiation that succeeds gives an endpoint that is not empty, and is the override where there is
  -- one; and a queue without repeats in which a text is exactly when it is not empty, not the endpoint,
  -- and sent a logged Binding Request while there is no override, or is the address of a peer's candidate that can be reached: one
  -- whose address can be read and whose family has an open socket and a local candidate, and in TURN-only
  -- mode a relay's.
  pub negotiate_endpoint_lem :
      (endpoint_override : Text) (force_turn : Bool) (sockets : Option UdpSockets)
      (peers local : List Candidate) (w : NominationWorld) (n : Negotiated) (a : Text)
      → negotiate_endpoint net endpoint_override force_turn sockets peers local w ≡ some n
      → (is_empty n.endpoint ≡ false)
        × ((is_empty endpoint_override || text_eq endpoint_override n.endpoint) ≡ true)
        × (distinct n.candidate_queue ≡ true)
        × (contains n.candidate_queue a ≡ (
            ((is_empty endpoint_override && has_request w.logs a)
              || is_offered_over net force_turn sockets local peers a)
            && (not (is_empty a) && not (text_eq n.endpoint a))))
  unfolding negotiate_endpoint
  negotiate_endpoint_lem endpoint_override force_turn sockets peers local w n a e =
      let candidates = peer_candidates_for net force_turn sockets peers local in
      let o = chosen_endpoint net endpoint_override w in
      let (nonempty, endpoint, distinct', members) = queued candidates o e in
      let (is_override, observed) = chosen candidates e in
      (
        nonempty,
        rw (sym endpoint) is_override,
        distinct',
        rw (sym observed, sym (offered net force_turn sockets peers local a)) members,
      )
    where
      endpoint_of : Option (Text × EndpointMode × List Text) → Text
      endpoint_of none = []
      endpoint_of (some (endpoint, mode, observed)) = endpoint

      chosen :
          (candidates : List Candidate)
          → with_queue net sockets candidates local (chosen_endpoint net endpoint_override w)
            ≡ some n
          → ((is_empty endpoint_override
                || text_eq endpoint_override
                    (endpoint_of (chosen_endpoint net endpoint_override w)))
              ≡ true)
            × (contains (observed_of (chosen_endpoint net endpoint_override w)) a
                ≡ (is_empty endpoint_override && has_request w.logs a))
      chosen candidates e =
          by_override (is_empty endpoint_override)
            (is_chosen (chosen_endpoint net endpoint_override w) e)
        where
          is_chosen :
              (o : Option (Text × EndpointMode × List Text))
              → with_queue net sockets candidates local o ≡ some n
              → is_some o ≡ true
          is_chosen none e = cc
          is_chosen (some x) e = refl

          by_override :
              (b : Bool)
              → is_some (
                  if not b
                  then some (endpoint_override, override, [])
                  else resolve_nominated_endpoint w)
                ≡ true
              → ((b
                    || text_eq endpoint_override (
                        endpoint_of (
                          if not b
                          then some (endpoint_override, override, [])
                          else resolve_nominated_endpoint w)))
                  ≡ true)
                × (contains
                      (observed_of (
                        if not b
                        then some (endpoint_override, override, [])
                        else resolve_nominated_endpoint w))
                      a
                    ≡ (b && has_request w.logs a))
          by_override true h = (
            refl,
            rw (resolved-observed w h, contains-observed_from [] w.logs a)
                (unfold contains in ground arith),
          )
          by_override false h = (text_eq_refl endpoint_override, unfold contains in refl)

      queued :
          (candidates : List Candidate) (o : Option (Text × EndpointMode × List Text))
          → with_queue net sockets candidates local o ≡ some n
          → (is_empty n.endpoint ≡ false)
            × (endpoint_of o ≡ n.endpoint)
            × (distinct n.candidate_queue ≡ true)
            × (contains n.candidate_queue a ≡ (
                (contains (observed_of o) a
                  || contains (addrs_of (compatible_candidates net sockets candidates local)) a)
                && (not (is_empty a) && not (text_eq n.endpoint a))))
      queued candidates none e = cc
      queued candidates (some (endpoint, mode, observed)) e =
          let (order, distinct', members) =
            build_candidate_retry_queue_lem net endpoint observed
              (compatible_candidates net sockets candidates local) a in
          (
            ground (arith, e),
            ground (arith, e),
            ground (arith, e, distinct'),
            ground (arith, e, members),
          )
