-- ===== src/Candidates/Queue.antt =====
-- The retry queue of candidates: what is in it, in which order, and what is not.
use teleport_client.Base.{
  ◌≡◌, refl, ◌∙◌, Bool, true, not, ◌&&◌, ◌||◌, List, [], ◌∷◌, ◌++◌, Text, is_empty, contains,
  text_eq, keep, arith, Gathered, append_all, append_unseen, ap, append_all-fresh, fresh, distinct,
  distinct-fresh, contains-fresh, contains-append,
}
use teleport_client.Net.{NetLib}
use teleport_client.Candidates.{
  Candidate, addrs_of, is_publicly_routable_candidate_addr, build_candidate_retry_queue,
}

append_all-append :
    (g : Gathered) (xs ys : List Text) → append_all (append_all g xs) ys ≡ append_all g (xs ++ ys)
unfolding append_all
append_all-append g [] ys = refl
append_all-append g (x ∷ xs) ys = append_all-append (append_unseen g x) xs ys

module _ (net : NetLib) where
  abbrev is_public : Candidate → Bool
  is_public c = is_publicly_routable_candidate_addr net c.addr

  -- What the queue is made of, in its order: the observed endpoints, the public candidates, the others.
  abbrev pub sources_of : List Text → List Candidate → List Text
  sources_of observed advertised =
      observed
      ++ (addrs_of (keep is_public advertised)
          ++ addrs_of (keep (λ c. not (is_public c)) advertised))

  queue-fresh :
      (endpoint : Text) (observed : List Text) (advertised : List Candidate)
      → build_candidate_retry_queue net endpoint observed advertised
        ≡ fresh (endpoint ∷ []) (sources_of observed advertised)
  unfolding build_candidate_retry_queue
  queue-fresh endpoint observed advertised =
      let start : Gathered = record { seen = endpoint ∷ []; out = [] } in
      let public = addrs_of (keep is_public advertised) in
      let private = addrs_of (keep (λ c. not (is_public c)) advertised) in
      ap (λ g. g.out)
        (append_all-append (append_all start observed) public private
          ∙ append_all-append start observed (public ++ private))
      ∙ append_all-fresh start (observed ++ (public ++ private))

  contains-parts :
      (cs : List Candidate) (a : Text)
      → (contains (addrs_of (keep is_public cs)) a
          || contains (addrs_of (keep (λ c. not (is_public c)) cs)) a)
        ≡ contains (addrs_of cs) a
  unfolding contains keep
  contains-parts [] a = refl
  contains-parts (c ∷ cs) a = ground (arith, contains-parts cs a)

  -- The retry queue is the observed endpoints, then the public candidates, then the other candidates,
  -- each text at its first place only: no text comes twice, and the texts in it are exactly those
  -- observed or advertised that are not empty and not the endpoint itself.
  pub build_candidate_retry_queue_lem :
      (endpoint : Text) (observed : List Text) (advertised : List Candidate) (a : Text)
      → (build_candidate_retry_queue net endpoint observed advertised
          ≡ fresh (endpoint ∷ []) (sources_of observed advertised))
        × (distinct (build_candidate_retry_queue net endpoint observed advertised) ≡ true)
        × (contains (build_candidate_retry_queue net endpoint observed advertised) a ≡ (
            (contains observed a || contains (addrs_of advertised) a)
            && (not (is_empty a) && not (text_eq endpoint a))))
  build_candidate_retry_queue_lem endpoint observed advertised a =
      let e = queue-fresh endpoint observed advertised in
      let sources = sources_of observed advertised in
      (
        e,
        rw e (distinct-fresh (endpoint ∷ []) sources),
        rw e (contains-fresh (endpoint ∷ []) sources a ∙ parts),
      )
    where
      parts :
          (contains (sources_of observed advertised) a
            && (not (is_empty a) && not (contains (endpoint ∷ []) a)))
          ≡ ((contains observed a || contains (addrs_of advertised) a)
              && (not (is_empty a) && not (text_eq endpoint a)))
      parts =
          let public = addrs_of (keep is_public advertised) in
          let private = addrs_of (keep (λ c. not (is_public c)) advertised) in
          rw
            (
              contains-append observed (public ++ private) a,
              contains-append public private a,
              contains-parts advertised a,
            )
            (unfold contains in ground arith)
