-- ===== src/Candidates/Ranking.antt =====
-- The ranking of candidates and the guess that is made when none of them answers.
use mathlib.Core.List.{Perm}
use std.Path.{fun_ext}
use teleport_client.Base.{
  ◌≡◌, refl, sym, subst, ℕ, not, ◌&&◌, Option, none, some, ltb, ◌==◌, ltb_ℤ, pos, codes, text_eq,
  sort_by_score, inl, inr, Bool-cases, Bool, true, false, ◌||◌, List, [], ◌∷◌, Text, contains,
  text_eq_refl, keep, arith, if◌then◌else◌,
}
use teleport_client.Net.{NetLib, AddrPort}
use teleport_client.Candidates.{
  Candidate, is_ipv6_addr, lower_by_two, score, rank_candidates, first_public, guess_candidate,
  is_publicly_routable_candidate_addr, addrs_of,
}
use teleport_client.Candidates.Sorting.{ordered, same_score, sort-perm, sort-ordered, sort-stable}

-- The place of a type: the interfaces' addresses, then the reflexive ones, the relays, and the others.
abbrev pub type_class : Text → ℕ
type_class type =
    if text_eq type (codes "iface")
    then 0
    else if text_eq type (codes "reflex")
    then 1
    else if text_eq type (codes "turn")
    then 2
    else 3

abbrev pub is_v6_addr : Option AddrPort → Bool
is_v6_addr none = false
is_v6_addr (some ap) = ap.is6

module _ (net : NetLib) where
  -- Whether a candidate may stand before another: a lower class of type, or the same class and not an
  -- IPv4 address before an IPv6 one.
  abbrev pub may_precede : Candidate → Candidate → Bool
  may_precede c d =
      ltb (type_class c.type) (type_class d.type)
      || (type_class c.type == type_class d.type
          && (is_v6_addr (net.parse_addr_port c.addr)
              || not (is_v6_addr (net.parse_addr_port d.addr))))

  unfoldable pub in_rank_order : List Candidate → Bool
  in_rank_order [] = true
  in_rank_order (c ∷ []) = true
  in_rank_order (c ∷ d ∷ cs) = may_precede c d && in_rank_order (d ∷ cs)

  -- Neither is ranked before the other.
  abbrev pub same_rank : Candidate → Candidate → Bool
  same_rank k c = may_precede k c && may_precede c k

  score-may_precede : (c d : Candidate) → not (ltb_ℤ (score net d) (score net c)) ≡ may_precede c d
  unfolding score
  score-may_precede c d =
      by_tests (text_eq c.type (codes "iface")) (text_eq c.type (codes "reflex"))
        (text_eq c.type (codes "turn")) (text_eq d.type (codes "iface"))
        (text_eq d.type (codes "reflex")) (text_eq d.type (codes "turn"))
        (net.parse_addr_port c.addr) (net.parse_addr_port d.addr)
    where
      by_families :
          (i r t i' r' t' six six' : Bool)
          → not (
              ltb_ℤ
                (if six'
                  then lower_by_two (if i' then 0 else if r' then 10 else if t' then 20 else 100)
                  else pos (if i' then 0 else if r' then 10 else if t' then 20 else 100))
                (if six
                  then lower_by_two (if i then 0 else if r then 10 else if t then 20 else 100)
                  else pos (if i then 0 else if r then 10 else if t then 20 else 100)))
            ≡ (ltb
                  (if i then 0 else if r then 1 else if t then 2 else 3)
                  (if i' then 0 else if r' then 1 else if t' then 2 else 3)
                || ((if i then 0 else if r then 1 else if t then 2 else 3)
                      == (if i' then 0 else if r' then 1 else if t' then 2 else 3)
                    && (six || not six')))
      by_families i r t i' r' t' six six' = ground arith

      by_tests :
          (i r t i' r' t' : Bool) (o o' : Option AddrPort)
          → not (
              ltb_ℤ
                (if is_ipv6_addr o'
                  then lower_by_two (if i' then 0 else if r' then 10 else if t' then 20 else 100)
                  else pos (if i' then 0 else if r' then 10 else if t' then 20 else 100))
                (if is_ipv6_addr o
                  then lower_by_two (if i then 0 else if r then 10 else if t then 20 else 100)
                  else pos (if i then 0 else if r then 10 else if t then 20 else 100)))
            ≡ (ltb
                  (if i then 0 else if r then 1 else if t then 2 else 3)
                  (if i' then 0 else if r' then 1 else if t' then 2 else 3)
                || ((if i then 0 else if r then 1 else if t then 2 else 3)
                      == (if i' then 0 else if r' then 1 else if t' then 2 else 3)
                    && (is_v6_addr o || not (is_v6_addr o'))))
      by_tests i r t i' r' t' none none = by_families i r t i' r' t' false false
      by_tests i r t i' r' t' none (some a) = by_families i r t i' r' t' false a.is6
      by_tests i r t i' r' t' (some a) none = by_families i r t i' r' t' a.is6 false
      by_tests i r t i' r' t' (some a) (some b) = by_families i r t i' r' t' a.is6 b.is6

  in_rank_order-ordered : (cs : List Candidate) → ordered (score net) cs ≡ in_rank_order cs
  unfolding ordered in_rank_order
  in_rank_order-ordered [] = refl
  in_rank_order-ordered (c ∷ []) = refl
  in_rank_order-ordered (c ∷ d ∷ cs) =
      rw (score-may_precede c d, in_rank_order-ordered (d ∷ cs)) refl

  same_score-same_rank : (k c : Candidate) → same_score (score net) (score net k) c ≡ same_rank k c
  same_score-same_rank k c = rw (score-may_precede k c, score-may_precede c k) refl

  -- The ranking drops and invents no candidate; it puts the addresses of interfaces first, then the
  -- reflexive ones, the relays and all others, and within each of these IPv6 before IPv4; and it keeps
  -- the peer's order among candidates of the same class and family.
  pub rank_candidates_lem :
      (cs : List Candidate) (k : Candidate)
      → Perm (rank_candidates net cs) cs
        × (in_rank_order (rank_candidates net cs) ≡ true)
        × (keep (same_rank k) (rank_candidates net cs) ≡ keep (same_rank k) cs)
  unfolding rank_candidates
  rank_candidates_lem cs k = (
    sort-perm (score net) cs,
    rw (sym (in_rank_order-ordered (sort_by_score (score net) cs))) (sort-ordered (score net) cs),
    subst (λ p. keep p (sort_by_score (score net) cs) ≡ keep p cs)
        (fun_ext (same_score-same_rank k)) (sort-stable (score net) (score net k) cs),
  )

  unfoldable pub any_public : List Candidate → Bool
  any_public [] = false
  any_public (c ∷ cs) = is_publicly_routable_candidate_addr net c.addr || any_public cs

  first_public_cases :
      (d : Text) (cs : List Candidate)
      → (any_public cs ≡ true
          → (is_publicly_routable_candidate_addr net (first_public net d cs) ≡ true)
            × (contains (addrs_of cs) (first_public net d cs) ≡ true))
        × (any_public cs ≡ false → first_public net d cs ≡ d)
  unfolding first_public any_public contains
  first_public_cases d [] = (λ h. cc, λ h. refl)
  first_public_cases d (c ∷ cs) =
      let (found, absent) = first_public_cases d cs in
      (λ h. ground (arith, found, text_eq_refl c.addr), λ h. ground (arith, absent))

  -- The guess is a candidate's address: a public one if there is any, or else the first one's.
  pub guess_candidate_lem :
      (c : Candidate) (cs : List Candidate)
      → (contains (addrs_of (c ∷ cs)) (guess_candidate net (c ∷ cs)) ≡ true)
        × (is_publicly_routable_candidate_addr net (guess_candidate net (c ∷ cs))
            ≡ any_public (c ∷ cs))
        × (guess_candidate net (c ∷ cs)
            ≡ (if any_public (c ∷ cs) then guess_candidate net (c ∷ cs) else c.addr))
  unfolding guess_candidate
  guess_candidate_lem c cs =
      let (found, absent) = first_public_cases c.addr (c ∷ cs) in
      (
        elim (Bool-cases (any_public (c ∷ cs))) [
          | inl e ↦ let (is_public, is_there) = found e in is_there
          | inr e ↦ rw (absent e) first_is_there
        ],
        elim (Bool-cases (any_public (c ∷ cs))) [
          | inl e ↦ let (is_public, is_there) = found e in rw e is_public
          | inr e ↦ rw (absent e, e) (not_public e)
        ],
        elim (Bool-cases (any_public (c ∷ cs))) [ inl e ↦ rw e refl | inr e ↦ rw e (absent e) ],
      )
    where
      first_is_there : contains (addrs_of (c ∷ cs)) c.addr ≡ true
      first_is_there = unfold contains in ground (arith, text_eq_refl c.addr)

      not_public :
          any_public (c ∷ cs) ≡ false → is_publicly_routable_candidate_addr net c.addr ≡ false
      not_public e = unfold any_public in ground (arith, e)
