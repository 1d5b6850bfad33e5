-- ===== src/Probes/Best.antt =====
-- The probes choose the best candidate that has answered, and guess when none has.
use teleport_client.Base.{
  ℕ, ◌≡◌, refl, sym, ap, ◌∙◌, Bool, true, false, not, ◌||◌, Option, none, some, is_some, List, [],
  ◌∷◌, ◌++◌, map, Text, length, ◌==◌, if◌then◌else◌, lookup, insert, arith,
}
use teleport_client.Net.{NetLib, AddrPort}
use teleport_client.Candidates.{Candidate, UdpSockets, compatible_candidates, guess_candidate}
use teleport_client.Probes.Answering.{probed_of, first_answered}
use teleport_client.Probes.Gathered.{or_guess, address_of-least_rank}
use teleport_client.Probes.{
  Targets, ProbeEvent, response, grace_over, timer_over, probe_loop, targets_from, no_targets,
  probe_candidates, Target, add_target, has_conn,
}
use teleport_client.Probes.Ranks.{least_rank, address_of, Ends, probe_loop-least}
use teleport_client.Probes.Guess.{
  guess_of, ordered_of, compatible_candidates-ordered_of, guess_candidate-guess_of,
}

least_rank-empty : (remotes : List Text) → least_rank [] remotes ≡ none
unfolding least_rank lookup
least_rank-empty [] = refl
least_rank-empty (remote ∷ remotes) = least_rank-empty remotes

abbrev is_nil : List (Text × ℕ) → Bool
is_nil [] = true
is_nil (r ∷ ranks) = false

-- Without targets there are no ranks.
abbrev is_paired : Targets → Bool
is_paired t = is_nil t.rank_by_remote || not (length t.targets == 0)

add_target-is_paired :
    (s : Option UdpSockets) (t : Targets) (addr : Text) (o : Option AddrPort)
    → is_paired t ≡ true
    → is_paired (add_target s t addr o) ≡ true
unfolding add_target
add_target-is_paired s t addr none h = h
add_target-is_paired s t addr (some ap) h = by_conn (has_conn s ap.is6)
  where
    one_more : (ts : List Target) (x : Target) → (length (ts ++ x ∷ []) == 0) ≡ false
    one_more [] x = refl
    one_more (y ∷ ts) x = ground arith

    by_conn :
        (b : Bool)
        → is_paired (
            if not b then t else record {
              targets = t.targets ++ record { addr = addr; remote = ap.remote } ∷ [];
              rank_by_remote = insert ap.remote (length t.targets) t.rank_by_remote;
            })
          ≡ true
    by_conn false = h
    by_conn true = ground (arith, one_more t.targets (record { addr = addr; remote = ap.remote }))

targets_from-is_paired :
    (net : NetLib) (s : Option UdpSockets) (t : Targets) (ordered : List Candidate)
    → is_paired t ≡ true
    → is_paired (targets_from net s t ordered) ≡ true
unfolding targets_from
targets_from-is_paired net s t [] h = h
targets_from-is_paired net s t (c ∷ ordered) h =
    targets_from-is_paired net s (add_target s t c.addr (net.parse_addr_port c.addr)) ordered
      (add_target-is_paired s t c.addr (net.parse_addr_port c.addr) h)

-- No target, no rank, and so the guess.
least_rank-unpaired :
    (t : Targets) (guess : Text) (remotes : List Text)
    → is_paired t ≡ true
    → (length t.targets == 0) ≡ true
    → address_of t guess (least_rank t.rank_by_remote remotes) ≡ guess
least_rank-unpaired t guess remotes h e = by_ranks t.rank_by_remote (ground (arith, h, e))
  where
    by_ranks :
        (ranks : List (Text × ℕ))
        → is_nil ranks ≡ true
        → address_of t guess (least_rank ranks remotes) ≡ guess
    by_ranks [] h = ap (address_of t guess) (least_rank-empty remotes)
    by_ranks (r ∷ ranks) h = cc

timer-Ends :
    (t : Targets) (guess : Text) (later : List ProbeEvent) (best : Option ℕ)
    → probe_loop t guess best (is_some best) (timer_over ∷ later) ≡ some (address_of t guess best)
unfolding probe_loop
timer-Ends t guess later none = refl
timer-Ends t guess later (some best) = refl

grace-Ends :
    (t : Targets) (guess : Text) (later : List ProbeEvent) (best : Option ℕ)
    → probe_loop t guess best (is_some best) (grace_over ∷ timer_over ∷ later)
      ≡ some (address_of t guess best)
unfolding probe_loop
grace-Ends t guess later none = refl
grace-Ends t guess later (some best) = refl

unprobed_list :
    (net : NetLib) (s : Option UdpSockets) (ordered : List Candidate)
    → (not (length ordered == 0)
        || length (targets_from net s (no_targets net) ordered).targets == 0)
      ≡ true
unfolding targets_from
unprobed_list net s [] = refl
unprobed_list net s (c ∷ ordered) = ground arith

unprobed :
    (net : NetLib) (s : Option UdpSockets) (cands local : List Candidate)
    → (not (not (is_some s) || length (compatible_candidates net s cands local) == 0)
        || length
            (targets_from net s (no_targets net) (compatible_candidates net s cands local)).targets
          == 0)
      ≡ true
unprobed net none cands local = unfold compatible_candidates targets_from in refl
unprobed net (some s) cands local =
    unprobed_list net (some s) (compatible_candidates net (some s) cands local)

module _ (net : NetLib) (s : Option UdpSockets) (cands local : List Candidate) where
  -- The candidates that are probed, and the guess among the compatible ones.
  abbrev probed_targets : Targets
  probed_targets = targets_from net s (no_targets net) (compatible_candidates net s cands local)

  abbrev guessed : Text
  guessed = guess_candidate net (compatible_candidates net s cands local)

  chosen :
      (remotes : List Text) (tail : List ProbeEvent)
      → Ends probed_targets guessed tail
      → probe_candidates net s cands local (map response remotes ++ tail)
        ≡ some
            (address_of probed_targets guessed (least_rank probed_targets.rank_by_remote remotes))
  unfolding probe_candidates
  chosen remotes tail ends =
      by_tests (not (is_some s) || length (compatible_candidates net s cands local) == 0)
        (length probed_targets.targets == 0) (unprobed net s cands local) refl
    where
      paired : is_paired probed_targets ≡ true
      paired =
          targets_from-is_paired net s (no_targets net) (compatible_candidates net s cands local)
            refl

      by_tests :
          (no_probe no_target : Bool)
          → (not no_probe || no_target) ≡ true
          → (length probed_targets.targets == 0) ≡ no_target
          → (if no_probe
              then some guessed
              else if no_target
              then some guessed
              else probe_loop probed_targets guessed none false (map response remotes ++ tail))
            ≡ some (
                address_of probed_targets guessed
                  (least_rank probed_targets.rank_by_remote remotes))
      by_tests true true h e =
          ap some (sym (least_rank-unpaired probed_targets guessed remotes paired e))
      by_tests false true h e =
          ap some (sym (least_rank-unpaired probed_targets guessed remotes paired e))
      by_tests true false h e = cc
      by_tests false false h e = probe_loop-least probed_targets guessed tail ends remotes none

-- What the probes choose, over the candidates in order and the remote addresses that have responded.
abbrev pub choice : NetLib → Option UdpSockets → List Candidate → List Text → Text
choice net s ordered remotes =
    or_guess (guess_of net ordered) (first_answered (probed_of net s ordered) remotes)

-- Of the peer's candidates that can be reached, in the order of the ranking, and whose address has an
-- open socket, the probes choose the first from whose remote address a response has come by the end of
-- the grace period or by the timeout, in whatever order the responses came; where candidates share a
-- remote address, a response counts for the last of them. Where none has come they choose the first
-- candidate with a public address, or else the first one. Responses from other addresses change nothing.
pub probe_candidates_lem :
    (net : NetLib) (s : Option UdpSockets) (cands local : List Candidate) (remotes : List Text)
    (later : List ProbeEvent)
    → (probe_candidates net s cands local (map response remotes ++ timer_over ∷ later)
        ≡ some (choice net s (ordered_of net s cands local) remotes))
      × (probe_candidates net s cands local
            (map response remotes ++ grace_over ∷ timer_over ∷ later)
          ≡ some (choice net s (ordered_of net s cands local) remotes))
probe_candidates_lem net s cands local remotes later = (
  chosen net s cands local remotes (timer_over ∷ later)
        (timer-Ends (probed_targets net s cands local) (guessed net s cands local) later)
      ∙ ap some chooses,
  chosen net s cands local remotes (grace_over ∷ timer_over ∷ later)
        (grace-Ends (probed_targets net s cands local) (guessed net s cands local) later)
      ∙ ap some chooses,
)
  where
    chooses :
        address_of
          (probed_targets net s cands local)
          (guessed net s cands local)
          (least_rank (probed_targets net s cands local).rank_by_remote remotes)
        ≡ choice net s (ordered_of net s cands local) remotes
    chooses =
        address_of-least_rank net s (compatible_candidates net s cands local)
          (guessed net s cands local) remotes
        ∙ rw
            (
              guess_candidate-guess_of net (compatible_candidates net s cands local),
              compatible_candidates-ordered_of net s cands local,
            )
            refl
