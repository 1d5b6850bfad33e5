-- ===== src/Probes/Gathered.antt =====
-- The targets that the loop over the candidates gathers, and their ranks.
use mathlib.Core.List.{append_assoc, append-nil}
use std.Path.{fun_ext}
use teleport_client.Base.{
  ℕ, suc, ◌≡◌, refl, sym, ap, ◌∙◌, Bool, true, false, not, ◌&&◌, Option, none, some, or_else, List,
  [], ◌∷◌, ◌++◌, Text, length, contains, text_eq, if◌then◌else◌, get_elem?, lookup, insert,
  lookup-insert, arith,
}
use teleport_client.Net.{NetLib, AddrPort}
use teleport_client.Candidates.{Candidate, UdpSockets}
use teleport_client.Probes.{
  Target, Targets, has_conn, add_target, targets_from, no_targets, target_addr,
}
use teleport_client.Probes.Ranks.{lesser, least_rank, address_of}
use teleport_client.Probes.Answering.{
  has_socket, with_target, probed_of, any_remote, first_answered, last_from, first_from, least_by,
  or_else-none, least_by-first_from,
}

length-snoc : (ts : List Target) (t : Target) → length (ts ++ t ∷ []) ≡ suc (length ts)
length-snoc [] t = refl
length-snoc (u ∷ ts) t = ap suc (length-snoc ts t)

has_conn-has_socket : (s : Option UdpSockets) (is6 : Bool) → has_conn s is6 ≡ has_socket s is6
has_conn-has_socket none is6 = refl
has_conn-has_socket (some s) is6 = ground arith

-- What the loop over the candidates has gathered.
record Gathers (s : Option UdpSockets) (t u : Targets) (ts : List Target) : Type 0 where
  all : u.targets ≡ t.targets ++ ts
  ranks :
      (r : Text)
      → lookup r u.rank_by_remote
        ≡ or_else (last_from (length t.targets) r ts) (lookup r t.rank_by_remote)

targets_from-Gathers :
    (net : NetLib) (s : Option UdpSockets) (t : Targets) (cs : List Candidate)
    → Gathers s t (targets_from net s t cs) (probed_of net s cs)
unfolding targets_from probed_of add_target last_from
targets_from-Gathers net s t [] = record { all = sym (append-nil t.targets); ranks = λ r. refl }
targets_from-Gathers net s t (c ∷ cs) =
    by_addr (net.parse_addr_port c.addr) (λ u. targets_from-Gathers net s u cs)
  where
    by_remote :
        (o : Option ℕ) (same : Bool) (p : Option ℕ)
        → or_else o (if same then some (length t.targets) else p)
          ≡ or_else (or_else o (if same then some (length t.targets) else none)) p
    by_remote none true p = refl
    by_remote none false p = refl
    by_remote (some n) same p = refl

    by_conn :
        (a : AddrPort) (present : Bool)
        → ((u : Targets) → Gathers s u (targets_from net s u cs) (probed_of net s cs))
        → Gathers s t
            (targets_from net s
              (if not present then t else record {
                targets = t.targets ++ record { addr = c.addr; remote = a.remote } ∷ [];
                rank_by_remote = insert a.remote (length t.targets) t.rank_by_remote;
              })
              cs)
            (if present
              then record { addr = c.addr; remote = a.remote } ∷ probed_of net s cs
              else probed_of net s cs)
    by_conn a false again = again t
    by_conn a true again =
        let target : Target = record { addr = c.addr; remote = a.remote } in
        let rest = again (record {
          targets = t.targets ++ target ∷ [];
          rank_by_remote = insert a.remote (length t.targets) t.rank_by_remote;
        }) in
        record {
          all = rest.all ∙ append_assoc t.targets (target ∷ []) (probed_of net s cs);
          ranks = λ r.
              rest.ranks r
              ∙ rw
                  (
                    length-snoc t.targets target,
                    lookup-insert a.remote r (length t.targets) t.rank_by_remote,
                  )
                  (by_remote (last_from (suc (length t.targets)) r (probed_of net s cs))
                    (text_eq a.remote r) (lookup r t.rank_by_remote));
        }

    by_addr :
        (o : Option AddrPort)
        → ((u : Targets) → Gathers s u (targets_from net s u cs) (probed_of net s cs))
        → Gathers s t
            (targets_from net s (add_target s t c.addr o) cs)
            (with_target s c.addr o (probed_of net s cs))
    by_addr none again = again t
    by_addr (some a) again = rw (has_conn-has_socket s a.is6) (by_conn a (has_socket s a.is6) again)

-- The address of a number in a list of targets, or else the guess.
abbrev pub or_guess : Text → Option Text → Text
or_guess guess none = guess
or_guess guess (some addr) = addr

get_elem?-append :
    (before : List Target) (t : Target) (after : List Target)
    → get_elem? (before ++ t ∷ after) (length before) ≡ some t
get_elem?-append [] t after = refl
get_elem?-append (u ∷ before) t after = get_elem?-append before t after

address_of-first_from :
    (guess : Text) (ranks : List (Text × ℕ)) (before ts : List Target) (rs : List Text)
    → address_of
        (record { targets = before ++ ts; rank_by_remote = ranks })
        guess
        (first_from (length before) ts rs)
      ≡ or_guess guess (first_answered ts rs)
unfolding first_from first_answered
address_of-first_from guess ranks before [] rs = refl
address_of-first_from guess ranks before (t ∷ ts) rs =
    by_test (contains rs t.remote && not (any_remote ts t.remote))
      (address_of-first_from guess ranks (before ++ t ∷ []) ts rs)
  where
    by_test :
        (taken : Bool)
        → address_of
            (record { targets = (before ++ t ∷ []) ++ ts; rank_by_remote = ranks })
            guess
            (first_from (length (before ++ t ∷ [])) ts rs)
          ≡ or_guess guess (first_answered ts rs)
        → address_of
            (record { targets = before ++ t ∷ ts; rank_by_remote = ranks })
            guess
            (if taken then some (length before) else first_from (suc (length before)) ts rs)
          ≡ or_guess guess (if taken then some t.addr else first_answered ts rs)
    by_test true later = ap target_addr (get_elem?-append before t ts)
    by_test false later =
        rw (sym (append_assoc before (t ∷ []) ts), sym (length-snoc before t)) later

least_rank-least_by :
    (ranks : List (Text × ℕ)) (rs : List Text)
    → least_rank ranks rs ≡ least_by (λ r. lookup r ranks) rs
unfolding least_rank least_by
least_rank-least_by ranks [] = refl
least_rank-least_by ranks (r ∷ rs) = ap (lesser (lookup r ranks)) (least_rank-least_by ranks rs)

-- The least rank among the answers stands for the first target that has answered.
pub address_of-least_rank :
    (net : NetLib) (s : Option UdpSockets) (cs : List Candidate) (guess : Text) (rs : List Text)
    → address_of
        (targets_from net s (no_targets net) cs)
        guess
        (least_rank (targets_from net s (no_targets net) cs).rank_by_remote rs)
      ≡ or_guess guess (first_answered (probed_of net s cs) rs)
unfolding lookup
address_of-least_rank net s cs guess rs =
    let gathered = targets_from-Gathers net s (no_targets net) cs in
    let u = targets_from net s (no_targets net) cs in
    let ts = probed_of net s cs in
    let number : least_rank u.rank_by_remote rs ≡ first_from 0 ts rs =
      least_rank-least_by u.rank_by_remote rs
      ∙ ap (λ f. least_by f rs) (fun_ext (λ r. gathered.ranks r ∙ unlooked r (last_from 0 r ts)))
      ∙ least_by-first_from 0 ts rs in
    ap (address_of u guess) number
    ∙ ap
        (λ xs.
          address_of (record { targets = xs; rank_by_remote = u.rank_by_remote }) guess
            (first_from 0 ts rs))
        gathered.all
    ∙ address_of-first_from guess u.rank_by_remote [] ts rs
  where
    unlooked : (r : Text) (o : Option ℕ) → or_else o (lookup r (no_targets net).rank_by_remote) ≡ o
    unlooked r o = or_else-none o
