-- ===== src/Probes/Answering.antt =====
-- Which target the least rank stands for: the first one that has answered.
use teleport_client.Base.{
  ℕ, suc, ◌≡◌, refl, ap, ◌∙◌, Bool, true, false, not, ◌&&◌, ◌||◌, Option, none, some, is_some,
  or_else, List, [], ◌∷◌, Text, leb, contains, text_eq, text_eq_iff, if◌then◌else◌, Bool-cases, inl,
  inr, arith,
}
use teleport_client.Net.{NetLib, AddrPort}
use teleport_client.Candidates.{Candidate, UdpSockets}
use teleport_client.Probes.{Target}
use teleport_client.Probes.Ranks.{lesser}

-- A socket of the family is open.
abbrev pub has_socket : Option UdpSockets → Bool → Bool
has_socket none is6 = false
has_socket (some s) is6 = (is6 && s.v6_open) || (not is6 && s.v4_open)

abbrev pub with_target : Option UdpSockets → Text → Option AddrPort → List Target → List Target
with_target s addr none ts = ts
with_target s addr (some ap) ts =
    if has_socket s ap.is6 then record { addr = addr; remote = ap.remote } ∷ ts else ts

-- The candidates that a probe can be sent to, in order.
unfoldable pub probed_of : NetLib → Option UdpSockets → List Candidate → List Target
probed_of net s [] = []
probed_of net s (c ∷ cs) = with_target s c.addr (net.parse_addr_port c.addr) (probed_of net s cs)

unfoldable pub any_remote : List Target → Text → Bool
any_remote [] r = false
any_remote (t ∷ ts) r = text_eq t.remote r || any_remote ts r

-- The first target that has answered; of targets with the same remote address it is the last one that
-- the answer counts for.
unfoldable pub first_answered : List Target → List Text → Option Text
first_answered [] remotes = none
first_answered (t ∷ ts) remotes =
    let later = first_answered ts remotes in
    if contains remotes t.remote && not (any_remote ts t.remote) then some t.addr else later

-- The number of the last target with a remote address, and of the first that has answered.
unfoldable pub last_from : ℕ → Text → List Target → Option ℕ
last_from n r [] = none
last_from n r (t ∷ ts) =
    or_else (last_from (suc n) r ts) (if text_eq t.remote r then some n else none)

unfoldable pub first_from : ℕ → List Target → List Text → Option ℕ
first_from n [] remotes = none
first_from n (t ∷ ts) remotes =
    let later = first_from (suc n) ts remotes in
    if contains remotes t.remote && not (any_remote ts t.remote) then some n else later

unfoldable pub least_by : (Text → Option ℕ) → List Text → Option ℕ
least_by f [] = none
least_by f (r ∷ rs) = lesser (f r) (least_by f rs)

pub or_else-none : (o : Option ℕ) → or_else o none ≡ o
or_else-none none = refl
or_else-none (some n) = refl

at_least : ℕ → Option ℕ → Bool
at_least n none = true
at_least n (some a) = leb n a

at_least-lesser :
    (n : ℕ) (o p : Option ℕ)
    → at_least n o ≡ true
    → at_least n p ≡ true
    → at_least n (lesser o p) ≡ true
unfolding at_least
at_least-lesser n none p h g = g
at_least-lesser n (some a) none h g = h
at_least-lesser n (some a) (some b) h g = ground (arith, h, g)

at_least-last_from : (n : ℕ) (r : Text) (ts : List Target) → at_least n (last_from n r ts) ≡ true
unfolding at_least last_from
at_least-last_from n r [] = refl
at_least-last_from n r (t ∷ ts) =
    by_found (last_from (suc n) r ts) (text_eq t.remote r) (at_least-last_from (suc n) r ts)
  where
    by_found :
        (o : Option ℕ) (same : Bool)
        → at_least (suc n) o ≡ true
        → at_least n (or_else o (if same then some n else none)) ≡ true
    by_found none true h = ground arith
    by_found none false h = refl
    by_found (some a) same h = ground (arith, h)

at_least-least_by :
    (n : ℕ) (ts : List Target) (rs : List Text)
    → at_least n (least_by (λ r. last_from n r ts) rs) ≡ true
unfolding least_by at_least
at_least-least_by n ts [] = refl
at_least-least_by n ts (r ∷ rs) =
    at_least-lesser n (last_from n r ts) (least_by (λ q. last_from n q ts) rs)
      (at_least-last_from n r ts) (at_least-least_by n ts rs)

lesser-at_least :
    (n : ℕ) (o : Option ℕ)
    → at_least (suc n) o ≡ true
    → (lesser (some n) o ≡ some n) × (lesser o (some n) ≡ some n)
unfolding at_least
lesser-at_least n none h = (refl, refl)
lesser-at_least n (some a) h = (ap some (ground (arith, h)), ap some (ground (arith, h)))

is_some-last_from :
    (n : ℕ) (r : Text) (ts : List Target) → is_some (last_from n r ts) ≡ any_remote ts r
unfolding last_from any_remote
is_some-last_from n r [] = refl
is_some-last_from n r (t ∷ ts) =
    by_found (last_from (suc n) r ts) (text_eq t.remote r) (is_some-last_from (suc n) r ts)
  where
    by_found :
        (o : Option ℕ) (same : Bool)
        → is_some o ≡ any_remote ts r
        → is_some (or_else o (if same then some n else none)) ≡ (same || any_remote ts r)
    by_found none true h = refl
    by_found none false h = h
    by_found (some a) true h = refl
    by_found (some a) false h = h

-- The first of the targets takes part in the least number unless a later one has its remote address.
least_by-first :
    (n : ℕ) (t : Target) (ts : List Target) (rs : List Text)
    → least_by (λ r. last_from n r (t ∷ ts)) rs ≡ (
        if contains rs t.remote && not (any_remote ts t.remote)
        then some n
        else least_by (λ r. last_from (suc n) r ts) rs)
unfolding least_by contains last_from
least_by-first n t ts [] = refl
least_by-first n t ts (r ∷ rs) =
    let later = least_by (λ q. last_from (suc n) q ts) rs in
    ap (lesser (or_else (last_from (suc n) r ts) (if text_eq t.remote r then some n else none)))
      (least_by-first n t ts rs)
    ∙ elim (Bool-cases (text_eq r t.remote)) [
      | inl e ↦
          let same : r ≡ t.remote = (text_eq_iff r t.remote).0 e in
          rw same (
            answered (last_from (suc n) t.remote ts) (any_remote ts t.remote) (contains rs t.remote)
              (text_eq t.remote t.remote) later (is_some-last_from (suc n) t.remote ts)
              ((text_eq_iff t.remote t.remote).1 refl) (at_least-least_by (suc n) ts rs))
      | inr e ↦
          unanswered (last_from (suc n) r ts) (contains rs t.remote) (any_remote ts t.remote)
            (text_eq t.remote r) (text_eq r t.remote) later
            (ground (arith, text_eq_iff r t.remote, text_eq_iff t.remote r, e)) e
            (at_least-last_from (suc n) r ts)
    ]
  where
    answered :
        (o : Option ℕ) (any there same : Bool) (later : Option ℕ)
        → is_some o ≡ any
        → same ≡ true
        → at_least (suc n) later ≡ true
        → lesser
            (or_else o (if same then some n else none))
            (if there && not any then some n else later)
          ≡ (if (same || there) && not any then some n else lesser o later)
    answered o any there false later h e g = cc
    answered none true there true later h e g = cc
    answered (some a) false there true later h e g = cc
    answered none false false true later h e g = (lesser-at_least n later g).0
    answered none false true true later h e g = ap some (omega arith)
    answered (some a) true false true later h e g = refl
    answered (some a) true true true later h e g = refl

    unanswered :
        (o : Option ℕ) (there any same same' : Bool) (later : Option ℕ)
        → same ≡ false
        → same' ≡ false
        → at_least (suc n) o ≡ true
        → lesser
            (or_else o (if same then some n else none))
            (if there && not any then some n else later)
          ≡ (if (same' || there) && not any then some n else lesser o later)
    unanswered o there any true same' later h e g = cc
    unanswered o there any false true later h e g = cc
    unanswered o false any false false later h e g = ap (λ p. lesser p later) (or_else-none o)
    unanswered o true true false false later h e g = ap (λ p. lesser p later) (or_else-none o)
    unanswered o true false false false later h e g =
        ap (λ p. lesser p (some n)) (or_else-none o) ∙ (lesser-at_least n o g).1

pub least_by-first_from :
    (n : ℕ) (ts : List Target) (rs : List Text)
    → least_by (λ r. last_from n r ts) rs ≡ first_from n ts rs
unfolding first_from least_by last_from
least_by-first_from n [] rs = all_none rs
  where
    all_none : (rs : List Text) → least_by (λ r. last_from n r []) rs ≡ none
    all_none [] = refl
    all_none (r ∷ rs) = all_none rs
least_by-first_from n (t ∷ ts) rs =
    least_by-first n t ts rs
    ∙ ap (λ o. if contains rs t.remote && not (any_remote ts t.remote) then some n else o)
        (least_by-first_from (suc n) ts rs)
