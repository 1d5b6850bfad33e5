-- ===== src/Listener/Guard.antt =====
-- What the early listener lets through: the log stays bounded, and only an allowed tuple that knows
-- the secret moves the tracker.
use teleport_client.Base.{
  ◌≤◌, ◌≡◌, refl, sym, Bool, true, false, ◌&&◌, ◌||◌, Option, none, some, List, [], ◌∷◌, ◌++◌, Text,
  ℤ, is_empty, is_nonempty, text_eq, text_eq→eq, text_eq_refl, length, arith, Bool-cases, inl, inr,
  length-append,
}
use teleport_client.Nomination.{NominationTracker}
use teleport_client.Nomination.Consistency.{IsConsistent, observe-Observed, observe-IsConsistent}
use teleport_client.Listener.{
  StunLib, PacketLog, EarlyListener, allows, append_log, log_packet, max_early_nomination_logs,
  valid_stun_integrity, respond_to_stun_binding_request, read_packet, read_loop,
}

length-append_log :
    (logs : List PacketLog) (p : PacketLog)
    → length logs ≤ max_early_nomination_logs
    → length (append_log logs p) ≤ max_early_nomination_logs
unfolding append_log
length-append_log [] p h = ground arith
length-append_log (q ∷ logs) p h = ground (arith, length-append logs (p ∷ []), h)

module _ (lib : StunLib) (stun_secret : Text) where
  -- One of the packets has passed: its tuple is allowed, and its integrity holds under the secret.
  unfoldable pub passed : Option (List Text) → Text → List (Text × Text) → Bool
  passed allowed a [] = false
  passed allowed a ((addr, message) ∷ packets) =
      (text_eq addr a && (allows allowed addr && valid_stun_integrity lib stun_secret message))
      || passed allowed a packets

  abbrev pub all_named : List (Text × Text) → Bool
  all_named [] = true
  all_named ((addr, message) ∷ packets) = is_nonempty addr && all_named packets

  -- One packet from a consistent tracker.
  record Passes (l : EarlyListener) (addr message : Text) (l' : EarlyListener) : Type 0 where
    read : read_packet lib stun_secret l addr message ≡ some l'
    consistent : IsConsistent l'.nomination
    same_allowed : l'.allowed ≡ l.allowed
    bounded : length l'.logs ≤ max_early_nomination_logs
    selection :
        (text_eq l.nomination.selected l'.nomination.selected
          || (text_eq addr l'.nomination.selected
              && (allows l.allowed addr && valid_stun_integrity lib stun_secret message)))
        ≡ true

  read_packet-Passes :
      (l : EarlyListener) (addr message : Text)
      → IsConsistent l.nomination
      → length l.logs ≤ max_early_nomination_logs
      → is_empty addr ≡ false
      → (l' : EarlyListener) × Passes l addr message l'
  read_packet-Passes l addr message v h named = elim (Bool-cases (allows l.allowed addr)) [
    | inr refused ↦ (
      l,
      record {
        read = unfold read_packet in rw refused refl;
        consistent = v;
        same_allowed = refl;
        bounded = h;
        selection = ground (arith, text_eq_refl l.nomination.selected);
      },
    )
    | inl allowed ↦ elim (Bool-cases (lib.decodes message && lib.is_binding_request message)) [
      | inr other ↦ (
        logged,
        record {
          read = unfold read_packet in rw (allowed, other) refl;
          consistent = v;
          same_allowed = refl;
          bounded = logged_bound;
          selection = ground (arith, text_eq_refl l.nomination.selected);
        },
      )
      | inl request ↦ elim (Bool-cases (valid_stun_integrity lib stun_secret message)) [
        | inr forged ↦ (
          logged,
          record {
            read =
                unfold read_packet respond_to_stun_binding_request in
                rw (allowed, request, forged) refl;
            consistent = v;
            same_allowed = refl;
            bounded = logged_bound;
            selection = ground (arith, text_eq_refl l.nomination.selected);
          },
        )
        | inl valid ↦ by_wait allowed request valid (lib.nomination_wait message) refl
      ]
    ]
  ]
    where
      logged : EarlyListener
      logged = record l { logs = append_log l.logs (log_packet lib stun_secret true addr message) }

      logged_bound : length logged.logs ≤ max_early_nomination_logs
      logged_bound = length-append_log l.logs _ h

      answered : NominationTracker → EarlyListener
      answered t = record logged {
        nomination = t;
        sent = l.sent ++ (addr, lib.success stun_secret message) ∷ [];
        logs =
            append_log logged.logs
              (log_packet lib stun_secret false addr (lib.success stun_secret message));
      }

      by_wait :
          allows l.allowed addr ≡ true
          → (lib.decodes message && lib.is_binding_request message) ≡ true
          → valid_stun_integrity lib stun_secret message ≡ true
          → (w : Option ℤ) → lib.nomination_wait message ≡ w
          → (l' : EarlyListener) × Passes l addr message l'
      by_wait allowed request valid none e = (
        answered l.nomination,
        record {
          read =
              unfold read_packet respond_to_stun_binding_request in
              rw (allowed, request, valid, e) refl;
          consistent = v;
          same_allowed = refl;
          bounded = length-append_log logged.logs _ logged_bound;
          selection = ground (arith, text_eq_refl l.nomination.selected);
        },
      )
      by_wait allowed request valid (some w) e =
          let (t, got, at, o) = observe-Observed l.nomination v addr w in
          (
            answered t,
            record {
              read =
                  unfold read_packet respond_to_stun_binding_request in
                  rw (allowed, request, valid, e, at) refl;
              consistent = observe-IsConsistent l.nomination t addr w got v named o;
              same_allowed = refl;
              bounded = length-append_log logged.logs _ logged_bound;
              selection = rw o.selection (
                  ground
                    (arith, text_eq_refl addr, text_eq_refl l.nomination.selected, allowed, valid));
            },
          )

  -- From a listener with a consistent tracker and a log of at most 500 entries, packets from tuples with
  -- names never make the tracker panic, the log stays at most at 500 entries, and a selection that
  -- changes is one of the tuples, which is allowed and has sent a packet with a valid integrity.
  pub read_loop-allows :
      (l : EarlyListener) (packets : List (Text × Text))
      → IsConsistent l.nomination
      → length l.logs ≤ max_early_nomination_logs
      → all_named packets ≡ true
      → (l' : EarlyListener) × (read_loop lib stun_secret l packets ≡ some l')
        × (length l'.logs ≤ max_early_nomination_logs)
        × ((text_eq l.nomination.selected l'.nomination.selected
              || passed l.allowed l'.nomination.selected packets)
            ≡ true)
  unfolding read_loop passed
  read_loop-allows l [] v h named = (l, refl, h, ground (arith, text_eq_refl l.nomination.selected))
  read_loop-allows l ((addr, message) ∷ packets) v h named =
      let (l', p) = read_packet-Passes l addr message v h (ground (arith, named)) in
      let (l'', read, bounded, selection) =
        read_loop-allows l' packets p.consistent p.bounded (ground (arith, named)) in
      (l'', rw (p.read, read_loop) read, bounded, both l' l'' p selection)
    where
      both :
          (l' l'' : EarlyListener)
          → Passes l addr message l'
          → (text_eq l'.nomination.selected l''.nomination.selected
              || passed l'.allowed l''.nomination.selected packets)
            ≡ true
          → (text_eq l.nomination.selected l''.nomination.selected
              || ((text_eq addr l''.nomination.selected
                    && (allows l.allowed addr && valid_stun_integrity lib stun_secret message))
                  || passed l.allowed l''.nomination.selected packets))
            ≡ true
      both l' l'' p selection =
          elim (Bool-cases (text_eq l'.nomination.selected l''.nomination.selected)) [
            | inl same ↦
                rw (sym (text_eq→eq l'.nomination.selected l''.nomination.selected same))
                  (ground (arith, p.selection))
            | inr other ↦ ground (arith, other, rw p.same_allowed at selection)
          ]
