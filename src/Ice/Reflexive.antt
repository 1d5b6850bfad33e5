-- ===== src/Ice/Reflexive.antt =====
-- A reflexive candidate is what the server itself has answered, and the socket is left without a deadline.
use teleport_client.Base.{
  ◌≡◌, refl, subst, Bool, true, false, not, ◌&&◌, ◌||◌, Option, none, some, or_else, List, [], ◌∷◌,
  ◌++◌, Text, codes, text_eq, text_eq_refl, if◌then◌else◌, arith,
}
use teleport_client.Candidates.{Candidate, NetworkFamily}
use teleport_client.Api.{IceServer}
use teleport_client.Ice.{
  IceUrl, SocketRead, read_error, received, StunWorld, StunSocket, read_mapped, reflex_candidate,
  probed, resolved_probe, server_probe, network_probe, stun_network, stun_server_from_ice,
  reflexive_candidate_from_conn,
}
use teleport_client.Ice.Answers.{asked, expected, network_probe-expected}

abbrev is_addr : Option Text → Text → Bool
is_addr none addr = false
is_addr (some a) addr = text_eq a addr

-- One of the reads is from the server and carries this address.
unfoldable pub is_answered : (Text → Option Text) → Text → List SocketRead → Text → Bool
is_answered mapped server [] addr = false
is_answered mapped server (read_error ∷ reads) addr = is_answered mapped server reads addr
is_answered mapped server (received from bytes ∷ reads) addr =
    (text_eq from server && is_addr (mapped bytes) addr) || is_answered mapped server reads addr

is_answered-read_mapped :
    (mapped : Text → Option Text) (server : Text) (reads : List SocketRead) (addr : Text)
    → read_mapped mapped server reads ≡ some addr
    → is_answered mapped server reads addr ≡ true
unfolding read_mapped is_answered
is_answered-read_mapped mapped server [] addr e = cc
is_answered-read_mapped mapped server (read_error ∷ reads) addr e = cc
is_answered-read_mapped mapped server (received from bytes ∷ reads) addr e =
    by_read (text_eq from server) (mapped bytes) e
      (is_answered-read_mapped mapped server reads addr)
  where
    by_read :
        (same : Bool) (o : Option Text)
        → (if not same
            then read_mapped mapped server reads
            else or_else o (read_mapped mapped server reads))
          ≡ some addr
        → (read_mapped mapped server reads ≡ some addr
            → is_answered mapped server reads addr ≡ true)
        → ((same && is_addr o addr) || is_answered mapped server reads addr) ≡ true
    by_read false o e later = later e
    by_read true none e later = later e
    by_read true (some a) e later = let same : a ≡ addr = cc in rw (same, text_eq_refl addr) refl

abbrev pub answers : StunWorld → Option Text → Text → Bool
answers w none addr = false
answers w (some server) addr = is_answered w.mapped server w.reads addr

abbrev pub deadline_of : Option StunSocket → Bool
deadline_of none = false
deadline_of (some socket) = socket.has_deadline

module _ (url_parse : Text → Option IceUrl) (w : StunWorld) where
  abbrev IsReflexive : Option Text → Candidate → Type 0
  IsReflexive server c = (c.type ≡ codes "reflex") × (answers w server c.addr ≡ true)

  reflex_candidate-IsReflexive :
      (server : Text) (o : Option Text) (c : Candidate)
      → read_mapped w.mapped server w.reads ≡ o
      → reflex_candidate o ≡ some c
      → IsReflexive (some server) c
  reflex_candidate-IsReflexive server none c e f = (cc, cc)
  reflex_candidate-IsReflexive server (some addr) c e f =
      let same : addr ≡ c.addr = cc in
      (
        cc,
        subst (λ a. is_answered w.mapped server w.reads a ≡ true) same
            (is_answered-read_mapped w.mapped server w.reads addr e),
      )

  probed-IsReflexive :
      (socket : StunSocket) (server : Text) (c : Candidate)
      → (probed url_parse w socket server).0 ≡ some c
      → IsReflexive (some server) c
  probed-IsReflexive socket server c e = by_tests w.deadline_set w.written e
    where
      by_tests :
          (set written : Bool)
          → (if◌then◌else◌ {A = Option Candidate × StunSocket}
              (not set)
              (none, socket)
              (if not written then (none, record socket { has_deadline = false }) else (
                reflex_candidate (read_mapped w.mapped server w.reads),
                record socket { requests = socket.requests ++ server ∷ []; has_deadline = false },
              ))).0
            ≡ some c
          → IsReflexive (some server) c
      by_tests false written e = (cc, cc)
      by_tests true false e = (cc, cc)
      by_tests true true e =
          reflex_candidate-IsReflexive server (read_mapped w.mapped server w.reads) c refl e

  probed-deadline :
      (socket : StunSocket) (server : Text)
      → socket.has_deadline ≡ false
      → (probed url_parse w socket server).1.has_deadline ≡ false
  probed-deadline socket server h = ground (arith, h)

  network_probe-IsReflexive :
      (socket : Option StunSocket) (ice : List IceServer) (network : Option Text) (c : Candidate)
      → (network_probe url_parse w socket ice network).0 ≡ some c
      → IsReflexive (asked url_parse w ice network) c
  network_probe-IsReflexive socket ice none c e = (cc, cc)
  network_probe-IsReflexive none ice (some network) c e = (cc, cc)
  network_probe-IsReflexive (some socket) ice (some network) c e =
      by_server (stun_server_from_ice url_parse ice) e
    where
      by_address :
          (o : Option Text) → (resolved_probe url_parse w socket o).0 ≡ some c → IsReflexive o c
      by_address none e = (cc, cc)
      by_address (some server) e = probed-IsReflexive socket server c e

      by_server :
          (o : Option Text)
          → (server_probe url_parse w socket network o).0 ≡ some c
          → IsReflexive (elim o [ none ↦ none | some server ↦ w.resolve network server ]) c
      by_server none e = (cc, cc)
      by_server (some server) e = by_address (w.resolve network server) e

  network_probe-deadline :
      (socket : Option StunSocket) (ice : List IceServer) (network : Option Text)
      → deadline_of socket ≡ false
      → deadline_of (network_probe url_parse w socket ice network).1 ≡ false
  network_probe-deadline socket ice none h = h
  network_probe-deadline none ice (some network) h = refl
  network_probe-deadline (some socket) ice (some network) h =
      by_server (stun_server_from_ice url_parse ice)
    where
      by_address : (o : Option Text) → (resolved_probe url_parse w socket o).1.has_deadline ≡ false
      by_address none = h
      by_address (some server) = probed-deadline socket server h

      by_server :
          (o : Option Text) → (server_probe url_parse w socket network o).1.has_deadline ≡ false
      by_server none = h
      by_server (some server) = by_address (w.resolve network server)

-- No candidate, or a reflexive one with an address that has been answered.
abbrev pub is_sound : StunWorld → Option Text → Option Candidate → Bool
is_sound w server none = true
is_sound w server (some c) = text_eq c.type (codes "reflex") && answers w server c.addr

-- An open socket whose deadline and request go through gives a reflexive candidate exactly when, before
-- a read fails, a datagram from the configured STUN server carries an address, and it is the first such
-- one; datagrams from elsewhere count for nothing. Whether a candidate is found or not, the socket is left without a
-- read deadline, if it had none.
pub reflexive_candidate_from_conn_lem :
    (url_parse : Text → Option IceUrl) (w : StunWorld) (socket : Option StunSocket)
    (ice : List IceServer) (family : NetworkFamily)
    → deadline_of socket ≡ false
    → ((reflexive_candidate_from_conn url_parse w socket ice family).0
        ≡ expected w socket (asked url_parse w ice (stun_network family)))
      × (is_sound w
            (asked url_parse w ice (stun_network family))
            (reflexive_candidate_from_conn url_parse w socket ice family).0
          ≡ true)
      × (deadline_of (reflexive_candidate_from_conn url_parse w socket ice family).1 ≡ false)
unfolding reflexive_candidate_from_conn
reflexive_candidate_from_conn_lem url_parse w socket ice family h = (
  network_probe-expected url_parse w socket ice (stun_network family),
  sound (network_probe url_parse w socket ice (stun_network family)).0
      (network_probe-IsReflexive url_parse w socket ice (stun_network family)),
  network_probe-deadline url_parse w socket ice (stun_network family) h,
)
  where
    sound :
        (o : Option Candidate)
        → ((c : Candidate)
            → o ≡ some c
            → IsReflexive url_parse w (asked url_parse w ice (stun_network family)) c)
        → is_sound w (asked url_parse w ice (stun_network family)) o ≡ true
    sound none f = refl
    sound (some c) f =
        let (is_reflex, is_answer) = f c refl in
        rw (is_reflex, is_answer, text_eq_refl (codes "reflex")) refl
