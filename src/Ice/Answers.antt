-- ===== src/Ice/Answers.antt =====
-- Which candidate an open socket learns from the reads that follow the request.
use teleport_client.Base.{
  ◌≡◌, refl, ap, ◌∙◌, Bool, true, false, not, ◌&&◌, Option, none, some, or_else, List, [], ◌∷◌,
  ◌++◌, Text, codes, text_eq, if◌then◌else◌,
}
use teleport_client.Candidates.{Candidate}
use teleport_client.Api.{IceServer}
use teleport_client.Ice.{
  IceUrl, SocketRead, read_error, received, StunWorld, StunSocket, read_mapped, reflex_candidate,
  resolved_probe, server_probe, network_probe, stun_server_from_ice,
}

-- The server of the configuration that the request goes to, as an address.
abbrev pub asked : (Text → Option IceUrl) → StunWorld → List IceServer → Option Text → Option Text
asked url_parse w ice none = none
asked url_parse w ice (some network) = elim (stun_server_from_ice url_parse ice) [
  | none ↦ none
  | some server ↦ w.resolve network server
]

-- The addresses that the server answers with, up to the first read that fails.
unfoldable pub answers_of : (Text → Option Text) → Text → List SocketRead → List (Option Text)
answers_of mapped server [] = []
answers_of mapped server (read_error ∷ reads) = []
answers_of mapped server (received from bytes ∷ reads) =
    (if text_eq from server then mapped bytes else none) ∷ answers_of mapped server reads

unfoldable pub first_some : List (Option Text) → Option Text
first_some [] = none
first_some (none ∷ os) = first_some os
first_some (some a ∷ os) = some a

read_mapped-first_some :
    (mapped : Text → Option Text) (server : Text) (reads : List SocketRead)
    → read_mapped mapped server reads ≡ first_some (answers_of mapped server reads)
unfolding read_mapped answers_of first_some
read_mapped-first_some mapped server [] = refl
read_mapped-first_some mapped server (read_error ∷ reads) = refl
read_mapped-first_some mapped server (received from bytes ∷ reads) =
    by_read (text_eq from server) (mapped bytes) (read_mapped-first_some mapped server reads)
  where
    by_read :
        (same : Bool) (o : Option Text)
        → read_mapped mapped server reads ≡ first_some (answers_of mapped server reads)
        → (if not same
            then read_mapped mapped server reads
            else or_else o (read_mapped mapped server reads))
          ≡ first_some ((if same then o else none) ∷ answers_of mapped server reads)
    by_read false o ih = ih
    by_read true none ih = ih
    by_read true (some a) ih = refl

-- What an open socket can learn: nothing, or the type and the address of a candidate.
abbrev pub learned : Option Text → Option Candidate
learned none = none
learned (some addr) = some (record { type = codes "reflex"; addr = addr })

abbrev pub expected : StunWorld → Option StunSocket → Option Text → Option Candidate
expected w none server = none
expected w (some socket) none = none
expected w (some socket) (some server) =
    if w.deadline_set && w.written
    then learned (first_some (answers_of w.mapped server w.reads))
    else none

pub network_probe-expected :
    (url_parse : Text → Option IceUrl) (w : StunWorld) (socket : Option StunSocket)
    (ice : List IceServer) (network : Option Text)
    → (network_probe url_parse w socket ice network).0
      ≡ expected w socket (asked url_parse w ice network)
network_probe-expected url_parse w none ice none = refl
network_probe-expected url_parse w (some socket) ice none = refl
network_probe-expected url_parse w none ice (some network) = refl
network_probe-expected url_parse w (some socket) ice (some network) =
    by_server (stun_server_from_ice url_parse ice)
  where
    by_candidate : (o : Option Text) → reflex_candidate o ≡ learned o
    by_candidate none = refl
    by_candidate (some addr) = refl

    by_tests :
        (server : Text) (set written : Bool)
        → (if◌then◌else◌ {A = Option Candidate × StunSocket}
            (not set)
            (none, socket)
            (if not written then (none, record socket { has_deadline = false }) else (
              reflex_candidate (read_mapped w.mapped server w.reads),
              record socket { requests = socket.requests ++ server ∷ []; has_deadline = false },
            ))).0
          ≡ (if set && written
              then learned (first_some (answers_of w.mapped server w.reads))
              else none)
    by_tests server false written = refl
    by_tests server true false = refl
    by_tests server true true =
        ap reflex_candidate (read_mapped-first_some w.mapped server w.reads)
        ∙ by_candidate (first_some (answers_of w.mapped server w.reads))

    by_address :
        (o : Option Text) → (resolved_probe url_parse w socket o).0 ≡ expected w (some socket) o
    by_address none = refl
    by_address (some server) = by_tests server w.deadline_set w.written

    by_server :
        (o : Option Text)
        → (server_probe url_parse w socket network o).0
          ≡ expected w
              (some socket)
              (elim o [ none ↦ none | some server ↦ w.resolve network server ])
    by_server none = refl
    by_server (some server) = by_address (w.resolve network server)
