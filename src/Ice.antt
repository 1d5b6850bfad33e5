-- ===== src/Ice.antt =====
-- stun.go and main.go: the servers of the ICE configuration, the server-reflexive candidates, and what is
-- required of both. `url.Parse`, the resolver and the reader of a STUN response are arguments, and the reads
-- of a socket are the list of what the world gives.
pub mod Servers
pub mod Answers
pub mod Reflexive
use teleport_client.Base.{
  ℕ, Bool, true, false, not, ◌&&◌, ◌||◌, Option, none, some, is_some, List, [], ◌∷◌, ◌++◌, Text,
  codes, is_empty, is_nonempty, has_byte, text_eq, ◌==◌, if◌then◌else◌, or_else,
}
use teleport_client.Candidates.{
  Candidate, NetworkFamily, family_dual, family_ipv4, family_ipv6, is_ipv4_only, is_ipv6_only,
}
use teleport_client.Api.{IceServer}

-- Of a `*url.URL`: `Scheme`, `Hostname()`, `Port()` and the query's `transport`.
pub record IceUrl : Type 0 where
  pub scheme : Text
  pub hostname : Text
  pub port : Text
  pub transport : Text

-- `strings.Replace(s, ":", "://", 1)`.
unfoldable pub with_authority : Text → Text
with_authority [] = []
with_authority (c ∷ s) =
    let rest = with_authority s in if c == b':' then codes "://" ++ s else c ∷ rest

-- `net.JoinHostPort`.
unfoldable pub join_host_port : Text → Text → Text
join_host_port host port =
    if has_byte b':' host then b'[' ∷ (host ++ (b']' ∷ b':' ∷ port)) else host ++ b':' ∷ port

module _ (url_parse : Text → Option IceUrl) where
  unfoldable pub parse_console_ice_url : Text → Option IceUrl
  unfolding with_authority
  parse_console_ice_url raw_url = url_parse (with_authority raw_url)

  abbrev pub port_or_default : Text → Text
  port_or_default port = if is_empty port then codes "3478" else port

  abbrev pub stun_host_port : Option IceUrl → Option Text
  stun_host_port none = none
  stun_host_port (some u) =
      if not (text_eq u.scheme (codes "stun")) || is_empty u.hostname
      then none
      else some (join_host_port u.hostname (port_or_default u.port))

  abbrev pub turn_host_port : Option IceUrl → Option Text
  turn_host_port none = none
  turn_host_port (some u) =
      if not (text_eq u.scheme (codes "turn"))
        || (is_empty u.hostname || not (text_eq u.transport (codes "udp")))
      then none
      else some (join_host_port u.hostname (port_or_default u.port))

  -- The inner loop, and then the loop over the servers.
  unfoldable pub server_of_urls : (Option IceUrl → Option Text) → List Text → Option Text
  unfolding parse_console_ice_url
  server_of_urls host_port [] = none
  server_of_urls host_port (raw_url ∷ urls) =
      or_else (host_port (parse_console_ice_url raw_url)) (server_of_urls host_port urls)

  unfoldable pub server_from_ice : (Option IceUrl → Option Text) → List IceServer → Option Text
  unfolding server_of_urls
  server_from_ice host_port [] = none
  server_from_ice host_port (s ∷ ice) =
      or_else (server_of_urls host_port s.urls) (server_from_ice host_port ice)

  unfoldable pub stun_server_from_ice : List IceServer → Option Text
  unfolding server_from_ice join_host_port
  stun_server_from_ice ice = server_from_ice stun_host_port ice

  unfoldable pub turn_server_from_ice : List IceServer → Option Text
  unfolding server_from_ice join_host_port
  turn_server_from_ice ice = server_from_ice turn_host_port ice

  abbrev pub any_reflex : List Candidate → Bool
  any_reflex [] = false
  any_reflex (c ∷ local) = text_eq c.type (codes "reflex") || any_reflex local

  -- Whether the error is nil.
  unfoldable pub validate_turn_prerequisites : List IceServer → List Candidate → Bool
  unfolding stun_server_from_ice turn_server_from_ice
  validate_turn_prerequisites ice local =
      if not (is_some (stun_server_from_ice ice))
      then false
      else if not (is_some (turn_server_from_ice ice))
      then false
      else any_reflex local

-- `validateLocalCandidates`: whether the error is nil.
unfoldable pub validate_local_candidates : List Candidate → Bool
validate_local_candidates [] = false
validate_local_candidates (c ∷ local) = true

unfoldable pub stun_network : NetworkFamily → Option Text
stun_network family_ipv4 = some (codes "udp4")
stun_network family_ipv6 = some (codes "udp6")
stun_network family_dual = none

-- A read of the socket: an error, which the deadline is one of, or the sender and the datagram.
pub data SocketRead : Type 0 where
  read_error : SocketRead
  received : Text → Text → SocketRead

-- Of the world: the address that a server resolves to in a network, whether the deadline can be set and
-- the request written, the reads that follow, and the address in a response.
pub record StunWorld : Type 0 where
  pub resolve : Text → Text → Option Text
  pub deadline_set : Bool
  pub written : Bool
  pub reads : List SocketRead
  pub mapped : Text → Option Text

-- The socket: what has been written to it, and whether a read deadline stands.
pub record StunSocket : Type 0 where
  pub requests : List Text
  pub has_deadline : Bool

-- The loop over the reads; where they end, the code still waits.
unfoldable pub read_mapped : (Text → Option Text) → Text → List SocketRead → Option Text
read_mapped mapped server [] = none
read_mapped mapped server (read_error ∷ reads) = none
read_mapped mapped server (received from data_read ∷ reads) =
    let rest = read_mapped mapped server reads in
    if not (text_eq from server) then rest else or_else (mapped data_read) rest

abbrev pub reflex_candidate : Option Text → Option Candidate
reflex_candidate none = none
reflex_candidate (some addr) = some (record { type = codes "reflex"; addr = addr })

module _ (url_parse : Text → Option IceUrl) (w : StunWorld) where
  abbrev pub probed : StunSocket → Text → Option Candidate × StunSocket
  probed socket server =
      if not w.deadline_set
      then (none, socket)
      else if not w.written
      then (none, record socket { has_deadline = false })
      else (
        reflex_candidate (read_mapped w.mapped server w.reads),
        record socket { requests = socket.requests ++ server ∷ []; has_deadline = false },
      )

  abbrev pub resolved_probe : StunSocket → Option Text → Option Candidate × StunSocket
  resolved_probe socket none = (none, socket)
  resolved_probe socket (some server) = probed socket server

  abbrev pub server_probe : StunSocket → Text → Option Text → Option Candidate × StunSocket
  server_probe socket network none = (none, socket)
  server_probe socket network (some server) = resolved_probe socket (w.resolve network server)

  abbrev pub network_probe :
      Option StunSocket → List IceServer → Option Text → Option Candidate × Option StunSocket
  network_probe socket ice none = (none, socket)
  network_probe none ice (some network) = (none, none)
  network_probe (some socket) ice (some network) =
      let (c, after) = server_probe socket network (stun_server_from_ice url_parse ice) in
      (c, some after)

  -- The candidate, or `none` for an error, and the socket afterwards; `none` is a socket that is not open.
  unfoldable pub reflexive_candidate_from_conn :
      Option StunSocket → List IceServer → NetworkFamily → Option Candidate × Option StunSocket
  unfolding stun_network stun_server_from_ice read_mapped
  reflexive_candidate_from_conn socket ice family = network_probe socket ice (stun_network family)

abbrev pub with_reflex : List Candidate → Option Candidate → List Candidate
with_reflex local none = local
with_reflex local (some reflex) = local ++ reflex ∷ []

-- The candidates of the interfaces and the reflexive ones, with both sockets afterwards.
unfoldable pub gather_local_candidates :
    (Text → Option IceUrl)
    → StunWorld
    → StunWorld
    → Option StunSocket
    → Option StunSocket
    → NetworkFamily
    → List IceServer
    → List Candidate
    → List Candidate × Option StunSocket × Option StunSocket
unfolding reflexive_candidate_from_conn
gather_local_candidates url_parse world4 world6 socket4 socket6 family ice interfaces =
    let (reflex4, after4) =
      reflexive_candidate_from_conn url_parse world4 socket4 ice family_ipv4 in
    let (reflex6, after6) =
      reflexive_candidate_from_conn url_parse world6 socket6 ice family_ipv6 in
    let local4 = if is_ipv6_only family then interfaces else with_reflex interfaces reflex4 in
    (
      if is_ipv4_only family then local4 else with_reflex local4 reflex6,
      if is_ipv6_only family then socket4 else after4,
      if is_ipv4_only family then socket6 else after6,
    )
