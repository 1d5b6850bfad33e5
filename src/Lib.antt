-- ===== src/Lib.antt =====
-- teleport-client: models of the client and proofs about them.
--
-- The client pairs with a console over a cloud API, exchanges candidates (host:port tuples), lets the
-- console nominate one of them by STUN requests, brings up a WireGuard device over it, and supervises
-- the tunnel by UDP echo requests that also probe the path MTU. The parts and their models:
--
-- - peermtu.go: `peerMTUProber` is PeerMtu (its methods arm, next_probe_mtu, record_probe_result, reset);
--   its invariant is in PeerMtu/Invariant, a whole search in PeerMtu/Search; `buildPaddedEchoPayload` is
--   in PeerMtu/Padding.
-- - udpecho.go: `udpEchoHealth` and `udpEchoStats` are Echo, `runUDPEchoPinger` is Echo/Pinger round by
--   round, its start and the reader of a response are Echo/Response, the waits for one are
--   Echo/Wait; Echo/Health, Stats, Settling and Tracking prove.
-- - internal/tunnet/tun.go: `SetMTU` is Tunnet/Mtu, which the pinger calls.
-- - nomination.go: `nominationTracker` is Nomination; Nomination/Consistency, Progress and Selection prove.
-- - nomination.go and main.go: the gathering, ranking, filtering and queueing of candidates are
--   Candidates, with proofs in Candidates/Sorting, Ranking, Compatible and Queue.
-- - tunnel.go: Tunnel/Stats reads the device's report, Tunnel/Recovery is
--   `recoverWireGuardEndpoints`, Tunnel/Retry is `retryEndpointOnHandshakeTimeout` with proofs in
--   Tunnel/Switching, Tunnel/Supervisor is the loop of `runTunnel`.
-- - wireguard.go and tunnel.go: Device is the keys, the printed configuration and the set-up of `runTunnel`, with
--   Device/Keys and Device/Setup; it uses PathMtu and PeerMtu.
-- - wireguard.go: PathMtu is the MTU of the tunnel; PathMtu/Bounds proves.
-- - api.go: Api is the polling of the cloud, with Api/Polling; Api/Request is `apiRequestContext`, with
--   Api/Request/Classified, and its errors feed the polling.
-- - api.go and logging.go: Redaction is what is logged of an error of the cloud; Redaction/Replacing,
--   Secrets and Leaves prove.
-- - session.go: Session is `loadSession` and `saveSession`, call by call; Session/Atomic has the invariant of
--   a save, Session/Ending that it ends, Session/Reload what it comes to.
-- - main.go: `establishSession`, `fetchICEConfiguration` and `connectAndAwaitResponse` are Pairing, over Api and
--   Session, with Pairing/Reconnect and Pairing/Exchange; `runConnectionAttempt` is Attempt, over Bind, Ice,
--   Pairing and Client, with Attempt/Holding and
--   Attempt/Orderly; Lifetime is `runClient` over these attempts, with Lifetime/Waits,
--   Accounted and Deletions.
-- - stun.go and main.go: the servers of the ICE configuration, the reflexive candidates and
--   `gatherLocalCandidates` are Ice, with Ice/Servers, Answers and Reflexive.
-- - nomination.go: `probeCandidates` is Probes, with Probes/Ranks, Answering, Gathered, Guess
--   and Best;
--   Probes/Keepalive is `startPeerCandidateProbes`.
-- - socks5.go: Socks is the proxy, with Socks/Egress.
-- - nomination.go and stun.go: the early listener and the answer to a Binding Request are Listener, with
--   Listener/Guard; it feeds the tracker of Nomination. `udpReadStopper` is Listener/Stopping, its proofs
--   Listener/Stopped.
-- - wireguard.go: `openUDPSockets` and `stunBind` are Bind, with Bind/Lifecycle.
-- - main.go: the loop of `runClient`, `negotiateEndpoint` and `resolveNominatedEndpoint` are Client, with
--   Client/Backoff, Client/Offered and Client/Endpoint; `parseFlags`, with
--   `normalizeInviteSecret` of api.go and the checks of socks5.go, is Flags, with Flags/Accepted.
-- - Net holds the classes of addresses; Base the shared tests, lists, texts, integers and dictionaries;
--   Tests runs the models on concrete inputs.
--
-- How the code is read. Strings are lists of bytes; spaces, letters and JSON escapes are those of ASCII.
-- MTUs, counts and times (nanoseconds) are natural numbers; a value that can be negative is an integer.
-- A loop that waits for the world is a function of the list, or of the numbered answers, that the world
-- gives: the clock, the end of the context, whether SetMTU, a write, a switch of the device or a request
-- succeeds. What a select may choose is such an answer. The order in which the runtime visits a map is
-- an argument. Closing a channel twice is `none`. Methods hold their lock throughout, so that a run is
-- a list of calls. A loop on fuel is the padding of a request, whose length bounds the rounds; the
-- decimal digits of a number, whose value bounds them; and the search, for which enough rounds are
-- proved to end it. The readers of net and net/netip are the record NetLib; the reader of an echo
-- response is a parameter of Echo/Wait, the STUN codec of Listener, url.Parse and os.Stat of Flags. The
-- calls of os on files are the record FileSystem of Session, with their documented effects as IsLawful; a
-- crash between two calls is a shorter run of a save, whose ten calls are proved to be enough, and the loss
-- of writes that were not synced is not modelled. The JSON of a session is the record SessionCodec, that of
-- an error is a tree; the HTTP client is the record HttpLib.
--
-- Not modelled: the sockets themselves, the STUN codec (pion), the network stack (gVisor) with its
-- wrapper in internal/tunnet, a copy of other projects but for SetMTU, the device (wireguard-go), the
-- SOCKS5 protocol, the logging but for what it redacts, crypto, and of main.go signals and profiles.
pub mod Base
pub mod Net
pub mod Probes
pub mod Ice
pub mod Pairing
pub mod Redaction
pub mod Session
pub mod PeerMtu
pub mod Tunnet
pub mod Echo
pub mod Nomination
pub mod Candidates
pub mod Tunnel
pub mod PathMtu
pub mod Api
pub mod Tests
pub mod Listener
pub mod Device
pub mod Socks
pub mod Lifetime
pub mod Attempt
pub mod Client
pub mod Bind
pub mod Flags
