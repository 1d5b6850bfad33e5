-- ===== src/Bind.antt =====
-- wireguard.go: the UDP sockets, and `stunBind`, the bind that it gives to wireguard-go over them.
-- A socket is known by its family; the answers of the system are arguments. The counters for the
-- debug log, the reuse of the last endpoint's allocation and the sizes of the buffers are left out.
pub mod Lifecycle
use teleport_client.Base.{
  ℕ, ◌+◌, Bool, true, false, not, ◌&&◌, ◌||◌, Option, none, some, is_some, List, [], ◌∷◌, ◌++◌,
  Text, contains, length, leb, ◌==◌, if◌then◌else◌,
}
use teleport_client.Candidates.{UdpSockets, NetworkFamily, is_ipv4_only, is_ipv6_only}

-- `openUDPSockets`, given whether each listen succeeds: the sockets, or `none` for an error; and
-- whether the IPv4 socket was opened and closed again.
abbrev pub or_error : Bool → Bool → Option UdpSockets
or_error has_v4 has_v6 =
    if not has_v4 && not has_v6 then none else some (record { v4_open = has_v4; v6_open = has_v6 })

unfoldable pub open_udp_sockets : NetworkFamily → Bool → Bool → Option UdpSockets
open_udp_sockets family v4_ok v6_ok =
    let has_v4 = not (is_ipv6_only family) && v4_ok in
    let has_v6 = not (is_ipv4_only family) && v6_ok in
    if not (is_ipv6_only family) && (not v4_ok && is_ipv4_only family)
    then none
    else if not (is_ipv4_only family) && (not v6_ok && is_ipv6_only family)
    then none
    else or_error has_v4 has_v6

-- `done` is the number of the channel that `Open` has made last, and `closed` lists the closed ones;
-- `expired4` and `expired6` say that a socket has a read deadline in the past.
pub record StunBind : Type 0 where
  pub conn4 : Bool
  pub conn6 : Bool
  pub opened : ℕ
  pub done : Option ℕ
  pub closed : List ℕ
  pub expired4 : Bool
  pub expired6 : Bool

-- A receive function: the family of its socket, and the channel it has kept.
pub record ReceiveFunc : Type 0 where
  pub over_ipv4 : Bool
  pub done : ℕ

abbrev pub receivers_of : Bool → Bool → ℕ → List ReceiveFunc
receivers_of present over_ipv4 done =
    if present then record { over_ipv4 = over_ipv4; done = done } ∷ [] else []

unfoldable pub open_bind : StunBind → StunBind × List ReceiveFunc
open_bind b = (
  record b {
    opened = b.opened + 1;
    done = some b.opened;
    expired4 = if b.conn4 then false else b.expired4;
    expired6 = if b.conn6 then false else b.expired6;
  },
  receivers_of b.conn4 true b.opened ++ receivers_of b.conn6 false b.opened,
)

unfoldable pub is_closed : List ℕ → ℕ → Bool
is_closed [] n = false
is_closed (m ∷ ms) n = m == n || is_closed ms n

-- `select { case <-b.done: default: close(b.done) }`.
abbrev pub close_done : Option ℕ → List ℕ → List ℕ
close_done none closed = closed
close_done (some n) closed = if is_closed closed n then closed else n ∷ closed

unfoldable pub close_bind : StunBind → StunBind
unfolding is_closed
close_bind b = record b {
  closed = close_done b.done b.closed;
  expired4 = b.conn4 || b.expired4;
  expired6 = b.conn6 || b.expired6;
}

-- What a read of the socket gives: an error, or a datagram and where it is from.
pub data ReadEvent : Type 0 where
  read_error : ReadEvent
  datagram : Text → Text → ReadEvent

pub data Received : Type 0 where
  waiting err_closed err_read : Received
  packet : Text → Text → Received

-- One call of a receive function over what the socket gives: what it returns, and the STUN datagrams
-- that it has handled by then. `is_stun` is `isSTUN`.
module _ (is_stun : Text → Bool) where
  unfoldable pub receive : Bool → List ReadEvent → Received × List (Text × Text)
  receive done_closed [] = (waiting, [])
  receive done_closed (read_error ∷ events) = (if done_closed then err_closed else err_read, [])
  receive done_closed (datagram bytes remote ∷ events) =
      let (result, handled) = receive done_closed events in
      if is_stun bytes then (result, (bytes, remote) ∷ handled) else (packet bytes remote, [])

pub data SendError : Type 0 where
  wrong_endpoint_type no_socket write_error : SendError

abbrev pub write_all : List Bool → Option SendError
write_all [] = none
write_all (ok ∷ writes) = let rest = write_all writes in if ok then rest else some write_error

-- `Send` to an endpoint, whose family is `none` for another type of endpoint; `writes` are the
-- answers of the socket. The result is the error and, when a socket is chosen, whether it is IPv4's.
unfoldable pub send : StunBind → Option Bool → List Bool → Option SendError × Option Bool
send b none writes = (some wrong_endpoint_type, none)
send b (some is_ipv4) writes =
    if is_ipv4 && b.conn4
    then (write_all writes, some true)
    else if not is_ipv4 && b.conn6
    then (write_all writes, some false)
    else (some no_socket, none)
