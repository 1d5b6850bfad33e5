-- ===== src/Net.antt =====
-- The parts of Go's net and net/netip that the client asks about addresses: the classes of an
-- address, and the texts that it is read from and written to.
use teleport_client.Base.{
  ℕ, ◌/◌, ◌%◌, ◌^◌, Bool, true, false, not, ◌&&◌, ◌||◌, Option, none, some, Text, leb, ◌==◌,
}

-- `net.IP`: an IPv4 address by its octets (an IPv4-mapped IPv6 address is one too, as `To4` has it),
-- or an IPv6 address as a number of 128 bits.
pub data Ip : Type 0 where
  v4 : ℕ → ℕ → ℕ → ℕ → Ip
  v6 : ℕ → Ip

-- `ip.To4() != nil`.
abbrev pub is_v4 : Ip → Bool
is_v4 (v4 a b c d) = true
is_v4 (v6 n) = false

abbrev first_byte : ℕ → ℕ
first_byte n = n / 2 ^ 120 % 256

abbrev second_byte : ℕ → ℕ
second_byte n = n / 2 ^ 112 % 256

unfoldable pub is_unspecified : Ip → Bool
is_unspecified (v4 a b c d) = (a == 0 && b == 0) && (c == 0 && d == 0)
is_unspecified (v6 n) = n == 0

unfoldable pub is_loopback : Ip → Bool
is_loopback (v4 a b c d) = a == 127
is_loopback (v6 n) = n == 1

unfoldable pub is_multicast : Ip → Bool
is_multicast (v4 a b c d) = leb 224 a && leb a 239
is_multicast (v6 n) = first_byte n == 255

unfoldable pub is_link_local_unicast : Ip → Bool
is_link_local_unicast (v4 a b c d) = a == 169 && b == 254
is_link_local_unicast (v6 n) = first_byte n == 254 && second_byte n / 64 == 2

unfoldable pub is_private : Ip → Bool
is_private (v4 a b c d) = a == 10 || ((a == 172 && b / 16 == 1) || (a == 192 && b == 168))
is_private (v6 n) = first_byte n / 2 == 126

unfoldable pub is_broadcast : Ip → Bool
is_broadcast (v4 a b c d) = (a == 255 && b == 255) && (c == 255 && d == 255)
is_broadcast (v6 n) = false

unfoldable pub is_global_unicast : Ip → Bool
unfolding is_broadcast is_unspecified is_loopback is_multicast is_link_local_unicast
is_global_unicast ip = not (
    is_broadcast ip
    || (is_unspecified ip || (is_loopback ip || (is_multicast ip || is_link_local_unicast ip))))

-- What the readers and writers of addresses answer. `parse_ip` is `net.ParseIP`, `split_host_port`
-- is `net.SplitHostPort`, `join_host_port` is `net.JoinHostPort` of an address and a port,
-- `parse_addr_port` is `netip.ParseAddrPort`, of which the client uses `Addr().Is6()` and the text of
-- the UDP address.
pub record AddrPort : Type 0 where
  pub is6 : Bool
  pub remote : Text

pub record NetLib : Type 0 where
  pub parse_ip : Text → Option Ip
  pub split_host_port : Text → Option (Text × Text)
  pub join_host_port : Ip → ℕ → Text
  pub parse_addr_port : Text → Option AddrPort

-- `host, _, err := net.SplitHostPort(addr)` and then `net.ParseIP(host)`; `none` if either fails.
module _ (net : NetLib) where
  abbrev parse_host : Option (Text × Text) → Option Ip
  parse_host none = none
  parse_host (some (host, port)) = net.parse_ip host

  unfoldable pub host_ip : Text → Option Ip
  host_ip addr = parse_host (net.split_host_port addr)
