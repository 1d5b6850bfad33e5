-- ===== src/PathMtu.antt =====
-- wireguard.go: the MTU of the tunnel: what is configured, and what is read off the route and the
-- interfaces. The outputs of the operating system are arguments.
pub mod Bounds
use teleport_client.Base.{
  ℕ, zero, suc, ◌+◌, ◌-◌, ◌≤◌, ◌≡◌, refl, Bool, true, false, not, ◌&&◌, ◌||◌, Option, none, some,
  List, [], ◌∷◌, Text, codes, ℤ, pos, negsuc, ltb_ℤ, ltb, leb, ◌==◌, min, max, is_empty,
  is_nonempty, text_eq, if◌then◌else◌, length, drop, get_elem?, split_on, fields, trim_space,
  to_lower, parse_int64,
}
use teleport_client.Net.{Ip, is_v4, is_unspecified, is_loopback}
use teleport_client.Candidates.{NetAddr, interface_addr_ip}

abbrev pub fallback_mtu : ℕ
fallback_mtu = 1420

abbrev pub min_tunnel_mtu : ℕ
min_tunnel_mtu = 1280

abbrev pub max_internet_wire_mtu : ℕ
max_internet_wire_mtu = 1500

-- `wireGuardOverhead`; no endpoint, or one without an address, is `none`.
unfoldable pub wire_guard_overhead : Option Ip → ℕ
wire_guard_overhead none = 60
wire_guard_overhead (some ip) = if is_v4 ip then 60 else 80

-- The difference is only used when it is above the floor, so that it may stop at 0.
unfoldable pub compute_tunnel_mtu : ℕ → ℕ → ℕ
compute_tunnel_mtu wire_mtu overhead =
    max (min wire_mtu max_internet_wire_mtu - overhead) min_tunnel_mtu

abbrev pub is_configurable : ℤ → Bool
is_configurable n = not (ltb_ℤ n (pos 1280)) && not (ltb_ℤ (pos 1500) n)

abbrev pub if_configurable : Option ℤ → Option ℤ
if_configurable none = none
if_configurable (some n) = if is_configurable n then some n else none

abbrev pub is_zero : ℤ → Bool
is_zero n = not (ltb_ℤ n (pos 0)) && not (ltb_ℤ (pos 0) n)

-- The configured MTU, 0 for automatic, `none` for an error.
unfoldable pub resolve_configured_mtu : ℤ → Text → Option ℤ
resolve_configured_mtu cli_mtu env_mtu =
    if not (is_zero cli_mtu)
    then if_configurable (some cli_mtu)
    else if is_nonempty (trim_space env_mtu)
    then if_configurable (parse_int64 (trim_space env_mtu))
    else some (pos 0)

unfoldable pub resolve_tcp_congestion_control : Text → Option Text
resolve_tcp_congestion_control env_val =
    let trimmed = to_lower (trim_space env_val) in
    if is_empty trimmed
    then some []
    else if text_eq trimmed (codes "reno") || text_eq trimmed (codes "cubic")
    then some trimmed
    else none

-- `v, err := strconv.Atoi(s); err == nil && v > 0`, as 0 when it does not hold.
abbrev pub positive_or_zero : Option ℤ → ℕ
positive_or_zero (some (pos n)) = n
positive_or_zero _ = 0

abbrev pub index_from : ℕ → Text → List Text → Option ℕ
index_from i key [] = none
index_from i key (f ∷ fs) = if text_eq f key then some i else index_from (i + 1) key fs

abbrev pub column : Option Text → ℕ
column none = 0
column (some f) = positive_or_zero (parse_int64 f)

-- The lines of `route -n get`, with the column of the MTU once a header line has named it.
unfoldable pub darwin_lines : Option ℕ → List Text → ℕ
darwin_lines mtu_col [] = 0
darwin_lines none (line ∷ lines) = darwin_lines (index_from 0 (codes "mtu") (fields line)) lines
darwin_lines (some col) (line ∷ lines) =
    let rest = darwin_lines (some col) lines in
    if length (fields line) == 0 then rest else column (get_elem? (fields line) col)

unfoldable pub parse_darwin_route_mtu : Text → ℕ
unfolding darwin_lines
parse_darwin_route_mtu output = darwin_lines none (split_on b'\n' output)

-- The field after `mtu`, or after `mtu lock` when there is one more.
abbrev pub linux_value : Text → List Text → Text
linux_value value [] = value
linux_value value (next ∷ rest) = if text_eq value (codes "lock") then next else value

unfoldable pub linux_fields : List Text → ℕ
linux_fields [] = 0
linux_fields (field ∷ []) = 0
linux_fields (field ∷ value ∷ rest) =
    let later = linux_fields (value ∷ rest) in
    let v = positive_or_zero (parse_int64 (linux_value value rest)) in
    if text_eq field (codes "mtu") && ltb 0 v then v else later

unfoldable pub parse_linux_route_mtu : Text → ℕ
unfolding linux_fields
parse_linux_route_mtu output = linux_fields (fields output)

pub data Goos : Type 0 where
  darwin linux other : Goos

-- An interface: its MTU, and its addresses (`none` for an error).
pub record EgressInterface : Type 0 where
  pub mtu : ℕ
  pub addresses : Option (List NetAddr)

-- What the system answers: the local address of a dialled socket, the output of the route command
-- for an address, and the interfaces (`none` for errors).
pub record RouteWorld : Type 0 where
  pub goos : Goos
  pub local_ip : Option Ip
  pub route_output : Ip → Option Text
  pub interfaces : Option (List EgressInterface)

abbrev pub parse_route : Goos → Option Text → ℕ
parse_route darwin (some output) = parse_darwin_route_mtu output
parse_route linux (some output) = parse_linux_route_mtu output
parse_route _ _ = 0

unfoldable pub query_route_mtu : RouteWorld → Ip → ℕ
query_route_mtu w ip =
    if is_unspecified ip || is_loopback ip then 0 else parse_route w.goos (w.route_output ip)

-- `ip.Equal(local)`.
abbrev pub same_ip : Ip → Ip → Bool
same_ip (Ip.v4 a b c d) (Ip.v4 a' b' c' d') = (a == a' && b == b') && (c == c' && d == d')
same_ip (Ip.v6 n) (Ip.v6 n') = n == n'
same_ip _ _ = false

abbrev pub is_local : Ip → Option Ip → Bool
is_local local none = false
is_local local (some ip) = same_ip ip local

abbrev pub has_address : Ip → List NetAddr → Bool
has_address local [] = false
has_address local (a ∷ rest) = is_local local (interface_addr_ip a) || has_address local rest

abbrev pub holds : Ip → Option (List NetAddr) → Bool
holds local none = false
holds local (some addresses) = has_address local addresses

-- The first interface that holds the local address.
abbrev pub egress_mtu : Ip → List EgressInterface → Option ℕ
egress_mtu local [] = none
egress_mtu local (i ∷ rest) = if holds local i.addresses then some i.mtu else egress_mtu local rest

abbrev pub wire_mtu_of : ℕ → Option ℕ → ℕ
wire_mtu_of route none = route
wire_mtu_of route (some mtu) = if ltb 0 route && ltb route mtu then route else mtu

-- The part after the dial: an interface decides, or else the route alone, or else the fallback.
unfoldable pub mtu_of_path : ℕ → ℕ → Option ℕ → ℕ
unfolding compute_tunnel_mtu
mtu_of_path overhead route (some mtu) = compute_tunnel_mtu (wire_mtu_of route (some mtu)) overhead
mtu_of_path overhead route none =
    if ltb 0 route then compute_tunnel_mtu route overhead else fallback_mtu

abbrev pub found_egress : Ip → Option (List EgressInterface) → Option ℕ
found_egress local none = none
found_egress local (some interfaces) = egress_mtu local interfaces

abbrev pub is_port : ℤ → Bool
is_port port = ltb_ℤ (pos 0) port && not (ltb_ℤ (pos 65535) port)

-- `discoverPathMTU` for an endpoint's address (`none` for nil) and port.
unfoldable pub discover_path_mtu : RouteWorld → Option Ip → ℤ → ℕ
unfolding mtu_of_path query_route_mtu wire_guard_overhead
discover_path_mtu w none port = fallback_mtu
discover_path_mtu w (some ip) port =
    if is_unspecified ip || not (is_port port) then fallback_mtu else elim w.local_ip [
      | none ↦ fallback_mtu
      | some local ↦
          mtu_of_path (wire_guard_overhead (some ip)) (query_route_mtu w ip)
            (found_egress local w.interfaces)
    ]
