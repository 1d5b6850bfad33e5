-- ===== src/PathMtu/Bounds.antt =====
-- The bounds of the tunnel's MTU, and what a configured one may be.
use teleport_client.Base.{
  ℕ, ◌+◌, ◌≤◌, ◌<◌, ◌≡◌, Bool, true, false, not, ◌&&◌, ◌||◌, Option, none, some, is_some, ◌⊎◌, max,
  Text, ℤ, arith, ltb, Option-cases, Bool-cases, inl, inr, is_empty, text_eq, trim_space,
  parse_int64, if◌then◌else◌, codes,
}
use teleport_client.Net.{Ip}
use teleport_client.PathMtu.{
  RouteWorld, wire_guard_overhead, compute_tunnel_mtu, mtu_of_path, query_route_mtu,
  discover_path_mtu, found_egress, resolve_configured_mtu, resolve_tcp_congestion_control,
  if_configurable, is_zero, is_configurable, is_port,
}
use teleport_client.Net.{is_unspecified}

overhead_bounds :
    (ip : Ip) → (60 ≤ wire_guard_overhead (some ip)) × (wire_guard_overhead (some ip) ≤ 80)
unfolding wire_guard_overhead
overhead_bounds ip = (ground arith, ground arith)

mtu_of_path_bounds :
    (overhead route : ℕ) (egress : Option ℕ)
    → 60 ≤ overhead
    → overhead ≤ 80
    → (1280 ≤ mtu_of_path overhead route egress)
      × (mtu_of_path overhead route egress + overhead ≤ 1500)
      × (0 < route → mtu_of_path overhead route egress + overhead ≤ max route (1280 + overhead))
unfolding mtu_of_path compute_tunnel_mtu
mtu_of_path_bounds overhead route none h1 h2 = (ground arith, ground arith, λ h. ground arith)
mtu_of_path_bounds overhead route (some mtu) h1 h2 = (ground arith, ground arith, λ h. ground arith)

-- The address and port that a path is looked for at all.
abbrev pub is_endpoint : Ip → ℤ → Bool
is_endpoint ip port = not (is_unspecified ip) && is_port port

discover_path_mtu-dialled :
    (w : RouteWorld) (ip local : Ip) (port : ℤ)
    → is_endpoint ip port ≡ true
    → w.local_ip ≡ some local
    → discover_path_mtu w (some ip) port
      ≡ mtu_of_path
          (wire_guard_overhead (some ip))
          (query_route_mtu w ip)
          (found_egress local w.interfaces)
unfolding discover_path_mtu
discover_path_mtu-dialled w ip local port h e = rw e (ground (arith, h))

discover_path_mtu-fallback :
    (w : RouteWorld) (ip : Ip) (port : ℤ)
    → (is_endpoint ip port ≡ false) ⊎ (w.local_ip ≡ none)
    → discover_path_mtu w (some ip) port ≡ 1420
unfolding discover_path_mtu
discover_path_mtu-fallback w ip port (inl e) = ground (arith, e)
discover_path_mtu-fallback w ip port (inr e) = rw e (ground arith)

-- Whatever the system answers, the tunnel's MTU is at least 1280, and with the overhead of the
-- endpoint's family it fits in 1500 bytes. When a socket can be dialled to a valid endpoint and the
-- route has an MTU, it fits in that too, or in the least wire MTU that 1280 bytes need.
pub discover_path_mtu_bounds :
    (w : RouteWorld) (ip : Ip) (port : ℤ)
    → (1280 ≤ discover_path_mtu w (some ip) port)
      × (discover_path_mtu w (some ip) port + wire_guard_overhead (some ip) ≤ 1500)
      × (discover_path_mtu w (some ip) port + wire_guard_overhead (some ip) ≤ (
          if is_endpoint ip port && (is_some w.local_ip && ltb 0 (query_route_mtu w ip))
          then max (query_route_mtu w ip) (1280 + wire_guard_overhead (some ip))
          else 1500))
discover_path_mtu_bounds w ip port =
    let (least, most) = overhead_bounds ip in
    elim (Bool-cases (is_endpoint ip port)) [
      | inr e ↦
          rw (discover_path_mtu-fallback w ip port (inl e))
            (omega arith, omega (arith, most), ground (arith, most, e))
      | inl e ↦ elim (Option-cases w.local_ip) [
        | inl undialled ↦
            rw (discover_path_mtu-fallback w ip port (inr undialled), undialled)
              (omega arith, omega (arith, most), ground (arith, most))
        | inr (local, dialled) ↦
            let (floor, room, route) =
              mtu_of_path_bounds (wire_guard_overhead (some ip)) (query_route_mtu w ip)
                (found_egress local w.interfaces) least most in
            rw (discover_path_mtu-dialled w ip local port e dialled, e)
              (floor, room, ground (arith, route, room))
      ]
    ]

if_configurable-bounds :
    (o : Option ℤ) (n : ℤ) → if_configurable o ≡ some n → (is_configurable n ≡ true) × (o ≡ some n)
if_configurable-bounds none n e = (cc, cc)
if_configurable-bounds (some m) n e = (ground (arith, e), ground (arith, e))

-- A configured MTU that is accepted is 0 when the flag is 0 and the environment has nothing but
-- spaces, and from 1280 to 1500 otherwise; a flag that is not 0 overrides the environment.
pub resolve_configured_mtu_lem :
    (cli : ℤ) (env : Text) (n : ℤ)
    → resolve_configured_mtu cli env ≡ some n
    → ((if is_zero cli && is_empty (trim_space env) then is_zero n else is_configurable n) ≡ true)
      × (n ≡ (if is_zero cli then n else cli))
unfolding resolve_configured_mtu
resolve_configured_mtu_lem cli env n e = (
  ground (
    arith,
    e,
    if_configurable-bounds (some cli) n,
    if_configurable-bounds (parse_int64 (trim_space env)) n,
  ),
  ground (arith, e, if_configurable-bounds (some cli) n),
)

-- A congestion control that is accepted is empty, `reno` or `cubic`.
pub resolve_tcp_congestion_control_lem :
    (env cc_name : Text)
    → resolve_tcp_congestion_control env ≡ some cc_name
    → (is_empty cc_name || (text_eq cc_name (codes "reno") || text_eq cc_name (codes "cubic")))
      ≡ true
unfolding resolve_tcp_congestion_control is_empty text_eq
resolve_tcp_congestion_control_lem env cc_name e = ground (arith, e)
