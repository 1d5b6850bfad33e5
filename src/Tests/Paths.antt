-- ===== src/Tests/Paths.antt =====
-- wireguard.go, the MTU of the path and the configured values, on concrete inputs.
use teleport_client.Base.{◌+◌, ◌≤◌, ◌&&◌, some, none, is_some, codes, ltb, max, pos, if◌then◌else◌}
use teleport_client.Net.{Ip}
use teleport_client.PathMtu.{
  RouteWorld, linux, discover_path_mtu, wire_guard_overhead, query_route_mtu,
}
use teleport_client.PathMtu.Bounds.{is_endpoint, discover_path_mtu_bounds}

abbrev pub peer : Ip
peer = Ip.v4 203 0 113 7

-- A host whose route to the peer has an MTU of 1400.
abbrev pub host : RouteWorld
host = record {
  goos = linux;
  local_ip = some (Ip.v4 192 168 1 2);
  route_output = λ ip. some (codes "203.0.113.7 via 192.168.1.1 mtu lock 1400");
  interfaces = none;
}

discover_path_mtu_bounds_example :
    (1280 ≤ discover_path_mtu host (some peer) (pos 51820))
    × (discover_path_mtu host (some peer) (pos 51820) + wire_guard_overhead (some peer) ≤ 1500)
    × (discover_path_mtu host (some peer) (pos 51820) + wire_guard_overhead (some peer) ≤ (
        if is_endpoint peer (pos 51820)
          && (is_some host.local_ip && ltb 0 (query_route_mtu host peer))
        then max (query_route_mtu host peer) (1280 + wire_guard_overhead (some peer))
        else 1500))
discover_path_mtu_bounds_example = discover_path_mtu_bounds host peer (pos 51820)
