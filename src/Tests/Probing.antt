-- ===== src/Tests/Probing.antt =====
-- peermtu.go on concrete inputs: a probe search, the prober's invariant, and a padded request.
use teleport_client.Base.{
  ◌+◌, ◌≤◌, ◌≡◌, refl, true, false, keep, List, [], ◌∷◌, codes, arith, length, drop, ltb, min,
  if◌then◌else◌,
}
use teleport_client.PeerMtu.{
  PeerMtuProber, new_peer_mtu_prober, new_auto_prober, start_index_from, search_complete,
  base_tunnel_mtu,
}
use teleport_client.PeerMtu.Invariant.{
  IsValid, new_peer_mtu_prober-IsValid, Call, arms, resets, results, run, run-IsValid,
}
use teleport_client.PeerMtu.Search.{
  search_path, largest_passed, IsProbing, rounds_left, search_path-Locks, best_milestone,
  fresh_search,
}
use teleport_client.PeerMtu.Padding.{
  build_padded_echo_payload, bare_request, target_payload_len, length-build_padded_echo_payload,
}

-- The prober of a path whose ceiling is 1440.
abbrev prober : PeerMtuProber
prober = new_peer_mtu_prober 1280 1440 0

prober-IsValid : IsValid prober
prober-IsValid = new_peer_mtu_prober-IsValid 1280 1440 0 (λ h. omega arith) (λ h. omega (arith, h))

prober-IsProbing : IsProbing prober
unfolding new_peer_mtu_prober keep start_index_from
prober-IsProbing = record { valid = prober-IsValid; on = refl; ready = refl; more = omega arith }

fresh_search_example :
    ((search_path 1410 8 (new_peer_mtu_prober base_tunnel_mtu 1440 0)).state ≡ search_complete)
    × ((search_path 1410 8 (new_peer_mtu_prober base_tunnel_mtu 1440 0)).confirmed_mtu
        ≡ best_milestone (min 1440 1410))
fresh_search_example = fresh_search 1440 1410

search_path-Locks_example :
    ((search_path 1410 8 prober).state ≡ search_complete)
    × ((search_path 1410 8 prober).confirmed_mtu
        ≡ largest_passed 1410 prober.confirmed_mtu (drop prober.current_index prober.milestones))
search_path-Locks_example = search_path-Locks 1410 8 prober prober-IsProbing rounds
  where
    rounds : rounds_left prober ≤ 8
    rounds = unfold new_peer_mtu_prober new_auto_prober start_index_from keep in omega arith

abbrev some_calls : List Call
some_calls = results 1360 true ∷ results 1400 false ∷ results 1400 false ∷ resets ∷ arms ∷ []

run-IsValid_example : IsValid (run prober some_calls)
run-IsValid_example = run-IsValid prober some_calls prober-IsValid

length-build_padded_echo_payload_example :
    length (build_padded_echo_payload (codes "hash") (codes "7") 3000 1360 20) ≡ (
      if ltb
        (length (bare_request (codes "hash") (codes "7") 3000) + 9)
        (target_payload_len 1360 20)
      then target_payload_len 1360 20
      else length (bare_request (codes "hash") (codes "7") 3000))
length-build_padded_echo_payload_example =
    length-build_padded_echo_payload (codes "hash") (codes "7") 3000 1360 20
