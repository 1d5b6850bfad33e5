-- ===== src/Tests/Gathering.antt =====
-- nomination.go and main.go, the candidates, with readers that know three addresses.
use mathlib.Core.List.{Perm}
use teleport_client.Base.{
  ◌≡◌, true, false, not, ◌&&◌, ◌||◌, Option, some, none, List, [], ◌∷◌, Text, codes, is_empty,
  text_eq, contains, distinct, fresh, keep, if◌then◌else◌,
}
use teleport_client.Net.{Ip, NetLib}
use teleport_client.Candidates.{
  Candidate, UdpSockets, addrs_of, rank_candidates, compatible_candidates,
  build_candidate_retry_queue,
}
use teleport_client.Candidates.Ranking.{in_rank_order, same_rank, rank_candidates_lem}
use teleport_client.Candidates.Compatible.{is_reachable, compatible_candidates_lem}
use teleport_client.Candidates.Queue.{sources_of, build_candidate_retry_queue_lem}

abbrev known_ip : Text → Option Ip
known_ip s =
    if text_eq s (codes "lan")
    then some (Ip.v4 192 168 1 9)
    else if text_eq s (codes "wan")
    then some (Ip.v4 203 0 113 9)
    else if text_eq s (codes "six")
    then some (Ip.v6 42540766411282592856903984951653826561)
    else none

abbrev pub readers : NetLib
readers = record {
  parse_ip = known_ip;
  split_host_port = λ s. some (s, codes "51820");
  join_host_port = λ ip port. codes "host";
  parse_addr_port = λ s. some (record { is6 = text_eq s (codes "six"); remote = s });
}

abbrev pub lan : Candidate
lan = record { type = codes "iface"; addr = codes "lan" }

abbrev pub wan : Candidate
wan = record { type = codes "reflex"; addr = codes "wan" }

abbrev pub peers : List Candidate
peers = lan ∷ wan ∷ []

build_candidate_retry_queue_lem_example :
    (build_candidate_retry_queue readers (codes "lan") (codes "six" ∷ []) peers
      ≡ fresh (codes "lan" ∷ []) (sources_of readers (codes "six" ∷ []) peers))
    × (distinct (build_candidate_retry_queue readers (codes "lan") (codes "six" ∷ []) peers) ≡ true)
    × (contains
          (build_candidate_retry_queue readers (codes "lan") (codes "six" ∷ []) peers)
          (codes "wan")
        ≡ ((contains (codes "six" ∷ []) (codes "wan") || contains (addrs_of peers) (codes "wan"))
            && (not (is_empty (codes "wan")) && not (text_eq (codes "lan") (codes "wan")))))
build_candidate_retry_queue_lem_example =
    build_candidate_retry_queue_lem readers (codes "lan") (codes "six" ∷ []) peers (codes "wan")

rank_candidates_lem_example :
    Perm (rank_candidates readers peers) peers
    × (in_rank_order readers (rank_candidates readers peers) ≡ true)
    × (keep (same_rank readers wan) (rank_candidates readers peers)
        ≡ keep (same_rank readers wan) peers)
rank_candidates_lem_example = rank_candidates_lem readers peers wan

abbrev pub sockets : UdpSockets
sockets = record { v4_open = true; v6_open = false }

compatible_candidates_lem_example :
    Perm
      (compatible_candidates readers (some sockets) peers (lan ∷ []))
      (keep (is_reachable readers sockets (lan ∷ [])) peers)
    × (in_rank_order readers (compatible_candidates readers (some sockets) peers (lan ∷ [])) ≡ true)
    × (keep (same_rank readers wan) (compatible_candidates readers (some sockets) peers (lan ∷ []))
        ≡ keep (same_rank readers wan) (keep (is_reachable readers sockets (lan ∷ [])) peers))
    × (compatible_candidates readers none peers (lan ∷ []) ≡ [])
compatible_candidates_lem_example = compatible_candidates_lem readers sockets peers (lan ∷ []) wan
