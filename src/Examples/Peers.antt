-- ===== src/Examples/Peers.antt =====
-- A peer manager with two peers.
use gobalance.Common.{string_key, nat_key, ◌≡◌, refl, true, [], ◌∷◌}
use gobalance.Peers.{PeerManager, peer_at}
use gobalance.Peers.Turns.{calls-peers, calls}
use gobalance.Deque.{list_deque}
use gobalance.Peers.Routine.{manager_loop-announced, manager_loop, from_discovery}
use gobalance.Discovery.{add_peer_msg, delete_peer_msg}
use gobalance.Lru.{map_lru}
use gobalance.OrderedMap.{list_map, member}

abbrev pub peer_manager : PeerManager list_deque list_map map_lru
peer_manager = record {
  unreachable_marks = 1;
  unreachable_period = 100;
  peers = "one" ∷ "two" ∷ [];
  marks = ("one", 10 ∷ 950 ∷ []) ∷ ("two", []) ∷ [];
  client_peer_cache = ("client", "two") ∷ [];
  started = true;
}

calls-peers_example :
    ((calls list_deque list_map map_lru 2 peer_manager).0 ≡ peer_at "one" ∷ peer_at "two" ∷ [])
    × ((calls list_deque list_map map_lru 2 peer_manager).1.peers ≡ "one" ∷ "two" ∷ [])
calls-peers_example = calls-peers list_deque list_map map_lru peer_manager refl

manager_loop-announced_example :
    member "two"
      (manager_loop list_deque list_map map_lru
        (from_discovery (delete_peer_msg "two") ∷ from_discovery (add_peer_msg "two") ∷ [])
        peer_manager).peers
    ≡ true
manager_loop-announced_example =
    manager_loop-announced list_deque list_map map_lru
      (delete_peer_msg "two" ∷ add_peer_msg "two" ∷ []) peer_manager "two"
