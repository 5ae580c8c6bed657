-- ===== src/Peers/Routine.antt =====
-- peers/manager.go: Start, Stop and `peerUpdateRoutine`, which takes the messages of the discovery.
use gobalance.Common.{
  ltb, eqb, if◌then◌else◌, string_key, nat_key, ◌==◌, ℕ, String, ◌≡◌, refl, ap, ◌∙◌, Bool, true,
  false, ◌||◌, not, List, [], ◌∷◌, map,
}
use gobalance.Peers.{add_peer, PeerManager, del_peer}
use gobalance.OrderedMap.{OrderedMap, member}
use gobalance.Lru.{Lru}
use gobalance.Discovery.{delete_peer_msg, add_peer_msg, SubscriberMsg}
use gobalance.Discovery.Known.{member-set_names, member-without}
use gobalance.Deque.{Deque}

abbrev pub default_unreachable_marks : ℕ
default_unreachable_marks = 3

-- 30 seconds
abbrev pub default_unreachable_period : ℕ
default_unreachable_period = 30000

abbrev pub default_client_peer_cache_size : ℕ
default_client_peer_cache_size = 50000

abbrev pub default_client_peer_prune_size : ℕ
default_client_peer_prune_size = 1000

pub data ManagerEvent : Type 0 where
  from_discovery : SubscriberMsg → ManagerEvent
  from_discovery_other manager_stop : ManagerEvent

module _ (d : Deque) (o : OrderedMap) (l : Lru String) where
  -- `Start`, with the options that were set, 0 for those that were not
  unfoldable pub manager_start : ℕ → ℕ → ℕ → PeerManager d o l
  manager_start marks period size = record {
    unreachable_marks = if eqb marks 0 then default_unreachable_marks else marks;
    unreachable_period = if eqb period 0 then default_unreachable_period else period;
    peers = o.new_map;
    marks = [];
    client_peer_cache =
        l.new_cache (if ltb size 1 then default_client_peer_cache_size else size)
          default_client_peer_prune_size;
    started = true;
  }

  -- `Stop` sends the stop of the routine, if the manager has started.
  unfoldable pub stop_sent : PeerManager d o l → List ManagerEvent
  stop_sent p = if not p.started then [] else manager_stop ∷ []

  unfoldable pub on_message : SubscriberMsg → PeerManager d o l → PeerManager d o l
  on_message (add_peer_msg peer) p = add_peer d o l peer p
  on_message (delete_peer_msg peer) p = del_peer d o l peer p

  abbrev pub stopped_manager : PeerManager d o l → PeerManager d o l
  stopped_manager p = record p { started = false; peers = o.new_map }

  -- The loop: other messages are logged.
  unfoldable pub manager_loop : List ManagerEvent → PeerManager d o l → PeerManager d o l
  unfolding on_message
  manager_loop [] p = p
  manager_loop (from_discovery m ∷ events) p = manager_loop events (on_message m p)
  manager_loop (from_discovery_other ∷ events) p = manager_loop events p
  manager_loop (manager_stop ∷ events) p = stopped_manager p

  -- whether a peer is there after the messages, if it was there before
  abbrev pub announced : String → List SubscriberMsg → Bool → Bool
  announced k [] b = b
  announced k (add_peer_msg j ∷ ms) b = announced k ms (j == k || b)
  announced k (delete_peer_msg j ∷ ms) b = announced k ms (if j == k then false else b)

  -- After any messages of the discovery, a peer is one of the manager's just where the last message
  -- about it added it, or where there was none about it and it was one before.
  pub manager_loop-announced :
      (ms : List SubscriberMsg) (p : PeerManager d o l) (k : String)
      → member k (o.names (manager_loop (map {B = ManagerEvent} from_discovery ms) p).peers)
        ≡ announced k ms (member k (o.names p.peers))
  unfolding manager_loop on_message add_peer del_peer
  manager_loop-announced [] p k = refl
  manager_loop-announced (add_peer_msg j ∷ ms) p k =
      manager_loop-announced ms (add_peer d o l j p) k
      ∙ ap (announced k ms)
          (ap (member k) (o.names-set_key j p.peers) ∙ member-set_names j k (o.names p.peers))
  manager_loop-announced (delete_peer_msg j ∷ ms) p k =
      manager_loop-announced ms (del_peer d o l j p) k
      ∙ ap (announced k ms)
          (ap (member k) (o.names-delete_key j p.peers) ∙ member-without j k (o.names p.peers))
