-- ===== src/Peers.antt =====
-- peers/manager.go: the peers that a request may be handed on to, their marks, and the peer of a
-- client. The times are in milliseconds. `none` is a panic.
pub mod Marks
pub mod Routine
pub mod Turns
use gobalance.Common.{
  ltb, if◌then◌else◌, ◌>>=◌, Map, get_or, lookup, delete, insert, string_key, nat_key, ℕ, zero, suc,
  ◌-◌, ◌%◌, String, Bool, ◌||◌, not, Option, none, some, List, [], ◌∷◌,
}
use gobalance.BlockQueue.{len, front, pop_front, push_back}
use gobalance.OrderedMap.{OrderedMap}
use gobalance.Deque.{Deque}
use gobalance.Lru.{Lru}

-- what `GetPeer` returns with `ErrNoPeersAvailable` for its error
pub data PeerAnswer : Type 0 where
  peer_at : String → PeerAnswer
  no_peers_available : PeerAnswer

-- The queue of marks that each peer of `peers` points to is kept in `marks` under the peer's name:
-- no two peers share one.
pub record PeerManager (d : Deque) (o : OrderedMap) (l : Lru String) : Type 0 where
  pub unreachable_marks : ℕ
  pub unreachable_period : ℕ
  pub peers : o.Om
  pub marks : Map String (d.Queue ℕ)
  pub client_peer_cache : l.Cache
  pub started : Bool

module _ (d : Deque) where
  -- the loop of `addUnreachableMark`, on as much fuel as there are marks
  unfoldable pub drop_expired : ℕ → ℕ → ℕ → d.Queue ℕ → Option (d.Queue ℕ)
  drop_expired zero now period q = some q
  drop_expired (suc fuel) now period q =
      let rest = drop_expired fuel now period (d.pop_front q).1 in
      if ltb 0 (d.len q)
      then (d.front q >>= λ mark_time. if ltb period (now - mark_time) then rest else some q)
      else some q

  unfoldable pub add_unreachable_mark : ℕ → ℕ → d.Queue ℕ → Option (d.Queue ℕ)
  unfolding drop_expired
  add_unreachable_mark now period q = drop_expired (suc (d.len q)) now period (d.push_back now q)

  -- `uint32(marks.Len()) > maxMarks`
  unfoldable pub is_unreachable : d.Queue ℕ → ℕ → Bool
  is_unreachable q max_marks = ltb max_marks (d.len q % 4294967296)

module _ (d : Deque) (o : OrderedMap) (l : Lru String) where
  -- `getPeer`
  unfoldable pub get_peer : PeerManager d o l → PeerAnswer × PeerManager d o l
  get_peer p = if not p.started then (no_peers_available, p) else elim (o.get_first p.peers) [
    | none ↦ (no_peers_available, p)
    | some peer ↦ (peer_at peer, record p { peers = o.move_last peer p.peers })
  ]

  -- the end of `GetPeerPersistent`, where the client has no peer or one that is gone
  unfoldable pub assign_peer : String → PeerManager d o l → PeerAnswer × PeerManager d o l
  unfolding get_peer
  assign_peer id p = elim (get_peer p).0 [
    | no_peers_available ↦ get_peer p
    | peer_at peer ↦ (
      peer_at peer,
      record (get_peer p).1 { client_peer_cache = l.set id peer (get_peer p).1.client_peer_cache },
    )
  ]

  unfoldable pub get_peer_persistent : String → PeerManager d o l → PeerAnswer × PeerManager d o l
  unfolding assign_peer
  get_peer_persistent id p =
      let p' = record p { client_peer_cache = (l.get id p.client_peer_cache).1 } in
      elim (l.get id p.client_peer_cache).0 [
        | none ↦ assign_peer id p'
        | some peer ↦ if o.has peer p.peers then (peer_at peer, p') else assign_peer id p'
      ]

  unfoldable pub add_peer : String → PeerManager d o l → PeerManager d o l
  add_peer peer p = record p { peers = o.set_key peer p.peers; marks = insert peer d.new p.marks }

  unfoldable pub del_peer : String → PeerManager d o l → PeerManager d o l
  del_peer peer p = record p { peers = o.delete_key peer p.peers; marks = delete peer p.marks }

  -- what `MarkPeerUnreachable` does with the marks of the peer after the new one was added; the
  -- list is the peers that the handler is told of
  unfoldable pub marked : d.Queue ℕ → String → PeerManager d o l → PeerManager d o l × List String
  unfolding is_unreachable del_peer
  marked q peer p =
      let p' = record p { marks = insert peer q p.marks } in
      if is_unreachable d q p.unreachable_marks then (del_peer peer p', peer ∷ []) else (p', [])

  unfoldable pub mark_peer_unreachable :
      ℕ → String → PeerManager d o l → Option (PeerManager d o l × List String)
  unfolding marked
  mark_peer_unreachable now peer p =
      if not p.started || not (o.has peer p.peers)
      then some (p, [])
      else (add_unreachable_mark d now p.unreachable_period (get_or (lookup peer p.marks) d.new)
          >>= λ q. some (marked q peer p))
