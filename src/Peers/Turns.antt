-- ===== src/Peers/Turns.antt =====
-- peers/manager.go: the answers of `GetPeer` one after the other, and `GetPeerPersistent`.
use gobalance.Common.{
  if◌then◌else◌, length, head?, ℕ, zero, suc, String, ◌≡◌, refl, sym, ap, ◌∙◌, Bool, true, false,
  not, some, List, [], ◌∷◌, ◌++◌, map, append-nil, append_assoc,
}
use gobalance.Peers.{
  get_peer, PeerManager, no_peers_available, peer_at, get_peer_persistent, PeerAnswer,
}
use gobalance.OrderedMap.{OrderedMap, member, names-move_first}
use gobalance.Lru.{Lru}
use gobalance.Deque.{Deque}

module _ (d : Deque) (o : OrderedMap) (l : Lru String) where
  -- The answers of a number of calls of `GetPeer`, one after the other.
  abbrev pub calls : ℕ → PeerManager d o l → List PeerAnswer × PeerManager d o l
  calls zero p = ([], p)
  calls (suc n) p =
      let rest = calls n (get_peer d o l p).1 in ((get_peer d o l p).0 ∷ rest.0, rest.1)

  get_peer_first :
      (p : PeerManager d o l) (k : String) (ks : List String)
      → p.started ≡ true
      → o.names p.peers ≡ k ∷ ks
      → get_peer d o l p ≡ (peer_at k, record p { peers = o.move_last k p.peers })
  unfolding get_peer
  get_peer_first p k ks on same =
      rw (o.get_first_lem p.peers ∙ ap head? same) (started_first p.started on)
    where
      started_first :
          (on : Bool)
          → on ≡ true
          → ◌≡◌ {A = PeerAnswer × PeerManager d o l}
              (if not on
                then (no_peers_available, p)
                else (peer_at k, record p { peers = o.move_last k p.peers }))
              (peer_at k, record p { peers = o.move_last k p.peers })
      started_first true h = refl
      started_first false h = cc

  calls_round :
      (ks js : List String) (p : PeerManager d o l)
      → p.started ≡ true
      → o.names p.peers ≡ ks ++ js
      → ((calls (length ks) p).0 ≡ map peer_at ks)
        × (o.names (calls (length ks) p).1.peers ≡ js ++ ks)
  calls_round [] js p on same = (refl, same ∙ sym (append-nil js))
  calls_round (k ∷ ks) js p on same =
      let p' = record p { peers = o.move_last k p.peers } in
      let moved = names-move_first o k (ks ++ js) p.peers same ∙ append_assoc ks js (k ∷ []) in
      let (answers, names) = calls_round ks (js ++ k ∷ []) p' on moved in
      let first = get_peer_first p k (ks ++ js) on same in
      (
        rw first (ap (◌∷◌ (peer_at k)) answers),
        rw (first, calls) (names ∙ append_assoc js (k ∷ []) ks),
      )

  -- As many calls of `GetPeer` of a manager that has started as there are peers return each peer
  -- once, in their order, and leave the order as it was.
  pub calls-peers :
      (p : PeerManager d o l)
      → p.started ≡ true
      → ((calls (length (o.names p.peers)) p).0 ≡ map peer_at (o.names p.peers))
        × (o.names (calls (length (o.names p.peers)) p).1.peers ≡ o.names p.peers)
  calls-peers p on = calls_round (o.names p.peers) [] p on (sym (append-nil (o.names p.peers)))

  -- `GetPeerPersistent` of a client with a peer that is there returns that peer, leaves the order
  -- of the peers and keeps what is cached for each client.
  pub get_peer_persistent-stays :
      (id peer : String) (p : PeerManager d o l)
      → l.cached id p.client_peer_cache ≡ some peer
      → member peer (o.names p.peers) ≡ true
      → ((get_peer_persistent d o l id p).0 ≡ peer_at peer)
        × ((get_peer_persistent d o l id p).1.peers ≡ p.peers)
        × ((client : String)
            → l.cached client (get_peer_persistent d o l id p).1.client_peer_cache
              ≡ l.cached client p.client_peer_cache)
  unfolding get_peer_persistent
  get_peer_persistent-stays id peer p has_one there =
      rw
        (
          l.get_lem id p.client_peer_cache,
          has_one,
          o.has_lem peer p.peers,
          there,
          get_peer_persistent,
        )
        (refl, refl, λ client. l.cached-get id client p.client_peer_cache)
