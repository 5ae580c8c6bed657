-- ===== src/Discovery/Reached.antt =====
-- peers/discovery.go: `setPeerStatus`, what it does to the peers and what it tells.
use gobalance.Common.{
  if◌then◌else◌, eqb_iff, Bool-cases, Option-cases, lookup, lookup-insert, string_key, nat_key,
  ==_refl, ℕ, String, ◌≡◌, refl, ap, ◌∙◌, inl, inr, Bool, true, false, ◌&&◌, not, some, List, [],
  ◌++◌, arith,
}
use gobalance.Discovery.{
  SubscriberMsg, PeerHandler, put_peer, status_set, find_peer, set_peer_status, handler_add_peer,
  handler_del_peer, told_of,
}
use gobalance.Peer.{
  api_host, peer_host, Status, reachable, new_peer, set_reachable, Peer, set_from_status,
  peer_equal,
}
use gobalance.Discovery.Kept.{IsKnown, found-IsKept, add_peer-IsKnown}
use gobalance.Hosts.{Parsed-cases, parse_host, parsed, host_to_string}
use gobalance.Net.{Net}
use gobalance.Discovery.Known.{member-set_names, AllKept-assign}
use gobalance.OrderedMap.{member, OrderedMap}

module _ (n : Net) (o : OrderedMap) where
  -- the peer of `setPeerStatus` after its status was set
  abbrev pub updated_peer : ℕ → Status → Peer n → Peer n
  updated_peer now status peer = set_reachable n now (set_from_status n status peer)

  pub status_set-IsKnown :
      (now : ℕ) (status : Status) (host : String) (peer : Peer n) (h : PeerHandler n o)
      → IsKnown n o h
      → member host (o.names h.peers) ≡ true
      → peer_host n (updated_peer now status peer) ≡ host
      → IsKnown n o (status_set n o now status host peer h)
  unfolding status_set set_reachable
  status_set-IsKnown now status host peer h known there same =
      AllKept-assign n h.peer_max_retries host (updated_peer now status peer) (o.names h.peers)
        h.store known there (same, omega arith)

  -- A peer that equals one with the status keeps its host.
  pub equal-same_host :
      (now : ℕ) (status : Status) (ip : n.Ip) (port : ℕ) (peer : Peer n)
      → peer_equal n (set_from_status n status (new_peer n now ip port)) peer ≡ true
      → peer_host n (updated_peer now status peer) ≡ peer_host n peer
  unfolding peer_equal set_from_status new_peer peer_host set_reachable
  equal-same_host now status ip port peer same =
      ap (host_to_string n peer.ip) (ground (arith, eqb_iff status.port peer.peer_port))

  -- the peer that `setPeerStatus` builds from an address and a status
  abbrev pub temp_peer : ℕ → Status → n.Ip → ℕ → Peer n
  temp_peer now status ip port = set_from_status n status (new_peer n now ip port)

  pub same_temp_host :
      (now : ℕ) (status : Status) (ip : n.Ip) (port : ℕ)
      → peer_host n (updated_peer now status (temp_peer now status ip port))
        ≡ peer_host n (temp_peer now status ip port)
  unfolding peer_host set_reachable set_from_status new_peer
  same_temp_host now status ip port = refl

  temp_retries :
      (now : ℕ) (status : Status) (ip : n.Ip) (port : ℕ)
      → (temp_peer now status ip port).connection_retries ≡ 0
  unfolding set_from_status new_peer
  temp_retries now status ip port = refl

  pub set_peer_status-equal :
      (now : ℕ) (addr : String) (status : Status) (h : PeerHandler n o) (peer : Peer n) (ip : n.Ip)
      (port : ℕ)
      → find_peer n o addr h ≡ some peer
      → parse_host n addr ≡ parsed (ip, port)
      → peer_equal n (temp_peer now status ip port) peer ≡ true
      → set_peer_status n o now addr status h ≡ (
        status_set n o now status addr peer h,
        told_of n o status (api_host n (set_from_status n status peer)) (not (reachable n peer)),
      )
  unfolding set_peer_status
  set_peer_status-equal now addr status h peer ip port found read same =
      rw (found, set_peer_status, read, same) refl

  pub set_peer_status-changed :
      (now : ℕ) (addr : String) (status : Status) (h : PeerHandler n o) (peer : Peer n) (ip : n.Ip)
      (port : ℕ)
      → find_peer n o addr h ≡ some peer
      → parse_host n addr ≡ parsed (ip, port)
      → peer_equal n (temp_peer now status ip port) peer ≡ false
      → let temp = temp_peer now status ip port in
        let (h', ms) = handler_add_peer n o temp h in
        set_peer_status n o now addr status h ≡ (
          status_set n o now status (peer_host n temp) temp h',
          ms ++ told_of n o status (api_host n temp) true,
        )
  unfolding set_peer_status
  set_peer_status-changed now addr status h peer ip port found read apart =
      rw (found, set_peer_status, read, apart) refl

  pub added-member :
      (peer : Peer n) (h : PeerHandler n o)
      → member (peer_host n peer) (o.names (handler_add_peer n o peer h).0.peers) ≡ true
  unfolding handler_add_peer put_peer
  added-member peer h =
      let h' = (handler_del_peer n o (peer_host n peer) h).0 in
      rw
        (
          o.names-set_key (peer_host n peer) h'.peers,
          member-set_names (peer_host n peer) (peer_host n peer) (o.names h'.peers),
          ==_refl (peer_host n peer),
        )
        refl

  pub set_peer_status-IsKnown :
      (now : ℕ) (addr : String) (status : Status) (h : PeerHandler n o)
      → IsKnown n o h
      → IsKnown n o (set_peer_status n o now addr status h).0
  unfolding set_peer_status
  set_peer_status-IsKnown now addr status h known = elim (Option-cases (find_peer n o addr h)) [
    | inl absent ↦ rw (absent, set_peer_status) known
    | inr (peer, found) ↦ elim (Parsed-cases (parse_host n addr)) [
      | inr (x, bad) ↦ rw (found, set_peer_status, bad) known
      | inl ((ip, port), read) ↦
          let temp = temp_peer now status ip port in
          elim (Bool-cases (peer_equal n temp peer)) [
            | inl same ↦
                let (there, kept) = found-IsKept n o addr peer h known found in
                rw (set_peer_status-equal now addr status h peer ip port found read same) (
                  status_set-IsKnown now status addr peer h known there
                    (equal-same_host now status ip port peer same ∙ kept.0))
            | inr apart ↦
                rw (set_peer_status-changed now addr status h peer ip port found read apart) (
                  status_set-IsKnown now status (peer_host n temp) temp
                    (handler_add_peer n o temp h).0
                    (add_peer-IsKnown n o temp h known (temp_retries now status ip port))
                    (added-member temp h) (same_temp_host now status ip port))
          ]
    ]
  ]

  find_peer-status_set :
      (now : ℕ) (status : Status) (host : String) (peer : Peer n) (h : PeerHandler n o)
      → member host (o.names h.peers) ≡ true
      → find_peer n o host (status_set n o now status host peer h)
        ≡ some (updated_peer now status peer)
  unfolding find_peer status_set
  find_peer-status_set now status host peer h there =
      rw
        (
          o.has_lem host h.peers,
          there,
          lookup-insert host host (updated_peer now status peer) h.store,
          ==_refl host,
        )
        refl

  -- What a status leaves behind: the peer under `host` is reachable and has the fields of the
  -- status, its API host leads back to it, and if `signal`, the last message tells of it where its
  -- mode is full.
  pub record Reaches (now : ℕ) (status : Status) (signal : Bool)
      (r : PeerHandler n o × List SubscriberMsg) (host : String) (peer : Peer n) : Type 0 where
    pub there : find_peer n o host r.0 ≡ some peer
    pub is_up : reachable n peer ≡ true
    pub no_retries : peer.connection_retries ≡ 0
    pub same_mode : peer.mode ≡ status.mode
    pub same_port : peer.peer_port ≡ status.port
    pub same_api : peer.api_port ≡ status.balance_port
    pub indexed : lookup (api_host n peer) r.0.api_host_idx ≡ some host
    pub before : List SubscriberMsg
    pub told_last : r.1 ≡ before ++ told_of n o status (api_host n peer) signal

  status_set-Reaches :
      (now : ℕ) (status : Status) (signal : Bool) (host : String) (peer : Peer n)
      (h : PeerHandler n o) (ms : List SubscriberMsg)
      → member host (o.names h.peers) ≡ true
      → peer_host n (updated_peer now status peer) ≡ host
      → Reaches now status signal
          (
            status_set n o now status host peer h,
            ms ++ told_of n o status (api_host n (set_from_status n status peer)) signal,
          )
          host
          (updated_peer now status peer)
  unfolding status_set set_reachable set_from_status reachable api_host peer_host
  status_set-Reaches now status signal host peer h ms there same = record {
    there = find_peer-status_set now status host peer h there;
    is_up = refl;
    no_retries = refl;
    same_mode = refl;
    same_port = refl;
    same_api = refl;
    indexed =
        rw
          (
            lookup-insert (host_to_string n peer.ip status.balance_port)
                (host_to_string n peer.ip status.balance_port)
                (host_to_string n peer.ip status.port) h.api_host_idx,
            ==_refl (host_to_string n peer.ip status.balance_port),
          )
          (ap some same);
    before = ms;
    told_last = refl;
  }

  and_true : (b : Bool) → (b && true) ≡ b
  and_true true = refl
  and_true false = refl

  and_false : (b : Bool) → (b && false) ≡ false
  and_false true = refl
  and_false false = refl

  same_temp_api :
      (now : ℕ) (status : Status) (ip : n.Ip) (port : ℕ)
      → api_host n (set_from_status n status (temp_peer now status ip port))
        ≡ api_host n (temp_peer now status ip port)
  unfolding api_host set_from_status new_peer
  same_temp_api now status ip port = refl

  -- The peer, and the key that it is under.
  pub set_peer_status-Reaches_at :
      (now : ℕ) (addr : String) (status : Status) (h : PeerHandler n o) (peer : Peer n) (ip : n.Ip)
      (port : ℕ)
      → IsKnown n o h
      → find_peer n o addr h ≡ some peer
      → parse_host n addr ≡ parsed (ip, port)
      → let temp = temp_peer now status ip port in
        let same = peer_equal n temp peer in
        Reaches now status
          (not (reachable n peer && same))
          (set_peer_status n o now addr status h)
          (if same then addr else peer_host n temp)
          (updated_peer now status (if same then peer else temp))
  set_peer_status-Reaches_at now addr status h peer ip port known found read =
      let temp = temp_peer now status ip port in
      let (there, kept) = found-IsKept n o addr peer h known found in
      elim (Bool-cases (peer_equal n temp peer)) [
        | inl same ↦
            rw (set_peer_status-equal now addr status h peer ip port found read same, same)
              (rw (and_true (reachable n peer)) (
                status_set-Reaches now status (not (reachable n peer)) addr peer h [] there
                  (equal-same_host now status ip port peer same ∙ kept.0)))
        | inr apart ↦
            rw (set_peer_status-changed now addr status h peer ip port found read apart, apart)
              (rw (and_false (reachable n peer), ← same_temp_api now status ip port)
                (status_set-Reaches now status true (peer_host n temp) temp
                  (handler_add_peer n o temp h).0 (handler_add_peer n o temp h).1
                  (added-member temp h) (same_temp_host now status ip port)))
      ]

  -- A status of a peer that is known makes it reachable.
  pub set_peer_status-Reaches :
      (now : ℕ) (addr : String) (status : Status) (h : PeerHandler n o) (peer : Peer n) (ip : n.Ip)
      (port : ℕ)
      → IsKnown n o h
      → find_peer n o addr h ≡ some peer
      → parse_host n addr ≡ parsed (ip, port)
      → let same = peer_equal n (temp_peer now status ip port) peer in
        (host : String) × (p : Peer n) × Reaches now status
          (not (reachable n peer && same))
          (set_peer_status n o now addr status h)
          host
          p
  set_peer_status-Reaches now addr status h peer ip port known found read =
      (_, _, set_peer_status-Reaches_at now addr status h peer ip port known found read)
