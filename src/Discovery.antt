-- ===== src/Discovery.antt =====
-- peers/discovery.go: the peers that the handler knows, and what it does on each event of its loop.
-- The queue of each channel that it writes to is a list of outputs; times are arguments. A peer
-- that the code points to is kept in `store` under its key: no two keys share one.
pub mod Steps
pub mod Known
pub mod Kept
pub mod Events
pub mod Failures
pub mod Reached
pub mod Polling
pub mod Rounds
use gobalance.Common.{
  ltb, eqb, if◌then◌else◌, Map, lookup, delete, insert, string_key, nat_key, ◌==◌, ℕ, ◌-◌, String,
  Bool, true, false, ◌&&◌, ◌||◌, not, Option, none, some, List, [], ◌∷◌, ◌++◌,
}
use gobalance.Peer.{
  set_reachable, Peer, full_mode, set_from_status, peer_equal, PeerMode, new_peer, reachable,
  Status, peer_host, set_unreachable, api_host,
}
use gobalance.Hosts.{parse_host, unparsed, parsed}
use gobalance.OrderedMap.{OrderedMap}
use gobalance.Net.{Net}

pub data SubscriberMsg : Type 0 where
  -- `AddPeerMsg` and `DeletePeerMsg` on the channel of the subscriber
  add_peer_msg delete_peer_msg : String → SubscriberMsg

pub record PeerHandler (n : Net) (o : OrderedMap) : Type 0 where
  pub mode : PeerMode
  pub peer_port : ℕ
  pub balance_port : ℕ
  pub version : String
  pub allow_local_ip : Bool
  pub peer_max_retries : ℕ
  pub start_time : ℕ
  pub peers : o.Om
  pub store : Map String (Peer n)
  pub api_host_idx : Map String String
  pub local_ips : List n.Ip
  pub started : Bool

abbrev pub default_peer_max_retries : ℕ
default_peer_max_retries = 10

module _ (n : Net) (o : OrderedMap) where
  -- what `Start` sets up
  unfoldable pub handler_start : ℕ → List n.Ip → PeerHandler n o → PeerHandler n o
  handler_start now local_ips h = record h {
    peer_max_retries =
        if eqb h.peer_max_retries 0 then default_peer_max_retries else h.peer_max_retries;
    peers = o.new_map;
    store = [];
    api_host_idx = [];
    start_time = now;
    local_ips = local_ips;
    started = true;
  }

  unfoldable pub is_local_ip : n.Ip → List n.Ip → Bool
  is_local_ip ip [] = false
  is_local_ip ip (local ∷ ips) = n.equal local ip || is_local_ip ip ips

  unfoldable pub get_status : ℕ → PeerHandler n o → Status
  get_status now h = record {
    mode = h.mode;
    port = h.peer_port;
    balance_port = h.balance_port;
    uptime = now - h.start_time;
    version = h.version;
  }

  -- `getPeer`
  unfoldable pub find_peer : String → PeerHandler n o → Option (Peer n)
  find_peer host h = if o.has host h.peers then lookup host h.store else none

  -- an assignment to the fields of a peer that the map points to
  abbrev pub assign : String → Peer n → PeerHandler n o → PeerHandler n o
  assign host peer h = record h { store = insert host peer h.store }

  unfoldable pub reachable_hosts : Map String (Peer n) → List String → List String
  reachable_hosts store [] = []
  reachable_hosts store (k ∷ ks) =
      let rest = reachable_hosts store ks in
      elim (lookup k store) [
        | none ↦ rest
        | some peer ↦ if reachable n peer then peer_host n peer ∷ rest else rest
      ]

  unfoldable pub get_peer_list : PeerHandler n o → List String
  unfolding reachable_hosts
  get_peer_list h = reachable_hosts h.store (o.names h.peers)

  abbrev pub is_full : Peer n → Bool
  is_full peer = reachable n peer && peer.mode == full_mode

  unfoldable pub handler_del_peer : String → PeerHandler n o → PeerHandler n o × List SubscriberMsg
  unfolding find_peer
  handler_del_peer addr h = elim (find_peer addr h) [
    | none ↦ (h, [])
    | some peer ↦ (
      record h {
        api_host_idx = delete (api_host n peer) h.api_host_idx;
        peers = o.delete_key addr h.peers;
        store = delete addr h.store;
      },
      if is_full peer then delete_peer_msg (api_host n peer) ∷ [] else [],
    )
  ]

  unfoldable pub put_peer : Peer n → PeerHandler n o → PeerHandler n o
  put_peer peer h = record h {
    peers = o.set_key (peer_host n peer) h.peers;
    store = insert (peer_host n peer) peer h.store;
  }

  unfoldable pub handler_add_peer : Peer n → PeerHandler n o → PeerHandler n o × List SubscriberMsg
  unfolding handler_del_peer put_peer
  handler_add_peer peer h =
      let (h', told) = handler_del_peer (peer_host n peer) h in (put_peer peer h', told)

  unfoldable pub handler_mark_unreachable :
      ℕ → String → PeerHandler n o → PeerHandler n o × List SubscriberMsg
  unfolding handler_del_peer
  handler_mark_unreachable now addr h = elim (find_peer addr h) [
    | none ↦ (h, [])
    | some peer ↦
        let told = if is_full peer then delete_peer_msg (api_host n peer) ∷ [] else [] in
        let peer' = set_unreachable n now peer in
        let h' = assign addr peer' h in
        let (h'', told') = handler_del_peer addr h' in
        if ltb h.peer_max_retries peer'.connection_retries then (h'', told ++ told') else (h', told)
  ]

  -- The end of `setPeerStatus`: the peer under the key `host` gets the status.
  unfoldable pub status_set : ℕ → Status → String → Peer n → PeerHandler n o → PeerHandler n o
  status_set now status host peer h =
      let peer' = set_reachable n now (set_from_status n status peer) in
      record h {
        store = insert host peer' h.store;
        api_host_idx = insert (api_host n peer') (peer_host n peer') h.api_host_idx;
      }

  abbrev pub told_of : Status → String → Bool → List SubscriberMsg
  told_of status host signal =
      if signal && status.mode == full_mode then add_peer_msg host ∷ [] else []

  unfoldable pub set_peer_status :
      ℕ → String → Status → PeerHandler n o → PeerHandler n o × List SubscriberMsg
  unfolding handler_add_peer status_set find_peer
  set_peer_status now addr status h = elim (find_peer addr h) [
    | none ↦ (h, [])
    | some peer ↦ elim (parse_host n addr) [
      | unparsed e ↦ (h, [])
      | parsed (ip, port) ↦
          let temp = set_from_status n status (new_peer n now ip port) in
          let (h', told) = handler_add_peer temp h in
          if peer_equal n temp peer
          then (
            status_set now status addr peer h,
            told_of status (api_host n (set_from_status n status peer)) (not (reachable n peer)),
          )
          else (
            status_set now status (peer_host n temp) temp h',
            told ++ told_of status (api_host n temp) true,
          )
    ]
  ]
