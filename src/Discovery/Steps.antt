-- ===== src/Discovery/Steps.antt =====
-- peers/discovery.go: the choice of a peer, and `peerDiscoveryRoutine` as a step on events, with
-- the routines of peers/routines.go that it starts as outputs, and what they send back as events.
use gobalance.Common.{
  if◌then◌else◌, Map, lookup, string_key, nat_key, ◌==◌, ℕ, String, Bool, true, false, ◌||◌, not,
  Option, none, some, List, [], ◌∷◌, ◌++◌, map,
}
use gobalance.Peer.{
  reachable, new_peer, peer_host, set_discovered, seed_mode, is_unknown_status, Peer, Status,
}
use gobalance.Config.{chosen}
use gobalance.Discovery.{
  SubscriberMsg, handler_mark_unreachable, assign, get_status, is_local_ip, find_peer, PeerHandler,
  set_peer_status, handler_add_peer, get_peer_list,
}
use gobalance.Hosts.{unparsed, parsed, parse_host}
use gobalance.Net.{Net}
use gobalance.OrderedMap.{OrderedMap}

pub record PeerStatusMsg : Type 0 where
  pub hostname : String
  pub is_up : Bool
  pub status : Status

pub data Event (n : Net) : Type 0 where
  unreachable_peer peer_resolved : String → Event n
  -- whether the peer under the host is still the one that the routine was given, and the host
  announced_to : Bool → String → Event n
  stop_handler peer_list_request other_msg list_tick status_tick : Event n
  status_request announce_tick : Event n
  peer_announcement : n.Ip → Status → Event n
  status_update : PeerStatusMsg → Event n

pub data Output (n : Net) : Type 0 where
  told : SubscriberMsg → Output n
  listed : List String → Output n
  own_status : Status → Output n
  status_msg : PeerStatusMsg → Output n
  ask_list ask_status : Peer n → Output n
  announce : Peer n → Status → Output n
  shut_down : Output n

pub data Turn (n : Net) (o : OrderedMap) : Type 0 where
  goes_on ends : PeerHandler n o → List (Output n) → Turn n o
  panics : Turn n o

module _ (n : Net) (o : OrderedMap) where
  -- `selectPeer`, whose selector takes the choice so far and the next peer
  unfoldable pub fold_peers :
      (Option (Peer n) → Peer n → Option (Peer n))
      → Option (Peer n)
      → Map String (Peer n)
      → List String
      → Option (Peer n)
  fold_peers selector chosen store [] = chosen
  fold_peers selector chosen store (k ∷ ks) = elim (lookup k store) [
    | none ↦ fold_peers selector chosen store ks
    | some peer ↦ fold_peers selector (selector chosen peer) store ks
  ]

  abbrev pub move_chosen : Option (Peer n) → PeerHandler n o → Option (Peer n) × PeerHandler n o
  move_chosen none h = (none, h)
  move_chosen (some peer) h =
      (some peer, record h { peers = o.move_last (peer_host n peer) h.peers })

  unfoldable pub select_peer :
      (Option (Peer n) → Peer n → Option (Peer n))
      → PeerHandler n o
      → Option (Peer n) × PeerHandler n o
  unfolding fold_peers
  select_peer selector h = move_chosen (fold_peers selector none h.store (o.names h.peers)) h

  unfoldable pub first_accepted :
      (Peer n → Bool) → Map String (Peer n) → List String → Option (Peer n)
  first_accepted selector store [] = none
  first_accepted selector store (k ∷ ks) =
      let rest = first_accepted selector store ks in
      elim (lookup k store) [ none ↦ rest | some peer ↦ if selector peer then some peer else rest ]

  unfoldable pub select_first_peer :
      (Peer n → Bool) → PeerHandler n o → Option (Peer n) × PeerHandler n o
  unfolding first_accepted
  select_first_peer selector h = move_chosen (first_accepted selector h.store (o.names h.peers)) h

  abbrev pub seed_selector : Peer n → Bool
  seed_selector peer = peer.mode == seed_mode

  abbrev pub undiscovered_selector : Peer n → Bool
  undiscovered_selector peer = not peer.discovered

  abbrev pub unknown_connection_selector : Peer n → Bool
  unknown_connection_selector peer = is_unknown_status peer.connection_status

  abbrev pub first_available_selector : Peer n → Bool
  first_available_selector peer = true

  -- a first selector, and a second one for where it accepts none
  abbrev pub select_either :
      (Peer n → Bool) → (Peer n → Bool) → PeerHandler n o → Option (Peer n) × PeerHandler n o
  select_either first second h = elim (select_first_peer first h).0 [
    | some peer ↦ select_first_peer first h
    | none ↦ select_first_peer second h
  ]

  unfoldable pub get_next_list_peer : PeerHandler n o → Option (Peer n) × PeerHandler n o
  unfolding select_first_peer
  get_next_list_peer h = select_either seed_selector (reachable n) h

  unfoldable pub get_next_status_update_peer : PeerHandler n o → Option (Peer n) × PeerHandler n o
  unfolding select_first_peer
  get_next_status_update_peer h =
      select_either unknown_connection_selector first_available_selector h

  unfoldable pub get_next_announce_peer : PeerHandler n o → Option (Peer n) × PeerHandler n o
  unfolding select_first_peer
  get_next_announce_peer h = select_first_peer undiscovered_selector h

  abbrev pub asks : (Peer n → Output n) → Option (Peer n) × PeerHandler n o → Turn n o
  asks f (none, h) = goes_on h []
  asks f (some peer, h) = goes_on h (f peer ∷ [])

  abbrev pub tells : PeerHandler n o × List SubscriberMsg → Turn n o
  tells (h, ms) = goes_on h (map {B = Output n} told ms)

  abbrev pub as_update : String → Status → Output n
  as_update host status = status_msg (record { hostname = host; is_up = true; status = status })

  -- An announcement adds the peer if it is not there, and then counts as a status update.
  unfoldable pub on_announcement : ℕ → n.Ip → Status → PeerHandler n o → Turn n o
  on_announcement now ip status h =
      let peer = new_peer n now ip status.port in
      let host = peer_host n peer in
      let (h', ms) = handler_add_peer n o peer h in
      elim (find_peer n o host h) [
        | some known ↦
            goes_on (assign n o host (set_discovered n true known) h)
              (as_update (peer_host n known) status ∷ [])
        | none ↦
            goes_on (assign n o host (set_discovered n true peer) h')
              (map {B = Output n} told ms ++ as_update host status ∷ [])
      ]

  unfoldable pub on_resolved : ℕ → String → PeerHandler n o → Turn n o
  on_resolved now hostname h = elim (find_peer n o hostname h) [
    | some known ↦ goes_on h []
    | none ↦ elim (parse_host n hostname) [
      | unparsed e ↦ goes_on h []
      | parsed (ip, port) ↦
          if h.allow_local_ip || not (is_local_ip n o ip h.local_ips)
          then tells (handler_add_peer n o (new_peer n now ip port) h)
          else goes_on h []
    ]
  ]

  unfoldable pub on_status : ℕ → PeerStatusMsg → PeerHandler n o → Turn n o
  on_status now msg h =
      if msg.is_up
      then tells (set_peer_status n o now msg.hostname msg.status h)
      else tells (handler_mark_unreachable n o now msg.hostname h)

  -- a routine of `announcePeerRoutine` that has reached its peer, which it holds by a pointer: a
  -- peer that was replaced meanwhile is marked outside the map
  unfoldable pub on_announced : Bool → String → PeerHandler n o → PeerHandler n o
  on_announced false host h = h
  on_announced true host h = elim (find_peer n o host h) [
    | none ↦ h
    | some peer ↦ assign n o host (set_discovered n true peer) h
  ]

  unfoldable pub discovery_step : ℕ → Event n → PeerHandler n o → Turn n o
  unfolding on_announcement on_resolved on_status on_announced
  discovery_step now (unreachable_peer host) h = elim (lookup host h.api_host_idx) [
    | none ↦ goes_on h []
    | some addr ↦ tells (handler_mark_unreachable n o now addr h)
  ]
  discovery_step now (peer_resolved host) h = on_resolved now host h
  discovery_step now (announced_to still_there host) h =
      goes_on (on_announced still_there host h) []
  discovery_step now stop_handler h =
      if h.started then ends (record h { started = false }) (shut_down ∷ []) else ends h []
  discovery_step now peer_list_request h = goes_on h (listed (get_peer_list n o h) ∷ [])
  discovery_step now other_msg h = panics
  discovery_step now list_tick h = asks ask_list (get_next_list_peer h)
  discovery_step now status_tick h = asks ask_status (get_next_status_update_peer h)
  discovery_step now status_request h = goes_on h (own_status (get_status n o now h) ∷ [])
  discovery_step now announce_tick h =
      asks (λ peer. announce peer (get_status n o now h)) (get_next_announce_peer h)
  discovery_step now (peer_announcement ip status) h = on_announcement now ip status h
  discovery_step now (status_update msg) h = on_status now msg h

  abbrev pub after : List (Output n) → Turn n o → Turn n o
  after out (goes_on h later) = goes_on h (out ++ later)
  after out (ends h later) = ends h (out ++ later)
  after out panics = panics

  -- The loop on events, each with its time.
  unfoldable pub discovery_run : List (ℕ × Event n) → PeerHandler n o → Turn n o
  unfolding discovery_step
  discovery_run [] h = goes_on h []
  discovery_run ((now, event) ∷ events) h = elim (discovery_step now event h) [
    | goes_on h' out ↦ after out (discovery_run events h')
    | ends h' out ↦ ends h' out
    | panics ↦ panics
  ]
