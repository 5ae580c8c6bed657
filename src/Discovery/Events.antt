-- ===== src/Discovery/Events.antt =====
-- peers/discovery.go: every event keeps the peers in agreement with their keys.
use gobalance.Common.{
  Bool-cases, Option-cases, lookup, lookup-insert, string_key, nat_key, ==_refl, ℕ, String, ◌≡◌,
  refl, ◌⊎◌, inl, inr, Bool, true, false, ◌||◌, not, Option, none, some, List, [], ◌∷◌,
}
use gobalance.Discovery.Steps.{
  Event, on_announced, announce, peer_resolved, unknown_connection_selector, ask_list,
  peer_announcement, discovery_run, after, status_update, ask_status, status_tick,
  first_available_selector, stop_handler, get_next_list_peer, list_tick, status_request,
  unreachable_peer, announced_to, other_msg, PeerStatusMsg, seed_selector, on_resolved,
  peer_list_request, on_announcement, undiscovered_selector, get_next_announce_peer, on_status,
  get_next_status_update_peer, announce_tick, discovery_step, Output, panics, select_first_peer,
  Turn, select_either, goes_on, ends, asks, first_accepted, move_chosen,
}
use gobalance.Discovery.{
  handler_del_peer, handler_start, get_status, handler_add_peer, put_peer, is_local_ip, assign,
  find_peer, PeerHandler,
}
use gobalance.Discovery.Kept.{add_peer-IsKnown, mark-IsKnown, assign-IsKnown, found-IsKept, IsKnown}
use gobalance.Peer.{Status, reachable, new_peer, peer_host, set_discovered, Peer}
use gobalance.OrderedMap.{OrderedMap}
use gobalance.Discovery.Known.{member-set_names, AllKept-moved}
use gobalance.Net.{Net}
use gobalance.Hosts.{Parsed-cases, parse_host}
use gobalance.Discovery.Reached.{set_peer_status-IsKnown}

module _ (n : Net) (o : OrderedMap) where
  abbrev pub KnownAfter : Turn n o → Type 0
  KnownAfter (goes_on h out) = IsKnown n o h
  KnownAfter (ends h out) = IsKnown n o h
  KnownAfter panics = Unit

  move_chosen-IsKnown :
      (r : Option (Peer n)) (h : PeerHandler n o)
      → IsKnown n o h
      → IsKnown n o (move_chosen n o r h).1
  move_chosen-IsKnown none h known = known
  move_chosen-IsKnown (some peer) h known =
      rw (o.names-move_last (peer_host n peer) h.peers)
        (AllKept-moved n h.peer_max_retries (peer_host n peer) (o.names h.peers) h.store known)

  select_first-IsKnown :
      (selector : Peer n → Bool) (h : PeerHandler n o)
      → IsKnown n o h
      → IsKnown n o (select_first_peer n o selector h).1
  unfolding select_first_peer
  select_first-IsKnown selector h known =
      move_chosen-IsKnown (first_accepted n o selector h.store (o.names h.peers)) h known

  select_either-IsKnown :
      (first second : Peer n → Bool) (h : PeerHandler n o)
      → IsKnown n o h
      → IsKnown n o (select_either n o first second h).1
  select_either-IsKnown first second h known =
      elim (Option-cases (select_first_peer n o first h).0) [
        | inl none_so ↦ rw (none_so, select_either) (select_first-IsKnown second h known)
        | inr (peer, found) ↦ rw (found, select_either) (select_first-IsKnown first h known)
      ]

  asks-KnownAfter :
      (f : Peer n → Output n) (r : Option (Peer n) × PeerHandler n o)
      → IsKnown n o r.1
      → KnownAfter (asks n o f r)
  asks-KnownAfter f (none, h) known = known
  asks-KnownAfter f (some peer, h) known = known

  pub discover-IsKnown :
      (host : String) (peer : Peer n) (h : PeerHandler n o)
      → IsKnown n o h
      → find_peer n o host h ≡ some peer
      → IsKnown n o (assign n o host (set_discovered n true peer) h)
  unfolding set_discovered peer_host
  discover-IsKnown host peer h known found =
      let (there, kept) = found-IsKept n o host peer h known found in
      assign-IsKnown n o host (set_discovered n true peer) h known there kept

  pub new_retries :
      (now : ℕ) (ip : n.Ip) (port : ℕ) → (new_peer n now ip port).connection_retries ≡ 0
  unfolding new_peer
  new_retries now ip port = refl

  pub found_added :
      (peer : Peer n) (h : PeerHandler n o)
      → find_peer n o (peer_host n peer) (handler_add_peer n o peer h).0 ≡ some peer
  unfolding find_peer handler_add_peer put_peer
  found_added peer h =
      let k = peer_host n peer in
      let h' = (handler_del_peer n o k h).0 in
      rw
        (
          o.has_lem k (o.set_key k h'.peers),
          o.names-set_key k h'.peers,
          member-set_names k k (o.names h'.peers),
          ==_refl k,
          lookup-insert k k peer h'.store,
          ==_refl k,
        )
        refl

  announcement-KnownAfter :
      (now : ℕ) (ip : n.Ip) (status : Status) (h : PeerHandler n o)
      → IsKnown n o h
      → KnownAfter (on_announcement n o now ip status h)
  unfolding on_announcement
  announcement-KnownAfter now ip status h known =
      let peer = new_peer n now ip status.port in
      elim (Option-cases (find_peer n o (peer_host n peer) h)) [
        | inr (old, found) ↦
            rw (found, on_announcement) (discover-IsKnown (peer_host n peer) old h known found)
        | inl absent ↦
            rw (absent, on_announcement)
              (discover-IsKnown (peer_host n peer) peer (handler_add_peer n o peer h).0
                (add_peer-IsKnown n o peer h known (new_retries now ip status.port))
                (found_added peer h))
      ]

  resolved-KnownAfter :
      (now : ℕ) (host : String) (h : PeerHandler n o)
      → IsKnown n o h
      → KnownAfter (on_resolved n o now host h)
  unfolding on_resolved
  resolved-KnownAfter now host h known = elim (Option-cases (find_peer n o host h)) [
    | inr (old, found) ↦ rw (found, on_resolved) known
    | inl absent ↦ elim (Parsed-cases (parse_host n host)) [
      | inr (x, bad) ↦ rw (absent, on_resolved, bad) known
      | inl ((ip, port), read) ↦
          elim (Bool-cases (h.allow_local_ip || not (is_local_ip n o ip h.local_ips))) [
            | inl welcome ↦
                rw (absent, on_resolved, read, welcome)
                  (add_peer-IsKnown n o (new_peer n now ip port) h known (new_retries now ip port))
            | inr own ↦ rw (absent, on_resolved, read, own) known
          ]
    ]
  ]

  status-KnownAfter :
      (now : ℕ) (msg : PeerStatusMsg) (h : PeerHandler n o)
      → IsKnown n o h
      → KnownAfter (on_status n o now msg h)
  unfolding on_status
  status-KnownAfter now msg h known = elim (Bool-cases msg.is_up) [
    | inl up ↦ rw (up, on_status) (set_peer_status-IsKnown n o now msg.hostname msg.status h known)
    | inr down ↦ rw (down, on_status) (mark-IsKnown n o now msg.hostname h known)
  ]

  announced-IsKnown :
      (still_there : Bool) (host : String) (h : PeerHandler n o)
      → IsKnown n o h
      → IsKnown n o (on_announced n o still_there host h)
  unfolding on_announced
  announced-IsKnown false host h known = known
  announced-IsKnown true host h known = elim (Option-cases (find_peer n o host h)) [
    | inl absent ↦ rw (absent, on_announced) known
    | inr (peer, found) ↦ rw (found, on_announced) (discover-IsKnown host peer h known found)
  ]

  step-KnownAfter :
      (now : ℕ) (event : Event n) (h : PeerHandler n o)
      → IsKnown n o h
      → KnownAfter (discovery_step n o now event h)
  unfolding discovery_step get_next_list_peer get_next_status_update_peer get_next_announce_peer
  step-KnownAfter now (unreachable_peer host) h known =
      elim (Option-cases (lookup host h.api_host_idx)) [
        | inl absent ↦ rw (absent, discovery_step) known
        | inr (addr, there) ↦ rw (there, discovery_step) (mark-IsKnown n o now addr h known)
      ]
  step-KnownAfter now (peer_resolved host) h known = resolved-KnownAfter now host h known
  step-KnownAfter now (announced_to still_there host) h known =
      announced-IsKnown still_there host h known
  step-KnownAfter now stop_handler h known = elim (Bool-cases h.started) [
    | inl on ↦ rw on known
    | inr off ↦ rw off known
  ]
  step-KnownAfter now peer_list_request h known = known
  step-KnownAfter now other_msg h known = tt
  step-KnownAfter now list_tick h known =
      asks-KnownAfter ask_list _ (select_either-IsKnown (seed_selector n o) (reachable n) h known)
  step-KnownAfter now status_tick h known = asks-KnownAfter ask_status _ (
      select_either-IsKnown (unknown_connection_selector n o) (first_available_selector n o) h
        known)
  step-KnownAfter now status_request h known = known
  step-KnownAfter now announce_tick h known =
      asks-KnownAfter (λ peer. announce peer (get_status n o now h)) _
        (select_first-IsKnown (undiscovered_selector n o) h known)
  step-KnownAfter now (peer_announcement ip status) h known =
      announcement-KnownAfter now ip status h known
  step-KnownAfter now (status_update msg) h known = status-KnownAfter now msg h known

  after-KnownAfter :
      (out : List (Output n)) (t : Turn n o) → KnownAfter t → KnownAfter (after n o out t)
  after-KnownAfter out (goes_on h later) known = known
  after-KnownAfter out (ends h later) known = known
  after-KnownAfter out panics known = tt

  Turn-cases :
      (t : Turn n o)
      → ((h : PeerHandler n o) × (out : List (Output n)) × (t ≡ goes_on h out))
        ⊎ ((h : PeerHandler n o) × (out : List (Output n)) × (t ≡ ends h out))
        ⊎ (t ≡ panics)
  Turn-cases (goes_on h out) = inl (h, out, refl)
  Turn-cases (ends h out) = inr (inl (h, out, refl))
  Turn-cases panics = inr (inr refl)

  run-KnownAfter :
      (events : List (ℕ × Event n)) (h : PeerHandler n o)
      → IsKnown n o h
      → KnownAfter (discovery_run n o events h)
  unfolding discovery_run
  run-KnownAfter [] h known = known
  run-KnownAfter ((now, event) ∷ events) h known =
      let stepped = step-KnownAfter now event h known in
      elim (Turn-cases (discovery_step n o now event h)) [
        | inl (h', out, same) ↦
            rw (same, discovery_run)
              (after-KnownAfter out (discovery_run n o events h')
                (run-KnownAfter events h' (rw same at stepped)))
        | inr (inl (h', out, same)) ↦ rw (same, discovery_run) (rw same at stepped)
        | inr (inr same) ↦ rw (same, discovery_run) tt
      ]

  started-IsKnown :
      (now : ℕ) (ips : List n.Ip) (h : PeerHandler n o) → IsKnown n o (handler_start n o now ips h)
  unfolding handler_start lookup
  started-IsKnown now ips h k = rw o.names-new (refl, tt)

  -- From the start of a handler on, whatever events its loop meets, in whatever order: every key of
  -- the peers has a peer, that peer's host is the key, and it has not failed more often in a row
  -- than the handler allows; no peer is kept without a key.
  pub discovery_run-KnownAfter :
      (now : ℕ) (ips : List n.Ip) (h : PeerHandler n o) (events : List (ℕ × Event n))
      → KnownAfter (discovery_run n o events (handler_start n o now ips h))
  discovery_run-KnownAfter now ips h events =
      run-KnownAfter events (handler_start n o now ips h) (started-IsKnown now ips h)
