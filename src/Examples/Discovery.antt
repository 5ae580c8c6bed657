-- ===== src/Examples/Discovery.antt =====
-- A handler with a few peers, and hostnames that wait.
use gobalance.Discovery.Rounds.{polled-peers, NoneUnknown, polled}
use gobalance.Common.{
  Map, is_some, lookup, Unique, Enumerates, string_key, nat_key, ℕ, String, ◌≡◌, refl, true, false,
  ◌&&◌, not, some, List, [], ◌∷◌, arith,
}
use text.Mathlib.TextEquality.{eq_iff}
use gobalance.Examples.Texts.{with_colon, split_colon, count_strokes, strokes}
use gobalance.Discovery.Reached.{set_peer_status-Reaches, temp_peer, Reaches}
use gobalance.Peer.{
  set_reachable, peer_host, Peer, full_mode, Status, new_peer, reachable, peer_equal,
}
use gobalance.Discovery.Steps.{
  Event, unreachable_peer, discovery_run, peer_announcement, status_update,
}
use gobalance.Resolve.Drained.{tick_all, tick_all-drains}
use gobalance.Discovery.{handler_start, PeerHandler, set_peer_status, find_peer}
use gobalance.Discovery.Events.{KnownAfter, discovery_run-KnownAfter}
use gobalance.Hosts.{parse_host, host_to_string, parse_host-host_to_string, parsed}
use gobalance.Discovery.Kept.{IsKnown}
use gobalance.OrderedMap.{list_map}
use gobalance.Discovery.Failures.{fail_all, fail_all_drops}
use gobalance.Examples.Net.{stroke_net}

abbrev handler : PeerHandler stroke_net list_map
handler = record {
  mode = full_mode;
  peer_port = 9;
  balance_port = 8;
  version = "1";
  allow_local_ip = false;
  peer_max_retries = 0;
  start_time = 0;
  peers = [];
  store = [];
  api_host_idx = [];
  local_ips = [];
  started = false;
}

abbrev full_status : Status
full_status = record { mode = full_mode; port = 2; balance_port = 3; uptime = 0; version = "1" }

-- a peer is announced, reached, and fails
abbrev events : List (ℕ × Event stroke_net)
events =
    (1, peer_announcement 1 full_status)
    ∷ (2, status_update (record { hostname = "I:II"; is_up = true; status = full_status }))
    ∷ (3, unreachable_peer "I:III")
    ∷ []

discovery_run-KnownAfter_example :
    KnownAfter stroke_net list_map
      (discovery_run stroke_net list_map events (handler_start stroke_net list_map 0 [] handler))
discovery_run-KnownAfter_example = discovery_run-KnownAfter stroke_net list_map 0 [] handler events

-- a handler with one peer, of which nothing is known, and at most one retry
abbrev one_peer : PeerHandler stroke_net list_map
one_peer = record handler {
  peer_max_retries = 1;
  peers = "I:II" ∷ [];
  store = ("I:II", new_peer stroke_net 0 1 2) ∷ [];
}

one_peer-IsKnown : IsKnown stroke_net list_map one_peer
unfolding lookup new_peer peer_host host_to_string strokes with_colon
one_peer-IsKnown k = ground (arith, eq_iff "I:II" k)

one_found : find_peer stroke_net list_map "I:II" one_peer ≡ some (new_peer stroke_net 0 1 2)
unfolding find_peer lookup
one_found = refl

one_read : parse_host stroke_net "I:II" ≡ parsed (1, 2)
unfolding parse_host split_colon count_strokes
one_read = refl

set_peer_status-Reaches_example :
    (host : String) × (p : Peer stroke_net) × Reaches stroke_net list_map 5 full_status
      (not (
        reachable stroke_net (new_peer stroke_net 0 1 2)
        && peer_equal stroke_net
            (temp_peer stroke_net list_map 5 full_status 1 2)
            (new_peer stroke_net 0 1 2)))
      (set_peer_status stroke_net list_map 5 "I:II" full_status one_peer)
      host
      p
set_peer_status-Reaches_example =
    set_peer_status-Reaches stroke_net list_map 5 "I:II" full_status one_peer
      (new_peer stroke_net 0 1 2) 1 2 one_peer-IsKnown one_found one_read

fail_all_drops_example :
    is_some (
      find_peer stroke_net list_map "I:II"
        (fail_all stroke_net list_map (4 ∷ 5 ∷ []) "I:II" one_peer))
    ≡ false
unfolding new_peer
fail_all_drops_example =
    fail_all_drops stroke_net list_map (4 ∷ 5 ∷ []) "I:II" (new_peer stroke_net 0 1 2) one_peer
      one_peer-IsKnown one_found (omega arith)

abbrev failed_peer : Peer stroke_net
failed_peer = set_reachable stroke_net 3 (new_peer stroke_net 0 1 2)

abbrev known_peer : PeerHandler stroke_net list_map
known_peer = record one_peer { store = ("I:II", failed_peer) ∷ [] }

known_peer-IsKnown : IsKnown stroke_net list_map known_peer
unfolding lookup set_reachable new_peer peer_host host_to_string strokes with_colon
known_peer-IsKnown k = ground (arith, eq_iff "I:II" k)

known_peer-NoneUnknown : NoneUnknown stroke_net list_map known_peer
unfolding lookup set_reachable new_peer
known_peer-NoneUnknown = (refl, tt)

polled-peers_example :
    ((polled stroke_net list_map 1 known_peer).0 ≡ some failed_peer ∷ [])
    × ((polled stroke_net list_map 1 known_peer).1.peers ≡ "I:II" ∷ [])
unfolding lookup
polled-peers_example =
    polled-peers stroke_net list_map known_peer known_peer-IsKnown known_peer-NoneUnknown

abbrev waiting : Map String ℕ
waiting = ("seed.example:9", 0) ∷ ("other.example:9", 4) ∷ []

in_order : (m : Map String ℕ) → Unique m → Enumerates m m
in_order m u = record { unique = u; same = λ k. refl }

tick_all-drains_example : tick_all stroke_net (λ m. m) in_order 12 waiting ≡ []
unfolding lookup
tick_all-drains_example =
    tick_all-drains stroke_net (λ m. m) in_order 12 waiting
      ((refl, (refl, tt)), (omega arith, (omega arith, tt))) (omega arith)

parse_host-host_to_string_example :
    parse_host stroke_net (host_to_string stroke_net 1 2) ≡ parsed (1, 2)
parse_host-host_to_string_example = parse_host-host_to_string stroke_net 1 2 (omega arith)
