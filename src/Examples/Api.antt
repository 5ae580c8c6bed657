-- ===== src/Examples/Api.antt =====
-- api/balance.go: a request for the balance of alice, with a peer that answers 21.
use gobalance.Common.{
  if◌then◌else◌, lookup, string_key, nat_key, ◌==◌, ℕ, String, ◌≡◌, refl, ◌⊎◌, true, false, some,
}
use gobalance.Deque.{list_deque}
use gobalance.Api.Replies.{reply_of, url_of, balance_handler-Answers}
use gobalance.Api.{
  address_reply, remote_peer, request_proxy_balance, get_balance_from, Fetched, balance_handler,
  request_failed, proxy_url, internal_server_error, decoded,
}
use gobalance.Examples.Caches.{balance_state, nothing_yet}
use gobalance.Lru.{map_lru}
use gobalance.OrderedMap.{list_map}
use gobalance.Peers.{get_peer, assign_peer, get_peer_persistent}
use gobalance.Hosts.{HostError, parsed, unparsed, parse_host}
use gobalance.Examples.Peers.{peer_manager}
use gobalance.Balance.Coherence.{Answers}
use gobalance.Balance.{BalanceState, proxied}
use gobalance.Examples.Net.{stroke_net}
use gobalance.Examples.Texts.{strokes}

abbrev fetch : String → Fetched
fetch url = if url == "http://one/address" then decoded "alice" 21 else request_failed

-- in proxy mode
abbrev proxying : BalanceState map_lru
proxying = record balance_state { proxy_mode = true }

balance_handler-Answers_example :
    let r =
      balance_handler list_deque list_map map_lru map_lru stroke_net fetch
        (λ a. 0)
        "alice"
        "I:I"
        proxying
        peer_manager in
    ((a : String) → Answers map_lru a (r.1).cache 0)
    × (((x : HostError) × (parse_host stroke_net "I:I" ≡ unparsed x)
          × (r ≡ (internal_server_error, proxying, peer_manager)))
        ⊎ ((ip : ℕ) × (port : ℕ) × (parse_host stroke_net "I:I" ≡ parsed (ip, port))
            × (((true ≡ false) × (r.0 ≡ address_reply "alice" 0) × (r.2 ≡ peer_manager))
                ⊎ ((true ≡ true)
                    × (r.0
                        ≡ reply_of "alice" (
                            fetch (
                              url_of
                                (get_peer_persistent list_deque list_map map_lru
                                  (strokes ip)
                                  peer_manager).0)))
                    × (r.1 ≡ proxying)
                    × (r.2
                        ≡ (get_peer_persistent list_deque list_map map_lru
                            (strokes ip)
                            peer_manager).1)))))
balance_handler-Answers_example =
    balance_handler-Answers list_deque list_map map_lru map_lru stroke_net fetch (λ a. 0) "alice"
      "I:I" proxying peer_manager nothing_yet

-- by the first peer, which is asked for no address
by_peer :
    (get_balance_from list_deque list_map map_lru map_lru fetch
      (proxied "alice" "I" 0)
      peer_manager).0
    ≡ some 21
unfolding get_balance_from request_proxy_balance remote_peer proxy_url get_peer_persistent
    assign_peer get_peer lookup
by_peer = refl
