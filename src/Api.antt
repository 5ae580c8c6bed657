-- ===== src/Api.antt =====
-- api/balance.go, api/height.go and api/recent_tx.go, the handlers of the HTTP API, and the request
-- to a peer in balance/balance.go. What the router takes from the request is an argument, and a
-- reply is its data before they are written as JSON. The routines that the handlers ask run, so
-- each answers.
pub mod Replies
use gobalance.Common.{Int64, ℕ, String, Option, none, some, List, map}
use Prim.Native.String.{◌++◌}
use gobalance.Balance.{Answer, balance_to, proxied, stopped_to, BalanceState, balance_request}
use gobalance.Primitives.{Hash}
use gobalance.Peers.{PeerAnswer, PeerManager, get_peer_persistent, no_peers_available, peer_at}
use gobalance.Lru.{Lru}
use gobalance.OrderedMap.{OrderedMap}
use gobalance.Hosts.{parse_host, parsed, unparsed}
use gobalance.RecentTx.{get_addr_recent_tx, RecentTxCache}
use gobalance.Height.{HeightCache, get_height}
use gobalance.Deque.{Deque}
use gobalance.Net.{Net}

-- what `proxyClient.Get` and the decoding of its answer give
pub data Fetched : Type 0 where
  request_failed undecoded : Fetched
  decoded : String → Int64 → Fetched

pub data Reply : Type 0 where
  internal_server_error : Reply
  address_reply : String → Int64 → Reply
  height_reply : ℕ → Reply
  tx_reply : List Hash → Reply

-- `GetPeerPersistent` returns the empty text with an error, and the error is not looked at.
unfoldable pub remote_peer : PeerAnswer → String
remote_peer (peer_at peer) = peer
remote_peer no_peers_available = ""

unfoldable pub proxy_url : String → String
proxy_url peer = "http://" ++ (peer ++ "/address")

-- `none` is an error, beside the balance -1.
unfoldable pub request_proxy_balance : (String → Fetched) → PeerAnswer → Option Int64
unfolding remote_peer proxy_url
request_proxy_balance fetch peer = elim (fetch (proxy_url (remote_peer peer))) [
  | request_failed ↦ none
  | undecoded ↦ none
  | decoded address balance ↦ some balance
]

unfoldable pub balance_reply : String → Option Int64 → Reply
balance_reply address none = internal_server_error
balance_reply address (some balance) = address_reply address balance

module _ (d : Deque) (o : OrderedMap) (l : Lru String) (c : Lru Int64) where
  -- `GetBalance` of the cache of balances, with the answer of its routine
  unfoldable pub get_balance_from :
      (String → Fetched) → Answer → PeerManager d o l → Option Int64 × PeerManager d o l
  unfolding request_proxy_balance
  get_balance_from fetch (balance_to ch balance) p = (some balance, p)
  get_balance_from fetch (proxied address ip ch) p = (
    request_proxy_balance fetch (get_peer_persistent d o l ip p).0,
    (get_peer_persistent d o l ip p).1,
  )
  get_balance_from fetch (stopped_to ch) p = (none, p)

  -- The response channel is made for the call: its number is 0.
  unfoldable pub balance_handler :
      (n : Net)
      → (String → Fetched)
      → (String → Int64)
      → String
      → String
      → BalanceState c
      → PeerManager d o l
      → Reply × BalanceState c × PeerManager d o l
  unfolding get_balance_from balance_reply
  balance_handler n fetch manager address remote_addr s p = elim (parse_host n remote_addr) [
    | unparsed x ↦ (internal_server_error, s, p)
    | parsed (ip, port) ↦
        let (s', answer) = balance_request c manager address (n.ip_string ip) 0 s in
        let (balance, p') = get_balance_from fetch answer p in
        (balance_reply address balance, s', p')
  ]

unfoldable pub height_handler : HeightCache → Reply
unfolding get_height
height_handler h = height_reply (get_height h)

module _ (d : Deque) where
  unfoldable pub recent_tx_handler : String → RecentTxCache d → Reply
  unfolding get_addr_recent_tx
  recent_tx_handler address r = tx_reply (map (λ e. (e.0).hash) (get_addr_recent_tx d address r))
