-- ===== src/Api/Replies.antt =====
-- api/balance.go: the replies for the balance of an address.
use Prim.Native.String.{◌++◌}
use gobalance.Common.{
  Bool-cases, Int64, ℕ, String, ◌≡◌, refl, ◌∙◌, ◌⊎◌, inl, inr, true, false, none, some,
}
use gobalance.Balance.{balance_to, proxied, BalanceState, balance_request}
use gobalance.Balance.Coherence.{Answers}
use gobalance.Deque.{Deque}
use gobalance.Hosts.{unparsed, Parsed-cases, parsed, HostError, parse_host}
use gobalance.Api.{
  undecoded, request_failed, remote_peer, Reply, proxy_url, decoded, address_reply, balance_reply,
  balance_handler, internal_server_error, request_proxy_balance, Fetched, get_balance_from,
}
use gobalance.Lru.{Lru}
use gobalance.Peers.{PeerAnswer, no_peers_available, peer_at, get_peer_persistent, PeerManager}
use gobalance.OrderedMap.{OrderedMap}
use gobalance.Net.{Net}
use gobalance.Balance.Updates.{balance_request-Answers}

-- What the answer of a peer leads to.
abbrev pub reply_of : String → Fetched → Reply
reply_of address request_failed = internal_server_error
reply_of address undecoded = internal_server_error
reply_of address (decoded _ balance) = address_reply address balance

-- The URL that a client's peer is asked by, which has no host if there is no peer.
abbrev pub url_of : PeerAnswer → String
url_of (peer_at peer) = "http://" ++ (peer ++ "/address")
url_of no_peers_available = "http://" ++ ("" ++ "/address")

of_fetched :
    (address : String) (r : Fetched)
    → balance_reply address
        (elim r [ request_failed ↦ none | undecoded ↦ none | decoded a balance ↦ some balance ])
      ≡ reply_of address r
unfolding balance_reply
of_fetched address request_failed = refl
of_fetched address undecoded = refl
of_fetched address (decoded a balance) = refl

replied :
    (fetch : String → Fetched) (address : String) (peer : PeerAnswer)
    → balance_reply address (request_proxy_balance fetch peer)
      ≡ reply_of address (fetch (url_of peer))
unfolding request_proxy_balance remote_peer proxy_url
replied fetch address (peer_at peer) = of_fetched address (fetch (url_of (peer_at peer)))
replied fetch address no_peers_available = of_fetched address (fetch (url_of no_peers_available))

module _ (d : Deque) (o : OrderedMap) (l : Lru String) (c : Lru Int64) where
  in_proxy_mode :
      (manager : String → Int64) (address ip : String) (ch : ℕ) (s : BalanceState c)
      → s.proxy_mode ≡ true
      → (balance_request c manager address ip ch s).0 ≡ s
  unfolding balance_request
  in_proxy_mode manager address ip ch s proxy = rw (proxy, balance_request) refl

  -- The balance handler replies with an error, and changes nothing, if the remote address of the
  -- request cannot be read. Else, out of proxy mode, it replies with the balance that the block
  -- manager gives for the address, and leaves the peers as they are; in proxy mode it asks the peer
  -- of the client by a URL that does not name the address, replies with the balance that the peer
  -- answers, or with an error if the request fails or its answer cannot be decoded, and leaves the
  -- cache as it is. What is cached stays right.
  pub balance_handler-Answers :
      (n : Net) (fetch : String → Fetched) (manager : String → Int64) (address remote_addr : String)
      (s : BalanceState c) (p : PeerManager d o l)
      → ((a : String) → Answers c a s.cache (manager a))
      → let r = balance_handler d o l c n fetch manager address remote_addr s p in
        ((a : String) → Answers c a (r.1).cache (manager a))
        × (((x : HostError) × (parse_host n remote_addr ≡ unparsed x)
              × (r ≡ (internal_server_error, s, p)))
            ⊎ ((ip : n.Ip) × (port : ℕ) × (parse_host n remote_addr ≡ parsed (ip, port))
                × (((s.proxy_mode ≡ false)
                      × (r.0 ≡ address_reply address (manager address))
                      × (r.2 ≡ p))
                    ⊎ ((s.proxy_mode ≡ true)
                        × (r.0
                            ≡ reply_of address
                                (fetch (url_of (get_peer_persistent d o l (n.ip_string ip) p).0)))
                        × (r.1 ≡ s)
                        × (r.2 ≡ (get_peer_persistent d o l (n.ip_string ip) p).1)))))
  unfolding balance_handler get_balance_from balance_reply
  balance_handler-Answers n fetch manager address remote_addr s p right =
      elim (Parsed-cases (parse_host n remote_addr)) [
        | inr (x, bad) ↦ rw (bad, balance_handler) (right, inl (x, refl, refl))
        | inl ((ip, port), read_so) ↦
            let (after, answer) =
              balance_request-Answers c manager address (n.ip_string ip) 0 s right in
            elim (Bool-cases s.proxy_mode) [
              | inl proxy ↦
                  let handed_on : (balance_request c manager address (n.ip_string ip) 0 s).1
                      ≡ proxied address (n.ip_string ip) 0 =
                    answer ∙ rw proxy refl in
                  rw (read_so, handed_on, balance_handler)
                    (
                      after,
                      inr (
                        ip,
                        port,
                        refl,
                        inr (
                          proxy,
                          replied fetch address (get_peer_persistent d o l (n.ip_string ip) p).0,
                          in_proxy_mode manager address (n.ip_string ip) 0 s proxy,
                          refl,
                        ),
                      ),
                    )
              | inr direct ↦
                  let told_so : (balance_request c manager address (n.ip_string ip) 0 s).1
                      ≡ balance_to 0 (manager address) =
                    answer ∙ rw direct refl in
                  rw (read_so, told_so, balance_handler)
                    (after, inr (ip, port, refl, inl (direct, refl, refl)))
            ]
      ]
