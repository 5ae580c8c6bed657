-- ===== src/Protocol.antt =====
-- peers/handlers.go: the handlers of the protocol between peers, which ask the loop of
-- peers/discovery.go. `none` is a panic of a handler, which ends its request alone.
pub mod Announced
use gobalance.Common.{ℕ, String, Option, none, some, List, ◌∷◌}
use gobalance.Discovery.Steps.{
  peer_list_request, status_request, peer_announcement, Event, Turn, goes_on, ends, panics, Output,
  listed, own_status, discovery_step,
}
use gobalance.Discovery.{PeerHandler, get_peer_list, get_status}
use gobalance.Hosts.{parse_host, parsed, unparsed}
use gobalance.Net.{Net}
use gobalance.Peer.{Status}
use gobalance.OrderedMap.{OrderedMap}

pub data PeerReply : Type 0 where
  peers_reply : List String → PeerReply
  status_reply : Status → PeerReply
  ok_reply : PeerReply

module _ (n : Net) where
  -- what the loop writes to the response channel
  unfoldable pub response : List (Output n) → Option PeerReply
  response (listed peers ∷ _) = some (peers_reply peers)
  response (own_status status ∷ _) = some (status_reply status)
  response _ = none

  unfoldable pub turn_response : {o : OrderedMap} → Turn n o → Option PeerReply
  unfolding response
  turn_response (goes_on h out) = response out
  turn_response (ends h out) = response out
  turn_response panics = none

  -- `ServeHTTP` of a PeerAnnouncementHandler, to the message that it sends; the status is `none`
  -- where the body cannot be decoded
  unfoldable pub announcement_handler : Option Status → String → Option (Event n)
  announcement_handler none remote_addr = none
  announcement_handler (some status) remote_addr = elim (parse_host n remote_addr) [
    | unparsed x ↦ none
    | parsed (ip, port) ↦ some (peer_announcement ip status)
  ]

  module _ (o : OrderedMap) where
    -- `ServeHTTP` of a PeerListHandler and of a StatusHandler, with the turn of the loop
    unfoldable pub peer_list_handler : ℕ → PeerHandler n o → Option PeerReply
    unfolding turn_response
    peer_list_handler now h = turn_response (discovery_step n o now peer_list_request h)

    unfoldable pub status_handler : ℕ → PeerHandler n o → Option PeerReply
    unfolding turn_response
    status_handler now h = turn_response (discovery_step n o now status_request h)
