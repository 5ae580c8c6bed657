-- ===== src/Protocol/Announced.antt =====
-- peers/handlers.go and peers/discovery.go: a peer that announces itself.
use gobalance.Net.{Net}
use gobalance.Peer.{Peer}
use gobalance.OrderedMap.{OrderedMap}
