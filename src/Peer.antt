-- ===== src/Peer.antt =====
-- peers/peers.go: what is known of a peer, and peers/models.go. The requests to a peer are I/O, and
-- their answers are events of the discovery. A method that changes the peer returns the new one;
-- times are arguments.
use gobalance.Common.{eqb, if◌then◌else◌, ℕ, ◌+◌, ◌%◌, String, Bool, true, false, ◌&&◌}
use gobalance.Hosts.{host_to_string}
use gobalance.Net.{Net}

abbrev pub PeerMode : Type 0
PeerMode = String

abbrev pub unknown_mode : PeerMode
unknown_mode = "unknown"

abbrev pub load_balance_mode : PeerMode
load_balance_mode = "loadbalance"

abbrev pub full_mode : PeerMode
full_mode = "full"

abbrev pub seed_mode : PeerMode
seed_mode = "seed"

pub data PeerConnectionStatus : Type 0 where
  reachable_status unreachable_status unknown_status : PeerConnectionStatus

abbrev pub is_reachable_status : PeerConnectionStatus → Bool
is_reachable_status reachable_status = true
is_reachable_status unreachable_status = false
is_reachable_status unknown_status = false

abbrev pub is_unknown_status : PeerConnectionStatus → Bool
is_unknown_status reachable_status = false
is_unknown_status unreachable_status = false
is_unknown_status unknown_status = true

-- peers/models.go
pub record Status : Type 0 where
  pub mode : PeerMode
  pub port : ℕ
  pub balance_port : ℕ
  pub uptime : ℕ
  pub version : String

pub record Peer (n : Net) : Type 0 where
  pub ip : n.Ip
  pub peer_port : ℕ
  pub api_port : ℕ
  pub mode : PeerMode
  pub last_update : ℕ
  pub last_reachable : ℕ
  pub connection_retries : ℕ
  pub connection_status : PeerConnectionStatus
  pub version : String
  pub discovered : Bool

module _ (n : Net) where
  unfoldable pub new_peer : ℕ → n.Ip → ℕ → Peer n
  new_peer now ip port = record {
    ip = ip;
    peer_port = port;
    api_port = 0;
    mode = unknown_mode;
    last_update = now;
    last_reachable = now;
    connection_retries = 0;
    connection_status = unknown_status;
    version = "";
    discovered = false;
  }

  -- `Equal`
  unfoldable pub peer_equal : Peer n → Peer n → Bool
  peer_equal a b = n.equal a.ip b.ip && eqb a.peer_port b.peer_port && eqb a.api_port b.api_port

  unfoldable pub peer_host : Peer n → String
  peer_host p = host_to_string n p.ip p.peer_port

  unfoldable pub api_host : Peer n → String
  api_host p = host_to_string n p.ip p.api_port

  unfoldable pub set_reachable : ℕ → Peer n → Peer n
  set_reachable now p = record p {
    connection_status = reachable_status;
    connection_retries = 0;
    last_update = now;
    last_reachable = now;
  }

  -- the number of retries is a uint32
  unfoldable pub set_unreachable : ℕ → Peer n → Peer n
  set_unreachable now p = record p {
    connection_status =
        if is_reachable_status p.connection_status then unreachable_status else p.connection_status;
    connection_retries = (p.connection_retries + 1) % 4294967296;
    last_update = now;
  }

  unfoldable pub reachable : Peer n → Bool
  reachable p = is_reachable_status p.connection_status

  unfoldable pub set_discovered : Bool → Peer n → Peer n
  set_discovered flag p = record p { discovered = flag }

  unfoldable pub set_from_status : Status → Peer n → Peer n
  set_from_status s p = record p {
    mode = s.mode;
    peer_port = s.port;
    api_port = s.balance_port;
    version = s.version;
  }
