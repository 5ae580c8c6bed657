-- ===== src/Net.antt =====
-- What the program uses of Go's net, strconv and fmt for the addresses of peers, as an interface:
-- the numbers and texts of addresses are those of the runtime.
use gobalance.Common.{ℕ, ◌<◌, String, ◌≡◌, ◌↔◌, Bool, true, false, Option, some, List}

pub record Net : Type 1 where
  -- net.IP, in one form for each address, so that `Equal` is equality
  pub Ip : Type 0
  pub equal : Ip → Ip → Bool
  pub equal_iff : (a b : Ip) → (equal a b ≡ true) ↔ (a ≡ b)
  -- To4() != nil
  pub has_ip4 : Ip → Bool
  -- ip.String(), and net.ParseIP, which is `none` for nil
  pub ip_string : Ip → String
  pub parse_ip : String → Option Ip
  -- a port in decimal, and strconv.ParseUint(s, 10, 16)
  pub port_string : ℕ → String
  pub parse_port : String → Option ℕ
  -- fmt.Sprintf("%v:%v", ip, port), fmt.Sprintf("[%v]:%v", ip, port), net.SplitHostPort
  pub join_ip4 : String → String → String
  pub join_ip6 : String → String → String
  pub split_host_port : String → Option (String × String)
  -- net.LookupIP: the addresses, at least one, or an error
  pub lookup_ip : String → Option (Ip × List Ip)
  -- Texts that the runtime writes are read back.
  pub parse_ip-ip_string : (ip : Ip) → parse_ip (ip_string ip) ≡ some ip
  pub parse_port-port_string : (p : ℕ) → p < 65536 → parse_port (port_string p) ≡ some p
  pub split-join_ip4 :
      (ip : Ip) (p : ℕ)
      → has_ip4 ip ≡ true
      → split_host_port (join_ip4 (ip_string ip) (port_string p))
        ≡ some (ip_string ip, port_string p)
  pub split-join_ip6 :
      (ip : Ip) (p : ℕ)
      → has_ip4 ip ≡ false
      → split_host_port (join_ip6 (ip_string ip) (port_string p))
        ≡ some (ip_string ip, port_string p)
