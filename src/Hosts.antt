-- ===== src/Hosts.antt =====
-- utils/net.go: the text of a host, and the name of a host resolved. GetOutboundIP, which opens a
-- connection, is not modelled.
-- the errors of the package, and those that it hands on
use gobalance.Common.{
  ltb, eqb, if◌then◌else◌, Bool-cases, ℕ, ◌<◌, String, ◌≡◌, refl, ◌⊎◌, inl, inr, ◌||◌, none, some,
  List, [], ◌∷◌, arith,
}
use gobalance.Net.{Net}

pub data HostError : Type 0 where
  invalid_ip_address invalid_port_number net_error : HostError

pub data Parsed (A : Type 0) : Type 0 where
  parsed : A → Parsed A
  unparsed : HostError → Parsed A

pub Parsed-cases :
    {A : Type 0} (r : Parsed A) → ((a : A) × (r ≡ parsed a)) ⊎ ((x : HostError) × (r ≡ unparsed x))
Parsed-cases (parsed a) = inl (a, refl)
Parsed-cases (unparsed x) = inr (x, refl)

module _ (n : Net) where
  unfoldable pub host_to_string : n.Ip → ℕ → String
  host_to_string ip port =
      if n.has_ip4 ip
      then n.join_ip4 (n.ip_string ip) (n.port_string port)
      else n.join_ip6 (n.ip_string ip) (n.port_string port)

  unfoldable pub parse_host : String → Parsed (n.Ip × ℕ)
  parse_host host = elim (n.split_host_port host) [
    | none ↦ unparsed net_error
    | some (host_str, port_str) ↦ elim (n.parse_ip host_str) [
      | none ↦ unparsed invalid_ip_address
      | some ip ↦ elim (n.parse_port port_str) [
        | none ↦ unparsed invalid_port_number
        | some port ↦
            if ltb port 1 || ltb 65535 port then unparsed invalid_port_number else parsed (ip, port)
      ]
    ]
  ]

  -- the first address that is an ipv4 one, or the selection so far
  unfoldable pub first_ip4 : n.Ip → List n.Ip → n.Ip
  first_ip4 selection [] = selection
  first_ip4 selection (ip ∷ ips) =
      let rest = first_ip4 selection ips in if n.has_ip4 ip then ip else rest

  unfoldable pub resolve_hostname : String → Parsed String
  unfolding host_to_string first_ip4
  resolve_hostname hostname = elim (n.split_host_port hostname) [
    | none ↦ unparsed net_error
    | some (host, aport) ↦ elim (n.lookup_ip host) [
      | none ↦ unparsed net_error
      | some (ip, ips) ↦ elim (n.parse_port aport) [
        | none ↦ unparsed net_error
        | some port ↦ parsed (host_to_string (first_ip4 ip (ip ∷ ips)) port)
      ]
    ]
  ]

  split-host_to_string :
      (ip : n.Ip) (port : ℕ)
      → n.split_host_port (host_to_string ip port) ≡ some (n.ip_string ip, n.port_string port)
  unfolding host_to_string
  split-host_to_string ip port = elim (Bool-cases (n.has_ip4 ip)) [
    | inl four ↦ rw (four, host_to_string) (n.split-join_ip4 ip port four)
    | inr six ↦ rw (six, host_to_string) (n.split-join_ip6 ip port six)
  ]

  -- A host that HostToString writes is read back by ParseHost as the same address and port, but for
  -- port 0, which ParseHost refuses.
  pub parse_host-host_to_string :
      (ip : n.Ip) (port : ℕ)
      → port < 65536
      → parse_host (host_to_string ip port)
        ≡ (if eqb port 0 then unparsed invalid_port_number else parsed (ip, port))
  unfolding parse_host
  parse_host-host_to_string ip port small =
      rw
        (
          split-host_to_string ip port,
          parse_host,
          n.parse_ip-ip_string ip,
          n.parse_port-port_string port small,
        )
        (ground arith)
