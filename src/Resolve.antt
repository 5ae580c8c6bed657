-- ===== src/Resolve.antt =====
-- peers/resolve.go: the hostnames of peers that wait to be resolved, with the times each failed.
-- The order in which a `range` meets the map is an argument.
pub mod Drained
pub mod Tries
use gobalance.Common.{
  ltb, eqb, if◌then◌else◌, Map, get_or, lookup, delete, insert, string_key, nat_key, ℕ, ◌+◌, ◌*◌,
  String, Option, none, some, List, [], ◌∷◌, ◌++◌,
}
use gobalance.Hosts.{parse_host, parsed, host_to_string, resolve_hostname, unparsed}
use gobalance.Net.{Net}
use gobalance.Config.{chosen}

abbrev pub lookup_max_retries : ℕ
lookup_max_retries = 5

pub data ResolveEvent : Type 0 where
  resolve_request : String → ResolveEvent
  resolve_tick resolve_exit : ResolveEvent

-- the loop of `getNextHostname`, with the choice so far
abbrev pub retries_of : Option (String × ℕ) → ℕ
retries_of none = lookup_max_retries * 20
retries_of (some (host, retries)) = retries

unfoldable pub next_from : Map String ℕ → Option (String × ℕ) → Option (String × ℕ)
next_from [] chosen = chosen
next_from ((host, retries) ∷ hosts) chosen =
    let chosen' = if ltb retries (retries_of chosen) then some (host, retries) else chosen in
    let rest = next_from hosts chosen' in if eqb retries 0 then chosen' else rest

unfoldable pub get_next_hostname : Map String ℕ → Option (String × ℕ)
unfolding next_from
get_next_hostname hosts = next_from hosts none

module _ (n : Net) (order : Map String ℕ → Map String ℕ) where
  -- what a failure of the lookup leaves of the hosts
  unfoldable pub lookup_failed : String → Map String ℕ → Map String ℕ
  lookup_failed host hosts =
      let retries = get_or (lookup host hosts) 0 + 1 in
      if ltb lookup_max_retries retries then delete host hosts else insert host retries hosts

  -- the hosts that are left, and what is sent as resolved
  unfoldable pub do_resolve : Map String ℕ → Map String ℕ × List String
  unfolding get_next_hostname lookup_failed
  do_resolve hosts = elim (get_next_hostname (order hosts)) [
    | none ↦ (hosts, [])
    | some (host, tried) ↦ elim (resolve_hostname n host) [
      | unparsed e ↦ (lookup_failed host hosts, [])
      | parsed address ↦ (delete host hosts, address ∷ [])
    ]
  ]

  -- `resolveHostnameRoutine` on an event that is not the last
  unfoldable pub resolve_step : ResolveEvent → Map String ℕ → Map String ℕ × List String
  unfolding do_resolve
  resolve_step (resolve_request hostname) hosts = elim (parse_host n hostname) [
    | unparsed e ↦ (insert hostname 0 hosts, [])
    | parsed (ip, port) ↦ (hosts, host_to_string n ip port ∷ [])
  ]
  resolve_step resolve_tick hosts = do_resolve hosts
  resolve_step resolve_exit hosts = (hosts, [])

  unfoldable pub resolve_run : List ResolveEvent → Map String ℕ → Map String ℕ × List String
  unfolding resolve_step
  resolve_run [] hosts = (hosts, [])
  resolve_run (resolve_exit ∷ events) hosts = (hosts, [])
  resolve_run (resolve_request hostname ∷ events) hosts =
      let (next, out) = resolve_step (resolve_request hostname) hosts in
      let (last, later) = resolve_run events next in (last, out ++ later)
  resolve_run (resolve_tick ∷ events) hosts =
      let (next, out) = resolve_step resolve_tick hosts in
      let (last, later) = resolve_run events next in (last, out ++ later)
