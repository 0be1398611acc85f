-- ===== src/Chkalias/Hosts.antt =====
-- cmd/chkalias/chkalias.go: `lookup`, the addresses of hosts. `lookup_ip` is `net.LookupIP` and `sort_slice`
-- is `sort.Slice`. What is printed of the hosts that share an address, of the aliases and of the errors
-- is the report; the line of each host with its addresses is left out. A map is the list of its
-- entries.
pub mod Groups
pub mod Aliases
mod Tests
use urlhero.Common.{
  ℕ, zero, suc, ◌+◌, Bool, true, false, Option, none, some, List, [], ◌∷◌, ◌++◌, ◌⊎◌, inl, inr,
  Bytes, codes, str_eq, str_lt, ltb, ◌==◌, if◌then◌else◌, length, map,
}
use urlhero.BitLy.{v4_in_v6_prefix, is_ip_alias}

pub record HostIp : Type 0 where
  pub host : Bytes
  pub ips : List Bytes

pub record Resolved (E : Type 0) : Type 0 where
  pub host_info : List HostIp
  pub ip_map : List (Bytes × List Bytes)
  pub errs : List E

-- `net.IP.To16`
unfoldable pub to16 : Bytes → Option Bytes
to16 ip =
    if length ip == 4
    then some (v4_in_v6_prefix ++ ip)
    else if length ip == 16
    then some ip
    else none

-- `ipMap[b]`
unfoldable pub hosts_at : Bytes → List (Bytes × List Bytes) → List Bytes
unfolding str_eq
hosts_at b [] = []
hosts_at b ((key, hosts) ∷ ip_map) =
    let rest = hosts_at b ip_map in if str_eq key b then hosts else rest

-- `ipMap[b] = append(ipMap[b], host)`
unfoldable pub append_at : Bytes → Bytes → List (Bytes × List Bytes) → List (Bytes × List Bytes)
unfolding str_eq
append_at b host [] = (b, host ∷ []) ∷ []
append_at b host ((key, hosts) ∷ ip_map) =
    let rest = append_at b host ip_map in
    if str_eq key b then (key, hosts ++ host ∷ []) ∷ ip_map else (key, hosts) ∷ rest

abbrev pub add_ip : Bytes → Option Bytes → List (Bytes × List Bytes) → List (Bytes × List Bytes)
add_ip host none ip_map = ip_map
add_ip host (some b) ip_map = append_at b host ip_map

-- the loop over the addresses of a host
unfoldable pub add_ips : Bytes → List Bytes → List (Bytes × List Bytes) → List (Bytes × List Bytes)
unfolding append_at to16
add_ips host [] ip_map = ip_map
add_ips host (ip ∷ ips) ip_map = add_ips host ips (add_ip host (to16 ip) ip_map)

module _ {E : Type 0} (lookup_ip : Bytes → E ⊎ List Bytes)
    (sort_slice : (Bytes → Bytes → Bool) → List Bytes → List Bytes) where
  -- a round of the loop over the hosts
  abbrev pub add_host : Resolved E → Bytes → E ⊎ List Bytes → Resolved E
  add_host r host (inl e) = record r { errs = r.errs ++ e ∷ [] }
  add_host r host (inr ips) = record r {
    host_info = r.host_info ++ record { host = host; ips = sort_slice str_lt ips } ∷ [];
    ip_map = add_ips host (sort_slice str_lt ips) r.ip_map;
  }

  unfoldable pub resolve : Resolved E → List Bytes → Resolved E
  unfolding add_ips str_lt
  resolve r [] = r
  resolve r (host ∷ hosts) = resolve (add_host r host (lookup_ip host)) hosts

abbrev pub zero_key : Bytes
zero_key = 0 ∷ 0 ∷ 0 ∷ 0 ∷ 0 ∷ 0 ∷ 0 ∷ 0 ∷ 0 ∷ 0 ∷ 0 ∷ 0 ∷ 0 ∷ 0 ∷ 0 ∷ 0 ∷ []

-- The keys, which are appended to as many keys of zeros.
unfoldable pub ip_keys : List (Bytes × List Bytes) → List (Bytes × List Bytes) → List Bytes
ip_keys [] ip_map = map (λ entry. entry.0) ip_map
ip_keys (_ ∷ more) ip_map = zero_key ∷ ip_keys more ip_map

-- The hosts of one address: a comma follows but where the place is the last one of the keys.
unfoldable pub print_hosts : ℕ → ℕ → List Bytes → Bytes
print_hosts n i [] = []
print_hosts n i (host ∷ hosts) =
    host ++ ((if i + 1 == n then [] else codes ", ") ++ print_hosts n (i + 1) hosts)

-- the loop over the keys
unfoldable pub print_shared : ℕ → List Bytes → List (Bytes × List Bytes) → List (Bytes × Bytes)
unfolding hosts_at print_hosts
print_shared n [] ip_map = []
print_shared n (ip ∷ keys) ip_map =
    let rest = print_shared n keys ip_map in
    let hosts = hosts_at ip ip_map in
    if ltb 1 (length hosts) then (ip, print_hosts n 0 hosts) ∷ rest else rest

-- the loop over the hosts that prints the aliases
unfoldable pub print_aliases : List HostIp → List Bytes
unfolding is_ip_alias
print_aliases [] = []
print_aliases (h ∷ host_info) =
    let rest = print_aliases host_info in if is_ip_alias h.ips then h.host ∷ rest else rest

pub record Report (E : Type 0) : Type 0 where
  pub shared : List (Bytes × Bytes)
  pub aliases : List Bytes
  pub errs : List E

-- what `lookup` prints once the hosts are resolved
abbrev pub report :
    {E : Type 0} → ((Bytes → Bytes → Bool) → List Bytes → List Bytes) → Resolved E → Report E
report sort_slice r =
    let keys = sort_slice str_lt (ip_keys r.ip_map r.ip_map) in
    record {
      shared = print_shared (length keys) keys r.ip_map;
      aliases = print_aliases r.host_info;
      errs = r.errs;
    }

-- `lookup`
unfoldable pub lookup :
    {E : Type 0}
    → (Bytes → E ⊎ List Bytes)
    → ((Bytes → Bytes → Bool) → List Bytes → List Bytes)
    → List Bytes
    → Report E
unfolding resolve print_shared print_aliases ip_keys
lookup lookup_ip sort_slice hosts =
    report sort_slice
      (resolve lookup_ip sort_slice (record { host_info = []; ip_map = []; errs = [] }) hosts)
