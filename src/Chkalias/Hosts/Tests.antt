-- ===== src/Chkalias/Hosts/Tests.antt =====
-- Runs of `lookup` on a few hosts, and its theorems at concrete inputs.
use urlhero.Common.{
  ℕ, List, [], ◌∷◌, ◌≡◌, ◌⊎◌, inl, inr, refl, Bytes, codes, str_eq, str_lt, if◌then◌else◌,
}
use urlhero.Shorteners.Insertion.{insertion_sort, insertion_sort-SortsSlices}
use urlhero.Chkalias.Hosts.{zero_key, to16, hosts_at, resolve, ip_keys, print_shared, lookup}
use urlhero.Chkalias.Hosts.Groups.{sharing, hosts_at-sharing}
use urlhero.Chkalias.Hosts.Aliases.{aliases_of, lookup-aliases_of}

-- Two hosts of bit.ly at one address, and one that is not found.
abbrev lookup_ip : Bytes → ℕ ⊎ List Bytes
lookup_ip host =
    if str_eq host (codes "bad")
    then inl 1
    else inr ((67 ∷ 199 ∷ 248 ∷ 10 ∷ []) ∷ (8 ∷ 8 ∷ 8 ∷ 8 ∷ []) ∷ [])

abbrev hosts : List Bytes
hosts = codes "a" ∷ codes "bad" ∷ codes "b" ∷ []

abbrev address : Bytes
address = 0 ∷ 0 ∷ 0 ∷ 0 ∷ 0 ∷ 0 ∷ 0 ∷ 0 ∷ 0 ∷ 0 ∷ 255 ∷ 255 ∷ 8 ∷ 8 ∷ 8 ∷ 8 ∷ []

-- One key of zeros stands before the key of the one entry.
keys_of_one : ip_keys ((address, hosts) ∷ []) ((address, hosts) ∷ []) ≡ zero_key ∷ address ∷ []
unfolding ip_keys
keys_of_one = refl

-- The last host is followed by a comma, since the place is compared with the number of keys.
shared_line :
    print_shared 4 (address ∷ []) ((address, codes "a" ∷ codes "b" ∷ []) ∷ [])
    ≡ (address, codes "a, b, ") ∷ []
unfolding print_shared
shared_line = refl

lookup-aliases_of_example :
    (lookup lookup_ip insertion_sort hosts).aliases ≡ aliases_of lookup_ip hosts
lookup-aliases_of_example = lookup-aliases_of lookup_ip insertion_sort-SortsSlices hosts

two_aliases : aliases_of lookup_ip hosts ≡ codes "a" ∷ codes "b" ∷ []
unfolding aliases_of str_eq
two_aliases = refl

hosts_at-sharing_example :
    hosts_at address
      (resolve lookup_ip insertion_sort
        (record { host_info = []; ip_map = []; errs = [] })
        hosts).ip_map
    ≡ sharing lookup_ip insertion_sort address hosts
hosts_at-sharing_example = hosts_at-sharing lookup_ip insertion_sort address hosts

two_sharing : sharing lookup_ip insertion_sort address hosts ≡ codes "a" ∷ codes "b" ∷ []
unfolding sharing str_eq insertion_sort str_lt to16
two_sharing = refl
