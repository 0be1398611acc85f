-- ===== src/Chkalias/Hosts/Groups.antt =====
-- cmd/chkalias/chkalias.go: the hosts that `lookup` finds for an address.
use urlhero.Common.{
  Bool, true, false, Bool-cases, Option, none, some, List, [], ◌∷◌, ◌++◌, append_assoc, append-nil,
  ◌≡◌, ◌⊎◌, inl, inr, refl, sym, ap, ◌∙◌, Bytes, str_eq, str_eq_iff, str_lt, if◌then◌else◌,
  false-true,
}
use urlhero.Chkalias.Hosts.{Resolved, to16, hosts_at, append_at, add_ip, add_ips, add_host, resolve}

-- the host, where the address is that one
abbrev pub host_if : Bytes → Bytes → Option Bytes → List Bytes
host_if host b none = []
host_if host b (some c) = if str_eq c b then host ∷ [] else []

-- The host, as often as the address is among its addresses.
unfoldable pub copies : Bytes → Bytes → List Bytes → List Bytes
copies host b [] = []
copies host b (ip ∷ ips) = host_if host b (to16 ip) ++ copies host b ips

same_key : (b key c : Bytes) → str_eq key c ≡ true → str_eq c b ≡ str_eq key b
same_key b key c e = ap (λ k. str_eq k b) (sym ((str_eq_iff key c).0 e))

other_key : (b key c : Bytes) → str_eq key c ≡ false → str_eq key b ≡ true → str_eq c b ≡ false
other_key b key c e h = elim (Bool-cases (str_eq c b)) [
  | inl k ↦ absurd (
      false-true
        (sym e ∙ (str_eq_iff key c).1 ((str_eq_iff key b).0 h ∙ sym ((str_eq_iff c b).0 k))))
  | inr k ↦ k
]

hosts_at-append_at :
    (b c host : Bytes) (ip_map : List (Bytes × List Bytes))
    → hosts_at b (append_at c host ip_map) ≡ hosts_at b ip_map ++ host_if host b (some c)
unfolding hosts_at append_at
hosts_at-append_at b c host [] = refl
hosts_at-append_at b c host ((key, hosts) ∷ ip_map) = elim (Bool-cases (str_eq key c)) [
  | inl e ↦ elim (Bool-cases (str_eq key b)) [
    | inl h ↦ rw (e, same_key b key c e, h) refl
    | inr h ↦ rw (e, same_key b key c e, h) (sym (append-nil (hosts_at b ip_map)))
  ]
  | inr e ↦ elim (Bool-cases (str_eq key b)) [
    | inl h ↦ rw (e, h, other_key b key c e h) (sym (append-nil hosts))
    | inr h ↦ rw (e, h) (hosts_at-append_at b c host ip_map)
  ]
]

hosts_at-add_ip :
    (b host : Bytes) (c : Option Bytes) (ip_map : List (Bytes × List Bytes))
    → hosts_at b (add_ip host c ip_map) ≡ hosts_at b ip_map ++ host_if host b c
hosts_at-add_ip b host none ip_map = sym (append-nil (hosts_at b ip_map))
hosts_at-add_ip b host (some c) ip_map = hosts_at-append_at b c host ip_map

hosts_at-add_ips :
    (b host : Bytes) (ips : List Bytes) (ip_map : List (Bytes × List Bytes))
    → hosts_at b (add_ips host ips ip_map) ≡ hosts_at b ip_map ++ copies host b ips
unfolding add_ips copies
hosts_at-add_ips b host [] ip_map = sym (append-nil (hosts_at b ip_map))
hosts_at-add_ips b host (ip ∷ ips) ip_map =
    hosts_at-add_ips b host ips (add_ip host (to16 ip) ip_map)
    ∙ ap (λ l. l ++ copies host b ips) (hosts_at-add_ip b host (to16 ip) ip_map)
    ∙ append_assoc (hosts_at b ip_map) (host_if host b (to16 ip)) (copies host b ips)

module _ {E : Type 0} (lookup_ip : Bytes → E ⊎ List Bytes)
    (sort_slice : (Bytes → Bytes → Bool) → List Bytes → List Bytes) where
  abbrev pub shares : Bytes → Bytes → E ⊎ List Bytes → List Bytes
  shares b host (inl e) = []
  shares b host (inr ips) = copies host b (sort_slice str_lt ips)

  -- The hosts that have the address, in order, each as often as it has it.
  unfoldable pub sharing : Bytes → List Bytes → List Bytes
  unfolding copies
  sharing b [] = []
  sharing b (host ∷ hosts) = shares b host (lookup_ip host) ++ sharing b hosts

  add_host-shares :
      (b host : Bytes) (m : E ⊎ List Bytes) (r : Resolved E)
      → hosts_at b (add_host lookup_ip sort_slice r host m).ip_map
        ≡ hosts_at b r.ip_map ++ shares b host m
  add_host-shares b host (inl e) r = sym (append-nil (hosts_at b r.ip_map))
  add_host-shares b host (inr ips) r = hosts_at-add_ips b host (sort_slice str_lt ips) r.ip_map

  resolve-sharing :
      (b : Bytes) (hosts : List Bytes) (r : Resolved E)
      → hosts_at b (resolve lookup_ip sort_slice r hosts).ip_map
        ≡ hosts_at b r.ip_map ++ sharing b hosts
  unfolding resolve sharing
  resolve-sharing b [] r = sym (append-nil (hosts_at b r.ip_map))
  resolve-sharing b (host ∷ hosts) r =
      resolve-sharing b hosts (add_host lookup_ip sort_slice r host (lookup_ip host))
      ∙ ap (λ l. l ++ sharing b hosts) (add_host-shares b host (lookup_ip host) r)
      ∙ append_assoc (hosts_at b r.ip_map) (shares b host (lookup_ip host)) (sharing b hosts)

  -- The map that `lookup` builds has at each address the hosts that have it, in the order of the
  -- arguments, each as often as it has it.
  pub hosts_at-sharing :
      (b : Bytes) (hosts : List Bytes)
      → hosts_at b
          (resolve lookup_ip sort_slice
            (record { host_info = []; ip_map = []; errs = [] })
            hosts).ip_map
        ≡ sharing b hosts
  unfolding hosts_at
  hosts_at-sharing b hosts =
      resolve-sharing b hosts (record { host_info = []; ip_map = []; errs = [] })
