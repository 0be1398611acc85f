-- ===== src/BitLy.antt =====
-- shorteners/bit-ly/alias.go: whether an IP address is that of a bit.ly alias. A `net.IP` is its
-- bytes, 4 or 16 of them for a valid address.
pub mod Range
mod Aliases
mod Tests
use urlhero.Common.{
  ◌⊎◌, inl, inr, ℕ, ◌+◌, ◌*◌, ◌^◌, Bool, true, false, ◌&&◌, Option, none, some, List, [], ◌∷◌,
  Bytes, str_eq, leb, if◌then◌else◌, length, take, drop, ◌==◌,
}

-- `net.IP.To4`: a 4-byte address, or the last 4 bytes of an IPv4 address mapped into IPv6.
abbrev pub v4_in_v6_prefix : Bytes
v4_in_v6_prefix = 0 ∷ 0 ∷ 0 ∷ 0 ∷ 0 ∷ 0 ∷ 0 ∷ 0 ∷ 0 ∷ 0 ∷ 0xFF ∷ 0xFF ∷ []

unfoldable pub to4 : Bytes → Option Bytes
unfolding str_eq
to4 ip =
    if length ip == 4
    then some ip
    else if length ip == 16 && str_eq (take 12 ip) v4_in_v6_prefix
    then some (drop 12 ip)
    else none

-- `binary.BigEndian.Uint32`
abbrev pub uint32 : Bytes → ℕ
uint32 (a ∷ b ∷ c ∷ d ∷ _) = a * 2 ^ 24 + b * 2 ^ 16 + c * 2 ^ 8 + d
uint32 _ = 0

abbrev pub alias_lo : ℕ
alias_lo = uint32 (67 ∷ 199 ∷ 248 ∷ 10 ∷ [])

abbrev pub alias_hi : ℕ
alias_hi = uint32 (67 ∷ 199 ∷ 248 ∷ 13 ∷ [])

unfoldable pub is_ip_alias : List Bytes → Bool
unfolding to4
is_ip_alias [] = false
is_ip_alias (ip ∷ ips) = elim (to4 ip) [
  | none ↦ is_ip_alias ips
  | some ip4 ↦
      let rest = is_ip_alias ips in
      if leb alias_lo (uint32 ip4) && leb (uint32 ip4) alias_hi then true else rest
]

-- `IsAlias`; `lookup_ip` is `net.LookupIP`. With an error the code returns false as well.
unfoldable pub is_alias : {E : Type 0} → (Bytes → E ⊎ List Bytes) → Bytes → E ⊎ Bool
unfolding is_ip_alias
is_alias lookup_ip host = elim (lookup_ip host) [ inl e ↦ inl e | inr ips ↦ inr (is_ip_alias ips) ]
