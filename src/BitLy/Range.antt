-- ===== src/BitLy/Range.antt =====
-- shorteners/bit-ly/alias.go: the range test picks the four addresses 67.199.248.10 to .13.
use urlhero.Common.{
  ℕ, ◌+◌, ◌-◌, ◌*◌, ◌^◌, ◌<◌, ◌≤◌, zero, suc, Bool, true, ◌&&◌, none, some, List, [], ◌∷◌, ◌≡◌, ◌↔◌,
  ◌⊎◌, inl, inr, refl, ap, ◌∙◌, subst, arith, Bytes, str_eq, leb, le→leb, Option-cases,
  if◌then◌else◌, length, take, drop, ◌==◌, All, length-drop, Bool-cases,
}
use urlhero.BitLy.{to4, uint32, alias_lo, alias_hi, is_ip_alias}

-- One of the four addresses, as IPv4 or mapped into IPv6.
pub data AliasIp : Bytes → Type 0 where
  alias :
      {ip : Bytes} (d : ℕ) → 10 ≤ d → d ≤ 13 → to4 ip ≡ some (67 ∷ 199 ∷ 248 ∷ d ∷ []) → AliasIp ip

pub data AnyAlias : List Bytes → Type 0 where
  here : {ip : Bytes} {ips : List Bytes} → AliasIp ip → AnyAlias (ip ∷ ips)
  there : {ip : Bytes} {ips : List Bytes} → AnyAlias ips → AnyAlias (ip ∷ ips)

abbrev pub Octets : Bytes → Type 0
Octets = All (λ x. x < 256)

bounds : (x y z : ℕ) → (leb x y && leb y z) ≡ true → (x ≤ y) × (y ≤ z)
bounds x y z h = ground arith

first_byte :
    (a b c d : ℕ)
    → b < 256
    → c < 256
    → d < 256
    → 67 * 2 ^ 24 + 199 * 2 ^ 16 + 248 * 2 ^ 8 + 10 ≤ a * 2 ^ 24 + b * 2 ^ 16 + c * 2 ^ 8 + d
    → a * 2 ^ 24 + b * 2 ^ 16 + c * 2 ^ 8 + d ≤ 67 * 2 ^ 24 + 199 * 2 ^ 16 + 248 * 2 ^ 8 + 13
    → (a ≡ 67) × (b ≡ 199) × (c ≡ 248) × (10 ≤ d) × (d ≤ 13)
first_byte a b c d hb hc hd lo hi =
    let ea : a ≡ 67 = omega arith in
    let eb : b ≡ 199 = omega arith in
    let ec : c ≡ 248 = omega arith in (ea, eb, ec, omega arith, omega arith)

in_range :
    (ip4 : Bytes)
    → length ip4 ≡ 4
    → Octets ip4
    → (leb alias_lo (uint32 ip4) && leb (uint32 ip4) alias_hi) ≡ true
    → (d : ℕ) × (10 ≤ d) × (d ≤ 13) × (ip4 ≡ 67 ∷ 199 ∷ 248 ∷ d ∷ [])
in_range (a ∷ b ∷ c ∷ d ∷ []) e (ha, (hb, (hc, (hd, _)))) r =
    let (lo, hi) = bounds alias_lo (uint32 (a ∷ b ∷ c ∷ d ∷ [])) alias_hi r in
    let (ea, eb, ec, ld, hd) = first_byte a b c d hb hc hd lo hi in
    (d, ld, hd, rw (ea, eb, ec) refl)
in_range [] e h r = absurd (omega arith)
in_range (_ ∷ []) e h r = absurd (omega arith)
in_range (_ ∷ _ ∷ []) e h r = absurd (omega arith)
in_range (_ ∷ _ ∷ _ ∷ []) e h r = absurd (omega arith)
in_range (_ ∷ _ ∷ _ ∷ _ ∷ _ ∷ _) e h r = absurd (omega arith)

All-drop : (n : ℕ) (b : Bytes) → Octets b → Octets (drop n b)
All-drop zero b h = h
All-drop (suc n) [] h = h
All-drop (suc n) (x ∷ b) h = All-drop n b h.1

-- What `to4` looks at, as variables.
pick_cases :
    (n : ℕ) (mapped : Bool) (whole low : Bytes) {ip4 : Bytes}
    → (if n == 4 then some whole else if n == 16 && mapped then some low else none) ≡ some ip4
    → ((n ≡ 4) × (whole ≡ ip4)) ⊎ ((n ≡ 16) × (low ≡ ip4))
pick_cases n mapped whole low e = grind arith

to4_lem : (ip : Bytes) {ip4 : Bytes} → Octets ip → to4 ip ≡ some ip4 → (length ip4 ≡ 4) × Octets ip4
unfolding to4
to4_lem ip h e = elim (pick_cases (length ip) (str_eq (take 12 ip) _) ip (drop 12 ip) e) [
  | inl (hn, ei) ↦ subst (λ x. (length x ≡ 4) × Octets x) ei (hn, h)
  | inr (hn, ei) ↦
      subst (λ x. (length x ≡ 4) × Octets x) ei
        (length-drop 12 ip ∙ ap (λ x. x - 12) hn, All-drop 12 ip h)
]

in_range-alias :
    (d : ℕ)
    → 10 ≤ d
    → d ≤ 13
    → (leb alias_lo (uint32 (67 ∷ 199 ∷ 248 ∷ d ∷ []))
        && leb (uint32 (67 ∷ 199 ∷ 248 ∷ d ∷ [])) alias_hi)
      ≡ true
in_range-alias d lo hi =
    rw
      (
        le→leb (67 * 2 ^ 24 + 199 * 2 ^ 16 + 248 * 2 ^ 8 + 10)
            (67 * 2 ^ 24 + 199 * 2 ^ 16 + 248 * 2 ^ 8 + d) (omega arith),
        le→leb (67 * 2 ^ 24 + 199 * 2 ^ 16 + 248 * 2 ^ 8 + d)
            (67 * 2 ^ 24 + 199 * 2 ^ 16 + 248 * 2 ^ 8 + 13) (omega arith),
      )
      refl

not_alias : {ip : Bytes} → to4 ip ≡ none → ¬ AliasIp ip
not_alias e (alias d lo hi e') = ground arith

is_ip_alias→any : (ips : List Bytes) → All Octets ips → is_ip_alias ips ≡ true → AnyAlias ips
unfolding is_ip_alias
is_ip_alias→any [] _ e = ground arith
is_ip_alias→any (ip ∷ ips) (h, hs) e = elim (Option-cases (to4 ip)) [
  | inl n ↦ there (is_ip_alias→any ips hs (rw (is_ip_alias, n) at e))
  | inr (ip4, se) ↦
      let (l, hb) = to4_lem ip h se in
      elim (Bool-cases (leb alias_lo (uint32 ip4) && leb (uint32 ip4) alias_hi)) [
        | inl r ↦
            let (d, lo, hi, ed) = in_range ip4 l hb r in here (alias d lo hi (se ∙ ap some ed))
        | inr r ↦ there (is_ip_alias→any ips hs (rw (is_ip_alias, se, r) at e))
      ]
]

any→is_ip_alias : (ips : List Bytes) → AnyAlias ips → is_ip_alias ips ≡ true
unfolding is_ip_alias
any→is_ip_alias [] a = elim a [ ]
any→is_ip_alias (ip ∷ ips) (here (alias d lo hi e)) =
    rw (is_ip_alias, e, in_range-alias d lo hi) refl
any→is_ip_alias (ip ∷ ips) (there a) =
    let ih : is_ip_alias ips ≡ true = any→is_ip_alias ips a in
    elim (Option-cases (to4 ip)) [
      | inl n ↦ rw (is_ip_alias, n) ih
      | inr (ip4, se) ↦ elim (Bool-cases (leb alias_lo (uint32 ip4) && leb (uint32 ip4) alias_hi)) [
        | inl r ↦ rw (is_ip_alias, se, r) refl
        | inr r ↦ rw (is_ip_alias, se, r) ih
      ]
    ]

-- The test holds exactly when one of the addresses, which are bytes, is one of 67.199.248.10 to
-- 67.199.248.13, as 4 bytes or mapped into IPv6.
pub is_ip_alias_iff : (ips : List Bytes) → All Octets ips → (is_ip_alias ips ≡ true) ↔ AnyAlias ips
is_ip_alias_iff ips h = (is_ip_alias→any ips h, any→is_ip_alias ips)
