-- ===== src/Chkalias/Hosts/Aliases.antt =====
-- cmd/chkalias/chkalias.go: the hosts that `lookup` prints as aliases are those of `bitly.IsAlias`.
use mathlib.Core.Bool.{Bool-set}
use mathlib.Core.Logic.{∥∥₁_elim}
use mathlib.Core.List.{Perm, Permᴰ}
use urlhero.Common.{
  Bool, true, false, Bool-cases, ◌||◌, Option-cases, List, [], ◌∷◌, ◌++◌, append_assoc, append-nil,
  ◌≡◌, ◌⊎◌, inl, inr, refl, sym, ap, ap₂, ◌∙◌, Bytes, str_lt, if◌then◌else◌,
}
use urlhero.Shorteners.Sorted.{StrictOrder, SortsSlices}
use urlhero.Shorteners.Order.{str_lt_irrefl, str_lt_trans, str_lt_total}
use urlhero.BitLy.{to4, is_ip_alias, is_alias}
use urlhero.Chkalias.Hosts.{HostIp, Resolved, add_host, resolve, print_aliases, lookup}

abbrev str_lt_order : StrictOrder str_lt
str_lt_order = record { irrefl = str_lt_irrefl; trans = str_lt_trans; total = str_lt_total }

if_or : (b t : Bool) → (if b then true else t) ≡ ((if b then true else false) || t)
if_or true t = refl
if_or false t = refl

is_ip_alias_cons :
    (ip : Bytes) (ips : List Bytes)
    → is_ip_alias (ip ∷ ips) ≡ (is_ip_alias (ip ∷ []) || is_ip_alias ips)
unfolding is_ip_alias
is_ip_alias_cons ip ips = elim (Option-cases (to4 ip)) [
  | inl e ↦ rw (is_ip_alias, e) refl
  | inr (ip4, e) ↦ rw (is_ip_alias, e) (if_or _ (is_ip_alias ips))
]

or_swap : (a b c : Bool) → (a || (b || c)) ≡ (b || (a || c))
or_swap true true c = refl
or_swap true false c = refl
or_swap false b c = refl

is_ip_alias_swap :
    (x y : Bytes) (l : List Bytes) → is_ip_alias (x ∷ y ∷ l) ≡ is_ip_alias (y ∷ x ∷ l)
is_ip_alias_swap x y l =
    is_ip_alias_cons x (y ∷ l)
    ∙ ap (λ t. is_ip_alias (x ∷ []) || t) (is_ip_alias_cons y l)
    ∙ or_swap (is_ip_alias (x ∷ [])) (is_ip_alias (y ∷ [])) (is_ip_alias l)
    ∙ sym (ap (λ t. is_ip_alias (y ∷ []) || t) (is_ip_alias_cons x l))
    ∙ sym (is_ip_alias_cons y (x ∷ l))

Permᴰ-is_ip_alias : {xs ys : List Bytes} → Permᴰ xs ys → is_ip_alias xs ≡ is_ip_alias ys
Permᴰ-is_ip_alias Permᴰ.nil = refl
Permᴰ-is_ip_alias (Permᴰ.cons {a} {b} {l₁} {l₂} e p) =
    is_ip_alias_cons a l₁
    ∙ ap₂ (λ x t. is_ip_alias (x ∷ []) || t) e (Permᴰ-is_ip_alias p)
    ∙ sym (is_ip_alias_cons b l₂)
Permᴰ-is_ip_alias (Permᴰ.swap {a} {b} {l = l} e e') =
    is_ip_alias_swap a b l ∙ ap₂ (λ x y. is_ip_alias (y ∷ x ∷ l)) e e'
Permᴰ-is_ip_alias (Permᴰ.trans p q) = Permᴰ-is_ip_alias p ∙ Permᴰ-is_ip_alias q

is_ip_alias-perm : {xs ys : List Bytes} → Perm xs ys → is_ip_alias xs ≡ is_ip_alias ys
is_ip_alias-perm p = ∥∥₁_elim p (Bool-set _ _) Permᴰ-is_ip_alias

print_aliases-append :
    (xs ys : List HostIp) → print_aliases (xs ++ ys) ≡ print_aliases xs ++ print_aliases ys
unfolding print_aliases
print_aliases-append [] ys = refl
print_aliases-append (x ∷ xs) ys = elim (Bool-cases (is_ip_alias x.ips)) [
  | inl e ↦ rw (e) (ap (λ l. x.host ∷ l) (print_aliases-append xs ys))
  | inr e ↦ rw (e) (print_aliases-append xs ys)
]

-- the host, where the test has no error and holds
abbrev pub alias_if : {E : Type 0} → Bytes → E ⊎ Bool → List Bytes
alias_if host (inl e) = []
alias_if host (inr b) = if b then host ∷ [] else []

-- The hosts for which `IsAlias` returns true, in order.
unfoldable pub aliases_of : {E : Type 0} → (Bytes → E ⊎ List Bytes) → List Bytes → List Bytes
unfolding is_alias
aliases_of lookup_ip [] = []
aliases_of lookup_ip (host ∷ hosts) =
    alias_if host (is_alias lookup_ip host) ++ aliases_of lookup_ip hosts

module _ {E : Type 0} (lookup_ip : Bytes → E ⊎ List Bytes)
    {sort_slice : (Bytes → Bytes → Bool) → List Bytes → List Bytes}
    (sorts : SortsSlices sort_slice) where
  sorted_alias :
      (host : Bytes) (ips : List Bytes)
      → print_aliases (record { host = host; ips = sort_slice str_lt ips } ∷ [])
        ≡ (if is_ip_alias ips then host ∷ [] else [])
  unfolding print_aliases
  sorted_alias host ips =
      ap (λ b. if b then host ∷ [] else []) (is_ip_alias-perm (sorts.perm str_lt_order ips))

  add_host-alias :
      (r : Resolved E) (host : Bytes) (m : E ⊎ List Bytes)
      → lookup_ip host ≡ m
      → print_aliases (add_host lookup_ip sort_slice r host m).host_info
        ≡ print_aliases r.host_info ++ alias_if host (is_alias lookup_ip host)
  unfolding is_alias
  add_host-alias r host (inl e) p = rw (is_alias, p) (sym (append-nil (print_aliases r.host_info)))
  add_host-alias r host (inr ips) p =
      rw (is_alias, p)
        (print_aliases-append r.host_info (record { host = host; ips = sort_slice str_lt ips } ∷ [])
          ∙ ap (λ l. print_aliases r.host_info ++ l) (sorted_alias host ips))

  resolve-aliases_of :
      (r : Resolved E) (hosts : List Bytes)
      → print_aliases (resolve lookup_ip sort_slice r hosts).host_info
        ≡ print_aliases r.host_info ++ aliases_of lookup_ip hosts
  unfolding resolve aliases_of
  resolve-aliases_of r [] = sym (append-nil (print_aliases r.host_info))
  resolve-aliases_of r (host ∷ hosts) =
      resolve-aliases_of (add_host lookup_ip sort_slice r host (lookup_ip host)) hosts
      ∙ ap (λ l. l ++ aliases_of lookup_ip hosts) (add_host-alias r host (lookup_ip host) refl)
      ∙ append_assoc (print_aliases r.host_info) (alias_if host (is_alias lookup_ip host))
          (aliases_of lookup_ip hosts)

  -- With any sorting function that sorts, `lookup` prints as aliases the hosts of its arguments for
  -- which `IsAlias` returns true, in their order.
  pub lookup-aliases_of :
      (hosts : List Bytes)
      → (lookup lookup_ip sort_slice hosts).aliases ≡ aliases_of lookup_ip hosts
  unfolding lookup print_aliases
  lookup-aliases_of hosts =
      resolve-aliases_of (record { host_info = []; ip_map = []; errs = [] }) hosts
