-- ===== src/BitLy/Tests.antt =====
-- Runs of the alias test, and its theorem at a concrete input.
use urlhero.Common.{◌≡◌, ◌↔◌, refl, [], ◌∷◌, true, arith}
use urlhero.BitLy.{is_ip_alias}
use urlhero.BitLy.Range.{AnyAlias, is_ip_alias_iff}

alias_first : is_ip_alias ((67 ∷ 199 ∷ 248 ∷ 10 ∷ []) ∷ []) ≡ true
unfolding is_ip_alias
alias_first = refl

is_ip_alias_iff_example :
    (is_ip_alias ((1 ∷ 2 ∷ 3 ∷ 4 ∷ []) ∷ (67 ∷ 199 ∷ 248 ∷ 13 ∷ []) ∷ []) ≡ true)
    ↔ AnyAlias ((1 ∷ 2 ∷ 3 ∷ 4 ∷ []) ∷ (67 ∷ 199 ∷ 248 ∷ 13 ∷ []) ∷ [])
is_ip_alias_iff_example =
    is_ip_alias_iff ((1 ∷ 2 ∷ 3 ∷ 4 ∷ []) ∷ (67 ∷ 199 ∷ 248 ∷ 13 ∷ []) ∷ []) (ground arith)
