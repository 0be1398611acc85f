-- ===== src/Shorteners/All.antt =====
-- shorteners/shorteners.go: the list `Shorteners`, and what its `init` makes of it. `unicode_lower` is
-- `strings.ToLower` where the string is not ASCII, `parse` is `url.Parse`, and `size` measures a URL.
use urlhero.Common.{ℕ, some, List, [], ◌∷◌, ◌≡◌, ◌⊎◌, refl, Bytes, All, Option}
use urlhero.Shorteners.{Url, Shortener}
use urlhero.Shorteners.Sites.{a_ll_st, deb_li, go_hawaii_edu, moby_to, rb_gy, red_ht, s_uconn_edu}
use urlhero.Shorteners.BfyTw.{bfy_tw}
use urlhero.Shorteners.QrCx.{qr_cx}
use urlhero.Shorteners.ShortIm.{short_im}
use urlhero.Shorteners.Lookup.{Table, register_all, IsFound, register_all-IsFound}

module _ (unicode_lower : Bytes → Bytes) (parse : Bytes → Bytes ⊎ Url) (size : Url → ℕ) where
  unfoldable pub shorteners : List Shortener
  shorteners =
      a_ll_st
      ∷ bfy_tw
      ∷ deb_li
      ∷ go_hawaii_edu
      ∷ moby_to unicode_lower
      ∷ qr_cx parse size
      ∷ rb_gy unicode_lower
      ∷ red_ht
      ∷ short_im parse size
      ∷ s_uconn_edu unicode_lower
      ∷ []

  -- `Lookup` as it is after `init`, `none` where `init` panics.
  unfoldable pub lookup_table : Option Table
  unfolding shorteners register_all
  lookup_table = register_all [] shorteners

  no_panic : (table : Table) × (lookup_table ≡ some table)
  unfolding lookup_table register_all
  no_panic = (_, refl)

  -- `init` does not panic on the ten shorteners, and each of them is found in `Lookup` by its name and
  -- by its host.
  pub shorteners-IsFound :
      (table : Table) × (lookup_table ≡ some table) × All (IsFound table) shorteners
  unfolding lookup_table
  shorteners-IsFound =
      let (table, e) = no_panic in (table, e, (register_all-IsFound [] shorteners e).0)
