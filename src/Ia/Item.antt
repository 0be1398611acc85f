-- ===== src/Ia/Item.antt =====
-- ia/item.go and ia/save.go: the metadata of an item, the address of a capture, and a request to
-- capture a page. `open_file` is `os.Open`, `decode` the XML decoder, `post_form` is `http.PostForm`.
mod Save
mod Tests
use urlhero.Common.{
  ℕ, Bool, Option, none, some, List, [], ◌++◌, ◌⊎◌, inl, inr, Outcome, ok, err, ◌>>=◌, Bytes, codes,
  base, if◌then◌else◌, Source,
}
use urlhero.Web.{Response, WebError, or_external, copy_result, Values, set}
use urlhero.Ia.Timemap.{check_response}

-- `ReadItemMeta`; `M` is `ItemMeta`
unfoldable pub read_item_meta :
    {E M : Type 0}
    → (Bytes → Bytes → Bytes)
    → (Bytes → E ⊎ Source)
    → (Source → E ⊎ M)
    → Bytes
    → Outcome (WebError E) M
unfolding base
read_item_meta join open_file decode dir = do
  f ← or_external (open_file (join dir (base dir ++ codes "_meta.xml")))
  or_external (decode f)

-- `PageURL`
abbrev pub page_url : Bytes → Bytes → Bytes
page_url url timestamp =
    codes "https://web.archive.org/web/" ++ (timestamp ++ (codes "id_/" ++ url))

pub record SaveOptions : Type 0 where
  pub capture_outlinks : Bool
  pub capture_all : Bool
  pub capture_screenshot : Bool
  pub save_in_my_web_archive : Bool
  pub email_result : Bool

-- `setBool`
abbrev pub set_bool : Bytes → Bool → Values → Values
set_bool key b v = if b then set v key (codes "on") else v

-- the page that `Save` asks for
abbrev pub saved_page : Bytes
saved_page = codes "https://dumps.wikimedia.org/other/shorturls/shorturls-20210329.gz"

abbrev pub set_options : Option SaveOptions → Values → Values
set_options none v = v
set_options (some o) v = set_bool (codes "email_result") o.email_result (
    set_bool (codes "wm-save-mywebarchive") o.save_in_my_web_archive (
      set_bool (codes "capture_screenshot") o.capture_screenshot (
        set_bool (codes "capture_all") o.capture_all
          (set_bool (codes "capture_outlinks") o.capture_outlinks v))))

-- The form of `Save`, which does not read `page`.
unfoldable pub save_form : Bytes → Option SaveOptions → Values
unfolding set
save_form page options = set_options options (set [] (codes "url") saved_page)

-- `Save`
unfoldable pub save :
    {E : Type 0}
    → (Bytes → Values → E ⊎ Response)
    → Bytes
    → Option SaveOptions
    → Outcome (WebError E) Unit
unfolding save_form check_response
save post_form page options = do
  resp ← check_response (post_form (codes "https://web.archive.org/save") (save_form page options))
  copy_result resp.body.final
