-- ===== src/Ia/Item/Save.antt =====
-- ia/save.go: what the request asks for, and when `Save` succeeds.
use urlhero.Common.{
  Bool, true, false, some, [], ◌∷◌, ◌≡◌, refl, ◌∙◌, arith, Bytes, codes, str_eq, ◌&&◌,
  if◌then◌else◌,
}
use urlhero.Web.{Values, get, get-set}
use urlhero.Ia.Item.{SaveOptions, set_bool, saved_page, save_form}

get-set_bool :
    (key : Bytes) (b : Bool) (v : Values) (j : Bytes)
    → get (set_bool key b v) j ≡ (if str_eq j key && b then codes "on" else get v j)
get-set_bool key true v j = get-set v key (codes "on") j ∙ ground arith
get-set_bool key false v j = ground arith

abbrev on : Bool → Bytes
on b = if b then codes "on" else []

-- What the form of a request holds, an absent value being the empty string.
pub record Requests (v : Values) (page : Bytes) (o : SaveOptions) : Type 0 where
  pub url : get v (codes "url") ≡ page
  pub outlinks : get v (codes "capture_outlinks") ≡ on o.capture_outlinks
  pub all : get v (codes "capture_all") ≡ on o.capture_all
  pub screenshot : get v (codes "capture_screenshot") ≡ on o.capture_screenshot
  pub mine : get v (codes "wm-save-mywebarchive") ≡ on o.save_in_my_web_archive
  pub email : get v (codes "email_result") ≡ on o.email_result

get-save_form :
    (page : Bytes) (o : SaveOptions) (j : Bytes)
    → get (save_form page (some o)) j ≡ (
        if str_eq j (codes "email_result") && o.email_result
        then codes "on"
        else if str_eq j (codes "wm-save-mywebarchive") && o.save_in_my_web_archive
        then codes "on"
        else if str_eq j (codes "capture_screenshot") && o.capture_screenshot
        then codes "on"
        else if str_eq j (codes "capture_all") && o.capture_all
        then codes "on"
        else if str_eq j (codes "capture_outlinks") && o.capture_outlinks
        then codes "on"
        else if str_eq j (codes "url")
        then saved_page
        else [])
unfolding save_form get
get-save_form page o j =
    let v : Values = (codes "url", saved_page) ∷ [] in
    let v1 = set_bool (codes "capture_outlinks") o.capture_outlinks v in
    let v2 = set_bool (codes "capture_all") o.capture_all v1 in
    let v3 = set_bool (codes "capture_screenshot") o.capture_screenshot v2 in
    let v4 = set_bool (codes "wm-save-mywebarchive") o.save_in_my_web_archive v3 in
    rw
      (
        get-set_bool (codes "email_result") o.email_result v4 j,
        get-set_bool (codes "wm-save-mywebarchive") o.save_in_my_web_archive v3 j,
        get-set_bool (codes "capture_screenshot") o.capture_screenshot v2 j,
        get-set_bool (codes "capture_all") o.capture_all v1 j,
        get-set_bool (codes "capture_outlinks") o.capture_outlinks v j,
      )
      refl

-- Whatever page `Save` is called for, its form asks for the one dump whose address is written in
-- the code, and each option is on exactly where it is set.
pub save_form-Requests :
    (page : Bytes) (o : SaveOptions) → Requests (save_form page (some o)) saved_page o
unfolding str_eq
save_form-Requests page o = record {
  url = get-save_form page o (codes "url");
  outlinks = get-save_form page o (codes "capture_outlinks");
  all = get-save_form page o (codes "capture_all");
  screenshot = get-save_form page o (codes "capture_screenshot");
  mine = get-save_form page o (codes "wm-save-mywebarchive");
  email = get-save_form page o (codes "email_result");
}
