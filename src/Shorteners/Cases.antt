-- ===== src/Shorteners/Cases.antt =====
-- Cases of shorteners/shorteners_test.go for the sites that clean by a regular expression.
use Prim.Native.String.{String}
use urlhero.Common.{
  codes, Bytes, ◌≡◌, refl, [], some, ◌⊎◌, inl, inr, ◌≢◌, ◌++◌, ◌∷◌, ℕ, true, false, str_eq,
  contains_byte, has_prefix, trim_suffix, All, arith,
}
use urlhero.Regex.Breaks.{Lacks}
use urlhero.Regex.Words.{is_word}
use urlhero.Shorteners.{Url, clean_url}
use urlhero.Shorteners.QrCx.{clean_qr_cx, qr_cx}
use urlhero.Shorteners.QrCx.Pages.{is_page, deeper, qr_img, clean_qr_cx-page}
use urlhero.Shorteners.BfyTw.Codes.{clean_bfy_tw-slash}
use urlhero.Shorteners.Sites.{all_bytes, is_alnum}
use urlhero.Shorteners.BfyTw.Cut.{clean_url-bfy_tw}
use urlhero.Shorteners.Lookup.{Table, IsFound}
use urlhero.Shorteners.Texts.{error_text}
use urlhero.Shorteners.All.{shorteners, lookup_table, shorteners-IsFound}
use urlhero.Shorteners.BfyTw.{clean_bfy_tw, bfy_tw}

abbrev at_path : Bytes → Url
at_path s = record { hostname = []; path = s; query = λ key. [] }

bfy1 : clean_url (at_path (codes "/BFsxrobots.txt")) bfy_tw.clean_func ≡ codes "BFsx"
unfolding clean_url clean_bfy_tw
bfy1 = refl

bfy2 : clean_url (at_path (codes "/4jz9ip124.41.235.255")) bfy_tw.clean_func ≡ codes "4jz9"
unfolding clean_url clean_bfy_tw
bfy2 = refl

bfy3 : clean_url (at_path (codes "/80xn=")) bfy_tw.clean_func ≡ codes "80xn"
unfolding clean_url clean_bfy_tw
bfy3 = refl

bfy4 : clean_url (at_path (codes "/fb/7rt7")) bfy_tw.clean_func ≡ codes "fb"
unfolding clean_url clean_bfy_tw
bfy4 = refl

bfy5 : clean_url (at_path (codes "/3hQy...You")) bfy_tw.clean_func ≡ codes "3hQy"
unfolding clean_url clean_bfy_tw
bfy5 = refl

bfy6 : clean_url (at_path (codes "/D9lj/robots.txt")) bfy_tw.clean_func ≡ codes "D9lj"
unfolding clean_url clean_bfy_tw
bfy6 = refl

bfy7 : clean_url (at_path (codes "/5PrLhttp://bfy.tw/5PrL")) bfy_tw.clean_func ≡ codes "5PrL"
unfolding clean_url clean_bfy_tw
bfy7 = refl

bfy8 : clean_url (at_path (codes "/xfavicon/ico")) bfy_tw.clean_func ≡ codes "x"
unfolding clean_url clean_bfy_tw
bfy8 = refl

-- A URL of qr.cx is parsed as its path.
abbrev parse_qr : Bytes → Bytes ⊎ Url
parse_qr s = inr (record { hostname = codes "www.qr.cx"; path = s; query = λ key. [] })

abbrev qr_at : String → Bytes
qr_at s = clean_url (at_path (codes s)) (qr_cx parse_qr (λ u. 0)).clean_func

qr1 : qr_at "/)" ≡ []
unfolding clean_url clean_qr_cx
qr1 = refl

qr2 : qr_at "/mQBM" ≡ codes "mQBM"
unfolding clean_url clean_qr_cx
qr2 = refl

qr3 : qr_at "/tEv/get" ≡ codes "tEv"
unfolding clean_url clean_qr_cx
qr3 = refl

qr4 : qr_at "/sQ2U+" ≡ codes "sQ2U"
unfolding clean_url clean_qr_cx
qr4 = refl

qr5 : qr_at "/yzj/img/301works.png" ≡ codes "yzj"
unfolding clean_url clean_qr_cx
qr5 = refl

qr6 : qr_at "/itZ/api.php" ≡ codes "itZ"
unfolding clean_url clean_qr_cx
qr6 = refl

qr7 : qr_at "/uqn/piwik.php" ≡ codes "uqn"
unfolding clean_url clean_qr_cx
qr7 = refl

qr8 : qr_at "/img/twitter_icon.png" ≡ []
unfolding clean_url clean_qr_cx
qr8 = refl

qr9 : qr_at "/api.php" ≡ []
unfolding clean_url clean_qr_cx
qr9 = refl

qr10 : qr_at "/deleted.php" ≡ []
unfolding clean_url clean_qr_cx
qr10 = refl

qr11 : qr_at "/api/" ≡ []
unfolding clean_url clean_qr_cx
qr11 = refl

qr12 : qr_at "/admin/latest.php" ≡ []
unfolding clean_url clean_qr_cx
qr12 = refl

qr13 : qr_at "/dataset/" ≡ []
unfolding clean_url clean_qr_cx
qr13 = refl

qr14 : qr_at "/qr/php/qr_img.php" ≡ []
unfolding clean_url clean_qr_cx
qr14 = refl

qr15 : qr_at "/http://qr.cx/about:blank" ≡ []
unfolding clean_url clean_qr_cx
qr15 = refl

qr_query :
    clean_url
      (record (at_path (codes "/qr/php/qr_img.php")) { query = λ key. codes "/1oz" })
      (some (clean_qr_cx parse_qr 2))
    ≡ codes "1oz"
unfolding clean_url clean_qr_cx
qr_query = refl

clean_url-bfy_tw_example :
    Lacks (clean_url (at_path (codes "/3hQy...You/me")) bfy_tw.clean_func) b'/'
    × Lacks (clean_url (at_path (codes "/3hQy...You/me")) bfy_tw.clean_func) b'.'
clean_url-bfy_tw_example = clean_url-bfy_tw (at_path (codes "/3hQy...You/me"))

no_break : Lacks (codes "301works.png") b'\n'
unfolding contains_byte
no_break = refl

code_lacks : (c : ℕ) → (c ≡ b'/') ⊎ (c ≡ b'\n') → Lacks (codes "yzj+") c
unfolding contains_byte
code_lacks c (inl e) = rw e refl
code_lacks c (inr e) = rw e refl

no_page : is_page (codes "yzj+") ≡ false
unfolding is_word str_eq
no_page = refl

img_page : is_page (codes "img") ≡ true
unfolding is_word str_eq
img_page = refl

not_qr : (codes "img" ++ b'/' ∷ codes "301works.png") ≢ qr_img
not_qr e = absurd (ground arith)

clean_qr_cx-page_example :
    (clean_qr_cx parse_qr 1 (codes "img" ++ b'/' ∷ codes "301works.png") (at_path []) ≡ [])
    × (clean_qr_cx parse_qr 1
          (codes "yzj+" ++ b'/' ∷ (codes "img" ++ b'/' ∷ codes "301works.png"))
          (at_path [])
        ≡ trim_suffix (codes "yzj+") (codes "+"))
clean_qr_cx-page_example =
    clean_qr_cx-page parse_qr 0 (codes "yzj+") (codes "img") (b'/' ∷ codes "301works.png")
      (at_path []) (code_lacks b'/' (inl refl)) (code_lacks b'\n' (inr refl)) no_page img_page
      (deeper no_break) not_qr

shorteners-IsFound_example :
    (table : Table) × (lookup_table (λ s. s) parse_qr (λ u. 0) ≡ some table)
    × All (IsFound table) (shorteners (λ s. s) parse_qr (λ u. 0))
shorteners-IsFound_example = shorteners-IsFound (λ s. s) parse_qr (λ u. 0)

two_errors :
    error_text (codes "CleanURLs") (codes "a" ∷ codes "b" ∷ []) ≡ codes "CleanURLs:\n\ta\n\tb\n"
unfolding error_text
two_errors = refl

letters : all_bytes is_alnum (codes "D9lj") ≡ true
unfolding all_bytes
letters = refl

one_line : Lacks (codes "robots.txt") b'\n'
unfolding contains_byte
one_line = refl

no_icon : has_prefix (codes "robots.txt") (codes "ico") ≡ false
unfolding has_prefix
no_icon = refl

no_text : has_prefix (codes "robots.txt") (codes "txt") ≡ false
unfolding has_prefix
no_text = refl

clean_bfy_tw-slash_example :
    clean_bfy_tw (codes "D9lj" ++ b'/' ∷ codes "robots.txt") (at_path []) ≡ codes "D9lj"
clean_bfy_tw-slash_example =
    clean_bfy_tw-slash (codes "D9lj") (codes "robots.txt") (at_path []) letters one_line no_icon
      no_text
