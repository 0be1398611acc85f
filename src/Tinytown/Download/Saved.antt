-- ===== src/Tinytown/Download/Saved.antt =====
-- tinytown/download.go: what `saveFile` leaves on disk.
use urlhero.Common.{
  ℕ, true, false, Option, none, some, ◌≡◌, ◌⊎◌, inr, refl, ap, ◌∙◌, Outcome, ok, err, panic, hang,
  Bytes, eof, other, content,
}
use urlhero.Web.{Response, WebError, copy_error, copy_result, copy_result-ok, require_ok_iff}
use urlhero.Files.{Store, read_file, write_file, has_file, read_file-write_file}
use urlhero.Tinytown.Download.{get_ok, save_created, save_answer, save_file}

has_file_of :
    (filename : Bytes) (store : Store) {text : Bytes}
    → read_file filename store ≡ some text
    → has_file filename store ≡ true
has_file_of filename store e = rw (has_file, e) refl

module _ {E : Type 0} where
  -- A file that is there is not fetched again.
  save_file_again :
      (http_get : Bytes → E ⊎ Response) (create : Bytes → Option E) (url filename : Bytes)
      (store : Store)
      → has_file filename store ≡ true
      → save_file http_get create url filename store ≡ (ok tt, store)
  unfolding save_file
  save_file_again http_get create url filename store e = rw e refl

  save_file_fetch :
      (http_get : Bytes → E ⊎ Response) (create : Bytes → Option E) (url filename : Bytes)
      (store : Store) (resp : Response)
      → has_file filename store ≡ false
      → http_get url ≡ inr resp
      → resp.status_code ≡ 200
      → create filename ≡ none
      → save_file http_get create url filename store
        ≡ (copy_result resp.body.final, write_file filename (content resp.body) store)
  unfolding save_file get_ok
  save_file_fetch http_get create url filename store resp e a k c = rw e (
      ap (save_answer http_get create filename store)
        ((require_ok_iff (http_get url) resp).1 (a, k))
      ∙ ap (save_created http_get create filename store resp) c)

  -- Where the connection breaks in the middle of a file, `saveFile` returns the error and leaves
  -- the part that it has read, and every later call for that file, whatever the server answers,
  -- succeeds and leaves that part as it is.
  pub save_file_partial :
      (http_get : Bytes → E ⊎ Response) (create : Bytes → Option E) (url filename : Bytes)
      (store : Store) (resp : Response) (n : ℕ)
      → has_file filename store ≡ false
      → http_get url ≡ inr resp
      → resp.status_code ≡ 200
      → create filename ≡ none
      → resp.body.final ≡ other n
      → (store' : Store) × (save_file http_get create url filename store
          ≡ (err (copy_error n), store'))
        × (read_file filename store' ≡ some (content resp.body))
        × ((http_get' : Bytes → E ⊎ Response) (create' : Bytes → Option E)
            → save_file http_get' create' url filename store' ≡ (ok tt, store'))
  save_file_partial http_get create url filename store resp n e a k c b =
      let store' = write_file filename (content resp.body) store in
      let kept : read_file filename store' ≡ some (content resp.body) =
        read_file-write_file filename (content resp.body) store in
      (
        store',
        save_file_fetch http_get create url filename store resp e a k c
            ∙ ap (λ x. (copy_result x, store')) b,
        kept,
        λ http_get' create'.
            save_file_again http_get' create' url filename store'
              (has_file_of filename store' kept),
      )

  -- The whole content of an answer of status 200.
  pub record Fetched (http_get : Bytes → E ⊎ Response) (url filename : Bytes) (store : Store)
      : Type 0 where
    pub resp : Response
    pub answers : http_get url ≡ inr resp
    pub is_ok : resp.status_code ≡ 200
    pub is_whole : resp.body.final ≡ eof
    pub saved : read_file filename store ≡ some (content resp.body)

  save_created-Fetched :
      (http_get : Bytes → E ⊎ Response) (create : Bytes → Option E) (url filename : Bytes)
      (store : Store) (resp : Response) (c : Option E)
      → (http_get url ≡ inr resp) × (resp.status_code ≡ 200)
      → (save_created http_get create filename store resp c).0 ≡ ok tt
      → Fetched http_get url filename (save_created http_get create filename store resp c).1
  save_created-Fetched http_get create url filename store resp (some e) g h = cc
  save_created-Fetched http_get create url filename store resp none g h = record {
    resp = resp;
    answers = g.0;
    is_ok = g.1;
    is_whole = copy_result-ok resp.body.final h;
    saved = read_file-write_file filename (content resp.body) store;
  }

  save_answer-Fetched :
      (http_get : Bytes → E ⊎ Response) (create : Bytes → Option E) (url filename : Bytes)
      (store : Store) (o : Outcome (WebError E) Response)
      → get_ok http_get url ≡ o
      → (save_answer http_get create filename store o).0 ≡ ok tt
      → Fetched http_get url filename (save_answer http_get create filename store o).1
  unfolding get_ok
  save_answer-Fetched http_get create url filename store (ok resp) g h =
      save_created-Fetched http_get create url filename store resp (create filename)
        ((require_ok_iff (http_get url) resp).0 g) h
  save_answer-Fetched http_get create url filename store (err e) g h = cc
  save_answer-Fetched http_get create url filename store panic g h = cc
  save_answer-Fetched http_get create url filename store hang g h = cc

  -- Where a file is not there and `saveFile` succeeds, the file holds the whole content of an answer
  -- of status 200.
  pub save_file-Fetched :
      (http_get : Bytes → E ⊎ Response) (create : Bytes → Option E) (url filename : Bytes)
      (store : Store)
      → has_file filename store ≡ false
      → (save_file http_get create url filename store).0 ≡ ok tt
      → Fetched http_get url filename (save_file http_get create url filename store).1
  unfolding save_file
  save_file-Fetched http_get create url filename store e h =
      let answered =
        save_answer-Fetched http_get create url filename store (get_ok http_get url) refl in
      rw e (answered (rw e at h))
