-- ===== src/QrCx/Saved.antt =====
-- shorteners/qr-cx/dump.go: when `DownloadDump` succeeds, and what is saved then.
use urlhero.Common.{
  Option, none, some, ◌≡◌, ◌↔◌, ◌⊎◌, inl, inr, refl, arith, Outcome, ok, err, Bytes, codes, base,
  content, str_eq, str_eq_iff,
}
use urlhero.Common as Io
use urlhero.Web.{Response, copy_result-ok}
use urlhero.Files.{Store, read_file, read_file-write_file, read_file-write_other}
use urlhero.QrCx.{dump_url, download_dump, save_created, save_answer}

abbrev pub dump_name : Bytes
dump_name = codes "qrcx_all_06eec9b9-1f29-4860-bd91-49c2d517d87d.7z"

module _ {E : Type 0} (http_get : Bytes → E ⊎ Response) (create : Bytes → Option E)
    (join : Bytes → Bytes → Bytes) (dir : Bytes) (store : Store) where
  -- An answer of any status, the file created, and the body of the answer read to its end: the files
  -- are as before but for the dump, which holds the whole body.
  pub record Saved (store' : Store) : Type 0 where
    pub resp : Response
    pub answers : http_get dump_url ≡ inr resp
    pub created : create (join dir dump_name) ≡ none
    pub whole : resp.body.final ≡ Io.eof
    pub saved : read_file (join dir dump_name) store' ≡ some (content resp.body)
    pub others :
        (path : Bytes)
        → ¬ (path ≡ join dir dump_name)
        → read_file path store' ≡ read_file path store

  save_created-Saved :
      (resp : Response) (c : Option E)
      → http_get dump_url ≡ inr resp
      → create (join dir dump_name) ≡ c
      → (save_created (join dir dump_name) resp store c).0 ≡ ok tt
      → Saved (save_created (join dir dump_name) resp store c).1
  save_created-Saved resp (some e) g c h = cc
  save_created-Saved resp none g c h = record {
    resp = resp;
    answers = g;
    created = c;
    whole = copy_result-ok resp.body.final h;
    saved = read_file-write_file (join dir dump_name) (content resp.body) store;
    others = λ path n.
        read_file-write_other path (join dir dump_name) (content resp.body) store
          (ground (arith, str_eq_iff path (join dir dump_name)));
  }

  save_answer-Saved :
      (a : E ⊎ Response)
      → http_get dump_url ≡ a
      → (save_answer create (join dir dump_name) store a).0 ≡ ok tt
      → Saved (save_answer create (join dir dump_name) store a).1
  save_answer-Saved (inl e) g h = cc
  save_answer-Saved (inr resp) g h = save_created-Saved resp (create (join dir dump_name)) g refl h

  -- `DownloadDump` succeeds exactly when the address of the dump gives any answer, whatever its
  -- status, the file can be created and the body is read to its end, and all that has changed is that
  -- the file of the dump holds the body.
  pub download_dump_iff :
      ((download_dump http_get create join dir store).0 ≡ ok tt)
      ↔ Saved (download_dump http_get create join dir store).1
  unfolding download_dump base
  download_dump_iff =
      (save_answer-Saved (http_get dump_url) refl, λ s. rw (s.answers, s.created, s.whole) refl)
