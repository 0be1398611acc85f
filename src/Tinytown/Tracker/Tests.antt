-- ===== src/Tinytown/Tracker/Tests.antt =====
-- A hash of the tracker, and a run of `GetHealth`.
use urlhero.Common.{
  ℕ, some, [], ◌∷◌, ◌≡◌, ◌⊎◌, inr, refl, arith, ok, Bytes, codes, pos, eof, Source,
}
use urlhero.Web.{Response}
use urlhero.Tinytown.Tracker.{RawHealth, trim_hash, decode_string, get_health}
use urlhero.Tinytown.Tracker.Hash.{hex, quoted, decode_string-trim_hash}

abbrev commit : Bytes
commit = 0x80 ∷ 0xff ∷ 0xc5 ∷ 0x26 ∷ []

decode_string-trim_hash_example :
    (decode_string (trim_hash (quoted (hex commit))) ≡ some commit)
    × (decode_string (trim_hash (hex commit)) ≡ some commit)
decode_string-trim_hash_example =
    decode_string-trim_hash commit (omega arith, (omega arith, (omega arith, (omega arith, tt))))

abbrev answer : Bytes → ℕ ⊎ Response
answer url = inr (record {
  status_code = 200;
  status = codes "200 OK";
  header = λ key. [];
  body = record { chunks = []; last = []; final = eof };
})

abbrev decoded : Source → ℕ ⊎ RawHealth
decoded body = inr (record {
  http_status_code = pos 200;
  http_status_message = codes "OK";
  git_hash = codes "b'80ffc526'";
  projects = [];
  project_stats = [];
})

health_read :
    get_health answer decoded (codes "https://tracker")
    ≡ ok (record {
      http_status_code = pos 200;
      http_status_message = codes "OK";
      git_hash = commit;
      projects = [];
      project_stats = [];
    })
unfolding get_health
health_read = refl
