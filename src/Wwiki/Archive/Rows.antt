-- ===== src/Wwiki/Archive/Rows.antt =====
-- shorteners/w-wiki/download.go: when `GetIADumps` returns dumps, and which.
use urlhero.Common.{
  ◌<◌, true, false, Bool-cases, some, List, [], ◌∷◌, ◌++◌, append_assoc, append-nil, ◌≡◌, ◌↔◌, ◌⊎◌,
  inl, inr, sym, ap, ◌∙◌, subst, Outcome, ok, err, panic, hang, >>=-ok, ok-injective, Bytes, All,
  length, Source, false-true, Bool, false, ◌&&◌, ◌||◌, refl, codes, str_eq, str_eq_iff,
}
use urlhero.Web.{Response, Values}
use urlhero.Ia.Digest.{decode_digest}
use urlhero.Ia.Digest as Digest
use urlhero.Ia.Digest.Base32.{base32}
use urlhero.Ia.Digest.RoundTrip.{decode_digest_iff}
use urlhero.Ia.Timemap.Query.{Answered, get_timemap_iff}
use urlhero.Wwiki.{as_web, as_digest}
use urlhero.Wwiki.Dumps.{index_url}
use urlhero.Wwiki.Dumps.Rows.{as_web-ok}
use urlhero.Wwiki.Archive.{IaDumpInfo, ia_options, is_capture, select_dumps, get_ia_dumps}

-- The 20 bytes whose base32 text is the digest.
abbrev pub IsDigest : Bytes → Bytes → Type 0
IsDigest sha1 digest = (length sha1 ≡ 20) × All (λ x. x < 256) sha1 × (base32 sha1 ≡ digest)

-- A capture of a dump: of status 200 and of one of the two types.
abbrev pub IsCapture : Bytes → Bytes → Type 0
IsCapture mimetype statuscode =
    (statuscode ≡ codes "200")
    × ((mimetype ≡ codes "application/octet-stream") ⊎ (mimetype ≡ codes "text/plain"))

both_iff :
    {P Q R : Type 0} (p q r : Bool)
    → (p ≡ true) ↔ P
    → (q ≡ true) ↔ Q
    → (r ≡ true) ↔ R
    → ((p && (q || r)) ≡ true) ↔ (P × (Q ⊎ R))
both_iff true true r a b c = (λ h. (a.0 refl, inl (b.0 refl)), λ h. refl)
both_iff true false true a b c = (λ h. (a.0 refl, inr (c.0 refl)), λ h. refl)
both_iff true false false a b c =
    (λ h. absurd (false-true h), λ h. elim h.1 [ inl k ↦ b.1 k | inr k ↦ c.1 k ])
both_iff false q r a b c = (λ h. absurd (false-true h), λ h. a.1 h.0)

is_capture_iff :
    (mimetype statuscode : Bytes)
    → (is_capture mimetype statuscode ≡ true) ↔ IsCapture mimetype statuscode
unfolding is_capture
is_capture_iff mimetype statuscode =
    both_iff (str_eq statuscode (codes "200")) (str_eq mimetype (codes "application/octet-stream"))
      (str_eq mimetype (codes "text/plain")) (str_eq_iff statuscode (codes "200"))
      (str_eq_iff mimetype (codes "application/octet-stream"))
      (str_eq_iff mimetype (codes "text/plain"))

is_capture-false :
    (mimetype statuscode : Bytes)
    → ¬ IsCapture mimetype statuscode
    → is_capture mimetype statuscode ≡ false
is_capture-false mimetype statuscode n = elim (Bool-cases (is_capture mimetype statuscode)) [
  | inl e ↦ absurd (n ((is_capture_iff mimetype statuscode).0 e))
  | inr e ↦ e
]

-- The dumps among the rows of a time map, in order: the captures of status 200 and of one of the two
-- types, with their digests decoded.
pub data Selects : List (List Bytes) → List IaDumpInfo → Type 0 where
  done : Selects [] []
  other :
      {original timestamp mimetype statuscode digest : Bytes} {more : List Bytes}
      {timemap : List (List Bytes)} {dumps : List IaDumpInfo}
      → ¬ IsCapture mimetype statuscode
      → Selects timemap dumps
      → Selects ((original ∷ timestamp ∷ mimetype ∷ statuscode ∷ digest ∷ more) ∷ timemap) dumps
  dump :
      {original timestamp mimetype statuscode digest sha1 : Bytes} {more : List Bytes}
      {timemap : List (List Bytes)} {dumps : List IaDumpInfo}
      → IsCapture mimetype statuscode
      → IsDigest sha1 digest
      → Selects timemap dumps
      → Selects
          ((original ∷ timestamp ∷ mimetype ∷ statuscode ∷ digest ∷ more) ∷ timemap)
          (record { url = original; timestamp = timestamp; sha1 = sha1 } ∷ dumps)

module _ {E : Type 0} where
  as_digest-ok :
      {A : Type 0} (m : Outcome Digest.Error A) {a : A} → as_digest {E = E} m ≡ ok a → m ≡ ok a
  as_digest-ok (ok b) h = ap ok (ok-injective h)
  as_digest-ok (err e) h = cc
  as_digest-ok panic h = cc
  as_digest-ok hang h = cc

  select_dumps-Selects :
      (timemap : List (List Bytes)) (before dumps : List IaDumpInfo)
      → select_dumps {E = E} timemap before ≡ ok dumps
      → (rest : List IaDumpInfo) × (dumps ≡ before ++ rest) × Selects timemap rest
  unfolding select_dumps
  select_dumps-Selects [] before dumps h =
      ([], sym (ok-injective h) ∙ sym (append-nil before), done)
  select_dumps-Selects ((original ∷ timestamp ∷ mimetype ∷ statuscode ∷ digest ∷ more) ∷ timemap)
        before dumps h =
      elim (Bool-cases (is_capture mimetype statuscode)) [
        | inr e ↦
            let (rest, same, selects) = select_dumps-Selects timemap before dumps (rw e at h) in
            (
              rest,
              same,
              other (λ c. absurd (false-true (sym e ∙ (is_capture_iff mimetype statuscode).1 c)))
                  selects,
            )
        | inl e ↦
            let (sha1, s, h1) = >>=-ok (as_digest (decode_digest digest)) _ (rw e at h) in
            let d : IaDumpInfo = record { url = original; timestamp = timestamp; sha1 = sha1 } in
            let (rest, same, selects) = select_dumps-Selects timemap (before ++ d ∷ []) dumps h1 in
            (
              d ∷ rest,
              same ∙ append_assoc before (d ∷ []) rest,
              dump ((is_capture_iff mimetype statuscode).0 e)
                  ((decode_digest_iff digest sha1).0 (as_digest-ok (decode_digest digest) s))
                  selects,
            )
      ]
  select_dumps-Selects ([] ∷ timemap) before dumps h = cc
  select_dumps-Selects ((a ∷ []) ∷ timemap) before dumps h = cc
  select_dumps-Selects ((a ∷ b ∷ []) ∷ timemap) before dumps h = cc
  select_dumps-Selects ((a ∷ b ∷ c ∷ []) ∷ timemap) before dumps h = cc
  select_dumps-Selects ((a ∷ b ∷ c ∷ d ∷ []) ∷ timemap) before dumps h = cc

  select_dumps-of :
      {timemap : List (List Bytes)} (before : List IaDumpInfo) {dumps : List IaDumpInfo}
      → Selects timemap dumps
      → select_dumps {E = E} timemap before ≡ ok (before ++ dumps)
  unfolding select_dumps
  select_dumps-of before done = ap ok (sym (append-nil before))
  select_dumps-of before (other {mimetype = mimetype} {statuscode = statuscode} n selects) =
      rw (is_capture-false mimetype statuscode n) (select_dumps-of before selects)
  select_dumps-of before
        (dump {original} {timestamp} {mimetype} {statuscode} {digest} {sha1} {dumps = dumps} c s
          selects) =
      let d : IaDumpInfo = record { url = original; timestamp = timestamp; sha1 = sha1 } in
      rw ((is_capture_iff mimetype statuscode).1 c, (decode_digest_iff digest sha1).1 s)
        (select_dumps-of (before ++ d ∷ []) selects ∙ ap ok (append_assoc before (d ∷ []) dumps))

  -- `GetIADumps` returns dumps exactly when the query is answered with status 200 by a table whose rows
  -- after the first each have five fields at least and, where they are dumps, a digest, and they are
  -- the dumps in order, with the digests decoded.
  pub get_ia_dumps_iff :
      (http_get : Bytes → E ⊎ Response) (encode : Values → Bytes)
      (decode : Source → E ⊎ List (List Bytes)) (dumps : List IaDumpInfo)
      → (get_ia_dumps http_get encode decode ≡ ok dumps) ↔ (
          (timemap : List (List Bytes)) × Answered http_get encode decode index_url
            (some ia_options)
            timemap
          × Selects timemap dumps)
  unfolding get_ia_dumps
  get_ia_dumps_iff http_get encode decode dumps = (
    λ h.
        let (timemap, t, h1) = >>=-ok (as_web _) _ h in
        let (rest, same, selects) = select_dumps-Selects timemap [] dumps h1 in
        (
          timemap,
          (get_timemap_iff http_get encode decode index_url (some ia_options) timemap).0
              (as_web-ok _ t),
          subst (Selects timemap) (sym same) selects,
        ),
    λ h.
        rw ((get_timemap_iff http_get encode decode index_url (some ia_options) h.0).1 h.1)
          (select_dumps-of [] h.2),
  )
