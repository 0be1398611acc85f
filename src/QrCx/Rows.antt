-- ===== src/QrCx/Rows.antt =====
-- shorteners/qr-cx/dump.go: when `ReadAll` returns links, and which.
use urlhero.Common.{
  ℕ, zero, suc, ◌<◌, List, [], ◌∷◌, ◌++◌, append_assoc, append-nil, ◌≡◌, ◌↔◌, ◌⊎◌, inl, inr, refl,
  sym, ap, ◌∙◌, subst, arith, ok, ok-injective, Bytes, length,
}
use urlhero.QrCx.{Link, ReadError, eof, failed, CsvReader, dated, after_read, read_links, read_all}

module _ {E T : Type 0} (parse_time : Bytes → E ⊎ T) where
  -- The records and their links, in order: each has three fields at least, the third one a time.
  pub data Rows : List (E ⊎ List Bytes) → List (Link T) → Type 0 where
    done : Rows [] []
    row :
        {short url time : Bytes} {more : List Bytes} {t : T} {records : List (E ⊎ List Bytes)}
        {links : List (Link T)}
        → parse_time time ≡ inr t
        → Rows records links
        → Rows
            (inr (short ∷ url ∷ time ∷ more) ∷ records)
            (record { short_url = short; url = url; creation_date = t } ∷ links)

  abbrev Whole : List (E ⊎ List Bytes) → ReadError E → List (Link T) → List (Link T) → Type 0
  Whole records final before links =
      (final ≡ eof) × (rest : List (Link T)) × (links ≡ before ++ rest) × Rows records rest

  dated-Whole :
      (fuel : ℕ) (records : List (E ⊎ List Bytes)) (final : ReadError E)
      (before links : List (Link T)) (short url time : Bytes) (more : List Bytes) (m : E ⊎ T)
      → parse_time time ≡ m
      → ((before : List (Link T))
          → read_links parse_time fuel before (record { records = records; final = final })
            ≡ ok links
          → Whole records final before links)
      → after_read parse_time
          (read_links parse_time fuel)
          before
          (dated parse_time short url m, record { records = records; final = final })
        ≡ ok links
      → Whole (inr (short ∷ url ∷ time ∷ more) ∷ records) final before links
  dated-Whole fuel records final before links short url time more (inl e) p again h = cc
  dated-Whole fuel records final before links short url time more (inr t) p again h =
      let l : Link T = record { short_url = short; url = url; creation_date = t } in
      let (e, rest, same, rows) = again (before ++ l ∷ []) h in
      (e, l ∷ rest, same ∙ append_assoc before (l ∷ []) rest, row p rows)

  read_links-Whole :
      (fuel : ℕ) (records : List (E ⊎ List Bytes)) (final : ReadError E)
      (before links : List (Link T))
      → read_links parse_time fuel before (record { records = records; final = final }) ≡ ok links
      → Whole records final before links
  unfolding read_links
  read_links-Whole zero records final before links h = cc
  read_links-Whole (suc fuel) [] eof before links h =
      (refl, [], sym (ok-injective h) ∙ sym (append-nil before), done)
  read_links-Whole (suc fuel) [] (failed e) before links h = cc
  read_links-Whole (suc fuel) (inl e ∷ records) final before links h = cc
  read_links-Whole (suc fuel) (inr [] ∷ records) final before links h = cc
  read_links-Whole (suc fuel) (inr (a ∷ []) ∷ records) final before links h = cc
  read_links-Whole (suc fuel) (inr (a ∷ b ∷ []) ∷ records) final before links h = cc
  read_links-Whole (suc fuel) (inr (a ∷ b ∷ c ∷ more) ∷ records) final before links h =
      dated-Whole fuel records final before links a b c more (parse_time c) refl
        (λ before'. read_links-Whole fuel records final before' links) h

  read_links-of :
      (fuel : ℕ) {records : List (E ⊎ List Bytes)} (before : List (Link T)) {links : List (Link T)}
      → Rows records links
      → length records < fuel
      → read_links parse_time fuel before (record { records = records; final = eof })
        ≡ ok (before ++ links)
  unfolding read_links
  read_links-of zero before rows k = absurd (omega arith)
  read_links-of (suc fuel) before done k = ap ok (sym (append-nil before))
  read_links-of (suc fuel) before (row {short} {url} {time} {t = t} {links = links} p rows) k =
      let l : Link T = record { short_url = short; url = url; creation_date = t } in
      rw p (
        read_links-of fuel (before ++ l ∷ []) rows (omega arith)
        ∙ ap ok (append_assoc before (l ∷ []) links))

  -- `ReadAll` returns links exactly when the reader ends with io.EOF after records of three fields at
  -- least, the third of each a time, and the links are those of the records in order.
  pub read_all_iff :
      (r : CsvReader E) (links : List (Link T))
      → (read_all parse_time r ≡ ok links) ↔ ((r.final ≡ eof) × Rows r.records links)
  unfolding read_all
  read_all_iff r links = (
    λ h.
        let (e, rest, same, rows) =
          read_links-Whole (suc (length r.records)) r.records r.final [] links h in
        (e, subst (Rows r.records) (sym same) rows),
    λ (e, rows).
        ap
          (λ final.
            read_links parse_time (suc (length r.records)) []
              (record { records = r.records; final = final }))
          e
        ∙ read_links-of (suc (length r.records)) [] rows (omega arith),
  )
