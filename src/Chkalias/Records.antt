-- ===== src/Chkalias/Records.antt =====
-- cmd/chkalias/chkalias.go: the aliases that `lookupProjectSonar` returns, as a relation on records.
use urlhero.Common.{
  ℕ, zero, suc, ◌<◌, true, Bool-cases, Option-cases, some, List, [], ◌∷◌, ◌++◌, append_assoc,
  append-nil, ◌≡◌, ◌↔◌, ◌⊎◌, inl, inr, refl, sym, ap, ◌∙◌, subst, arith, ok, ok-injective, Bytes,
  codes, map, length, str_eq_iff, parse_int_value,
}
use urlhero.BitLy.{is_ip_alias}
use urlhero.BitLy.Range.{AnyAlias, Octets, is_ip_alias_iff}
use urlhero.Chkalias.{
  DecodeEnd, eof, syntax, failure, SonarRecord, Decoder, DnsRecord, dns_record, keep_alias,
  sonar_loop, open_decoder, lookup_project_sonar,
}

module _ (parse_ip : Bytes → Bytes) where
  -- The host and the address that a record names: the name and the value of a forward record, the
  -- value and the name of a reverse one. A record of another type names none.
  abbrev pub Names : SonarRecord → DnsRecord → Type 0
  Names r a =
      ((r.kind ≡ codes "ns")
        × (a.time ≡ (parse_int_value r.timestamp).0)
        × (a.host ≡ r.name)
        × (a.ip ≡ parse_ip r.value))
      ⊎ ((r.kind ≡ codes "ptr")
          × (a.time ≡ (parse_int_value r.timestamp).0)
          × (a.host ≡ r.value)
          × (a.ip ≡ parse_ip r.name))

  -- What the records name, in order, less what has an address that is not one of bit.ly.
  pub data AliasesOf : List SonarRecord → List DnsRecord → Type 0 where
    done : AliasesOf [] []
    kept :
        {r : SonarRecord} {rs : List SonarRecord} {a : DnsRecord} {aliases : List DnsRecord}
        → Names r a
        → AnyAlias (a.ip ∷ [])
        → AliasesOf rs aliases
        → AliasesOf (r ∷ rs) (a ∷ aliases)
    dropped :
        {r : SonarRecord} {rs : List SonarRecord} {aliases : List DnsRecord}
        → ((a : DnsRecord) → Names r a → ¬ AnyAlias (a.ip ∷ []))
        → AliasesOf rs aliases
        → AliasesOf (r ∷ rs) aliases

  Names-dns_record : (r : SonarRecord) (a : DnsRecord) → Names r a → dns_record parse_ip r ≡ some a
  unfolding dns_record
  Names-dns_record r a (inl (k, t, h, i)) = rw (k, ← t, ← h, ← i) refl
  Names-dns_record r a (inr (k, t, h, i)) = rw (k, ← t, ← h, ← i) refl

  dns_record-Names : (r : SonarRecord) (a : DnsRecord) → dns_record parse_ip r ≡ some a → Names r a
  unfolding dns_record
  dns_record-Names r a e =
      ground (arith, str_eq_iff r.kind (codes "ns"), str_eq_iff r.kind (codes "ptr"))

  module _ (octets : (s : Bytes) → Octets (parse_ip s)) where
    is_ip_alias-Names :
        (r : SonarRecord) (a : DnsRecord)
        → Names r a
        → (is_ip_alias (a.ip ∷ []) ≡ true) ↔ AnyAlias (a.ip ∷ [])
    is_ip_alias-Names r a (inl (k, t, h, i)) =
        is_ip_alias_iff (a.ip ∷ []) (subst Octets (sym i) (octets r.value), tt)
    is_ip_alias-Names r a (inr (k, t, h, i)) =
        is_ip_alias_iff (a.ip ∷ []) (subst Octets (sym i) (octets r.name), tt)

    keep_alias-kept :
        (r : SonarRecord) (a : DnsRecord) (before : List DnsRecord)
        → Names r a
        → AnyAlias (a.ip ∷ [])
        → keep_alias parse_ip (dns_record parse_ip r) before ≡ before ++ a ∷ []
    keep_alias-kept r a before n y = rw (Names-dns_record r a n, (is_ip_alias-Names r a n).1 y) refl

    keep_alias-dropped :
        (r : SonarRecord) (before : List DnsRecord)
        → ((a : DnsRecord) → Names r a → ¬ AnyAlias (a.ip ∷ []))
        → keep_alias parse_ip (dns_record parse_ip r) before ≡ before
    keep_alias-dropped r before other = elim (Option-cases (dns_record parse_ip r)) [
      | inl e ↦ rw e refl
      | inr (a, e) ↦
          let n = dns_record-Names r a e in
          elim (Bool-cases (is_ip_alias (a.ip ∷ []))) [
            | inl y ↦ absurd (other a n ((is_ip_alias-Names r a n).0 y))
            | inr x ↦ rw (e, x) refl
          ]
    ]

    length_records :
        (rs : List SonarRecord) {n : ℕ}
        → length (map {B = ℕ ⊎ SonarRecord} inr rs) < n
        → length rs < n
    length_records [] k = k
    length_records (r ∷ rs) {n = zero} k = absurd (omega arith)
    length_records (r ∷ rs) {n = suc n} k =
        let h : length rs < n = length_records rs {n = n} (omega arith) in omega arith

    sonar_loop-of :
        (fuel : ℕ) {rs : List SonarRecord} (before : List DnsRecord) {aliases : List DnsRecord}
        → AliasesOf rs aliases
        → length rs < fuel
        → sonar_loop parse_ip fuel (record { items = map inr rs; final = eof }) before
          ≡ ok (before ++ aliases)
    unfolding sonar_loop
    sonar_loop-of zero before h k = absurd (omega arith)
    sonar_loop-of (suc fuel) before done k = ap ok (sym (append-nil before))
    sonar_loop-of (suc fuel) before (kept {r} {a = a} {aliases} n y h) k =
        rw (keep_alias-kept r a before n y) (
          sonar_loop-of fuel (before ++ a ∷ []) h (omega arith)
          ∙ ap ok (append_assoc before (a ∷ []) aliases))
    sonar_loop-of (suc fuel) before (dropped {r} other h) k =
        rw (keep_alias-dropped r before other) (sonar_loop-of fuel before h (omega arith))

    -- What is kept of a record, and what is not.
    keep_alias_cases :
        (r : SonarRecord) (before : List DnsRecord)
        → ((a : DnsRecord) × Names r a
            × AnyAlias (a.ip ∷ [])
            × (keep_alias parse_ip (dns_record parse_ip r) before ≡ before ++ a ∷ []))
          ⊎ (((a : DnsRecord) → Names r a → ¬ AnyAlias (a.ip ∷ []))
              × (keep_alias parse_ip (dns_record parse_ip r) before ≡ before))
    keep_alias_cases r before = elim (Option-cases (dns_record parse_ip r)) [
      | inl e ↦ inr (λ a n y. let q = Names-dns_record r a n in cc, rw e refl)
      | inr (a, e) ↦
          let n = dns_record-Names r a e in
          elim (Bool-cases (is_ip_alias (a.ip ∷ []))) [
            | inl y ↦ inl (a, n, (is_ip_alias-Names r a n).0 y, rw (e, y) refl)
            | inr x ↦ inr (
              λ b m y.
                  let q = Names-dns_record r b m in let t = (is_ip_alias-Names r b m).1 y in cc,
              rw (e, x) refl,
            )
          ]
    ]

    -- The dataset is records, and what they name goes on after what is there.
    abbrev Continues : List (ℕ ⊎ SonarRecord) → DecodeEnd → List DnsRecord → List DnsRecord → Type 0
    Continues items final before aliases =
        (rs : List SonarRecord) × (rest : List DnsRecord) × (final ≡ eof)
        × (items ≡ map inr rs)
        × (aliases ≡ before ++ rest)
        × AliasesOf rs rest

    record_first :
        (r : SonarRecord) {items : List (ℕ ⊎ SonarRecord)} {final : DecodeEnd}
        (before aliases : List DnsRecord)
        → Continues items final (keep_alias parse_ip (dns_record parse_ip r) before) aliases
        → Continues (inr r ∷ items) final before aliases
    record_first r before aliases (rs, rest, e, i, s, h) = elim (keep_alias_cases r before) [
      | inl (a, n, y, k) ↦ (
        r ∷ rs,
        a ∷ rest,
        e,
        ap (λ items. inr r ∷ items) i,
        s ∙ ap (λ l. l ++ rest) k ∙ append_assoc before (a ∷ []) rest,
        kept n y h,
      )
      | inr (other, k) ↦ (
        r ∷ rs,
        rest,
        e,
        ap (λ items. inr r ∷ items) i,
        s ∙ ap (λ l. l ++ rest) k,
        dropped other h,
      )
    ]

    sonar_loop-Continues :
        (fuel : ℕ) (items : List (ℕ ⊎ SonarRecord)) (final : DecodeEnd)
        (before aliases : List DnsRecord)
        → sonar_loop parse_ip fuel (record { items = items; final = final }) before ≡ ok aliases
        → Continues items final before aliases
    unfolding sonar_loop
    sonar_loop-Continues zero items final before aliases h = cc
    sonar_loop-Continues (suc fuel) [] eof before aliases h =
        ([], [], refl, refl, sym (ok-injective h) ∙ sym (append-nil before), done)
    sonar_loop-Continues (suc fuel) [] syntax before aliases h =
        sonar_loop-Continues fuel [] syntax before aliases h
    sonar_loop-Continues (suc fuel) [] (failure e) before aliases h = cc
    sonar_loop-Continues (suc fuel) (inl e ∷ items) final before aliases h = cc
    sonar_loop-Continues (suc fuel) (inr r ∷ items) final before aliases h =
        record_first r before aliases (
          sonar_loop-Continues fuel items final (keep_alias parse_ip (dns_record parse_ip r) before)
            aliases h)

    -- On a dataset that is opened, with more rounds than it has values, `lookupProjectSonar` returns
    -- aliases without an error exactly when the dataset is nothing but records up to its end, and they
    -- are the hosts and addresses that the records of a known type name, in order, less those whose
    -- address is not one of bit.ly. `net.ParseIP` gives bytes.
    pub lookup_project_sonar_iff :
        {F : Type 0} (open_file : Bytes → ℕ ⊎ F) (gunzip : F → ℕ ⊎ F) (new_decoder : F → Decoder)
        (filename : Bytes) (d : Decoder) (fuel : ℕ) (aliases : List DnsRecord)
        → open_decoder parse_ip open_file gunzip new_decoder filename ≡ inr d
        → length d.items < fuel
        → (lookup_project_sonar parse_ip fuel open_file gunzip new_decoder filename ≡ ok aliases)
          ↔ ((rs : List SonarRecord) × (d.final ≡ eof)
              × (d.items ≡ map inr rs)
              × AliasesOf rs aliases)
    unfolding lookup_project_sonar
    lookup_project_sonar_iff open_file gunzip new_decoder filename d fuel aliases o k = rw o (
      λ h.
          let (rs, rest, e, i, s, all) = sonar_loop-Continues fuel d.items d.final [] aliases h in
          (rs, e, i, subst (AliasesOf rs) (sym s) all),
      λ (rs, e, i, all).
          ap (λ items. sonar_loop parse_ip fuel (record { items = items; final = d.final }) []) i
          ∙ ap (λ final. sonar_loop parse_ip fuel (record { items = map inr rs; final = final }) [])
              e
          ∙ sonar_loop-of fuel [] all
              (length_records rs (subst (λ items. length items < fuel) i k)),
    )
