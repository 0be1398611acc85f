-- ===== src/Chkalias/Sonar.antt =====
-- cmd/chkalias/chkalias.go: when `lookupProjectSonar` returns.
use urlhero.Common.{
  ℕ, zero, suc, ◌<◌, List, [], ◌∷◌, ◌≡◌, ◌↔◌, ◌⊎◌, inl, inr, refl, sym, subst, arith, Returns,
  Bytes, length,
}
use urlhero.Chkalias.{
  DecodeEnd, eof, syntax, failure, SonarRecord, Decoder, DnsRecord, dns_record, keep_alias,
  sonar_loop, open_decoder, sonar_opened, lookup_project_sonar,
}

-- One of the values is not a record.
abbrev pub HasError : List (ℕ ⊎ SonarRecord) → Type 0
HasError [] = ⊥
HasError (inl e ∷ items) = Unit
HasError (inr r ∷ items) = HasError items

module _ (parse_ip : Bytes → Bytes) where
  sonar_loop-Returns :
      (fuel : ℕ) (items : List (ℕ ⊎ SonarRecord)) (final : DecodeEnd) (aliases : List DnsRecord)
      → length items < fuel
      → (¬ (final ≡ syntax)) ⊎ HasError items
      → Returns (sonar_loop parse_ip fuel (record { items = items; final = final }) aliases)
  unfolding sonar_loop
  sonar_loop-Returns zero items final aliases k h = absurd (omega arith)
  sonar_loop-Returns (suc fuel) [] eof aliases k h = tt
  sonar_loop-Returns (suc fuel) [] syntax aliases k (inl h) = absurd (h refl)
  sonar_loop-Returns (suc fuel) [] syntax aliases k (inr h) = elim h [ ]
  sonar_loop-Returns (suc fuel) [] (failure e) aliases k h = tt
  sonar_loop-Returns (suc fuel) (inl e ∷ items) final aliases k h = tt
  sonar_loop-Returns (suc fuel) (inr r ∷ items) final aliases k h =
      sonar_loop-Returns fuel items final (keep_alias parse_ip (dns_record parse_ip r) aliases)
        (omega arith) h

  sonar_loop-stops :
      (fuel : ℕ) (items : List (ℕ ⊎ SonarRecord)) (final : DecodeEnd) (aliases : List DnsRecord)
      → Returns (sonar_loop parse_ip fuel (record { items = items; final = final }) aliases)
      → (¬ (final ≡ syntax)) ⊎ HasError items
  unfolding sonar_loop
  sonar_loop-stops zero items final aliases h = elim h [ ]
  sonar_loop-stops (suc fuel) [] eof aliases h = inl (λ e. ground arith)
  sonar_loop-stops (suc fuel) [] syntax aliases h = sonar_loop-stops fuel [] syntax aliases h
  sonar_loop-stops (suc fuel) [] (failure e) aliases h = inl (λ e. ground arith)
  sonar_loop-stops (suc fuel) (inl e ∷ items) final aliases h = inr tt
  sonar_loop-stops (suc fuel) (inr r ∷ items) final aliases h =
      sonar_loop-stops fuel items final (keep_alias parse_ip (dns_record parse_ip r) aliases) h

  module _ {F : Type 0} (open_file : Bytes → ℕ ⊎ F) (gunzip : F → ℕ ⊎ F) (new_decoder : F → Decoder)
      (filename : Bytes) where
    -- On a dataset that is opened, `lookupProjectSonar` returns for some number of rounds exactly when
    -- the dataset does not end in a syntax error or has a value before that is not a record: its loop
    -- never ends where a syntax error is the first error.
    pub lookup_project_sonar-Returns_iff :
        (d : Decoder)
        → open_decoder parse_ip open_file gunzip new_decoder filename ≡ inr d
        → ((fuel : ℕ) × Returns
              (lookup_project_sonar parse_ip fuel open_file gunzip new_decoder filename))
          ↔ ((¬ (d.final ≡ syntax)) ⊎ HasError d.items)
    unfolding lookup_project_sonar
    lookup_project_sonar-Returns_iff d e = (
      λ (fuel, h).
          sonar_loop-stops fuel d.items d.final []
            (subst (λ m. Returns (sonar_opened parse_ip fuel m)) e h),
      λ h. (
        suc (length d.items),
        subst (λ m. Returns (sonar_opened parse_ip (suc (length d.items)) m)) (sym e)
            (sonar_loop-Returns (suc (length d.items)) d.items d.final [] (omega arith) h),
      ),
    )
