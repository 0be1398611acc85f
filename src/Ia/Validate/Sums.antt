-- ===== src/Ia/Validate/Sums.antt =====
-- ia/validate.go: a file is valid exactly when the sums given are those of its content.
use urlhero.Common.{
  IoError, eof, other, Source, chunks_content, ℕ, zero, suc, ◌<◌, Bool, true, false, Option, none,
  some, List, [], ◌∷◌, ◌++◌, append_assoc, ◌≡◌, ◌↔◌, ◌⊎◌, inl, inr, refl, sym, ap, ◌∙◌, arith,
  Outcome, ok, err, Bytes, str_eq, str_eq_iff, Bool-cases, length,
}
use urlhero.Ia.Validate.{
  ValidateError, io, bad_sum, Kind, md5_kind, sha1_kind, crc32_kind, ReadValidator, new_hash,
  new_read_validator, tee, first_error, validate_sum, validate, end_error, copy_end, copy_discard,
  validate_file, read,
}

-- A sum that is given is that of the content.
abbrev pub IsSum : (Bytes → Bytes) → Bytes → Bytes → Type 0
IsSum hash sum text = (sum ≡ []) ⊎ (hash text ≡ sum)

-- the hash for a sum after `w` was written
abbrev hash_after : Bytes → Bytes → Option Bytes
hash_after [] w = none
hash_after (x ∷ sum) w = some w

tee_hash : (sum w piece : Bytes) → tee piece (hash_after sum w) ≡ hash_after sum (w ++ piece)
tee_hash [] w piece = refl
tee_hash (x ∷ sum) w piece = refl

some-none : {e : ValidateError} → ¬ (some e ≡ none)
some-none e = ground arith

err-ok : {e : ValidateError} → ¬ (◌≡◌ {A = Outcome ValidateError Unit} (err e) (ok tt))
err-ok e = ground arith

other-eof : {n : ℕ} → ¬ (other n ≡ eof)
other-eof e = ground arith

nonempty : {x : ℕ} {s : Bytes} → ¬ (x ∷ s ≡ [])
nonempty e = ground arith

unequal : {b : Bool} → b ≡ false → ¬ (b ≡ true)
unequal e h = ground arith

new_hash-after : (sum : Bytes) → new_hash sum ≡ hash_after sum []
new_hash-after [] = refl
new_hash-after (x ∷ sum) = refl

module _ (md5 sha1 crc32 : Bytes → Bytes) (name md5_sum sha1_sum crc32_sum : Bytes) where
  abbrev after : Source → Bytes → ReadValidator
  after source w = record {
    source = source;
    name = name;
    md5_hash = hash_after md5_sum w;
    sha1_hash = hash_after sha1_sum w;
    crc32_hash = hash_after crc32_sum w;
    md5_sum = md5_sum;
    sha1_sum = sha1_sum;
    crc32_sum = crc32_sum;
  }

  copy_lem :
      (chunks : List Bytes) (last : Bytes) (final : IoError) (fuel : ℕ) (w : Bytes)
      → length chunks < fuel
      → copy_discard md5 sha1 crc32 fuel
          (after (record { chunks = chunks; last = last; final = final }) w)
        ≡ copy_end (
            end_error
              (validate md5 sha1 crc32 (
                after
                  (record { chunks = []; last = []; final = final })
                  (w ++ chunks_content chunks last)))
              final)
  unfolding copy_discard read
  copy_lem chunks last final zero w k = absurd (omega arith)
  copy_lem [] last final (suc fuel) w k =
      rw (tee_hash md5_sum w last, tee_hash sha1_sum w last, tee_hash crc32_sum w last) refl
  copy_lem (c ∷ chunks) last final (suc fuel) w k =
      rw (tee_hash md5_sum w c, tee_hash sha1_sum w c, tee_hash crc32_sum w c)
        (rw⁻¹ (append_assoc w c (chunks_content chunks last))
          (copy_lem chunks last final fuel (w ++ c) (omega arith)))

  -- The error of a sum, where there is one, is `bad_sum`.
  abbrev IsBad : Option ValidateError → Type 0
  IsBad none = Unit
  IsBad (some (io e)) = ⊥
  IsBad (some (bad_sum k n s t)) = Unit

  validate_sum-IsBad :
      (kind : Kind) (hash : Bytes → Bytes) (h : Option Bytes) (sum : Bytes)
      → IsBad (validate_sum name kind hash h sum)
  unfolding validate_sum
  validate_sum-IsBad kind hash none sum = tt
  validate_sum-IsBad kind hash (some w) sum = elim (Bool-cases (str_eq (hash w) sum)) [
    | inl e ↦ rw e tt
    | inr e ↦ rw e tt
  ]

  first_error-IsBad : (a b : Option ValidateError) → IsBad a → IsBad b → IsBad (first_error a b)
  first_error-IsBad none b h k = k
  first_error-IsBad (some e) b h k = h

  first_error_iff :
      (a b : Option ValidateError) → (first_error a b ≡ none) ↔ ((a ≡ none) × (b ≡ none))
  first_error_iff none b = (λ e. (refl, e), λ h. h.1)
  first_error_iff (some x) b = (λ e. absurd (ground arith), λ h. h.0)

  validate_sum_iff :
      (kind : Kind) (hash : Bytes → Bytes) (sum w : Bytes)
      → (validate_sum name kind hash (hash_after sum w) sum ≡ none) ↔ IsSum hash sum w
  unfolding validate_sum
  validate_sum_iff kind hash [] w = (λ e. inl refl, λ h. refl)
  validate_sum_iff kind hash (x ∷ sum) w = elim (Bool-cases (str_eq (hash w) (x ∷ sum))) [
    | inl e ↦ (λ _. inr ((str_eq_iff (hash w) (x ∷ sum)).0 e), λ _. rw e refl)
    | inr e ↦ (
      λ k. absurd (some-none (rw e at k)),
      λ h. elim h [
        | inl l ↦ absurd (nonempty l)
        | inr l ↦ absurd (unequal e ((str_eq_iff (hash w) (x ∷ sum)).1 l))
      ],
    )
  ]

  copy_end_iff :
      (v : Option ValidateError) (final : IoError)
      → IsBad v
      → (copy_end (end_error v final) ≡ ok tt) ↔ ((final ≡ eof) × (v ≡ none))
  copy_end_iff v (other n) h = (λ e. absurd (err-ok e), λ k. absurd (other-eof k.0))
  copy_end_iff none eof h = (λ _. (refl, refl), λ _. refl)
  copy_end_iff (some (bad_sum k n s t)) eof h =
      (λ e. absurd (err-ok e), λ k. absurd (some-none k.1))
  copy_end_iff (some (io e)) eof h = elim h [ ]

  -- the three checks on a whole text
  abbrev checks : Bytes → Option ValidateError
  checks text = first_error (validate_sum name md5_kind md5 (hash_after md5_sum text) md5_sum) (
      first_error (validate_sum name sha1_kind sha1 (hash_after sha1_sum text) sha1_sum)
        (validate_sum name crc32_kind crc32 (hash_after crc32_sum text) crc32_sum))

  checks-IsBad : (text : Bytes) → IsBad (checks text)
  checks-IsBad text =
      first_error-IsBad (validate_sum name md5_kind md5 (hash_after md5_sum text) md5_sum) _
        (validate_sum-IsBad md5_kind md5 (hash_after md5_sum text) md5_sum)
        (first_error-IsBad (validate_sum name sha1_kind sha1 (hash_after sha1_sum text) sha1_sum) _
          (validate_sum-IsBad sha1_kind sha1 (hash_after sha1_sum text) sha1_sum)
          (validate_sum-IsBad crc32_kind crc32 (hash_after crc32_sum text) crc32_sum))

  checks_iff :
      (text : Bytes)
      → (checks text ≡ none)
        ↔ (IsSum md5 md5_sum text × IsSum sha1 sha1_sum text × IsSum crc32 crc32_sum text)
  checks_iff text =
      let a = validate_sum_iff md5_kind md5 md5_sum text in
      let b = validate_sum_iff sha1_kind sha1 sha1_sum text in
      let c = validate_sum_iff crc32_kind crc32 crc32_sum text in
      let outer =
        first_error_iff (validate_sum name md5_kind md5 (hash_after md5_sum text) md5_sum) _ in
      let inner =
        first_error_iff (validate_sum name sha1_kind sha1 (hash_after sha1_sum text) sha1_sum) _ in
      (
        λ e. let (ea, ebc) = outer.0 e in let (eb, ec) = inner.0 ebc in (a.0 ea, b.0 eb, c.0 ec),
        λ h. outer.1 (a.1 h.0, inner.1 (b.1 h.1, c.1 h.2)),
      )

  start_after :
      (source : Source)
      → new_read_validator source name md5_sum sha1_sum crc32_sum ≡ after source []
  start_after source =
      rw (new_hash-after md5_sum, new_hash-after sha1_sum, new_hash-after crc32_sum) refl

  validate_file_lem :
      (chunks : List Bytes) (last : Bytes) (final : IoError)
      → validate_file md5 sha1 crc32
          (record { chunks = chunks; last = last; final = final })
          name
          md5_sum
          sha1_sum
          crc32_sum
        ≡ copy_end (end_error (checks (chunks_content chunks last)) final)
  unfolding validate_file validate
  validate_file_lem chunks last final =
      ap (copy_discard md5 sha1 crc32 (suc (length chunks)))
        (start_after (record { chunks = chunks; last = last; final = final }))
      ∙ copy_lem chunks last final (suc (length chunks)) [] (omega arith)

  -- `ValidateFile` succeeds exactly when the file is read to its end and each sum that is given,
  -- not empty, is that of the whole content.
  pub validate_file_iff :
      (chunks : List Bytes) (last : Bytes) (final : IoError)
      → (validate_file md5 sha1 crc32
            (record { chunks = chunks; last = last; final = final })
            name
            md5_sum
            sha1_sum
            crc32_sum
          ≡ ok tt)
        ↔ ((final ≡ eof)
            × IsSum md5 md5_sum (chunks_content chunks last)
            × IsSum sha1 sha1_sum (chunks_content chunks last)
            × IsSum crc32 crc32_sum (chunks_content chunks last))
  validate_file_iff chunks last final =
      let text = chunks_content chunks last in
      let whole = validate_file_lem chunks last final in
      let ends = copy_end_iff (checks text) final (checks-IsBad text) in
      let sums = checks_iff text in
      (
        λ e. let (f, n) = ends.0 (sym whole ∙ e) in let (m, h, c) = sums.0 n in (f, m, h, c),
        λ h. whole ∙ ends.1 (h.0, sums.1 (h.1, h.2, h.3)),
      )
