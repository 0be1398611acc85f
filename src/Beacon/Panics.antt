-- ===== src/Beacon/Panics.antt =====
-- beacon/reader.go: where `readLinkURLTeam` indexes a line out of range.
use urlhero.Common.{
  ℕ, zero, suc, ◌≤◌, ◌<◌, none, [], ◌∷◌, ◌≡◌, ◌≢◌, ◌↔◌, refl, sym, ap, ◌∙◌, arith, Outcome, ok, err,
  panic, hang, Bytes, length, pos_part, get_elem?,
}
use urlhero.Beacon.{Error, Link}
use urlhero.Beacon.Reader.{Reader, M, handle, fail, unread, read_line_raw}
use urlhero.Beacon.Links.{
  link_of_line, append_lines, link_of_target, link_from, read_link_fixed, read_link_urlteam,
  split_shortcode,
}
use urlhero.Beacon.Progress.{Within}
use urlhero.Beacon.Progress.Links.{append_lines-Within, link_of_line-Returns}
use urlhero.Beacon.Lines.{TookLine, read_line_raw-TookLine}

get_elem?-none : (s : Bytes) (i : ℕ) → get_elem? s i ≡ none → length s ≤ i
get_elem?-none [] i h = omega arith
get_elem?-none (x ∷ s) zero h = cc
get_elem?-none (x ∷ s) (suc i) h = omega (arith, get_elem?-none s i h)

get_elem?-length : (s : Bytes) → get_elem? s (length s) ≡ none
get_elem?-length [] = refl
get_elem?-length (x ∷ s) = get_elem?-length s

split_shortcode-panic :
    (n : ℕ) (line : Bytes) → (split_shortcode n line ≡ panic) ↔ (length line ≡ n)
unfolding split_shortcode
split_shortcode-panic n line = (
  λ h. ground (arith, get_elem?-none line n),
  λ e. rw (← e) (ground (arith, get_elem?-length line)),
)

gathered-ne-panic :
    (k : ℕ) (shortcode : Bytes) (m : Outcome Error Bytes × Reader) (r : Reader)
    → Within k m
    → (handle (λ _. m) (link_of_target shortcode) fail r).0 ≢ panic
unfolding link_of_target
gathered-ne-panic k shortcode (ok target, r') r w h = cc
gathered-ne-panic k shortcode (err e, r') r w h = cc
gathered-ne-panic k shortcode (panic, r') r w h = w
gathered-ne-panic k shortcode (hang, r') r w h = w

abbrev split_link : ℕ → Outcome Error (Bytes × Bytes) → M Link
split_link n o r = elim o [
  | err e ↦ (err e, r)
  | panic ↦ (panic, r)
  | hang ↦ (hang, r)
  | ok (shortcode, first) ↦
      handle (append_lines (suc (unread r)) n first) (link_of_target shortcode) fail r
]

split_link-panic :
    (n : ℕ) (o : Outcome Error (Bytes × Bytes)) (r : Reader)
    → (split_link n o r).0 ≡ panic
    → o ≡ panic
split_link-panic n (ok (shortcode, first)) r h = absurd (
    gathered-ne-panic (suc (unread r)) shortcode (append_lines (suc (unread r)) n first r) r
      (append_lines-Within (suc (unread r)) (suc (unread r)) n first r (omega arith) (omega arith))
      h)
split_link-panic n (err e) r h = cc
split_link-panic n panic r h = refl
split_link-panic n hang r h = cc

read_link_fixed-panic :
    (n : ℕ) (line : Bytes) (r : Reader) → ((read_link_fixed n line r).0 ≡ panic) ↔ (length line ≡ n)
unfolding read_link_fixed
read_link_fixed-panic n line r = (
  λ h. (split_shortcode-panic n line).0 (split_link-panic n (split_shortcode n line) r h),
  λ e. ground (arith, (split_shortcode-panic n line).1 e),
)

link_from-panic :
    (line : Bytes) (r : Reader)
    → ((link_from line r).0 ≡ panic) ↔ ((0 < length line) × (pos_part r.source_len ≡ length line))
unfolding link_from
link_from-panic line r = go (pos_part r.source_len)
  where
    go :
        (n : ℕ)
        → ((elim n as (λ _. Outcome Error Link × Reader) [
          | zero ↦ (link_of_line line, r)
          | suc m ↦ read_link_fixed (suc m) line r
        ]).0
            ≡ panic)
          ↔ ((0 < length line) × (n ≡ length line))
    go zero = (λ h. absurd (rw h at (link_of_line-Returns line)), λ h. absurd (omega arith))
    go (suc m) = (
      λ h. let e = (read_link_fixed-panic (suc m) line r).0 h in (omega arith, sym e),
      λ h. (read_link_fixed-panic (suc m) line r).1 (sym h.1),
    )

read_line_raw-source_len : (r : Reader) → (read_line_raw r).1.source_len ≡ r.source_len
unfolding read_line_raw
read_line_raw-source_len r = ground arith

-- A raw line is read that is as long as the shortcode, which is not empty.
abbrev pub PanicLine : Reader → Outcome Error Bytes → Type 0
PanicLine r o =
    (line : Bytes) × (o ≡ ok line) × (0 < length line) × (pos_part r.source_len ≡ length line)

panics→PanicLine :
    (r : Reader) (m : Outcome Error Bytes × Reader)
    → TookLine r m
    → m.1.source_len ≡ r.source_len
    → (handle (λ _. m) link_from fail r).0 ≡ panic
    → PanicLine r m.0
panics→PanicLine r (ok line, r') t e h =
    let (positive, len) = (link_from-panic line r').0 h in
    (line, refl, positive, ap pos_part (sym e) ∙ len)
panics→PanicLine r (err x, r') t e h = cc
panics→PanicLine r (panic, r') t e h = absurd t
panics→PanicLine r (hang, r') t e h = absurd t

PanicLine→panics :
    (r : Reader) (m : Outcome Error Bytes × Reader)
    → m.1.source_len ≡ r.source_len
    → PanicLine r m.0
    → (handle (λ _. m) link_from fail r).0 ≡ panic
PanicLine→panics r (ok line, r') e (l, q, positive, len) =
    let same : l ≡ line = cc in
    (link_from-panic line r').1 (rw same at positive, ap pos_part e ∙ len ∙ ap length same)
PanicLine→panics r (err x, r') e (l, q, positive, len) = cc
PanicLine→panics r (panic, r') e (l, q, positive, len) = cc
PanicLine→panics r (hang, r') e (l, q, positive, len) = cc

-- `readLinkURLTeam` panics exactly when the shortcode length is positive and the next raw line is
-- exactly that long: `len(line) < r.sourceLen` lets such a line through to `line[r.sourceLen]`.
pub read_link_urlteam-panic :
    (r : Reader) → ((read_link_urlteam r).0 ≡ panic) ↔ PanicLine r (read_line_raw r).0
unfolding read_link_urlteam
read_link_urlteam-panic r = (
  panics→PanicLine r (read_line_raw r) (read_line_raw-TookLine r) (read_line_raw-source_len r),
  PanicLine→panics r (read_line_raw r) (read_line_raw-source_len r),
)
