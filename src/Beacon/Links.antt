-- ===== src/Beacon/Links.antt =====
-- beacon/reader.go: the links of a link dump, `readLinkRFC`, `readLinkURLTeam` and `Read`.
use urlhero.Common.{
  index_byte, ℕ, zero, suc, ◌+◌, Bool, true, false, ◌&&◌, none, some, List, [], ◌∷◌, ◌++◌, Outcome,
  ok, err, panic, hang, Bytes, ltb, ◌==◌, if◌then◌else◌, length, get_elem?, take, drop, pos_part,
}
use urlhero.Beacon.{
  MetaField, Link, Format, rfc, urlteam, Error, too_many_bars, missing_bar, wrong_length, is_eof,
  byte_is, drop_line_break, split_n,
}
use urlhero.Beacon.Reader.{M, handle, pure, fail, read_line_raw, read_line, unread}
use urlhero.Beacon.Header.{wrap_err, meta}

unfoldable pub link_of_tokens : Bytes → List Bytes → Outcome Error Link
link_of_tokens line (s ∷ []) = ok (record { source = s; target = []; annotation = [] })
link_of_tokens line (s ∷ t ∷ []) = ok (record { source = s; target = t; annotation = [] })
link_of_tokens line (s ∷ a ∷ t ∷ []) = ok (record { source = s; target = t; annotation = a })
link_of_tokens line (_ ∷ _ ∷ _ ∷ _ ∷ []) = err (too_many_bars line)
link_of_tokens line _ = ok (record { source = []; target = []; annotation = [] })

unfoldable pub rfc_link : Bytes → M Link
rfc_link line r = (link_of_tokens line (split_n b'|' 4 line), r)

unfoldable pub read_link_rfc : M Link
read_link_rfc = handle read_line rfc_link fail

-- `sourceLen <= 0`: the shortcode ends at the first bar. The target keeps that bar.
unfoldable pub link_of_line : Bytes → Outcome Error Link
link_of_line line = elim (index_byte b'|' line) [
  | none ↦ err (missing_bar line)
  | some i ↦
      ok (record { source = take i line; target = drop_line_break (drop i line); annotation = [] })
]

-- `len(line) > n && line[n] == '|'`
abbrev pub starts_link : ℕ → Bytes → Bool
starts_link n line = ltb n (length line) && byte_is b'|' line n

unfoldable pub shortcode_error : ℕ → Bytes → Error
shortcode_error n line = elim (index_byte b'|' line) [
  | some _ ↦ wrong_length n line
  | none ↦ missing_bar line
]

-- `len(line) < n || line[n] != '|'`; the index is out of range where `len(line) == n`.
unfoldable pub split_shortcode : ℕ → Bytes → Outcome Error (Bytes × Bytes)
split_shortcode n line =
    if ltb (length line) n then err (shortcode_error n line) else elim (get_elem? line n) [
      | none ↦ panic
      | some b ↦
          if b == b'|' then ok (take n line, drop (n + 1) line) else err (shortcode_error n line)
    ]

-- The loop over the lines that continue a target: its body, where `next` is the next round, its
-- way out by an error, and the loop.
unfoldable pub append_line : (Bytes → M Bytes) → ℕ → Bytes → Bytes → M Bytes
append_line next n target line r = elim (starts_link n line) [
  | true ↦ (ok target, record r { peek_line = line })
  | false ↦ next (target ++ line) r
]

abbrev pub append_end : Bytes → Error → M Bytes
append_end target e r = if is_eof e then (ok target, r) else (err e, r)

unfoldable pub append_lines : ℕ → ℕ → Bytes → M Bytes
unfolding append_line
append_lines zero n target r = (hang, r)
append_lines (suc fuel) n target r =
    handle read_line_raw (append_line (append_lines fuel n) n target) (append_end target) r

unfoldable pub link_of_target : Bytes → Bytes → M Link
link_of_target shortcode target r =
    (ok (record { source = shortcode; target = drop_line_break target; annotation = [] }), r)

unfoldable pub read_link_fixed : ℕ → Bytes → M Link
read_link_fixed n line r = elim (split_shortcode n line) [
  | err e ↦ (err e, r)
  | panic ↦ (panic, r)
  | hang ↦ (hang, r)
  | ok (shortcode, first) ↦
      handle (append_lines (suc (unread r)) n first) (link_of_target shortcode) fail r
]

-- `sourceLen <= 0` tells the two kinds of shortcode apart.
unfoldable pub link_from : Bytes → M Link
link_from line r = elim (pos_part r.source_len) [
  | zero ↦ (link_of_line line, r)
  | suc n ↦ read_link_fixed (suc n) line r
]

unfoldable pub read_link_urlteam : M Link
read_link_urlteam = handle read_line_raw link_from fail

unfoldable pub read_link : Format → M Link
read_link rfc = read_link_rfc
read_link urlteam = read_link_urlteam

abbrev pub wrapped : Error → M Link
wrapped e r = (err (wrap_err r e), r)

abbrev pub next_link : List MetaField → M Link
next_link _ r = handle (read_link r.format) pure wrapped r

-- `Reader.Read`. `Meta` returns at once where it has been read.
unfoldable pub read : M Link
unfolding meta read_link wrap_err read_line_raw read_line drop_line_break read_link_rfc rfc_link
    link_of_tokens split_n read_link_urlteam link_from link_of_line index_byte read_link_fixed
    split_shortcode shortcode_error append_lines link_of_target
read = handle meta next_link fail
