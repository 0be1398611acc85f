-- ===== src/Beacon/Header.antt =====
-- beacon/reader.go: the header of a link dump, `readMeta` and `Meta`.
use urlhero.Common.{
  ℕ, zero, suc, true, false, not, Option, none, some, List, [], ◌∷◌, ◌++◌, ok, err, panic, hang,
  Bytes, ◌==◌, if◌then◌else◌,
}
use urlhero.Beacon.{
  MetaField, Error, eof, at_line, is_eof, drop_line_break, trim_left_space, split_meta,
}
use urlhero.Beacon.Reader.{Reader, M, handle, fail, unread, read_line, read_line_raw, consume_bom}

-- `readMeta` returns its fields beside its error.
abbrev pub MetaResult : Type 0
MetaResult = List MetaField × Option Error

-- `return r.meta, err`
abbrev pub with_error : Error → M MetaResult
with_error e r = (ok (r.meta, some e), r)

-- The body of a loop is given its next round.
unfoldable pub skip_blank_line : M MetaResult → Bytes → M MetaResult
unfolding trim_left_space
skip_blank_line next line r = elim (trim_left_space line) [
  | [] ↦ next r
  | _ ∷ _ ↦ (ok (r.meta, none), record r { peek_line = line })
]

unfoldable pub skip_blank_lines : ℕ → M MetaResult
unfolding skip_blank_line
skip_blank_lines zero r = (hang, r)
skip_blank_lines (suc fuel) r =
    handle read_line (skip_blank_line (skip_blank_lines fuel)) with_error r

-- A line that is not blank: the first byte tells a meta line from a link.
unfoldable pub read_meta_line : M MetaResult → Bytes → M MetaResult
unfolding split_meta
read_meta_line next [] r = (panic, r)
read_meta_line next (c ∷ cs) r =
    if not (c == b'#')
    then (ok (r.meta, none), record r { peek_line = c ∷ cs })
    else elim (split_meta cs) [
      | ok m ↦ next (record r { meta = r.meta ++ m ∷ [] })
      | err e ↦ (ok ([], some e), r)
      | panic ↦ (panic, r)
      | hang ↦ (hang, r)
    ]

unfoldable pub read_header_line : M MetaResult → M MetaResult → Bytes → M MetaResult
unfolding trim_left_space read_meta_line
read_header_line skip next line r = elim (trim_left_space line) [
  | [] ↦ skip r
  | _ ∷ _ ↦ read_meta_line next line r
]

unfoldable pub read_meta_lines : ℕ → M MetaResult
unfolding skip_blank_lines read_header_line
read_meta_lines zero r = (hang, r)
read_meta_lines (suc fuel) r =
    handle read_line (read_header_line (skip_blank_lines fuel) (read_meta_lines fuel)) with_error r

-- The header may be left out. Each round of the loops takes a byte at least.
unfoldable pub peek_header : M MetaResult
unfolding read_meta_lines
peek_header r = elim r.rest [
  | [] ↦ (ok ([], some r.final), r)
  | c ∷ cs ↦ elim (c == b'#') [
    | true ↦ read_meta_lines (suc (unread r)) r
    | false ↦ (ok ([], none), r)
  ]
]

abbrev pub no_meta : Error → M MetaResult
no_meta e r = (ok ([], some e), r)

unfoldable pub read_meta : M MetaResult
unfolding consume_bom peek_header
read_meta r = handle consume_bom (λ _. peek_header) no_meta r

-- `Reader.err`
unfoldable pub wrap_err : Reader → Error → Error
wrap_err r eof = eof
wrap_err r e = at_line r.line e

unfoldable pub finish_meta : MetaResult → M (List MetaField)
unfolding wrap_err
finish_meta (m, none) r = (ok m, r)
finish_meta (m, some e) r = if is_eof e then (ok m, r) else (err (wrap_err r e), r)

-- `Reader.Meta`
unfoldable pub meta : M (List MetaField)
unfolding read_meta finish_meta read_line read_line_raw drop_line_break
meta r = elim r.meta_read [
  | true ↦ (ok r.meta, r)
  | false ↦ handle read_meta finish_meta fail (record r { meta_read = true })
]
