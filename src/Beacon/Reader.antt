-- ===== src/Beacon/Reader.antt =====
-- beacon/reader.go: `Reader`, and how it reads lines. A method is a function on the reader's
-- state. What is left of the `io.Reader` behind the `bufio.Reader` is `rest`, after which every read fails by `final`.
use urlhero.Common.{
  ℕ, ◌+◌, Bool, false, not, ◌&&◌, ◌||◌, List, [], ◌∷◌, Outcome, ok, err, panic, hang, Bytes, str_eq,
  ◌==◌, if◌then◌else◌, length, take, drop, ℤ, pos,
}
use urlhero.Beacon.{MetaField, Format, rfc, urlteam, Error, is_eof, drop_line_break}

pub record Reader : Type 0 where
  pub rest : Bytes
  pub final : Error
  pub meta : List MetaField
  pub meta_read : Bool
  pub peek_line : Bytes
  pub line : ℕ
  pub format : Format
  pub source_len : ℤ

-- `NewReader`
abbrev pub new_reader : Bytes → Error → Reader
new_reader src final = record {
  rest = src;
  final = final;
  meta = [];
  meta_read = false;
  peek_line = [];
  line = 0;
  format = rfc;
  source_len = pos 0;
}

-- `NewURLTeamReader`
abbrev pub new_urlteam_reader : Bytes → Error → ℤ → Reader
new_urlteam_reader src final shortcode_len = record (new_reader src final) {
  format = urlteam;
  source_len = shortcode_len;
}

-- A method keeps its changes to the reader when it fails.
abbrev pub M : Type 0 → Type 0
M A = Reader → Outcome Error A × Reader

-- Goes on by the value or by the error of `m`.
abbrev pub handle : {A B : Type 0} → M A → (A → M B) → (Error → M B) → M B
handle m f g r =
    let (o, r') = m r in
    (elim o [ ok a ↦ f a r' | err e ↦ g e r' | panic ↦ (panic, r') | hang ↦ (hang, r') ])

abbrev pub pure : {A : Type 0} → A → M A
pure a r = (ok a, r)

abbrev pub fail : {A : Type 0} → Error → M A
fail e r = (err e, r)

-- `bufio.Reader.ReadString('\n')`: the line up to its newline, what follows it, and whether there
-- was a newline.
unfoldable pub take_line : Bytes → Bytes
take_line [] = []
take_line (c ∷ cs) = if c == b'\n' then c ∷ [] else c ∷ take_line cs

unfoldable pub drop_line : Bytes → Bytes
drop_line [] = []
drop_line (c ∷ cs) = if c == b'\n' then cs else drop_line cs

unfoldable pub has_newline : Bytes → Bool
has_newline [] = false
has_newline (c ∷ cs) = c == b'\n' || has_newline cs

-- `err != nil && !(err == io.EOF && line != "")` fails: the line is returned.
abbrev pub line_complete : Reader → Bool
line_complete r = has_newline r.rest || (is_eof r.final && not (str_eq r.rest []))

unfoldable pub read_line_raw : M Bytes
unfolding take_line drop_line has_newline str_eq
read_line_raw r = elim r.peek_line [
  | c ∷ cs ↦ (ok (c ∷ cs), record r { peek_line = [] })
  | [] ↦
      if line_complete r
      then (ok (take_line r.rest), record r { rest = drop_line r.rest; line = r.line + 1 })
      else (err r.final, record r { rest = []; line = r.line + 1 })
]

abbrev pub trimmed : Bytes → M Bytes
trimmed line r = (ok (drop_line_break line), r)

unfoldable pub read_line : M Bytes
read_line = handle read_line_raw trimmed fail

-- A UTF-8 byte order mark at the start is skipped; any other rune is unread.
unfoldable pub consume_bom : M (Unit {0})
unfolding str_eq
consume_bom r = elim r.rest [
  | [] ↦ (err r.final, r)
  | c ∷ cs ↦
      if str_eq (take 3 (c ∷ cs)) (0xEF ∷ 0xBB ∷ 0xBF ∷ [])
      then (ok tt, record r { rest = drop 3 (c ∷ cs) })
      else (ok tt, r)
]

-- What is left to read: a bound on the rounds of the loops.
abbrev pub unread : Reader → ℕ
unread r = length r.rest + length r.peek_line
