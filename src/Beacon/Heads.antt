-- ===== src/Beacon/Heads.antt =====
-- beacon/reader.go: the first line of an entry, read from the input or from the line put back.
use urlhero.Common.{
  ℕ, ◌+◌, ◌<◌, true, List, [], ◌∷◌, ◌++◌, ◌≡◌, ◌⊎◌, refl, ap, ◌∙◌, inl, inr, arith, ok, err, Bytes,
  length, pos, append_assoc, length-append, get_elem?-length-append, take-length-append,
  drop-length-append-cons,
}
use urlhero.Beacon.{eof, urlteam}
use urlhero.Beacon.Reader.{Reader, read_line_raw, take_line, drop_line, has_newline}
use urlhero.Beacon.Links.{starts_link, split_shortcode}
use urlhero.Beacon.Dump.{
  Entry, lines_text, head_line, dump_text, NoNewline, IsEntry, take_line-append, drop_line-append,
  has_newline-append, NoNewline-bar,
}

-- Where the reader keeps the first line of the next entry.
abbrev pub Ahead : Reader → List Entry → Type 0
Ahead r [] = (r.peek_line ≡ []) × (r.rest ≡ [])
Ahead r (e ∷ es) =
    ((r.peek_line ≡ []) × (r.rest ≡ head_line e ++ (lines_text e.more ++ dump_text es)))
    ⊎ ((r.peek_line ≡ head_line e) × (r.rest ≡ lines_text e.more ++ dump_text es))

-- The header has been read, and the source ends with no error.
pub record Ready (n : ℕ) (r : Reader) : Type 0 where
  pub at_end : r.final ≡ eof
  pub meta_done : r.meta_read ≡ true
  pub format_is : r.format ≡ urlteam
  pub len_is : r.source_len ≡ pos n

pub Ready-moved :
    {n : ℕ} {r : Reader}
    → Ready n r
    → (peek s : Bytes) (k : ℕ) → Ready n (record r { peek_line = peek; rest = s; line = k })
Ready-moved ready peek s k = record {
  at_end = ready.at_end;
  meta_done = ready.meta_done;
  format_is = ready.format_is;
  len_is = ready.len_is;
}

pub read_line_raw-append :
    (l s : Bytes) (r : Reader)
    → NoNewline l
    → r.peek_line ≡ []
    → r.rest ≡ l ++ (b'\n' ∷ s)
    → read_line_raw r
      ≡ (ok (l ++ b'\n' ∷ []), record r { peek_line = []; rest = s; line = r.line + 1 })
unfolding read_line_raw
read_line_raw-append l s r h p e = ground (
  arith,
  ap take_line e ∙ take_line-append l s h,
  ap drop_line e ∙ drop_line-append l s h,
  ap has_newline e ∙ has_newline-append l s,
)

pub read_line_raw-end :
    (r : Reader)
    → r.peek_line ≡ []
    → r.rest ≡ []
    → r.final ≡ eof
    → read_line_raw r ≡ (err eof, record r { rest = []; line = r.line + 1 })
unfolding read_line_raw
read_line_raw-end r p e f = ground arith

read_line_raw-peek :
    (r : Reader) (l : Bytes)
    → 0 < length l
    → r.peek_line ≡ l
    → read_line_raw r ≡ (ok l, record r { peek_line = [] })
unfolding read_line_raw
read_line_raw-peek r [] h p = absurd (omega arith)
read_line_raw-peek r (c ∷ l) h p = ground arith

-- The first line of the next entry is read, from where it is kept.
pub record HeadRead (n : ℕ) (r : Reader) (e : Entry) (es : List Entry) : Type 0 where
  pub next : Reader
  pub reads : read_line_raw r ≡ (ok (head_line e), next)
  pub ready : Ready n next
  pub no_peek : next.peek_line ≡ []
  pub rest_is : next.rest ≡ lines_text e.more ++ dump_text es

head_line-NoNewline :
    {n : ℕ} (e : Entry) → IsEntry n e → NoNewline (e.shortcode ++ (b'|' ∷ e.first))
head_line-NoNewline e h = NoNewline-bar e.shortcode e.first h.shortcode_line h.first_line

head_line-append :
    (e : Entry) (s : Bytes) → head_line e ++ s ≡ (e.shortcode ++ (b'|' ∷ e.first)) ++ (b'\n' ∷ s)
head_line-append e s = simp append_assoc

head_line_lem : (e : Entry) → (e.shortcode ++ (b'|' ∷ e.first)) ++ b'\n' ∷ [] ≡ head_line e
head_line_lem e = append_assoc e.shortcode (b'|' ∷ e.first) (b'\n' ∷ [])

pub read_head :
    {n : ℕ} (r : Reader) (e : Entry) (es : List Entry)
    → Ready n r
    → IsEntry n e
    → Ahead r (e ∷ es)
    → HeadRead n r e es
read_head r e es ready h (inl (p, s)) = record {
  next = record r { peek_line = []; rest = lines_text e.more ++ dump_text es; line = r.line + 1 };
  reads = rw (← head_line_lem e) (
      read_line_raw-append (e.shortcode ++ (b'|' ∷ e.first)) _ r (head_line-NoNewline e h) p
        (s ∙ head_line-append e _));
  ready = Ready-moved ready _ _ _;
  no_peek = refl;
  rest_is = refl;
}
read_head r e es ready h (inr (p, s)) = record {
  next = record r { peek_line = [] };
  reads =
      read_line_raw-peek r (head_line e)
        (omega (arith, length-append e.shortcode (b'|' ∷ (e.first ++ b'\n' ∷ [])))) p;
  ready = Ready-moved ready _ _ _;
  no_peek = refl;
  rest_is = s;
}

pub starts_link-head_line : {n : ℕ} (e : Entry) → IsEntry n e → starts_link n (head_line e) ≡ true
starts_link-head_line e h = rw (← h.shortcode_length) (
    ground (
      arith,
      get_elem?-length-append e.shortcode b'|' (e.first ++ b'\n' ∷ []),
      length-append e.shortcode (b'|' ∷ (e.first ++ b'\n' ∷ [])),
    ))

pub split_shortcode-head_line :
    {n : ℕ} (e : Entry)
    → IsEntry n e
    → split_shortcode n (head_line e) ≡ ok (e.shortcode, e.first ++ b'\n' ∷ [])
unfolding split_shortcode
split_shortcode-head_line e h = rw (← h.shortcode_length) (
    ground (
      arith,
      get_elem?-length-append e.shortcode b'|' (e.first ++ b'\n' ∷ []),
      length-append e.shortcode (b'|' ∷ (e.first ++ b'\n' ∷ [])),
      take-length-append e.shortcode (b'|' ∷ (e.first ++ b'\n' ∷ [])),
      drop-length-append-cons e.shortcode b'|' (e.first ++ b'\n' ∷ []),
    ))
