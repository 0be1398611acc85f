-- ===== src/Beacon/Dump.antt =====
-- beacon/reader.go: what a link dump with shortcodes of a fixed length says, apart from the
-- reader: a list of entries, each a shortcode with a target of one or more lines.
use urlhero.Common.{
  ℕ, ◌-◌, true, false, List, [], ◌∷◌, ◌++◌, ◌≡◌, refl, sym, ap, ◌∙◌, arith, Bytes, length, All,
  append_assoc,
}
use urlhero.Beacon.{Link, byte_is, drop_line_break}
use urlhero.Beacon.Reader.{take_line, drop_line, has_newline}
use urlhero.Beacon.Links.{starts_link}
use urlhero.Beacon.Text.{drop_line_break-append}

pub record Entry : Type 0 where
  pub shortcode : Bytes
  pub first : Bytes
  pub more : List Bytes

-- Each line with its newline.
abbrev pub lines_text : List Bytes → Bytes
lines_text [] = []
lines_text (l ∷ ls) = l ++ (b'\n' ∷ lines_text ls)

abbrev pub head_line : Entry → Bytes
head_line e = e.shortcode ++ (b'|' ∷ (e.first ++ b'\n' ∷ []))

abbrev pub dump_text : List Entry → Bytes
dump_text [] = []
dump_text (e ∷ es) = head_line e ++ (lines_text e.more ++ dump_text es)

-- The lines with a newline between any two.
abbrev pub join_lines : Bytes → List Bytes → Bytes
join_lines l [] = l
join_lines l (k ∷ ks) = l ++ (b'\n' ∷ join_lines k ks)

abbrev pub entry_link : Entry → Link
entry_link e = record { source = e.shortcode; target = join_lines e.first e.more; annotation = [] }

abbrev pub NoNewline : Bytes → Type 0
NoNewline l = has_newline l ≡ false

-- A line after the first cannot be taken for a link, and the target does not end in "\r", which
-- would go with the line break.
pub record IsEntry (n : ℕ) (e : Entry) : Type 0 where
  pub shortcode_length : length e.shortcode ≡ n
  pub shortcode_line : NoNewline e.shortcode
  pub first_line : NoNewline e.first
  pub more_lines : All (λ l. NoNewline l × (starts_link n (l ++ b'\n' ∷ []) ≡ false)) e.more
  pub no_return :
      byte_is b'\r' (join_lines e.first e.more) (length (join_lines e.first e.more) - 1) ≡ false

pub take_line-append : (l s : Bytes) → NoNewline l → take_line (l ++ (b'\n' ∷ s)) ≡ l ++ b'\n' ∷ []
unfolding take_line has_newline
take_line-append [] s h = refl
take_line-append (c ∷ l) s h = ground (arith, take_line-append l s)

pub drop_line-append : (l s : Bytes) → NoNewline l → drop_line (l ++ (b'\n' ∷ s)) ≡ s
unfolding drop_line has_newline
drop_line-append [] s h = refl
drop_line-append (c ∷ l) s h = ground (arith, drop_line-append l s)

pub has_newline-append : (l s : Bytes) → has_newline (l ++ (b'\n' ∷ s)) ≡ true
unfolding has_newline
has_newline-append [] s = refl
has_newline-append (c ∷ l) s = ground (arith, has_newline-append l s)

pub NoNewline-bar : (s t : Bytes) → NoNewline s → NoNewline t → NoNewline (s ++ (b'|' ∷ t))
unfolding has_newline
NoNewline-bar [] t h k = k
NoNewline-bar (c ∷ s) t h k = ground (arith, NoNewline-bar s t)

lines_text-join_lines :
    (l : Bytes) (ls : List Bytes) → l ++ (b'\n' ∷ lines_text ls) ≡ join_lines l ls ++ b'\n' ∷ []
lines_text-join_lines l [] = refl
lines_text-join_lines l (k ∷ ks) =
    ap (λ x. l ++ (b'\n' ∷ x)) (lines_text-join_lines k ks)
    ∙ sym (append_assoc l (b'\n' ∷ join_lines k ks) (b'\n' ∷ []))

-- The lines that the reader gathers for an entry become its target.
pub drop_line_break-entry :
    {n : ℕ} (e : Entry)
    → IsEntry n e
    → drop_line_break ((e.first ++ b'\n' ∷ []) ++ lines_text e.more) ≡ (entry_link e).target
drop_line_break-entry e h =
    ap drop_line_break
      (append_assoc e.first (b'\n' ∷ []) (lines_text e.more) ∙ lines_text-join_lines e.first e.more)
    ∙ drop_line_break-append _ h.no_return
