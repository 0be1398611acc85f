-- ===== src/Beacon/Tests.antt =====
-- Runs of the reader on small dumps, and each theorem at a concrete input.
use Prim.Native.String.{String}
use urlhero.Common.{
  index_byte, ◌+◌, ◌≡◌, ◌↔◌, refl, List, [], ◌∷◌, codes, ok, err, panic, pos, negsuc, All, str_eq,
}
use urlhero.Beacon.{Link, MetaField, eof, wrong_length, at_line, split_meta, link_string}
use urlhero.Beacon.Reader.{
  Reader, new_reader, new_urlteam_reader, unread, has_newline, read_line_raw,
}
use urlhero.Beacon.Header.{meta}
use urlhero.Beacon.Links.{read, read_link_urlteam, read_link_rfc, link_of_line}
use urlhero.Beacon.Text.{SplitsAs, split_meta_iff}
use urlhero.Beacon.Bars.{read_link_rfc-link_string, link_of_line-bar}
use urlhero.Beacon.Dump.{Entry, IsEntry, dump_text}
use urlhero.Beacon.RoundTrip.{NoHeader, ReadsAll, reads_dump}
use urlhero.Beacon.Progress.Links.{Spent, read-Spent}
use urlhero.Beacon.Panics.{PanicLine, read_link_urlteam-panic}

abbrev link : String → String → Link
link s t = record { source = codes s; target = codes t; annotation = [] }

abbrev dump : String
dump = "#FORMAT: BEACON\n#PREFIX:\t http://a/\n\n\nabc|x\ny\nabd|z\r\n"

abbrev dump_reader : Reader
dump_reader = new_urlteam_reader (codes dump) eof (pos 3)

-- The first line after a header loses its line break, so "x\ny" is joined to "xy".
read-dump : (read dump_reader).0 ≡ ok (link "abc" "xy")
unfolding read
read-dump = refl

read-dump_next : (read (read dump_reader).1).0 ≡ ok (link "abd" "z")
unfolding read
read-dump_next = refl

read-dump_end : (read (read (read dump_reader).1).1).0 ≡ err eof
unfolding read
read-dump_end = refl

meta-dump :
    (meta dump_reader).0
    ≡ ok (
        record { name = codes "FORMAT"; value = codes "BEACON" }
        ∷ record { name = codes "PREFIX"; value = codes "http://a/" }
        ∷ [])
unfolding meta
meta-dump = refl

read_no_header :
    (read (new_urlteam_reader (codes "abc|x\ny\nabd|z\n") eof (pos 3))).0 ≡ ok (link "abc" "x\ny")
unfolding read
read_no_header = refl

-- A line that is exactly as long as the shortcode is indexed out of range.
read_panic : (read (new_urlteam_reader (codes "abc") eof (pos 3))).0 ≡ panic
unfolding read
read_panic = refl

read_wrong_length :
    (read (new_urlteam_reader (codes "ab|cd\n") eof (pos 3))).0
    ≡ err (at_line 1 (wrong_length 3 (codes "ab|cd\n")))
unfolding read
read_wrong_length = refl

-- With no fixed length the target keeps the separator.
read_variable :
    (read (new_urlteam_reader (codes "ab|cd\n") eof (negsuc 0))).0 ≡ ok (link "ab" "|cd")
unfolding read
read_variable = refl

read_rfc :
    (read (new_reader (codes "ab|note|cd\n") eof)).0
    ≡ ok (record { source = codes "ab"; target = codes "cd"; annotation = codes "note" })
unfolding read
read_rfc = refl

-- The cases of `TestSplitMeta`.
split_meta_cases :
    (split_meta (codes "FORMAT: BEACON")
      ≡ ok (record { name = codes "FORMAT"; value = codes "BEACON" }))
    × (split_meta (codes "FORMAT : BEACON")
        ≡ ok (record { name = codes "FORMAT"; value = codes ": BEACON" }))
    × (split_meta (codes "FORMAT:\t \tBEACON")
        ≡ ok (record { name = codes "FORMAT"; value = codes "BEACON" }))
unfolding split_meta
split_meta_cases = (refl, refl, refl)

abbrev entries : List Entry
entries =
    record { shortcode = codes "ab"; first = codes "x"; more = codes "y" ∷ codes "z|" ∷ [] }
    ∷ record { shortcode = codes "cd"; first = codes "u|v"; more = [] }
    ∷ []

entries-IsEntry : All (IsEntry 2) entries
unfolding has_newline
entries-IsEntry = (
  record {
    shortcode_length = refl;
    shortcode_line = refl;
    first_line = refl;
    more_lines = ((refl, refl), ((refl, refl), tt));
    no_return = refl;
  },
  (
    record {
      shortcode_length = refl;
      shortcode_line = refl;
      first_line = refl;
      more_lines = tt;
      no_return = refl;
    },
    tt,
  ),
)

entries-NoHeader : NoHeader (dump_text entries)
unfolding str_eq
entries-NoHeader = (refl, refl)

reads_dump_example :
    ReadsAll
      (new_urlteam_reader (codes "ab|x\ny\nz|\ncd|u|v\n") eof (pos 2))
      (link "ab" "x\ny\nz|" ∷ link "cd" "u|v" ∷ [])
reads_dump_example = reads_dump entries entries-IsEntry entries-NoHeader

read-Spent_example : Spent (unread dump_reader) (read dump_reader)
read-Spent_example = read-Spent dump_reader

abbrev short_reader : Reader
short_reader = new_urlteam_reader (codes "abc") eof (pos 3)

read_link_urlteam-panic_example :
    ((read_link_urlteam short_reader).0 ≡ panic)
    ↔ PanicLine short_reader (read_line_raw short_reader).0
read_link_urlteam-panic_example = read_link_urlteam-panic short_reader

split_meta_iff_example :
    (split_meta (codes "A:\tb") ≡ ok (record { name = codes "A"; value = codes "b" }))
    ↔ SplitsAs (codes "A:\tb") (record { name = codes "A"; value = codes "b" })
split_meta_iff_example =
    split_meta_iff (codes "A:\tb") (record { name = codes "A"; value = codes "b" })

abbrev field : MetaField
field = record { name = codes "NAME"; value = codes "a b" }

abbrev noted : Link
noted = record { source = codes "ab"; target = codes "cd"; annotation = codes "note" }

abbrev noted_reader : Reader
noted_reader = new_reader (codes "ab|note|cd\nx") eof

read_link_rfc-link_string_example :
    read_link_rfc noted_reader
    ≡ (ok noted, record noted_reader { peek_line = []; rest = codes "x"; line = 0 + 1 })
unfolding index_byte has_newline link_string
read_link_rfc-link_string_example =
    read_link_rfc-link_string noted (codes "x") noted_reader refl refl refl refl refl refl refl

bar_kept : link_of_line (codes "ab|cd\n") ≡ ok (link "ab" "|cd")
unfolding index_byte
bar_kept = link_of_line-bar (codes "ab") (codes "cd") refl refl
