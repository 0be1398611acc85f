-- ===== src/Beacon/RoundTrip.antt =====
-- beacon/reader.go: a `Reader` for a fixed shortcode length reads back the entries of a dump.
use urlhero.Common.{
  ℕ, suc, true, false, List, [], ◌∷◌, ◌++◌, ◌≡◌, refl, sym, ap, ◌∙◌, inl, arith, Outcome, ok, err,
  Bytes, str_eq, ℤ, pos, take, map, All,
}
use urlhero.Beacon.{Error, eof, Link, MetaField, byte_is}
use urlhero.Beacon.Reader.{Reader, handle, fail, unread, new_urlteam_reader, consume_bom}
use urlhero.Beacon.Header.{meta, peek_header, read_meta, finish_meta, wrap_err}
use urlhero.Beacon.Links.{
  link_of_target, link_from, next_link, read_link_fixed, read_link_urlteam, read_link, read,
}
use urlhero.Beacon.Dump.{
  Entry, lines_text, head_line, dump_text, entry_link, IsEntry, drop_line_break-entry,
}
use urlhero.Beacon.Heads.{Ahead, Ready, read_line_raw-end, read_head, split_shortcode-head_line}
use urlhero.Beacon.Gather.{append_lines-more}

-- The reader returned the link of the entry, and stands before the entries that follow.
pub record ReadsEntry (n : ℕ) (r : Reader) (e : Entry) (es : List Entry) : Type 0 where
  pub next : Reader
  pub reads : read r ≡ (ok (entry_link e), next)
  pub ready : Ready n next
  pub ahead : Ahead next es

-- The same for the functions under `read`.
record Links (n : ℕ) (m : Outcome Error Link × Reader) (e : Entry) (es : List Entry) : Type 0 where
  next : Reader
  links : m ≡ (ok (entry_link e), next)
  ready : Ready n next
  ahead : Ahead next es

link_from-entry :
    {n : ℕ} (r : Reader) (e : Entry) (es : List Entry)
    → Ready (suc n) r
    → r.peek_line ≡ []
    → r.rest ≡ lines_text e.more ++ dump_text es
    → IsEntry (suc n) e
    → All (IsEntry (suc n)) es
    → Links (suc n) (link_from (head_line e) r) e es
unfolding link_from read_link_fixed link_of_target
link_from-entry {n} r e es ready p s h hs =
    let gathered =
      append_lines-more e.more (suc (unread r)) (e.first ++ b'\n' ∷ []) r es ready p s h.more_lines
        hs (omega arith) in
    record {
      next = gathered.next;
      links = ground (
        arith,
        ready.len_is,
        split_shortcode-head_line e h,
        gathered.gathers,
        drop_line_break-entry e h,
      );
      ready = gathered.ready;
      ahead = gathered.ahead;
    }

read_link_urlteam-entry :
    {n : ℕ} (r : Reader) (e : Entry) (es : List Entry)
    → Ready (suc n) r
    → Ahead r (e ∷ es)
    → IsEntry (suc n) e
    → All (IsEntry (suc n)) es
    → Links (suc n) (read_link_urlteam r) e es
unfolding read_link_urlteam
read_link_urlteam-entry r e es ready ahead h hs =
    let head = read_head r e es ready h ahead in
    let linked = link_from-entry head.next e es head.ready head.no_peek head.rest_is h hs in
    record {
      next = linked.next;
      links = ground (arith, head.reads, linked.links);
      ready = linked.ready;
      ahead = linked.ahead;
    }

meta-Ready : {n : ℕ} (r : Reader) → Ready n r → meta r ≡ (ok r.meta, r)
unfolding meta
meta-Ready r ready = ground (arith, ready.meta_done)

read_lem : (r : Reader) → read r ≡ handle meta next_link fail r
unfolding read
read_lem r = refl

read-entry :
    {n : ℕ} (r : Reader) (e : Entry) (es : List Entry)
    → Ready (suc n) r
    → Ahead r (e ∷ es)
    → IsEntry (suc n) e
    → All (IsEntry (suc n)) es
    → ReadsEntry (suc n) r e es
unfolding read_link
read-entry r e es ready ahead h hs =
    let linked = read_link_urlteam-entry r e es ready ahead h hs in
    record {
      next = linked.next;
      reads = read_lem r ∙ ground (arith, meta-Ready r ready, ready.format_is, linked.links);
      ready = linked.ready;
      ahead = linked.ahead;
    }

read_link_urlteam-end :
    {n : ℕ} (r : Reader) → Ready n r → Ahead r [] → (read_link_urlteam r).0 ≡ err eof
unfolding read_link_urlteam
read_link_urlteam-end r ready ahead =
    ground (arith, read_line_raw-end r ahead.0 ahead.1 ready.at_end)

read-end : {n : ℕ} (r : Reader) → Ready n r → Ahead r [] → (read r).0 ≡ err eof
unfolding read_link wrap_err
read-end r ready ahead =
    ap (λ m. m.0) (read_lem r)
    ∙ ground (arith, meta-Ready r ready, ready.format_is, read_link_urlteam-end r ready ahead)

-- Calls of `read` that return these links, one after another.
pub data Reads : Reader → List Link → Reader → Type 0 where
  done : {r : Reader} → Reads r [] r
  more :
      {r r' r'' : Reader} {l : Link} {ls : List Link}
      → read r ≡ (ok l, r')
      → Reads r' ls r''
      → Reads r (l ∷ ls) r''

-- The calls of `read` return these links, and then `io.EOF`.
pub record ReadsAll (r : Reader) (ls : List Link) : Type 0 where
  pub last : Reader
  pub reads : Reads r ls last
  pub ends : (read last).0 ≡ err eof

Ready-Reads :
    {n : ℕ} (r : Reader) (es : List Entry)
    → Ready (suc n) r
    → Ahead r es
    → All (IsEntry (suc n)) es
    → ReadsAll r (map entry_link es)
Ready-Reads r [] ready ahead hs = record { last = r; reads = done; ends = read-end r ready ahead }
Ready-Reads r (e ∷ es) ready ahead hs =
    let step = read-entry r e es ready ahead hs.0 hs.1 in
    let rest = Ready-Reads step.next es step.ready step.ahead hs.1 in
    record { last = rest.last; reads = more step.reads rest.reads; ends = rest.ends }

-- No byte order mark and no meta line in front.
abbrev pub NoHeader : Bytes → Type 0
NoHeader src =
    (str_eq (take 3 src) (0xEF ∷ 0xBB ∷ 0xBF ∷ []) ≡ false) × (byte_is b'#' src 0 ≡ false)

meta-NoHeader :
    (src : Bytes) (len : ℤ)
    → NoHeader src
    → meta (new_urlteam_reader src eof len)
      ≡ (ok [], record (new_urlteam_reader src eof len) { meta_read = true })
unfolding meta read_meta consume_bom peek_header finish_meta
meta-NoHeader [] len h = refl
meta-NoHeader (c ∷ src) len h = ground (arith, h.0, h.1)

fresh-Ready :
    (src : Bytes) (n : ℕ)
    → Ready n (record (new_urlteam_reader src eof (pos n)) { meta_read = true })
fresh-Ready src n = record { at_end = refl; meta_done = refl; format_is = refl; len_is = refl }

-- A first call of `read` goes on from where `Meta` stops.
read-meta :
    {n : ℕ} {m : List MetaField} (r r' : Reader)
    → meta r ≡ (ok m, r')
    → Ready n r'
    → read r ≡ read r'
read-meta r r' e ready =
    read_lem r
    ∙ ap (λ x. handle (λ _. x) next_link fail r) e
    ∙ sym (read_lem r' ∙ ap (λ x. handle (λ _. x) next_link fail r') (meta-Ready r' ready))

-- For a dump with no header whose entries are well formed, the calls of `read` return the links of
-- the entries in order, targets of several lines included, and then `io.EOF`.
pub reads_dump :
    {n : ℕ} (es : List Entry)
    → All (IsEntry (suc n)) es
    → NoHeader (dump_text es)
    → ReadsAll (new_urlteam_reader (dump_text es) eof (pos (suc n))) (map entry_link es)
reads_dump [] hs h =
    let read_on = meta-NoHeader [] _ h in
    let ready = fresh-Ready [] _ in
    record {
      last = _;
      reads = done;
      ends = ap (λ m. m.0) (read-meta _ _ read_on ready) ∙ read-end _ ready (refl, refl);
    }
reads_dump (e ∷ es) hs h =
    let read_on = meta-NoHeader (dump_text (e ∷ es)) _ h in
    let ready = fresh-Ready (dump_text (e ∷ es)) _ in
    let step = read-entry _ e es ready (inl (refl, refl)) hs.0 hs.1 in
    let rest = Ready-Reads step.next es step.ready step.ahead hs.1 in
    record {
      last = rest.last;
      reads = more (read-meta _ _ read_on ready ∙ step.reads) rest.reads;
      ends = rest.ends;
    }
