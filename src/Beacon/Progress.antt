-- ===== src/Beacon/Progress.antt =====
-- beacon/reader.go: a call of `Meta` returns, and puts back no more than it took.
pub mod Links
use urlhero.Common.{
  ℕ, zero, suc, ◌+◌, ◌-◌, ◌≤◌, ◌<◌, Bool, true, false, not, ◌&&◌, ◌||◌, Option, none, some, List,
  [], ◌∷◌, ◌++◌, ◌≡◌, ◌≢◌, refl, sym, ap, ◌∙◌, inl, inr, arith, Outcome, ok, err, panic, hang,
  Returns, Bytes, str_eq, ◌==◌, Bool-cases, if◌then◌else◌, length, pos_part,
}
use urlhero.Beacon.{
  Error, Link, MetaField, Format, rfc, urlteam, is_eof, drop_line_break, trim_left_space,
  split_meta, split_meta_at,
}
use urlhero.Beacon.Reader.{
  Reader, M, handle, pure, fail, unread, read_line_raw, read_line, consume_bom,
}
use urlhero.Beacon.Header.{
  MetaResult, with_error, skip_blank_line, peek_header, no_meta, read_header_line, skip_blank_lines,
  read_meta_line, read_meta_lines, read_meta, finish_meta, meta, wrap_err,
}
use urlhero.Beacon.Links.{
  append_line, append_end, append_lines, starts_link, read_link_rfc, read_link_fixed,
  read_link_urlteam, read_link, read, split_shortcode,
}
use urlhero.Beacon.Lines.{TookLine, read_line_raw-TookLine, read_line-TookLine}

-- The call returned, and less than `k` is left to read, also after an error.
abbrev pub Within : {A : Type 0} → ℕ → Outcome Error A × Reader → Type 0
Within k (ok _, r) = unread r < k
Within k (err _, r) = unread r < k
Within k (panic, r) = ⊥
Within k (hang, r) = ⊥

pub Within-handle :
    {A : Type 0} (k : ℕ) (r : Reader) (m : Outcome Error Bytes × Reader) (f : Bytes → M A)
    (g : Error → M A)
    → TookLine r m
    → ((line : Bytes) (r' : Reader)
        → length line + length r'.rest ≤ unread r
        → length r'.rest < unread r
        → r'.peek_line ≡ []
        → Within k (f line r'))
    → ((e : Error) (r' : Reader) → unread r' ≤ unread r → Within k (g e r'))
    → Within k (handle (λ _. m) f g r)
Within-handle k r (ok line, r') f g t hf hg = hf line r' t.0 t.1 t.2
Within-handle k r (err e, r') f g t hf hg = hg e r' t
Within-handle k r (panic, r') f g t hf hg = absurd t
Within-handle k r (hang, r') f g t hf hg = absurd t

-- Nothing is unread but the rest.
pub unread_rest : (r : Reader) → r.peek_line ≡ [] → unread r ≡ length r.rest
unread_rest r e = omega (arith, ap length e)

skip_blank_lines-Within :
    (k fuel : ℕ) (r : Reader) → unread r < fuel → unread r < k → Within k (skip_blank_lines fuel r)
unfolding skip_blank_lines
skip_blank_lines-Within k zero r h b = absurd (omega arith)
skip_blank_lines-Within k (suc fuel) r h b =
    Within-handle k r (read_line r) (skip_blank_line (skip_blank_lines fuel)) with_error
      (read_line-TookLine r)
      (λ line r' p q n. ground (arith, unread_rest r' n, skip_blank_lines-Within k fuel r'))
      (λ e r' p. omega arith)

split_meta_at-Returns : (meta : Bytes) (i : ℕ) (s : Bytes) → Returns (split_meta_at meta i s)
unfolding split_meta_at
split_meta_at-Returns meta i [] = tt
split_meta_at-Returns meta i (c ∷ s) = ground (arith, split_meta_at-Returns meta (i + 1) s)

read_meta_line-Within :
    (k : ℕ) (line : Bytes) (r : Reader) (next : M MetaResult)
    → 0 < length line
    → length line + length r.rest < k
    → r.peek_line ≡ []
    → ((m : List MetaField) → Within k (next (record r { meta = m })))
    → Within k (read_meta_line next line r)
unfolding read_meta_line
read_meta_line-Within k [] r next nonempty h e hn = absurd (omega arith)
read_meta_line-Within k (c ∷ cs) r next nonempty h e hn =
    go (split_meta_at cs 0 cs) (split_meta_at-Returns cs 0 cs)
  where
    go :
        (o : Outcome Error MetaField)
        → Returns o
        → Within k (
            if not (c == b'#')
            then (ok (r.meta, none), record r { peek_line = c ∷ cs })
            else elim o [
              | ok m ↦ next (record r { meta = r.meta ++ m ∷ [] })
              | err e ↦ (ok ([], some e), r)
              | panic ↦ (panic, r)
              | hang ↦ (hang, r)
            ])
    go (ok m) t = ground (arith, hn (r.meta ++ m ∷ []))
    go (err x) t = ground (arith, unread_rest r e)
    go panic t = absurd t
    go hang t = absurd t

trim_left_space-length : (s : Bytes) → length (trim_left_space s) ≤ length s
unfolding trim_left_space
trim_left_space-length [] = omega arith
trim_left_space-length (c ∷ s) = ground (arith, trim_left_space-length s)

read_header_line-Within :
    (k : ℕ) (line : Bytes) (r : Reader) (skip next : M MetaResult)
    → length line + length r.rest < k
    → r.peek_line ≡ []
    → Within k (skip r)
    → ((m : List MetaField) → Within k (next (record r { meta = m })))
    → Within k (read_header_line skip next line r)
unfolding read_header_line
read_header_line-Within k [] r skip next h e hs hn = hs
read_header_line-Within k (c ∷ cs) r skip next h e hs hn =
    ground (arith, read_meta_line-Within k (c ∷ cs) r next (omega arith) h e hn)

read_meta_lines-Within :
    (k fuel : ℕ) (r : Reader) → unread r < fuel → unread r < k → Within k (read_meta_lines fuel r)
unfolding read_meta_lines
read_meta_lines-Within k zero r h b = absurd (omega arith)
read_meta_lines-Within k (suc fuel) r h b =
    Within-handle k r (read_line r)
      (read_header_line (skip_blank_lines fuel) (read_meta_lines fuel)) with_error
      (read_line-TookLine r)
      (λ line r' p q n.
        read_header_line-Within k line r' (skip_blank_lines fuel) (read_meta_lines fuel)
          (omega arith) n
          (skip_blank_lines-Within k fuel r' (omega (arith, unread_rest r' n))
            (omega (arith, unread_rest r' n)))
          (λ m.
            read_meta_lines-Within k fuel (record r' { meta = m }) (omega (arith, unread_rest r' n))
              (omega (arith, unread_rest r' n))))
      (λ e r' p. omega arith)

peek_header-Within : (k : ℕ) (r : Reader) → unread r < k → Within k (peek_header r)
unfolding peek_header
peek_header-Within k r h =
    ground (arith, read_meta_lines-Within k (suc (unread r)) r (omega arith) h)

consume_bom-Within : (k : ℕ) (r : Reader) → unread r < k → Within k (consume_bom r)
unfolding consume_bom
consume_bom-Within k r h = ground arith

read_meta-Within : (k : ℕ) (r : Reader) → unread r < k → Within k (read_meta r)
unfolding read_meta
read_meta-Within k r h = go (consume_bom r) (consume_bom-Within k r h)
  where
    go :
        (m : Outcome Error (Unit {0}) × Reader)
        → Within k m
        → Within k (handle (λ _. m) (λ _. peek_header) no_meta r)
    go (ok x, r') w = peek_header-Within k r' w
    go (err e, r') w = w
    go (panic, r') w = w
    go (hang, r') w = w

pub meta-Within : (k : ℕ) (r : Reader) → unread r < k → Within k (meta r)
unfolding meta finish_meta
meta-Within k r h = ground (arith, read_meta-Within k (record r { meta_read = true }) h)
