-- ===== src/Beacon/Progress/Links.antt =====
-- beacon/reader.go: every call of `Read` returns or panics, and takes input with each link.
use urlhero.Common.{
  ℕ, zero, suc, ◌+◌, ◌≤◌, ◌<◌, List, [], ◌∷◌, ◌++◌, arith, Outcome, ok, err, panic, hang, Returns,
  Bytes, pos_part, take, drop,
}
use urlhero.Beacon.{Error, MetaField, Link, Format, rfc, urlteam, split_n}
use urlhero.Beacon.Reader.{Reader, M, handle, pure, fail, unread, read_line_raw, read_line}
use urlhero.Beacon.Header.{meta}
use urlhero.Beacon.Links.{
  split_shortcode, append_line, append_end, append_lines, rfc_link, link_of_target, link_from,
  wrapped, next_link, link_of_tokens, link_of_line, read_link_rfc, read_link_fixed,
  read_link_urlteam, read_link, read,
}
use urlhero.Beacon.Lines.{TookLine, read_line_raw-TookLine, read_line-TookLine}
use urlhero.Beacon.Progress.{Within, Within-handle, unread_rest, meta-Within}

pub append_lines-Within :
    (k fuel n : ℕ) (target : Bytes) (r : Reader)
    → unread r < fuel
    → unread r < k
    → Within k (append_lines fuel n target r)
unfolding append_lines
append_lines-Within k zero n target r h b = absurd (omega arith)
append_lines-Within k (suc fuel) n target r h b =
    Within-handle k r (read_line_raw r) (append_line (append_lines fuel n) n target)
      (append_end target) (read_line_raw-TookLine r)
      (λ line r' p q e.
        ground (arith, unread_rest r' e, append_lines-Within k fuel n (target ++ line) r'))
      (λ e r' p. ground arith)

-- Less than `k` is left to read after a link; the call did not hang.
abbrev pub Spent : {A : Type 0} → ℕ → Outcome Error A × Reader → Type 0
Spent k (ok _, r) = unread r < k
Spent k (err _, r) = Unit
Spent k (panic, r) = Unit
Spent k (hang, r) = ⊥

link_of_tokens-Returns : (line : Bytes) (tokens : List Bytes) → Returns (link_of_tokens line tokens)
unfolding link_of_tokens
link_of_tokens-Returns line [] = tt
link_of_tokens-Returns line (s ∷ []) = tt
link_of_tokens-Returns line (s ∷ t ∷ []) = tt
link_of_tokens-Returns line (s ∷ a ∷ t ∷ []) = tt
link_of_tokens-Returns line (_ ∷ _ ∷ _ ∷ _ ∷ []) = tt
link_of_tokens-Returns line (_ ∷ _ ∷ _ ∷ _ ∷ _ ∷ _) = tt

Returns-Spent :
    {A : Type 0} (k : ℕ) (o : Outcome Error A) (r : Reader)
    → Returns o
    → unread r < k
    → Spent k (o, r)
Returns-Spent k (ok a) r t h = h
Returns-Spent k (err e) r t h = tt
Returns-Spent k panic r t h = tt
Returns-Spent k hang r t h = absurd t

Spent-handle :
    (k : ℕ) (r : Reader) (m : Outcome Error Bytes × Reader) (f : Bytes → M Link)
    → TookLine r m
    → ((line : Bytes) (r' : Reader) → unread r' < unread r → Spent k (f line r'))
    → Spent k (handle (λ _. m) f fail r)
Spent-handle k r (ok line, r') f t hf = hf line r' (omega (arith, unread_rest r' t.2))
Spent-handle k r (err e, r') f t hf = tt
Spent-handle k r (panic, r') f t hf = tt
Spent-handle k r (hang, r') f t hf = absurd t

read_link_rfc-Spent : (k : ℕ) (r : Reader) → unread r ≤ k → Spent k (read_link_rfc r)
unfolding read_link_rfc rfc_link
read_link_rfc-Spent k r h =
    Spent-handle k r (read_line r) rfc_link (read_line-TookLine r) (λ line r' q.
      Returns-Spent k _ r' (link_of_tokens-Returns line (split_n b'|' 4 line)) (omega arith))

append_lines-Spent :
    (k : ℕ) (shortcode : Bytes) (m : Outcome Error Bytes × Reader) (r : Reader)
    → Within k m
    → Spent k (handle (λ _. m) (link_of_target shortcode) fail r)
unfolding link_of_target
append_lines-Spent k shortcode (ok target, r') r w = w
append_lines-Spent k shortcode (err e, r') r w = tt
append_lines-Spent k shortcode (panic, r') r w = tt
append_lines-Spent k shortcode (hang, r') r w = w

read_link_fixed-Spent :
    (k n : ℕ) (line : Bytes) (r : Reader) → unread r < k → Spent k (read_link_fixed n line r)
unfolding read_link_fixed split_shortcode
read_link_fixed-Spent k n line r h = ground (
  arith,
  append_lines-Spent k (take n line) (append_lines (suc (unread r)) n (drop (n + 1) line) r) r
      (append_lines-Within k (suc (unread r)) n (drop (n + 1) line) r (omega arith) h),
)

pub link_of_line-Returns : (line : Bytes) → Returns (link_of_line line)
unfolding link_of_line
link_of_line-Returns line = ground arith

link_from-Spent : (k : ℕ) (line : Bytes) (r : Reader) → unread r < k → Spent k (link_from line r)
unfolding link_from
link_from-Spent k line r h = go (pos_part r.source_len)
  where
    go :
        (n : ℕ)
        → Spent {A = Link} k
            (elim n [ zero ↦ (link_of_line line, r) | suc n ↦ read_link_fixed (suc n) line r ])
    go zero = Returns-Spent k (link_of_line line) r (link_of_line-Returns line) h
    go (suc n) = read_link_fixed-Spent k (suc n) line r h

read_link_urlteam-Spent : (k : ℕ) (r : Reader) → unread r ≤ k → Spent k (read_link_urlteam r)
unfolding read_link_urlteam
read_link_urlteam-Spent k r h =
    Spent-handle k r (read_line_raw r) link_from (read_line_raw-TookLine r)
      (λ line r' q. link_from-Spent k line r' (omega arith))

read_link-Spent : (k : ℕ) (f : Format) (r : Reader) → unread r ≤ k → Spent k (read_link f r)
unfolding read_link
read_link-Spent k rfc r h = read_link_rfc-Spent k r h
read_link-Spent k urlteam r h = read_link_urlteam-Spent k r h

wrapped-Spent :
    (k : ℕ) (m : Outcome Error Link × Reader) (r : Reader)
    → Spent k m
    → Spent k (handle (λ _. m) pure wrapped r)
wrapped-Spent k (ok l, r') r h = h
wrapped-Spent k (err e, r') r h = tt
wrapped-Spent k (panic, r') r h = tt
wrapped-Spent k (hang, r') r h = h

-- A call of `read` returns or panics, and a link that it returns leaves less to read: a loop that
-- reads links until the first error ends.
pub read-Spent : (r : Reader) → Spent (unread r) (read r)
unfolding read
read-Spent r = go (meta r) (meta-Within (suc (unread r)) r (omega arith))
  where
    go :
        (m : Outcome Error (List MetaField) × Reader)
        → Within (suc (unread r)) m
        → Spent (unread r) (handle (λ _. m) next_link fail r)
    go (ok x, r') w =
        wrapped-Spent (unread r) (read_link r'.format r') r'
          (read_link-Spent (unread r) r'.format r' (omega arith))
    go (err e, r') w = tt
    go (panic, r') w = tt
    go (hang, r') w = w
