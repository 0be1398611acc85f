-- ===== src/Beacon/Gather.antt =====
-- beacon/reader.go: the lines of an entry after the first are gathered into its target.
use urlhero.Common.{
  ℕ, zero, suc, ◌+◌, ◌<◌, false, List, [], ◌∷◌, ◌++◌, ◌≡◌, refl, ap, ◌∙◌, inl, inr, arith, Outcome,
  ok, Bytes, length, append_assoc, append-nil, length-append, All,
}
use urlhero.Beacon.{Error}
use urlhero.Beacon.Reader.{Reader}
use urlhero.Beacon.Links.{append_lines, starts_link}
use urlhero.Beacon.Dump.{Entry, lines_text, head_line, dump_text, NoNewline, IsEntry}
use urlhero.Beacon.Heads.{
  Ahead, Ready, Ready-moved, read_line_raw-append, read_line_raw-end, read_head,
  starts_link-head_line,
}

-- What follows the lines of an entry is found where it can be read.
pub record Gathered (n : ℕ) (m : Outcome Error Bytes × Reader) (target : Bytes) (es : List Entry)
    : Type 0 where
  pub next : Reader
  pub gathers : m ≡ (ok target, next)
  pub ready : Ready n next
  pub ahead : Ahead next es

append_lines-end :
    {n : ℕ} (fuel : ℕ) (target : Bytes) (r : Reader) (es : List Entry)
    → Ready n r
    → r.peek_line ≡ []
    → r.rest ≡ dump_text es
    → All (IsEntry n) es
    → 0 < fuel
    → Gathered n (append_lines fuel n target r) target es
unfolding append_lines
append_lines-end zero target r es ready p s hs f = absurd (omega arith)
append_lines-end (suc fuel) target r [] ready p s hs f = record {
  next = record r { rest = []; line = r.line + 1 };
  gathers = ground (arith, read_line_raw-end r p s ready.at_end);
  ready = Ready-moved ready _ _ _;
  ahead = (p, refl);
}
append_lines-end {n} (suc fuel) target r (e ∷ es) ready p s hs f =
    let head = read_head r e es ready hs.0 (inl (p, s)) in
    record {
      next = record head.next { peek_line = head_line e };
      gathers = ground (arith, head.reads, starts_link-head_line e hs.0);
      ready = Ready-moved head.ready _ _ _;
      ahead = inr (refl, head.rest_is);
    }

pub append_lines-more :
    {n : ℕ} (ls : List Bytes) (fuel : ℕ) (target : Bytes) (r : Reader) (es : List Entry)
    → Ready n r
    → r.peek_line ≡ []
    → r.rest ≡ lines_text ls ++ dump_text es
    → All (λ l. NoNewline l × (starts_link n (l ++ b'\n' ∷ []) ≡ false)) ls
    → All (IsEntry n) es
    → length r.rest < fuel
    → Gathered n (append_lines fuel n target r) (target ++ lines_text ls) es
unfolding append_lines
append_lines-more [] fuel target r es ready p s hl hs f =
    rw append-nil (append_lines-end fuel target r es ready p s hs (omega arith))
append_lines-more (l ∷ ls) zero target r es ready p s hl hs f = absurd (omega arith)
append_lines-more {n} (l ∷ ls) (suc fuel) target r es ready p s hl hs f =
    let taken = record r {
      peek_line = [];
      rest = lines_text ls ++ dump_text es;
      line = r.line + 1;
    } in
    let split : r.rest ≡ l ++ (b'\n' ∷ (lines_text ls ++ dump_text es)) =
      s ∙ append_assoc l (b'\n' ∷ lines_text ls) (dump_text es) in
    let shorter : length (lines_text ls ++ dump_text es) < fuel =
      omega (arith, ap length split, length-append l (b'\n' ∷ (lines_text ls ++ dump_text es))) in
    let rest =
      append_lines-more ls fuel (target ++ (l ++ b'\n' ∷ [])) taken es (Ready-moved ready _ _ _)
        refl refl hl.1 hs shorter in
    record {
      next = rest.next;
      gathers = ground (
        arith,
        read_line_raw-append l (lines_text ls ++ dump_text es) r hl.0.0 p split,
        hl.0.1,
        rest.gathers,
        append_assoc target (l ++ b'\n' ∷ []) (lines_text ls),
        append_assoc l (b'\n' ∷ []) (lines_text ls),
      );
      ready = rest.ready;
      ahead = rest.ahead;
    }
