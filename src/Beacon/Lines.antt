-- ===== src/Beacon/Lines.antt =====
-- beacon/reader.go: what `readLineRaw` and `readLine` take from the input.
use urlhero.Common.{
  ℕ, ◌+◌, ◌≤◌, ◌<◌, true, not, ◌&&◌, ◌||◌, [], ◌∷◌, ◌++◌, ◌≡◌, refl, arith, Outcome, ok, err, panic,
  hang, Bytes, str_eq, length,
}
use urlhero.Beacon.{Error, is_eof, drop_line_break}
use urlhero.Beacon.Text.{length-drop_line_break}
use urlhero.Beacon.Reader.{
  Reader, handle, pure, fail, unread, take_line, drop_line, has_newline, read_line_raw, read_line,
}

pub take_line-append-drop_line : (s : Bytes) → take_line s ++ drop_line s ≡ s
unfolding take_line drop_line
take_line-append-drop_line [] = refl
take_line-append-drop_line (c ∷ s) = ground (arith, take_line-append-drop_line s)

pub length-take_line : (s : Bytes) → length (take_line s) + length (drop_line s) ≡ length s
unfolding take_line drop_line
length-take_line [] = omega arith
length-take_line (c ∷ s) = ground (arith, length-take_line s)

pub length-drop_line : (c : ℕ) (s : Bytes) → length (drop_line (c ∷ s)) < length (c ∷ s)
unfolding drop_line
length-drop_line c [] = ground arith
length-drop_line c (d ∷ s) = ground (arith, length-drop_line d s)

-- A line was read and lay within what was unread; nothing is put back.
abbrev pub TookLine : Reader → Outcome Error Bytes × Reader → Type 0
TookLine r (ok line, r') =
    (length line + length r'.rest ≤ unread r) × (length r'.rest < unread r) × (r'.peek_line ≡ [])
TookLine r (err e, r') = unread r' ≤ unread r
TookLine r (panic, r') = ⊥
TookLine r (hang, r') = ⊥

complete-lt :
    (s : Bytes) (final : Error)
    → (has_newline s || (is_eof final && not (str_eq s []))) ≡ true
    → length (drop_line s) < length s
unfolding has_newline str_eq
complete-lt [] final h = ground arith
complete-lt (c ∷ s) final h = length-drop_line c s

pub read_line_raw-TookLine : (r : Reader) → TookLine r (read_line_raw r)
unfolding read_line_raw
read_line_raw-TookLine r = ground (arith, length-take_line r.rest, complete-lt r.rest r.final)

pub read_line-TookLine : (r : Reader) → TookLine r (read_line r)
unfolding read_line
read_line-TookLine r = go (read_line_raw r) (read_line_raw-TookLine r)
  where
    go :
        (m : Outcome Error Bytes × Reader)
        → TookLine r m
        → TookLine r (handle (λ _. m) (λ line. pure (drop_line_break line)) fail r)
    go (ok line, r') h = (omega (arith, length-drop_line_break line), h.1, h.2)
    go (err e, r') h = h
    go (panic, r') h = h
    go (hang, r') h = h
