-- ===== src/Beacon/Text.antt =====
-- beacon/reader.go: laws of `dropLineBreak`, `trimLeftSpace`, `splitMeta` and `String`.
use urlhero.Common.{
  ℕ, ◌+◌, ◌-◌, ◌≤◌, true, false, ◌||◌, [], ◌∷◌, ◌++◌, ◌≡◌, refl, sym, ap, subst, ◌∙◌, ◌↔◌, inl, inr,
  arith, ok, Bytes, ◌==◌, Bool-cases, length, take, drop, All, length-append, length-take,
  take-length-append, drop-length-append-cons, get_elem?-last, get_elem?-before_last, take-last,
  All-append, append_assoc,
}
use native.Mathlib.Nat.{add-zero, zero-add}
use urlhero.Beacon.{
  MetaField, byte_is, drop_line_break, is_space, trim_left_space, is_upper, split_meta_at,
  split_meta, meta_field_string,
}

pub length-drop_line_break : (s : Bytes) → length (drop_line_break s) ≤ length s
unfolding drop_line_break
length-drop_line_break s =
    ground (arith, length-take (length s - 1) s, length-take (length s - 2) s)

pub drop_line_break-append :
    (s : Bytes) → byte_is b'\r' s (length s - 1) ≡ false → drop_line_break (s ++ b'\n' ∷ []) ≡ s
unfolding drop_line_break
drop_line_break-append [] h = refl
drop_line_break-append (c ∷ s) h = ground (
  arith,
  get_elem?-last (c ∷ s) b'\n',
  get_elem?-before_last (c ∷ s) b'\n' (omega arith),
  take-last (c ∷ s) b'\n',
  length-append (c ∷ s) (b'\n' ∷ []),
)

split_meta_at-upper :
    (meta name : Bytes) (i : ℕ) (rest : Bytes)
    → All (λ c. is_upper c ≡ true) name
    → split_meta_at meta i (name ++ rest) ≡ split_meta_at meta (i + length name) rest
unfolding split_meta_at
split_meta_at-upper meta [] i rest h = rw add-zero refl
split_meta_at-upper meta (c ∷ name) i rest h =
    ground (arith, split_meta_at-upper meta name (i + 1) rest h.1)

-- What `split_meta` makes of a line: a name of capitals, one separator, and the rest trimmed.
pub record SplitsAs (s : Bytes) (m : MetaField) : Type 0 where
  pub separator : ℕ
  pub after : Bytes
  pub line_is : s ≡ m.name ++ separator ∷ after
  pub name_upper : All (λ c. is_upper c ≡ true) m.name
  pub separates : (separator == b':' || is_space separator) ≡ true
  pub value_is : trim_left_space after ≡ m.value

take_field :
    (name s : Bytes) (c : ℕ) (cs : Bytes) → s ≡ name ++ c ∷ cs → take (length name) s ≡ name
take_field name s c cs e = rw e (take-length-append name (c ∷ cs))

drop_field :
    (name s : Bytes) (c : ℕ) (cs : Bytes) → s ≡ name ++ c ∷ cs → drop (length name + 1) s ≡ cs
drop_field name s c cs e = rw e (drop-length-append-cons name c cs)

SplitsAs-here :
    (name s : Bytes) (c : ℕ) (cs : Bytes) {m : MetaField}
    → s ≡ name ++ c ∷ cs
    → All (λ c. is_upper c ≡ true) name
    → (c == b':' || is_space c) ≡ true
    → name ≡ m.name
    → trim_left_space cs ≡ m.value
    → SplitsAs s m
SplitsAs-here name s c cs e h sep n v = record {
  separator = c;
  after = cs;
  line_is = e ∙ ap (λ x. x ++ c ∷ cs) n;
  name_upper = subst (All (λ c. is_upper c ≡ true)) n h;
  separates = sep;
  value_is = v;
}

split_meta_at-ok :
    (rest name s : Bytes) {m : MetaField}
    → s ≡ name ++ rest
    → All (λ c. is_upper c ≡ true) name
    → split_meta_at s (length name) rest ≡ ok m
    → SplitsAs s m
unfolding split_meta_at
split_meta_at-ok [] name s e h r = cc
split_meta_at-ok (c ∷ cs) name s {m} e h r = elim (Bool-cases (is_upper c)) [
  | inl up ↦
      split_meta_at-ok cs (name ++ c ∷ []) s (e ∙ sym (append_assoc name (c ∷ []) cs))
        (All-append _ name (c ∷ []) h (up, tt)) (ground (arith, length-append name (c ∷ [])))
  | inr low ↦ elim (Bool-cases (c == b':' || is_space c)) [
    | inl sep ↦
        SplitsAs-here name s c cs e h sep (ground (arith, take_field name s c cs e))
          (ground (arith, drop_field name s c cs e))
    | inr other ↦ absurd (ground arith)
  ]
]

split_meta-SplitsAs : (s : Bytes) {m : MetaField} → split_meta s ≡ ok m → SplitsAs s m
unfolding split_meta
split_meta-SplitsAs s r = split_meta_at-ok s [] s refl tt r

SplitsAs-split_meta_at : (s : Bytes) {m : MetaField} → SplitsAs s m → split_meta_at s 0 s ≡ ok m
SplitsAs-split_meta_at s {m} h =
    let at_separator : split_meta_at s (length m.name) (h.separator ∷ h.after) ≡ ok m =
      unfold split_meta_at in
      ground (
        arith,
        take_field m.name s h.separator h.after h.line_is,
        drop_field m.name s h.separator h.after h.line_is,
      ) in
    ap (split_meta_at s 0) h.line_is
    ∙ split_meta_at-upper s m.name 0 (h.separator ∷ h.after) h.name_upper
    ∙ rw zero-add at_separator

-- `split_meta` accepts exactly the lines of a name of capitals, which may be empty, then a colon,
-- space or tab, then anything; it returns the name and what follows that one separator, without
-- the spaces and tabs in front.
pub split_meta_iff : (s : Bytes) (m : MetaField) → (split_meta s ≡ ok m) ↔ SplitsAs s m
split_meta_iff s m = (split_meta-SplitsAs s, λ h. unfold split_meta in SplitsAs-split_meta_at s h)

-- The line that `MetaField.String` prints for a field of capitals whose value has no space or tab
-- in front is read back as that field.
split_meta-meta_field_string :
    (m : MetaField)
    → All (λ c. is_upper c ≡ true) m.name
    → trim_left_space m.value ≡ m.value
    → split_meta (drop 1 (meta_field_string m)) ≡ ok m
unfolding meta_field_string
split_meta-meta_field_string m h v =
    (split_meta_iff _ m).1
      (SplitsAs-here m.name _ b':' (b' ' ∷ m.value) refl h refl refl (unfold trim_left_space in v))
