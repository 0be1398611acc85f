-- ===== src/Files.antt =====
-- The files that the program downloads: paths with their contents, what was written last first.
use urlhero.Common.{
  Bool, true, false, Option, none, some, List, [], ◌∷◌, ◌≡◌, refl, arith, Bytes, str_eq, str_eq_iff,
  Bool-cases, inl, inr, sym, ap, ◌∙◌, if◌then◌else◌,
}

abbrev pub Store : Type 0
Store = List (Bytes × Bytes)

unfoldable pub read_file : Bytes → Store → Option Bytes
unfolding str_eq
read_file path [] = none
read_file path ((p, text) ∷ store) = if str_eq path p then some text else read_file path store

-- Writes the whole content of a file.
abbrev pub write_file : Bytes → Bytes → Store → Store
write_file path text store = (path, text) ∷ store

abbrev pub present : Option Bytes → Bool
present none = false
present (some text) = true

-- whether `os.Stat` finds the file
abbrev pub has_file : Bytes → Store → Bool
has_file path store = present (read_file path store)

pub read_file-write_file :
    (path : Bytes) (text : Bytes) (store : Store)
    → read_file path (write_file path text store) ≡ some text
unfolding read_file
read_file-write_file path text store = rw ((str_eq_iff path path).1 refl) refl

unequal : {b : Bool} → b ≡ false → ¬ (b ≡ true)
unequal e h = ground arith

-- A file that is there has another path than one that is not.
pub str_eq-has_file :
    (path out : Bytes) (store : Store) {text : Bytes}
    → has_file out store ≡ false
    → read_file path store ≡ some text
    → str_eq path out ≡ false
str_eq-has_file path out store e h = elim (Bool-cases (str_eq path out)) [
  | inl p ↦
      let same = (str_eq_iff path out).0 p in
      absurd (unequal e (ap present (ap (λ p. read_file p store) (sym same) ∙ h)))
  | inr p ↦ p
]

-- A write to another path changes nothing.
pub read_file-write_other :
    (path out text : Bytes) (store : Store)
    → str_eq path out ≡ false
    → read_file path (write_file out text store) ≡ read_file path store
unfolding read_file
read_file-write_other path out text store e = rw e refl
