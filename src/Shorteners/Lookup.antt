-- ===== src/Shorteners/Lookup.antt =====
-- shorteners/shorteners.go: the map `Lookup` and its `init`, which panics on a repeated name or
-- host. The map is an association list.
use urlhero.Common.{
  Bool, true, false, Option, none, some, List, [], ◌∷◌, ◌≡◌, inl, inr, refl, sym, arith, Bytes,
  str_eq, str_eq_iff, Bool-cases, Option-cases, subst, if◌then◌else◌, All,
}
use urlhero.Shorteners.{Shortener}

abbrev pub Table : Type 0
Table = List (Bytes × Shortener)

-- `Lookup[key]`
unfoldable pub lookup : Bytes → Table → Option Shortener
unfolding str_eq
lookup key [] = none
lookup key ((k, s) ∷ table) = if str_eq key k then some s else lookup key table

abbrev is_some : Option Shortener → Bool
is_some none = false
is_some (some s) = true

-- One round of the loop of `init`, `none` where it panics.
unfoldable pub register : Table → Shortener → Option Table
unfolding lookup
register table s =
    if is_some (lookup s.name table)
    then none
    else if is_some (lookup s.host table)
    then none
    else some ((s.host, s) ∷ (s.name, s) ∷ table)

unfoldable pub register_all : Table → List Shortener → Option Table
unfolding register
register_all table [] = some table
register_all table (s ∷ ss) = elim (register table s) [
  | none ↦ none
  | some table' ↦ register_all table' ss
]

-- A shortener is found by its name and by its host.
pub record IsFound (table : Table) (s : Shortener) : Type 0 where
  pub by_name : lookup s.name table ≡ some s
  pub by_host : lookup s.host table ≡ some s

none-some : {t : Table} → ¬ (none ≡ some t)
none-some e = ground arith

some_injective : {x y : Table} → some x ≡ some y → x ≡ y
some_injective e = ground arith

absent :
    (key : Bytes) (table : Table) → is_some (lookup key table) ≡ false → lookup key table ≡ none
absent key table e = elim (Option-cases (lookup key table)) [
  | inl n ↦ n
  | inr (s, h) ↦ absurd (ground arith)
]

-- What `register` looks at, as variables.
pick_cases :
    (a b : Bool) (x : Table) {y : Table}
    → (if a then none else if b then none else some x) ≡ some y
    → (a ≡ false) × (b ≡ false) × (x ≡ y)
pick_cases a b x e = grind arith

register_cases :
    (table : Table) (s : Shortener) {table' : Table}
    → register table s ≡ some table'
    → (lookup s.name table ≡ none)
      × (lookup s.host table ≡ none)
      × ((s.host, s) ∷ (s.name, s) ∷ table ≡ table')
unfolding register
register_cases table s e =
    let (n, h, same) =
      pick_cases (is_some (lookup s.name table)) (is_some (lookup s.host table)) _ e in
    (absent s.name table n, absent s.host table h, same)

-- A key that is in the map is none of the absent keys.
other_key :
    (table : Table) (key absent_key : Bytes) {t : Shortener}
    → lookup key table ≡ some t
    → lookup absent_key table ≡ none
    → str_eq key absent_key ≡ false
other_key table key absent_key h n = elim (Bool-cases (str_eq key absent_key)) [
  | inr e ↦ e
  | inl e ↦
      let n' = subst (λ k. lookup k table ≡ none) (sym ((str_eq_iff key absent_key).0 e)) n in
      absurd (ground arith)
]

-- A key that is in the map keeps its value.
register_keeps :
    (table : Table) (s : Shortener) {table' : Table} (key : Bytes) {t : Shortener}
    → register table s ≡ some table'
    → lookup key table ≡ some t
    → lookup key table' ≡ some t
unfolding lookup
register_keeps table s key {t} e h =
    let (n, o, same) = register_cases table s e in
    subst (λ m. lookup key m ≡ some t) same
      (rw (other_key table key s.host h o, other_key table key s.name h n) h)

register-IsFound :
    (table : Table) (s : Shortener) {table' : Table}
    → register table s ≡ some table'
    → IsFound table' s
unfolding lookup
register-IsFound table s e =
    let (_, _, same) = register_cases table s e in
    let host = (str_eq_iff s.host s.host).1 refl in
    let name = (str_eq_iff s.name s.name).1 refl in
    subst (λ m. IsFound m s) same
      (record { by_name = either (str_eq s.name s.host) (rw name refl); by_host = rw host refl })
  where
    either : (b : Bool) {o : Option Shortener} → o ≡ some s → (if b then some s else o) ≡ some s
    either true h = refl
    either false h = h

register_all_keeps :
    (table : Table) (ss : List Shortener) {table' : Table} (key : Bytes) {t : Shortener}
    → register_all table ss ≡ some table'
    → lookup key table ≡ some t
    → lookup key table' ≡ some t
unfolding register_all
register_all_keeps table [] key {t} e h = subst (λ m. lookup key m ≡ some t) (some_injective e) h
register_all_keeps table (s ∷ ss) key e h = elim (Option-cases (register table s)) [
  | inl n ↦ absurd (none-some (rw (register_all, n) at e))
  | inr (m, r) ↦
      register_all_keeps m ss key (rw (register_all, r) at e) (register_keeps table s key r h)
]

-- Where `init` does not panic, each shortener is found in the map by its name and by its host, and
-- what was in the map before is still found.
pub register_all-IsFound :
    (table : Table) (ss : List Shortener) {table' : Table}
    → register_all table ss ≡ some table'
    → All (IsFound table') ss
      × ((key : Bytes) (t : Shortener) → lookup key table ≡ some t → lookup key table' ≡ some t)
unfolding register_all
register_all-IsFound table [] e = (tt, λ key t h. register_all_keeps table [] key e h)
register_all-IsFound table (s ∷ ss) e = elim (Option-cases (register table s)) [
  | inl n ↦ absurd (none-some (rw (register_all, n) at e))
  | inr (m, r) ↦
      let e' = rw (register_all, r) at e in
      let found = register-IsFound table s r in
      (
        (
          record {
            by_name = register_all_keeps m ss s.name e' found.by_name;
            by_host = register_all_keeps m ss s.host e' found.by_host;
          },
          (register_all-IsFound m ss e').0,
        ),
        λ key t h. register_all_keeps table (s ∷ ss) key e h,
      )
]
