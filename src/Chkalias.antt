-- ===== src/Chkalias.antt =====
-- cmd/chkalias/chkalias.go: the hosts of a DNS dataset that resolve to an address of bit.ly. `open_file`
-- is `os.Open`, `gunzip` is `gzip.NewReader`, `new_decoder` is `json.NewDecoder` without unknown fields and
-- `parse_ip` is `net.ParseIP`, with no bytes for nil. What is printed is left out, and a time is its
-- seconds.
pub mod Sonar
pub mod Records
pub mod Hosts
pub mod Main
mod Tests
use urlhero.Common.{
  ℕ, zero, suc, Bool, true, false, Option, none, some, List, [], ◌∷◌, ◌++◌, ◌⊎◌, inl, inr, Outcome,
  ok, err, panic, hang, Bytes, codes, str_eq, if◌then◌else◌, has_suffix, ℤ, parse_int_value, length,
}
use urlhero.BitLy.{is_ip_alias}

-- The error that ends a decoder.
pub data DecodeEnd : Type 0 where
  eof : DecodeEnd
  syntax : DecodeEnd
  failure : ℕ → DecodeEnd

-- a record of the dataset
pub record SonarRecord : Type 0 where
  pub timestamp : Bytes
  pub name : Bytes
  pub value : Bytes
  pub kind : Bytes

-- A decoder is what its calls of `Decode` give, a record or an error in a JSON value that is well
-- formed, and then the error that ends it, which every later call gives again.
pub record Decoder : Type 0 where
  pub items : List (ℕ ⊎ SonarRecord)
  pub final : DecodeEnd

pub record DnsRecord : Type 0 where
  pub time : ℤ
  pub host : Bytes
  pub ip : Bytes

module _ (parse_ip : Bytes → Bytes) where
  -- The record, unless its type is not recognized.
  unfoldable pub dns_record : SonarRecord → Option DnsRecord
  unfolding str_eq parse_int_value
  dns_record r =
      let time = (parse_int_value r.timestamp).0 in
      if str_eq r.kind (codes "ns")
      then some (record { time = time; host = r.name; ip = parse_ip r.value })
      else if str_eq r.kind (codes "ptr")
      then some (record { time = time; host = r.value; ip = parse_ip r.name })
      else none

  abbrev pub keep_alias : Option DnsRecord → List DnsRecord → List DnsRecord
  keep_alias none aliases = aliases
  keep_alias (some r) aliases = if is_ip_alias (r.ip ∷ []) then aliases ++ r ∷ [] else aliases

  -- The loop of `lookupProjectSonar`. An error comes with the aliases found before it.
  unfoldable pub sonar_loop :
      ℕ → Decoder → List DnsRecord → Outcome (ℕ × List DnsRecord) (List DnsRecord)
  unfolding dns_record is_ip_alias
  sonar_loop zero d aliases = hang
  sonar_loop (suc fuel) d aliases = elim d.items [
    | [] ↦
        let again = sonar_loop fuel d aliases in
        elim d.final [ eof ↦ ok aliases | syntax ↦ again | failure e ↦ err (e, aliases) ]
    | item ∷ items ↦ elim item [
      | inl e ↦ err (e, aliases)
      | inr r ↦ sonar_loop fuel (record d { items = items }) (keep_alias (dns_record r) aliases)
    ]
  ]

  -- the reader of the file, unpacked where its name ends in ".gz"
  abbrev pub open_decoder :
      {F : Type 0} → (Bytes → ℕ ⊎ F) → (F → ℕ ⊎ F) → (F → Decoder) → Bytes → ℕ ⊎ Decoder
  open_decoder open_file gunzip new_decoder filename = elim (open_file filename) [
    | inl e ↦ inl e
    | inr f ↦ elim (if has_suffix filename (codes ".gz") then gunzip f else inr f) [
      | inl e ↦ inl e
      | inr r ↦ inr (new_decoder r)
    ]
  ]

  abbrev pub sonar_opened : ℕ → ℕ ⊎ Decoder → Outcome (ℕ × List DnsRecord) (List DnsRecord)
  sonar_opened fuel (inl e) = err (e, [])
  sonar_opened fuel (inr d) = sonar_loop fuel d []

  -- `lookupProjectSonar`
  unfoldable pub lookup_project_sonar :
      {F : Type 0}
      → ℕ
      → (Bytes → ℕ ⊎ F)
      → (F → ℕ ⊎ F)
      → (F → Decoder)
      → Bytes
      → Outcome (ℕ × List DnsRecord) (List DnsRecord)
  unfolding sonar_loop has_suffix
  lookup_project_sonar fuel open_file gunzip new_decoder filename =
      sonar_opened fuel (open_decoder open_file gunzip new_decoder filename)
