-- ===== src/Chkalias/Tests.antt =====
-- Runs on small datasets, and the theorems on them at concrete inputs.
use urlhero.Common.{
  ℕ, List, [], ◌∷◌, ◌≡◌, ◌↔◌, ◌⊎◌, inr, refl, arith, ok, Returns, Bytes, codes, map, has_suffix,
  pos,
}
use urlhero.BitLy.Range.{Octets}
use urlhero.Chkalias.{
  eof, syntax, SonarRecord, Decoder, DnsRecord, open_decoder, lookup_project_sonar,
}
use urlhero.Chkalias.Sonar.{HasError, lookup_project_sonar-Returns_iff}
use urlhero.Chkalias.Records.{AliasesOf, lookup_project_sonar_iff}

-- Stands for the parser of addresses: one address.
abbrev parse_ip : Bytes → Bytes
parse_ip s = 67 ∷ 199 ∷ 248 ∷ 11 ∷ []

abbrev records : List SonarRecord
records =
    record {
      timestamp = codes "1617000000";
      name = codes "bit.ly";
      value = codes "67.199.248.11";
      kind = codes "ns";
    }
    ∷ record { timestamp = codes "x"; name = codes "a"; value = codes "b"; kind = codes "mx" }
    ∷ []

abbrev opened : Bytes → ℕ ⊎ Decoder
opened filename = inr (record { items = map inr records; final = eof })

abbrev opened_decoder : Decoder
opened_decoder = record { items = map inr records; final = eof }

abbrev broken : Bytes → ℕ ⊎ Decoder
broken filename = inr (record { items = map inr records; final = syntax })

abbrev same : Decoder → Decoder
same d = d

opens : open_decoder parse_ip opened inr same (codes "dns.json") ≡ opened []
unfolding has_suffix
opens = refl

breaks : open_decoder parse_ip broken inr same (codes "dns.json") ≡ broken []
unfolding has_suffix
breaks = refl

abbrev broken_decoder : Decoder
broken_decoder = record { items = map inr records; final = syntax }

abbrev aliases : List DnsRecord
aliases = record { time = pos 1617000000; host = codes "bit.ly"; ip = parse_ip [] } ∷ []

parse_ip-Octets : (s : Bytes) → Octets (parse_ip s)
parse_ip-Octets s = (omega arith, (omega arith, (omega arith, (omega arith, tt))))

one_found : lookup_project_sonar parse_ip 3 opened inr same (codes "dns.json") ≡ ok aliases
unfolding lookup_project_sonar has_suffix
one_found = refl

lookup_project_sonar_iff_example :
    (lookup_project_sonar parse_ip 3 opened inr same (codes "dns.json") ≡ ok aliases) ↔ (
      (rs : List SonarRecord) × (opened_decoder.final ≡ eof)
      × (opened_decoder.items ≡ map inr rs)
      × AliasesOf parse_ip rs aliases)
lookup_project_sonar_iff_example =
    lookup_project_sonar_iff parse_ip parse_ip-Octets opened inr same (codes "dns.json")
      opened_decoder 3 aliases opens (omega arith)

lookup_project_sonar-Returns_iff_example :
    ((fuel : ℕ) × Returns (lookup_project_sonar parse_ip fuel broken inr same (codes "dns.json")))
    ↔ ((¬ (broken_decoder.final ≡ syntax)) ⊎ HasError broken_decoder.items)
lookup_project_sonar-Returns_iff_example =
    lookup_project_sonar-Returns_iff parse_ip broken inr same (codes "dns.json") broken_decoder
      breaks
