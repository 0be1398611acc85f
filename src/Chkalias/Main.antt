-- ===== src/Chkalias/Main.antt =====
-- cmd/chkalias/chkalias.go: the arguments after the program's name, what is printed, and how the program
-- ends. Parameters are as in `Chkalias` and `Chkalias.Hosts`.
use urlhero.Common.{
  ℕ, Bool, ◌||◌, List, [], ◌∷◌, ◌⊎◌, Outcome, ok, err, panic, hang, Bytes, codes, str_eq,
  if◌then◌else◌,
}
use urlhero.Commands.Exits.{Ending, exit, crash, endless, usage}
use urlhero.Chkalias.{Decoder, DnsRecord, lookup_project_sonar}
use urlhero.Chkalias.Hosts.{Report, lookup}

pub data Printed (E : Type 0) : Type 0 where
  nothing : Printed E
  report : Report E → Printed E
  records : List DnsRecord → Printed E

abbrev pub print_records :
    {E : Type 0} → Outcome (ℕ × List DnsRecord) (List DnsRecord) → Ending × Printed E
print_records (ok aliases) = (exit 0, records aliases)
print_records (err (e, aliases)) = (exit 1, records aliases)
print_records panic = (crash, nothing)
print_records hang = (endless, nothing)

module _ {E F : Type 0} (lookup_ip : Bytes → E ⊎ List Bytes)
    (sort_slice : (Bytes → Bytes → Bool) → List Bytes → List Bytes) (parse_ip : Bytes → Bytes)
    (open_file : Bytes → ℕ ⊎ F) (gunzip : F → ℕ ⊎ F) (new_decoder : F → Decoder) where
  -- `lookup` takes one file.
  abbrev pub lookup_file : ℕ → Bytes → List Bytes → Ending × Printed E
  lookup_file fuel filename [] =
      print_records (lookup_project_sonar parse_ip fuel open_file gunzip new_decoder filename)
  lookup_file fuel filename (more ∷ args) = (usage, nothing)

  -- `chkalias`
  unfoldable pub chkalias : ℕ → List Bytes → Ending × Printed E
  unfolding str_eq lookup lookup_project_sonar
  chkalias fuel [] = (usage, nothing)
  chkalias fuel (command ∷ []) = (usage, nothing)
  chkalias fuel (command ∷ arg ∷ args) =
      if str_eq command (codes "host") || str_eq command (codes "hosts")
      then (exit 0, report (lookup lookup_ip sort_slice (arg ∷ args)))
      else if str_eq command (codes "lookup")
      then lookup_file fuel arg args
      else (usage, nothing)
