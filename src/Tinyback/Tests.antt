-- ===== src/Tinyback/Tests.antt =====
-- Runs on a small release.
use urlhero.Common.{
  ℕ, List, [], ◌∷◌, ◌++◌, ◌≡◌, ◌⊎◌, inl, inr, refl, ok, err, Bytes, codes, str_eq, if◌then◌else◌,
  IoError, eof, other, Source,
}
use urlhero.Beacon as Beacon
use urlhero.Ia.Validate.{ReadValidator}
use urlhero.Ia.Validate.Item.{FileMeta}
use urlhero.Tinytown.Visits.{Ends}
use urlhero.Tinyback.{io, process_file, process_release}
use urlhero.Tinyback.Ends.{process_release-Ends}

abbrev join : Bytes → Bytes → Bytes
join dir name = dir ++ (b'/' ∷ name)

abbrev sum : Bytes → Bytes
sum text = []

abbrev dump : FileMeta
dump = record { name = codes "a.txt.xz"; md5 = []; sha1 = []; crc32 = [] }

abbrev listing : Source → IoError ⊎ List FileMeta
listing f = inr (dump ∷ [])

abbrev source : Source
source = record { chunks = []; last = []; final = eof }

-- A directory that holds the list and one dump.
abbrev release : Bytes → IoError ⊎ Source
release path =
    if str_eq path (codes "r/r_files.xml")
    then inr source
    else if str_eq path (codes "r/a.txt.xz")
    then inr source
    else inl (other 20)

abbrev unpacked : ReadValidator → ℕ ⊎ (Bytes × Beacon.Error)
unpacked rv = inr (codes "ab|x\ncd|y\n", Beacon.eof)

dump_counted : process_file sum sum sum join release listing unpacked dump (codes "r") ≡ ok 2
unfolding process_file str_eq
dump_counted = refl

-- The list of the release is there, but it is looked for below its own path.
release_not_found :
    process_release sum sum sum join release listing unpacked (codes "r") ≡ err (io (other 20))
unfolding process_release str_eq
release_not_found = refl

process_release-Ends_example :
    Ends (process_release sum sum sum join release listing unpacked (codes "r"))
process_release-Ends_example =
    process_release-Ends sum sum sum join release listing unpacked (codes "r")
