-- ===== src/Lib.antt =====
-- urlhero, a link resolver for URL shorteners: its readers, decoders and cleaners.
--
-- The program is a set of packages: link dumps are read in the BEACON format, files of the Internet
-- Archive are listed, decoded and validated, and shortcodes are cleaned out of URLs.
--
--   Common: shared names, tests on numbers, lists, byte strings, outcomes of calls.
--   Beacon: beacon/reader.go. `Beacon` has the data, the errors and the functions on one line of
--     text; `Beacon.Reader` the state of `Reader` and how it reads lines, `Beacon.Header` the meta
--     header, `Beacon.Links` the links. The other modules below it hold proofs.
--   Regex: what the shorteners use of the package regexp. `Spec` has what an expression matches, and
--     the other modules below it what the search finds and what is left without the matches.
--   Web: what all packages read of an answer over HTTP, and `checkResponse` with its kin `httpGet`.
--   Files: the files on disk, as paths with contents.
--   Ia: ia/timemap.go in `Ia.Digest` (`DecodeDigest`) and `Ia.Timemap` (`GetTimemap`), ia/validate.go
--     in `Ia.Validate` (the reader that checks sums) and `Ia.Validate.Item` (an item), ia/item.go and
--     ia/save.go in `Ia.Item`.
--   Shorteners: shorteners/shorteners.go. `Shorteners` has the data and the cleaning of one URL,
--     `Shorteners.Clean` the loop of `CleanURLs` and `Shorteners.Lookup` the map `Lookup`;
--     `Shorteners.Sites` the sites of shorteners/*.go that read nothing but the path,
--     `Shorteners.BfyTw` shorteners/bfy-tw.go, `Shorteners.QrCx` shorteners/qr-cx.go and
--     `Shorteners.ShortIm` shorteners/short-im.go, where `Shorteners.Target` has what the last two
--     share. `Shorteners.All` is the list `Shorteners`. `Order`, `Sorted`, `Insertion`, `Collect`,
--     `Breaks`, `RbGy` and `Patterns` below it hold proofs.
--   Tinytown: tinytown/walk.go. `Tinytown` has `classifyFiles` and `processLinkDump`, which reads with
--     the reader of `Beacon`, and `Tinytown.Releases` the walk above them. `Visits`, `Classify` and
--     `Ends` below it hold proofs. `Tinytown.Search` is tinytown/search.go, which runs the same walk,
--     `Tinytown.Download` tinytown/download.go, `Tinytown.Transmission` tinytown/transmission.go and
--     `Tinytown.Tracker` tinytown/tracker.go.
--   Tinyback: tinyback/tinyback.go, with the readers of `Beacon` and `Ia`.
--   BitLy: shorteners/bit-ly/alias.go (`Aliases`, `IsAlias`, `IsIPAlias`).
--   Wwiki: shorteners/w-wiki. `Wwiki.Html` and `Wwiki.Dumps` are dumps.go; `Wwiki.Download` is
--     `downloadDump` of download.go, which calls the validator of `Ia`, and `Wwiki.Archive` the rest of
--     that file, which calls `Ia.Timemap` and `Ia.Digest`.
--   QrCx: shorteners/qr-cx/dump.go.
--   Chkalias: cmd/chkalias/chkalias.go (`lookupProjectSonar`, `lookup` in `Chkalias.Hosts`, and `main`
--     in `Chkalias.Main`), which calls `BitLy`.
--   Commands: the other programs of cmd. `Commands.Mains` has getiashortcodes, urlgrep and shortlookup,
--     which call `Shorteners` and `Tinytown`, and `Commands.Downloads` dlwwiki and dltorrents, which
--     call `Wwiki` and `Tinytown`. The other modules below it hold proofs.
--
-- A Go string is the list of its bytes. A call comes to an `Outcome`: a value, an error, a run-time
-- panic, or `hang` where a model runs out of fuel. A method on a pointer is a function on the state.
-- The input behind an `io.Reader` is a list of bytes with the error that follows it, and that error
-- is returned again by every later read.
--
-- Parameters stand for the HTTP client, the reading of directories and archives, the errors of the
-- file system, xz, JSON, XML, HTML and time formats, the hashes, `net.LookupIP`, `net.ParseIP`, the
-- clients of BitTorrent and Transmission, `url.Parse`, `sort.Slice` (with the laws `SortsSlices`, which
-- insertion sort satisfies) and `strings.ToLower` beyond ASCII.
--
-- Fuel: the loops of `Beacon` take the number of unread bytes and one, and each round takes a byte
-- at least. `processLinkDump` takes the same fuel, and each round reads a link. `ValidateFile`
-- takes the number of reads that return no error and one. `cleanShortIm` and `cleanQrcx` take
-- more than the size of their URL, in a measure in which the URL in a query is smaller. A search of
-- `Regex` takes the length of the text, and the replacement of its matches one more, since each round
-- skips a byte at least. The loop of `lookupProjectSonar` takes any fuel, since it does not always end.
--
-- Not modelled: what is printed on the way, but for the results of getiashortcodes and urlgrep, error
-- texts, but for that of a `multiError`, and the fields of `Meta` and `ItemMeta`, which are decoded and
-- handed on.
pub mod Common
pub mod Beacon
pub mod Regex
pub mod Web
pub mod Files
pub mod Ia
pub mod BitLy
pub mod Shorteners
pub mod Tinytown
pub mod Wwiki
pub mod Chkalias
pub mod Commands
pub mod Tinyback
pub mod QrCx
