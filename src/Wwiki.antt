-- ===== src/Wwiki.antt =====
-- shorteners/w-wiki: the dumps of the short URLs of w.wiki, as the site and the archive list them,
-- and their download. `E` are the errors of the packages that the code calls.
pub mod Html
pub mod Dumps
pub mod Download
pub mod Archive
mod Tests
use urlhero.Common.{Outcome, ok, err, panic, hang, Bytes, ◌⊎◌, inl, inr}
use urlhero.Files.{Store}
use urlhero.Web.{WebError, external}
use urlhero.Ia.Validate.{ValidateError}
use urlhero.Ia.Digest as Digest

pub data DumpError (E : Type 0) : Type 0 where
  web : WebError E → DumpError E
  no_pre : DumpError E
  no_time : Bytes → DumpError E
  cannot_split : Bytes → DumpError E
  bad_size : Bytes → DumpError E
  invalid : ValidateError → DumpError E
  digest : Digest.Error → DumpError E

module _ {E A : Type 0} where
  abbrev pub as_web : Outcome (WebError E) A → Outcome (DumpError E) A
  as_web (ok a) = ok a
  as_web (err e) = err (web e)
  as_web panic = panic
  as_web hang = hang

  abbrev pub as_validate : Outcome ValidateError A → Outcome (DumpError E) A
  as_validate (ok a) = ok a
  as_validate (err e) = err (invalid e)
  as_validate panic = panic
  as_validate hang = hang

  abbrev pub as_digest : Outcome Digest.Error A → Outcome (DumpError E) A
  as_digest (ok a) = ok a
  as_digest (err e) = err (digest e)
  as_digest panic = panic
  as_digest hang = hang

  abbrev pub or_fail : E ⊎ A → Outcome (DumpError E) A
  or_fail (inl e) = err (web (external e))
  or_fail (inr a) = ok a

module _ {E : Type 0} where
  -- goes on where no error was returned
  abbrev pub next :
      (Store → Outcome (DumpError E) Unit × Store)
      → Outcome (DumpError E) Unit × Store
      → Outcome (DumpError E) Unit × Store
  next again (ok _, store) = again store
  next again (err e, store) = (err e, store)
  next again (panic, store) = (panic, store)
  next again (hang, store) = (hang, store)

  -- goes on with the dumps where there was no error
  abbrev pub with_dumps :
      {A : Type 0}
      → Outcome (DumpError E) A
      → Store
      → (A → Store → Outcome (DumpError E) Unit × Store)
      → Outcome (DumpError E) Unit × Store
  with_dumps (ok dumps) store go = go dumps store
  with_dumps (err e) store go = (err e, store)
  with_dumps panic store go = (panic, store)
  with_dumps hang store go = (hang, store)
