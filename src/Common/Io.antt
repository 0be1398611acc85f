-- ===== src/Common/Io.antt =====
-- What is behind an `io.Reader`: the pieces that its reads return, and then a last piece together
-- with the error that ends it, which later reads return alone.
use mathlib.Core.List.{List, [], ◌∷◌, ◌++◌}
use Prim.Native.Nat.{ℕ}
use urlhero.Common.Strings.{Bytes}

pub data IoError : Type 0 where
  eof : IoError
  other : ℕ → IoError

pub record Source : Type 0 where
  pub chunks : List Bytes
  pub last : Bytes
  pub final : IoError

abbrev pub chunks_content : List Bytes → Bytes → Bytes
chunks_content [] last = last
chunks_content (c ∷ chunks) last = c ++ chunks_content chunks last

-- all that is read
abbrev pub content : Source → Bytes
content source = chunks_content source.chunks source.last
