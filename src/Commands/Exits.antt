-- ===== src/Commands/Exits.antt =====
-- cmd/*/*.go: how a program ends.
use urlhero.Common.{ℕ, Outcome, ok, err, panic, hang}

-- The status of the process, a run-time panic, or no end.
pub data Ending : Type 0 where
  exit : ℕ → Ending
  crash : Ending
  endless : Ending

-- `try`, which ends the program with status 1 at an error, where nothing follows it
abbrev pub try : {E A : Type 0} → Outcome E A → Ending
try (ok a) = exit 0
try (err e) = exit 1
try panic = crash
try hang = endless

-- `try`, and then the rest of the program on the state that the call left
abbrev pub try_then : {E A S : Type 0} → Outcome E A × S → (S → Ending × S) → Ending × S
try_then (ok a, s) rest = rest s
try_then (err e, s) rest = (exit 1, s)
try_then (panic, s) rest = (crash, s)
try_then (hang, s) rest = (endless, s)

-- the exit after the text on the usage of a program
abbrev pub usage : Ending
usage = exit 2
