-- ===== src/Prelude/Faults.antt =====
-- Handlers that may panic: an error that is returned, or a panic that unwinds.
use k_url.Prelude.Results.{Result, ok, err}

pub data Fault (E : Type 0) : Type 0 where
  raised : E → Fault E
  panicked : Fault E

-- `.map_err(f)`, which a panic passes.
abbrev pub map_raised : {E F A : Type 0} → (E → F) → Result (Fault E) A → Result (Fault F) A
map_raised f (ok a) = ok a
map_raised f (err (raised e)) = err (raised (f e))
map_raised f (err panicked) = err panicked
