-- ===== src/Action/Outcomes.antt =====
-- How a piece of code ends that may dereference nil.
use thecloud.Prelude.{Bool, true, false}
use thecloud.Action.Defs.{Result, ok, err}

pub data Outcome (A : Type 0) : Type 0 where
  returned : A → Outcome A
  panicked : Outcome A

abbrev pub is_panic : {A : Type 0} → Result (Outcome A) → Bool
is_panic (ok (returned a)) = false
is_panic (ok panicked) = true
is_panic (err x) = false
