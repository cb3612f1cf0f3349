-- ===== src/Telemetry/Settling.antt =====
-- telemetry.py, _Publisher: the threads can always finish what they have begun.
use infinite_streaming_encod.Prelude.{ℕ, zero, suc, false, List, [], ◌∷◌}
use infinite_streaming_encod.Telemetry.{Step, step_take, step_send}

abbrev takes : ℕ → List Step
takes zero = []
takes (suc n) = step_take 0 ∷ takes n

abbrev sends : ℕ → List Step
sends zero = []
sends (suc n) = step_send false 0 ∷ sends n
