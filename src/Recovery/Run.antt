-- ===== src/Recovery/Run.antt =====
-- The controller under a sequence of calls, each at a time of the caller's monotonic clock.
use noire.Base.{ℕ, ◌+◌, List, [], ◌∷◌}
use noire.Recovery.{RecoveryFault, RecoveryController, fault, poll, failed, recovered, stop}

pub data Call : Type 0 where
  reports : RecoveryFault → Call
  polls fails recovers stops : Call

unfoldable pub step : RecoveryController → Call → ℕ → RecoveryController
step c (reports f) now = fault c f now
step c polls now = (poll c now).0
step c fails now = failed c now
step c recovers now = recovered c
step c stops now = stop c

-- Each entry is a call and the time that passes before it.
unfoldable pub run : RecoveryController → ℕ → List (ℕ × Call) → RecoveryController × ℕ
run c now [] = (c, now)
run c now ((wait, e) ∷ es) = run (step c e (now + wait)) (now + wait) es
