-- ===== src/Recovery/Schedule.antt =====
-- crates/noired/src/recovery.rs: the delays between attempts.
use noire.Base.{ℕ, suc, ◌+◌, ◌-◌, ◌*◌, ◌≤◌, ◌≡◌, refl, min, arith, zero}
use noire.Recovery.{delay, max_backoff_ms, initial_backoff_ms}

-- The eighth and every later delay is the cap.
delay_late : (n : ℕ) → 7 ≤ n → delay n ≡ max_backoff_ms
unfolding delay
delay_late n h = let e : min (n - 1) 6 ≡ 6 = omega arith in rw e

-- The delay never exceeds the cap, is never below the first delay, doubles with each failed attempt
-- until the cap is reached at the seventh, and then stays there.
pub delay_doubles :
    (n : ℕ)
    → (delay n ≤ max_backoff_ms)
      × (initial_backoff_ms ≤ delay n)
      × (delay (n + 2) ≡ min (2 * delay (n + 1)) max_backoff_ms)
unfolding delay
delay_doubles zero = (omega arith, omega arith, refl)
delay_doubles (suc zero) = (omega arith, omega arith, refl)
delay_doubles (suc (suc zero)) = (omega arith, omega arith, refl)
delay_doubles (suc (suc (suc zero))) = (omega arith, omega arith, refl)
delay_doubles (suc (suc (suc (suc zero)))) = (omega arith, omega arith, refl)
delay_doubles (suc (suc (suc (suc (suc zero))))) = (omega arith, omega arith, refl)
delay_doubles (suc (suc (suc (suc (suc (suc zero)))))) = (omega arith, omega arith, refl)
delay_doubles (suc (suc (suc (suc (suc (suc (suc n))))))) =
    let m = suc (suc (suc (suc (suc (suc (suc n)))))) in
    let now : delay m ≡ max_backoff_ms = delay_late m (omega arith) in
    let next : delay (m + 1) ≡ max_backoff_ms = delay_late (m + 1) (omega arith) in
    let after : delay (m + 2) ≡ max_backoff_ms = delay_late (m + 2) (omega arith) in
    (rw now (omega arith), rw now (omega arith), rw (after, next) refl)
