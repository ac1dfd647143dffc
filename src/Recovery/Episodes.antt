-- ===== src/Recovery/Episodes.antt =====
-- crates/noired/src/recovery.rs: one fault episode from its report to its end.
use noire.Base.{
  ℕ, zero, suc, ◌+◌, ◌-◌, ◌*◌, ◌≤◌, ◌<◌, ◌≡◌, refl, ◌≢◌, ◌⊎◌, min, none, some, arith,
  saturating_add, u32_max, u64_max,
}
use noire.Recovery.{
  RecoveryFault, RecoveryController, default, healthy, backoff, attempting, core, fault, poll,
  failed, recovered, delay, max_backoff_ms,
}
use noire.Recovery.Schedule.{delay_doubles}
use noire.Recovery.Invariant.{IsValid}

-- A report while an episode is open starts no new episode: phase, generation, attempt count and
-- counters stay, and the deadline is never postponed. Either it is the first core loss of the
-- episode, and is recorded and due at once; or it changes nothing at all.
pub fault_open :
    (c : RecoveryController) (f : RecoveryFault) (now : ℕ)
    → c.phase ≢ healthy
    → let d = fault c f now in
      (d.phase ≡ c.phase)
      × (d.generation ≡ c.generation)
      × (d.attempt ≡ c.attempt)
      × (d.stats ≡ c.stats)
      × (d.due_millis ≤ c.due_millis)
      × (((f ≡ core) × (c.fault ≢ some core) × (d.fault ≡ some core) × (d.due_millis ≤ now))
          ⊎ (((f ≢ core) ⊎ (c.fault ≡ some core)) × (d ≡ c)))
unfolding fault
fault_open c f now h = ground arith

-- A report to a healthy controller opens an episode under the next generation, due at once, and
-- polling at that time or later hands out its first attempt, which carries that generation and
-- that fault.
pub fault-poll :
    (c : RecoveryController) (f : RecoveryFault) (now later : ℕ)
    → c.phase ≡ healthy
    → now ≤ later
    → let p = poll (fault c f now) later in
      (p.1
        ≡ some
            (record { generation = saturating_add u64_max c.generation 1; number = 1; fault = f }))
      × (p.0.phase ≡ attempting)
      × (p.0.attempt ≡ 1)
      × (p.0.stats.faults ≡ saturating_add u64_max c.stats.faults 1)
unfolding fault poll
fault-poll c f now later h t = ground arith

-- While no attempt is running and the deadline has come, a valid controller in backoff always
-- hands out an attempt; if that fails, the next one is due one delay later.
pub poll-failed :
    (c : RecoveryController) (now end clock : ℕ)
    → IsValid clock c
    → c.phase ≡ backoff
    → c.due_millis ≤ now
    → let p = poll c now in
      let number = saturating_add u32_max c.attempt 1 in
      (p.1 ≢ none)
      × (p.0.phase ≡ attempting)
      × ((failed p.0 end).phase ≡ backoff)
      × ((failed p.0 end).fault ≡ c.fault)
      × ((failed p.0 end).due_millis ≡ saturating_add u64_max end (delay number))
unfolding poll failed
poll-failed c now end clock v h due = ground arith

-- An attempt that is made as soon as it is due, and fails at once.
fail_round : RecoveryController → RecoveryController
fail_round c = failed (poll c c.due_millis).0 c.due_millis

pub rounds : ℕ → RecoveryController → RecoveryController
rounds zero c = c
rounds (suc n) c = fail_round (rounds n c)

-- The time that n failing attempts take.
elapsed : ℕ → ℕ
elapsed zero = 0
elapsed (suc n) = elapsed n + delay (suc n)

elapsed-le : (n : ℕ) → elapsed n ≤ 1000 * n
unfolding elapsed
elapsed-le zero = omega arith
elapsed-le (suc n) = omega (arith, elapsed-le n, delay_doubles (suc n))

record InEpisode (c : RecoveryController) (f : RecoveryFault) (g k t : ℕ) : Type 0 where
  waiting : c.phase ≡ backoff
  cause : c.fault ≡ some f
  epoch : c.generation ≡ g
  count : c.attempt ≡ k
  due : c.due_millis ≡ t

fail_round-InEpisode :
    (c : RecoveryController) (f : RecoveryFault) (g k t : ℕ)
    → k < u32_max
    → t + 1000 ≤ u64_max
    → InEpisode c f g k t
    → InEpisode (fail_round c) f g (suc k) (t + delay (suc k))
unfolding fail_round poll failed
fail_round-InEpisode c f g k t w u e =
    let d = delay_doubles (suc k) in
    let n : saturating_add u32_max c.attempt 1 ≡ suc k = ground arith in ground (arith, d, n)

rounds-InEpisode :
    (n : ℕ) (c : RecoveryController) (f : RecoveryFault) (now : ℕ)
    → c.phase ≡ healthy
    → n ≤ u32_max
    → now + 1000 * n ≤ u64_max
    → InEpisode
        (rounds n (fault c f now))
        f
        (saturating_add u64_max c.generation 1)
        n
        (now + elapsed n)
unfolding rounds elapsed
rounds-InEpisode zero c f now h w u = unfold fault in ground arith
rounds-InEpisode (suc n) c f now h w u =
    let e = rounds-InEpisode n c f now h (omega arith) (omega arith) in
    let r =
      fail_round-InEpisode (rounds n (fault c f now)) f (saturating_add u64_max c.generation 1) n
        (now + elapsed n) (omega arith) (omega (arith, elapsed-le n)) e in
    record {
      waiting = r.waiting;
      cause = r.cause;
      epoch = r.epoch;
      count = r.count;
      due = omega (arith, r.due);
    }

delay_at_cap : (n : ℕ) → delay (suc (n + 6)) ≡ max_backoff_ms
unfolding delay
delay_at_cap n = let e : min (suc (n + 6) - 1) 6 ≡ 6 = omega arith in rw e

elapsed_late : (n : ℕ) → elapsed (n + 6) ≡ 1575 + 1000 * n
unfolding elapsed
elapsed_late zero = unfold delay in refl
elapsed_late (suc n) =
    let split : suc n + 6 ≡ suc (n + 6) = omega arith in
    rw split (omega (arith, elapsed_late n, delay_at_cap n))

-- Six or more attempts that are made when due and fail at once keep the episode open under its
-- fault and generation, count every attempt, and put the next deadline exactly 1575 ms after the
-- report plus one second for each failure past the sixth, while the words do not overflow.
pub rounds_schedule :
    (n : ℕ) (c : RecoveryController) (f : RecoveryFault) (now : ℕ)
    → c.phase ≡ healthy
    → n + 6 ≤ u32_max
    → now + 1000 * (n + 6) ≤ u64_max
    → let d = rounds (n + 6) (fault c f now) in
      (d.phase ≡ backoff)
      × (d.fault ≡ some f)
      × (d.generation ≡ saturating_add u64_max c.generation 1)
      × (d.attempt ≡ n + 6)
      × (d.due_millis ≡ now + 1575 + 1000 * n)
rounds_schedule n c f now h w u =
    let r = rounds-InEpisode (n + 6) c f now h w u in
    (r.waiting, r.cause, r.epoch, r.count, omega (arith, r.due, elapsed_late n))

-- One fault that is attempted at once and repaired.
cycle : RecoveryController → RecoveryFault → ℕ → RecoveryController
cycle c f now = recovered (poll (fault c f now) now).0

pub cycles : ℕ → RecoveryController → RecoveryFault → ℕ → RecoveryController
cycles zero c f now = c
cycles (suc n) c f now = cycle (cycles n c f now) f now

record Settled (n : ℕ) (c : RecoveryController) : Type 0 where
  calm : c.phase ≡ healthy
  epoch : c.generation ≡ n
  seen : c.stats.faults ≡ n
  repaired : c.stats.recoveries ≡ n
  begun : c.stats.attempts ≡ n
  lost : c.stats.failures ≡ 0

cycle-Settled :
    (c : RecoveryController) (f : RecoveryFault) (now n : ℕ)
    → n < u64_max
    → Settled n c
    → Settled (suc n) (cycle c f now)
unfolding cycle fault poll recovered
cycle-Settled c f now n w s = ground arith

cycles-Settled :
    (n : ℕ) (f : RecoveryFault) (now : ℕ) → n ≤ u64_max → Settled n (cycles n default f now)
unfolding cycles
cycles-Settled zero f now w = ground arith
cycles-Settled (suc n) f now w =
    cycle-Settled (cycles n default f now) f now n w (cycles-Settled n f now (omega arith))

-- n faults that are attempted and repaired leave the controller healthy and never stuck, with n
-- generations, n faults, n attempts and n recoveries, and no failure.
pub cycles_counts :
    (n : ℕ) (f : RecoveryFault) (now : ℕ)
    → n ≤ u64_max
    → let c = cycles n default f now in
      (c.phase ≡ healthy)
      × (c.generation ≡ n)
      × (c.stats ≡ record { faults = n; attempts = n; recoveries = n; failures = 0 })
cycles_counts n f now w = let s = cycles-Settled n f now w in (s.calm, s.epoch, ground arith)
