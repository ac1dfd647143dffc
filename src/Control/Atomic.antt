-- ===== src/Control/Atomic.antt =====
-- crates/noired/src/control.rs: the configuration, the file and the revision across a request.
use noire.Base.{
  ℕ, suc, ◌+◌, ◌≡◌, ◌≤◌, ◌<◌, ◌⊎◌, refl, inl, inr, ◌∙◌, true, false, List, [], ◌∷◌, length, is_ok,
  u64_max, arith,
}
use noire.Config.Types.{Config}
use noire.Control.Ports.{AudioEngine, ConfigStore, StoreContract}
use noire.Control.Daemon.{Daemon}
use noire.Control.Commands.{
  Command, starts, stops, retries, selects, suppresses, strengthens, schedules, fails, prefers,
  Request, execute, run,
}
use noire.Control.Methods.{
  Moment, Reply, next_revision, mutate, start, stop, select_input, set_suppression_enabled,
  set_strength, set_latency_profile, set_fail_mode, set_start_with_noise_reduction, retry,
}

run_step {ℓ} :
    {A : Type ℓ} (c c' c'' : A) (v v' v'' n : ℕ)
    → ((v' ≡ v) × (c' ≡ c)) ⊎ (v' ≡ v + 1)
    → (v'' ≤ v' + n) × (((v'' ≡ v') × (c'' ≡ c')) ⊎ (v' < v''))
    → (v'' ≤ v + suc n) × (((v'' ≡ v) × (c'' ≡ c)) ⊎ (v < v''))
run_step c c' c'' v v' v'' n (inl (p, q)) (b, inl (p', q')) = (omega arith, inl (p' ∙ p, q' ∙ q))
run_step c c' c'' v v' v'' n (inl (p, q)) (b, inr l) = (omega arith, inr (omega arith))
run_step c c' c'' v v' v'' n (inr p) (b, inl (p', q')) = (omega arith, inr (omega arith))
run_step c c' c'' v v' v'' n (inr p) (b, inr l) = (omega arith, inr (omega arith))

step_bound {ℓ} :
    {P : Type ℓ} (v v' n m : ℕ) → ((v' ≡ v) × P) ⊎ (v' ≡ v + 1) → v + suc n ≤ m → v' + n ≤ m
step_bound v v' n m (inl (p, q)) h = omega arith
step_bound v v' n m (inr p) h = omega arith

module _ {E : AudioEngine} {S : ConfigStore} (K : StoreContract S) where
  -- The configuration stayed, or the request succeeded: the new configuration is in the file, and
  -- the revision has moved on.
  abbrev IsAtomic : Daemon E S → Reply E S → Type 0
  IsAtomic d (next, reply) =
      (next.config ≡ d.config)
      ⊎ ((is_ok reply ≡ true)
          × (next.revision ≡ next_revision d)
          × (K.saved next.store ≡ next.config))

  mutate-IsAtomic :
      (d : Daemon E S) (expected : ℕ) (update : Config → Config) (m : Moment)
      → IsAtomic d (mutate d expected update m)
  unfolding mutate
  mutate-IsAtomic d expected update m = ground (arith, K.save_ok d.store (update d.config))

  execute-IsAtomic :
      (d : Daemon E S) (c : Command) (expected : ℕ) (m : Moment)
      → IsAtomic d (execute d (record { command = c; expected = expected; moment = m }))
  unfolding execute start stop retry select_input set_suppression_enabled set_strength
      set_latency_profile set_fail_mode set_start_with_noise_reduction
  execute-IsAtomic d starts expected m =
      ground (arith, mutate-IsAtomic d expected (λ c. record c { active = true }) m)
  execute-IsAtomic d stops expected m =
      ground (arith, mutate-IsAtomic d expected (λ c. record c { active = false }) m)
  execute-IsAtomic d retries expected m = ground arith
  execute-IsAtomic d (selects s) expected m = mutate-IsAtomic d expected _ m
  execute-IsAtomic d (suppresses b) expected m = mutate-IsAtomic d expected _ m
  execute-IsAtomic d (strengthens n) expected m = mutate-IsAtomic d expected _ m
  execute-IsAtomic d (schedules p) expected m = mutate-IsAtomic d expected _ m
  execute-IsAtomic d (fails f) expected m = mutate-IsAtomic d expected _ m
  execute-IsAtomic d (prefers b) expected m =
      ground (arith, K.save_ok d.store (record (d.config) { start_with_noise_reduction = b }))

  -- A request, whatever its command and its outcome, leaves the configuration as it was, or
  -- succeeds, and then the file holds the new configuration and the revision is the next one.
  pub execute_atomic :
      (d : Daemon E S) (r : Request)
      → ((execute d r).0.config ≡ d.config)
        ⊎ ((is_ok (execute d r).1 ≡ true)
            × ((execute d r).0.revision ≡ next_revision d)
            × (K.saved (execute d r).0.store ≡ (execute d r).0.config))
  execute_atomic d r = execute-IsAtomic d r.command r.expected r.moment

module _ {E : AudioEngine} {S : ConfigStore} where
  -- The revision stayed, with the configuration, or is the next one.
  abbrev Advances : Daemon E S → Reply E S → Type 0
  Advances d (next, reply) =
      ((next.revision ≡ d.revision) × (next.config ≡ d.config)) ⊎ (next.revision ≡ next_revision d)

  mutate-Advances :
      (d : Daemon E S) (expected : ℕ) (update : Config → Config) (m : Moment)
      → Advances d (mutate d expected update m)
  unfolding mutate
  mutate-Advances d expected update m = ground arith

  execute-Advances :
      (d : Daemon E S) (c : Command) (expected : ℕ) (m : Moment)
      → Advances d (execute d (record { command = c; expected = expected; moment = m }))
  unfolding execute start stop retry select_input set_suppression_enabled set_strength
      set_latency_profile set_fail_mode set_start_with_noise_reduction
  execute-Advances d starts expected m =
      ground (arith, mutate-Advances d expected (λ c. record c { active = true }) m)
  execute-Advances d stops expected m =
      ground (arith, mutate-Advances d expected (λ c. record c { active = false }) m)
  execute-Advances d retries expected m = ground arith
  execute-Advances d (selects s) expected m = mutate-Advances d expected _ m
  execute-Advances d (suppresses b) expected m = mutate-Advances d expected _ m
  execute-Advances d (strengthens n) expected m = mutate-Advances d expected _ m
  execute-Advances d (schedules p) expected m = mutate-Advances d expected _ m
  execute-Advances d (fails f) expected m = mutate-Advances d expected _ m
  execute-Advances d (prefers b) expected m = ground arith

  next_revision_lem : (d : Daemon E S) → d.revision < u64_max → next_revision d ≡ d.revision + 1
  next_revision_lem d h = ground arith

  execute_step :
      (d : Daemon E S) (r : Request)
      → d.revision < u64_max
      → (((execute d r).0.revision ≡ d.revision) × ((execute d r).0.config ≡ d.config))
        ⊎ ((execute d r).0.revision ≡ d.revision + 1)
  execute_step d r h =
      ground (arith, execute-Advances d r.command r.expected r.moment, next_revision_lem d h)

  -- Over a history of requests that does not saturate the revision, the revision is at most one
  -- more for each request, and it stays only if the configuration does: a client that reads the
  -- same revision twice reads the same configuration.
  pub run_revision :
      (d : Daemon E S) (rs : List Request)
      → d.revision + length rs ≤ u64_max
      → ((run d rs).revision ≤ d.revision + length rs)
        × ((((run d rs).revision ≡ d.revision) × ((run d rs).config ≡ d.config))
            ⊎ (d.revision < (run d rs).revision))
  unfolding run
  run_revision d [] h = (omega arith, inl (refl, refl))
  run_revision d (r ∷ rs) h =
      let step = execute_step d r (omega arith) in
      let next = (execute d r).0 in
      run_step d.config next.config (run next rs).config d.revision next.revision
        (run next rs).revision (length rs) step
        (run_revision next rs (step_bound d.revision next.revision (length rs) u64_max step h))
