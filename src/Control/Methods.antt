-- ===== src/Control/Methods.antt =====
-- crates/noired/src/control.rs: the methods of `Daemon`. A `match` on the answer of the engine or
-- the store is a function by clauses, named for the step after which it continues.
use noire.Base.{
  ℕ, Bool, true, false, not, none, some, if◌then◌else◌, ◌==◌, Result, ok, err, saturating_add,
  u64_max,
}
use noire.Base.Text.{String, is_empty}
use noire.Config.Types.{Config, selected, follow_default, LatencyProfile, FailMode, channel_text}
use noire.Config.Check.{validate, ValidationError, validation_text}
use noire.Ipc.{Snapshot, snapshot_schema_version, api_version}
use noire.Control.Ports.{
  degraded, lifecycle_text, EngineError, EngineObservation, AudioEngine, ConfigStore,
}
use noire.Control.Daemon.{
  Daemon, ControlError, conflict, invalid, audio, persistence, persistence_rollback, read_only,
  build_version, reserved_node_name, error_info, input_mode_text, latency_text, fail_mode_text,
  info_or_default, is_some_info,
}

-- What a call reads from the clocks.
pub record Moment : Type 0 where
  pub now : ℕ  -- u64, milliseconds since the epoch
  pub uptime : ℕ  -- u64, milliseconds

abbrev pub Reply : AudioEngine → ConfigStore → Type 0
Reply E S = Daemon E S × Result ControlError Snapshot

-- The update of `select_input`.
abbrev pub choose_input : String → Config → Config
choose_input stable_id c =
    if is_empty stable_id
    then record c { input = record (c.input) { mode = follow_default; stable_id = "" } }
    else record c { input = record (c.input) { mode = selected; stable_id = stable_id } }

abbrev pub bool_eq : Bool → Bool → Bool
bool_eq true b = b
bool_eq false b = not b

module _ {E : AudioEngine} {S : ConfigStore} where
  unfoldable pub snapshot : Daemon E S → ℕ → Snapshot
  snapshot d uptime = record {
    schema_version = snapshot_schema_version;
    api_version = api_version;
    build_version = build_version;
    revision = d.revision;
    device_revision = d.device_revision;
    state = lifecycle_text d.observation.state;
    active = d.config.active;
    launch_at_login = d.config.launch_at_login;
    input_mode = input_mode_text d.config.input.mode;
    input_stable_id = d.config.input.stable_id;
    input_display_name = d.observation.input_display_name;
    channel = channel_text d.config.input.channel;
    fallback_to_default = d.config.input.fallback_to_default;
    source_node_name = reserved_node_name;
    latency_profile = latency_text d.config.output.latency_profile;
    suppression_enabled = d.config.suppression.enabled;
    strength = d.config.suppression.strength;
    fail_mode = fail_mode_text d.config.suppression.fail_mode;
    model_id = "org.noire.fastenhancer.base-48khz";
    model_delay_samples = 512;
    pipewire_version = d.observation.pipewire_version;
    uptime_millis = uptime;
    has_error = is_some_info d.last_error;
    last_error = info_or_default d.last_error;
    metrics = d.observation.metrics;
  }

  abbrev pub next_revision : Daemon E S → ℕ
  next_revision d = saturating_add u64_max d.revision 1

  -- `check_revision`, with what follows it when the revision is current.
  abbrev pub at_revision : Daemon E S → ℕ → Reply E S → Reply E S
  at_revision d expected rest =
      if expected == d.revision then rest else (d, err (conflict expected d.revision))

  after_rollback :
      Daemon E S
      → S.State
      → String
      → Moment
      → E.State × Result EngineError EngineObservation
      → Reply E S
  after_rollback d store text m (engine, ok restored) =
      (record d { store = store; engine = engine; observation = restored }, err (persistence text))
  after_rollback d store text m (engine, err rollback) = (
    record d {
      store = store;
      engine = engine;
      last_error = some (error_info rollback m.now);
      observation = record (d.observation) { state = degraded; fault = some rollback };
      revision = next_revision d;
    },
    err (persistence_rollback text rollback),
  )

  after_save :
      Daemon E S
      → Config
      → E.State
      → EngineObservation
      → Moment
      → S.State × Result String (Unit {0})
      → Reply E S
  unfolding after_rollback
  after_save d candidate engine observation m (store, err text) =
      after_rollback d store text m (E.apply engine d.config)
  after_save d candidate engine observation m (store, ok _) =
      let next = record d {
        store = store;
        engine = engine;
        config = candidate;
        observation = observation;
        last_error = none;
        revision = next_revision d;
      } in
      (next, ok (snapshot next m.uptime))

  after_apply :
      Daemon E S → Config → Moment → E.State × Result EngineError EngineObservation → Reply E S
  unfolding after_save
  after_apply d candidate m (engine, err e) =
      (record d { engine = engine; last_error = some (error_info e m.now) }, err (audio e))
  after_apply d candidate m (engine, ok observation) =
      after_save d candidate engine observation m (S.save d.store candidate)

  after_validate : Daemon E S → Config → Moment → Result ValidationError (Unit {0}) → Reply E S
  unfolding after_apply
  after_validate d candidate m (err e) = (d, err (invalid (validation_text e)))
  after_validate d candidate m (ok _) = after_apply d candidate m (E.apply d.engine candidate)

  unfoldable pub mutate : Daemon E S → ℕ → (Config → Config) → Moment → Reply E S
  unfolding after_validate
  mutate d expected update m = at_revision d expected (
      if not d.writable
      then (d, err read_only)
      else after_validate d (update d.config) m (validate (update d.config)))

  unfoldable pub start : Daemon E S → ℕ → Moment → Reply E S
  start d expected m = at_revision d expected (
      if d.config.active
      then (d, ok (snapshot d m.uptime))
      else mutate d expected (λ c. record c { active = true }) m)

  unfoldable pub stop : Daemon E S → ℕ → Moment → Reply E S
  stop d expected m = at_revision d expected (
      if not d.config.active
      then (d, ok (snapshot d m.uptime))
      else mutate d expected (λ c. record c { active = false }) m)

  unfoldable pub select_input : Daemon E S → String → ℕ → Moment → Reply E S
  select_input d stable_id expected m = mutate d expected (choose_input stable_id) m

  unfoldable pub set_suppression_enabled : Daemon E S → Bool → ℕ → Moment → Reply E S
  set_suppression_enabled d enabled expected m =
      mutate d expected
        (λ c. record c { suppression = record (c.suppression) { enabled = enabled } }) m

  unfoldable pub set_strength : Daemon E S → ℕ → ℕ → Moment → Reply E S
  set_strength d strength expected m =
      mutate d expected
        (λ c. record c { suppression = record (c.suppression) { strength = strength } }) m

  unfoldable pub set_latency_profile : Daemon E S → LatencyProfile → ℕ → Moment → Reply E S
  set_latency_profile d profile expected m =
      mutate d expected (λ c. record c { output = record { latency_profile = profile } }) m

  unfoldable pub set_fail_mode : Daemon E S → FailMode → ℕ → Moment → Reply E S
  set_fail_mode d mode expected m =
      mutate d expected
        (λ c. record c { suppression = record (c.suppression) { fail_mode = mode } }) m

  after_preference : Daemon E S → Config → Moment → S.State × Result String (Unit {0}) → Reply E S
  after_preference d candidate m (store, err text) =
      (record d { store = store }, err (persistence text))
  after_preference d candidate m (store, ok _) =
      let next = record d {
        store = store;
        config = candidate;
        last_error = none;
        revision = next_revision d;
      } in
      (next, ok (snapshot next m.uptime))

  unfoldable pub set_start_with_noise_reduction : Daemon E S → Bool → ℕ → Moment → Reply E S
  unfolding after_preference
  set_start_with_noise_reduction d enabled expected m = at_revision d expected (
      if not d.writable
      then (d, err read_only)
      else if bool_eq d.config.start_with_noise_reduction enabled
      then (d, ok (snapshot d m.uptime))
      else after_preference d (record (d.config) { start_with_noise_reduction = enabled }) m
          (S.save d.store (record (d.config) { start_with_noise_reduction = enabled })))

  after_retry : Daemon E S → Moment → E.State × Result EngineError EngineObservation → Reply E S
  after_retry d m (engine, ok observation) =
      let next = record d {
        engine = engine;
        observation = observation;
        last_error = none;
        revision = next_revision d;
      } in
      (next, ok (snapshot next m.uptime))
  after_retry d m (engine, err e) = (
    record d {
      engine = engine;
      last_error = some (error_info e m.now);
      observation = record (d.observation) { state = degraded };
    },
    err (audio e),
  )

  unfoldable pub retry : Daemon E S → ℕ → Moment → Reply E S
  unfolding after_retry
  retry d expected m = at_revision d expected (after_retry d m (E.retry d.engine d.config))
