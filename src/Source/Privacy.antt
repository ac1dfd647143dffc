-- ===== src/Source/Privacy.antt =====
-- crates/noire-pipewire/src/source.rs: what a callback publishes after a clear.
use mathlib.Core.Path.{ap₂, subst, subst⁻¹}
use noire.Base.{
  ℕ, zero, suc, ◌*◌, ◌/◌, ◌%◌, ◌≤◌, ◌<◌, ◌≡◌, inl, inr, refl, sym, ap, ◌∙◌, true, false, not, ◌&&◌,
  ◌||◌, List, [], ◌∷◌, map, Option, none, some, ltb, ◌==◌, ok, err, if◌then◌else◌, arith, length,
  take, replicate, All, Bool-cases, wrapping_add64,
}
use noire.Dsp.Canonical.{max_callback_frames}
use noire.Dsp.Fault.{Gain}
use noire.Transport.{Ring, RingContract}
use noire.Transport.Output.{
  BypassOutput, Channel, Filled, discard_stale_prefix, publish_occupancy, record_published_frames,
  fill_silence, startup_required, fill_synchronized, fill, discard_pending_sensitive,
  clear_sensitive, reject_oversized_request,
}
use noire.Transport.Laws.{fresh_from, discard_stale_prefix_lem, held_samples}
use noire.Transport.Sensitive.{pending_lem, clear_sensitive_lem}
use noire.Transport.Playing.{synchronized_same, fill_opens}
use noire.Source.{
  SourceProcessor, schedule_audio_command, apply_audio_command, audio_command_clear,
  audio_command_discard,
}
use noire.Source.Callback.{
  Chunk, DataPlane, Buffer, copy_samples, silence_plane, finish_output, fill_output,
  publish_samples, process_bytes, process_parts, process_plane, process_planes, process_buffer,
  schedule_all, process_buffers, process_available_buffers,
}
use noire.Source.Bounds.{fill_output-Within, size_lem, good_lem}

-- Four bytes for each sample.
abbrev quads : ℕ → ℕ
quads zero = 0
quads (suc k) = suc (suc (suc (suc (quads k))))

quads_lem : (k : ℕ) → quads k ≡ 4 * k
quads_lem zero = refl
quads_lem (suc k) = omega (arith, quads_lem k)

zero_quads :
    (k : ℕ) (bytes : List ℕ)
    → quads k ≤ length bytes
    → All (λ x. x ≡ 0) (take (quads k) (copy_samples (replicate k 0) bytes))
zero_quads zero bytes h = tt
zero_quads (suc k) (a ∷ b ∷ c ∷ d ∷ bytes) h =
    (refl, (refl, (refl, (refl, zero_quads k bytes (omega arith)))))
zero_quads (suc k) [] h = absurd (omega arith)
zero_quads (suc k) (a ∷ []) h = absurd (omega arith)
zero_quads (suc k) (a ∷ b ∷ []) h = absurd (omega arith)
zero_quads (suc k) (a ∷ b ∷ c ∷ []) h = absurd (omega arith)

take-replicate : (k n : ℕ) → k ≤ n → take k (replicate {A = ℕ} n 0) ≡ replicate k 0
take-replicate zero n h = refl
take-replicate (suc k) zero h = absurd (omega arith)
take-replicate (suc k) (suc n) h = ap (◌∷◌ 0) (take-replicate k n (omega arith))

-- What the first `published` samples of silence make of a plane.
silent_bytes :
    (published n : ℕ) (bytes : List ℕ)
    → published ≤ n
    → 4 * published ≤ length bytes
    → All (λ x. x ≡ 0) (take (4 * published) (copy_samples (take published (replicate n 0)) bytes))
silent_bytes published n bytes h w =
    subst (λ k. All (λ x. x ≡ 0) (take k (copy_samples (take published (replicate n 0)) bytes)))
      (quads_lem published)
      (subst⁻¹ (λ l. All (λ x. x ≡ 0) (take (quads published) (copy_samples l bytes)))
        (take-replicate published n h)
        (zero_quads published bytes (omega (arith, quads_lem published))))

module _ {R : Ring} (C : RingContract R) where
  -- The output holds nothing that it could play.
  record IsMute (c : Channel R) : Type 0 where
    nothing : C.contents c.0.consumer ≡ []
    waiting : c.0.startup_ready ≡ false
    current : c.0.generation ≡ c.1.generation
    some_needed : 0 < c.0.startup_frame_samples

  -- The start that `create_channel` sets is kept by every operation.
  abbrev pub NeedsStart : Channel R → Type 0
  NeedsStart c = 0 < c.0.startup_frame_samples

  clear-IsMute : (c : Channel R) → NeedsStart c → IsMute (clear_sensitive R c)
  clear-IsMute (o, s) h =
      let (p, _, same) = clear_sensitive_lem C o s in
      record {
        nothing = p.emptied;
        waiting = p.waiting;
        current = same;
        some_needed = omega (arith, p.same_start);
      }

  discard-IsMute : (c : Channel R) → IsMute c → IsMute (discard_pending_sensitive R c)
  discard-IsMute (o, s) h =
      let (p, shared, own) = pending_lem C o s in
      record {
        nothing = p.emptied;
        waiting = p.waiting;
        current = own ∙ h.current ∙ sym shared;
        some_needed = omega (arith, p.same_start, h.some_needed);
      }

  stale-IsMute : (c : Channel R) → IsMute c → IsMute (discard_stale_prefix R c)
  stale-IsMute (o, s) h =
      let d = discard_stale_prefix_lem C o s in
      let c = discard_stale_prefix R (o, s) in
      record {
        nothing = d.fresh ∙ ap (fresh_from o.generation) h.nothing;
        waiting = ap (λ (k : BypassOutput R). k.startup_ready) d.only_ring ∙ h.waiting;
        current =
            ap (λ (k : BypassOutput R). k.generation) d.only_ring
            ∙ h.current
            ∙ sym d.same_generation;
        some_needed = omega (
          arith,
          ap (λ (k : BypassOutput R). k.startup_frame_samples) d.only_ring,
          h.some_needed,
        );
      }

  module _ (g : Gain) where
    fill_synchronized-IsMute :
        (c : Channel R) (n : ℕ)
        → IsMute c
        → let q = fill_synchronized R g c n in IsMute q.0 × (q.1 ≡ replicate n 0)
    unfolding fill_synchronized fill_silence record_published_frames publish_occupancy
    fill_synchronized-IsMute (o, s) n h =
        let none_held = held_samples C o [] h.nothing in
        let needed = h.some_needed in
        let short : ltb (R.held_slots o.consumer) (startup_required R g o n) ≡ true =
          ground arith in
        let early : (not o.startup_ready
              && ltb (R.held_slots o.consumer) (startup_required R g o n))
            ≡ true =
          ap₂ (λ a b. not a && b) h.waiting short in
        rw early (
          record {
            nothing = h.nothing;
            waiting = h.waiting;
            current = h.current;
            some_needed = h.some_needed;
          },
          refl,
        )

    fill-IsMute :
        (c : Channel R) (n : ℕ)
        → IsMute c
        → n ≤ max_callback_frames
        → let q = fill R g c n in IsMute q.0 × (q.1 ≡ replicate n 0)
    fill-IsMute (o, s) n h w =
        let called = record s { output_callbacks = wrapping_add64 s.output_callbacks 1 } in
        let same : fill R g (o, s) n
            ≡ fill_synchronized R g (discard_stale_prefix R (o, called)) n =
          fill_opens C g o s n w
          ∙ ap (λ k. fill_synchronized R g (discard_stale_prefix R k) n)
              (synchronized_same C g o called h.current) in
        subst⁻¹ (λ (q : Filled R g). IsMute q.0 × (q.1 ≡ replicate n 0)) same
          (fill_synchronized-IsMute (discard_stale_prefix R (o, called)) n (
            stale-IsMute (o, called)
              (record {
                nothing = h.nothing;
                waiting = h.waiting;
                current = h.current;
                some_needed = h.some_needed;
              })))

    -- The part of a plane that a chunk names is silent.
    abbrev pub SilentParts : Option Chunk → Option (List ℕ) → Type 0
    SilentParts none bytes = Unit
    SilentParts (some c) none = c.size ≡ 0
    SilentParts (some c) (some bytes) = (c.offset ≡ 0) × All (λ x. x ≡ 0) (take c.size bytes)

    abbrev pub IsSilent : DataPlane → Type 0
    IsSilent d = SilentParts d.chunk d.bytes

    fill_output-IsMute :
        (c : Channel R) (n : ℕ)
        → IsMute c
        → n ≤ max_callback_frames
        → let q = fill_output R g c n in IsMute q.0 × (q.1 ≡ replicate n 0)
    unfolding fill_output
    fill_output-IsMute c n h w =
        let (mute, zeros) = fill-IsMute c n h w in finished (fill R g c n) mute zeros
      where
        finished :
            (q : Filled R g)
            → IsMute q.0
            → q.1 ≡ replicate n 0
            → IsMute (finish_output R g n q).0 × ((finish_output R g n q).1 ≡ replicate n 0)
        finished (next, output, ok report) mute zeros = unfold finish_output in (mute, zeros)
        finished (next, output, err e) mute zeros = unfold finish_output in (mute, refl)

    command-IsMute :
        (p : SourceProcessor R) → IsMute p.audio → IsMute (apply_audio_command R p).audio
    unfolding apply_audio_command
    command-IsMute p h = elim (Bool-cases (p.audio_command == audio_command_clear)) [
      | inl clear ↦ rw clear (clear-IsMute p.audio h.some_needed)
      | inr other ↦ elim (Bool-cases (p.audio_command == audio_command_discard)) [
        | inl discard ↦ rw (other, discard) (discard-IsMute p.audio h)
        | inr nothing ↦ rw (other, nothing) h
      ]
    ]

    publish_samples-IsMute :
        (p : SourceProcessor R) (bytes : List ℕ) (n : ℕ)
        → IsMute p.audio
        → n ≤ max_callback_frames
        → n ≤ length bytes / 4
        → let r = publish_samples R g p bytes n in IsMute r.0.audio × IsSilent r.1
    unfolding publish_samples
    publish_samples-IsMute p bytes n h w k =
        let c = (apply_audio_command R p).audio in
        let published : ℕ = (fill_output R g c n).2 in
        let few : published ≤ n = fill_output-Within R g c n in
        let (size, fits) = size_lem published n (length bytes) few w k in
        let (mute, zeros) = fill_output-IsMute c n (command-IsMute p h) w in
        (
          mute,
          (
            refl,
            subst⁻¹
                (λ size.
                  All (λ x. x ≡ 0)
                    (take size (copy_samples (take published (fill_output R g c n).1) bytes)))
                size
                (subst⁻¹
                  (λ l.
                    All (λ x. x ≡ 0) (take (4 * published) (copy_samples (take published l) bytes)))
                  zeros (silent_bytes published n bytes few fits)),
          ),
        )

    process_bytes-IsMute :
        (p : SourceProcessor R) (requested : ℕ) (bytes : List ℕ)
        → IsMute p.audio
        → let r = process_bytes R g p requested bytes in IsMute r.0.audio × IsSilent r.1
    unfolding process_bytes reject_oversized_request
    process_bytes-IsMute p requested bytes h =
        let n : ℕ = if requested == 0 then length bytes / 4 else requested in
        elim (Bool-cases (
          ltb max_callback_frames n || (ltb (length bytes / 4) n || not (length bytes % 4 == 0)))) [
            | inl bad ↦ rw bad (
              record {
                nothing = h.nothing;
                waiting = h.waiting;
                current = h.current;
                some_needed = h.some_needed;
              },
              (refl, tt),
            )
            | inr good ↦
                let (w, k) = good_lem n (length bytes) good in
                rw good (publish_samples-IsMute p bytes n h w k)
          ]

    process_parts-IsMute :
        (p : SourceProcessor R) (requested : ℕ) (c : Option Chunk) (b : Option (List ℕ))
        → IsMute p.audio
        → let r = process_parts R g p requested c b in IsMute r.0.audio × IsSilent r.1
    unfolding process_parts
    process_parts-IsMute p requested none b h = (h, tt)
    process_parts-IsMute p requested (some c) none h = (h, refl)
    process_parts-IsMute p requested (some c) (some bytes) h =
        process_bytes-IsMute p requested bytes h

    silence_planes-IsSilent : (ds : List DataPlane) → All IsSilent (map silence_plane ds)
    unfolding silence_plane
    silence_planes-IsSilent [] = tt
    silence_planes-IsSilent (d ∷ ds) = (silent d.chunk d.bytes, silence_planes-IsSilent ds)
      where
        silent :
            (c : Option Chunk) (b : Option (List ℕ))
            → IsSilent (silence_plane (record { chunk = c; bytes = b }))
        silent none bytes = tt
        silent (some c) none = refl
        silent (some c) (some bytes) = (refl, tt)

    process_planes-IsMute :
        (p : SourceProcessor R) (requested : ℕ) (ds : List DataPlane)
        → IsMute p.audio
        → let r = process_planes R g p requested ds in IsMute r.0.audio × All IsSilent r.1
    unfolding process_planes process_plane
    process_planes-IsMute p requested [] h = (h, tt)
    process_planes-IsMute p requested (d ∷ []) h =
        let (mute, silent) = process_parts-IsMute p requested d.chunk d.bytes h in
        (mute, (silent, tt))
    process_planes-IsMute p requested (d ∷ e ∷ more) h = (h, silence_planes-IsSilent (d ∷ e ∷ more))

    schedule-IsMute :
        (commands : List ℕ) (p : SourceProcessor R)
        → IsMute p.audio
        → IsMute (schedule_all R g p commands).audio
    unfolding schedule_audio_command
    schedule-IsMute [] p h = h
    schedule-IsMute (x ∷ xs) p h = schedule-IsMute xs (schedule_audio_command R p x) h

    process_buffers-IsMute :
        (bs : List (List ℕ × Buffer)) (p : SourceProcessor R)
        → IsMute p.audio
        → All (λ b. All IsSilent b.datas) (process_buffers R g p bs).1
    unfolding process_buffers process_buffer
    process_buffers-IsMute [] p h = tt
    process_buffers-IsMute ((commands, b) ∷ bs) p h =
        let q = schedule_all R g p commands in
        let (mute, silent) =
          process_planes-IsMute q b.requested b.datas (schedule-IsMute commands p h) in
        (silent, process_buffers-IsMute bs (process_buffer R g q b).0 mute)

    cleared :
        (p : SourceProcessor R)
        → p.audio_command ≡ audio_command_clear
        → NeedsStart p.audio
        → IsMute (apply_audio_command R p).audio
    unfolding apply_audio_command
    cleared p e h =
        let clear : (p.audio_command == audio_command_clear) ≡ true =
          ap (λ k. k == audio_command_clear) e in
        rw clear (clear-IsMute p.audio h)

    -- Once a clear is scheduled, and as long as nothing new is captured, the next callback
    -- publishes silence: whatever the ring held, whatever buffers PipeWire gives, and whatever
    -- further commands are scheduled between them, every byte that a chunk names is zero.
    pub clear_silences :
        (p : SourceProcessor R) (bs : List (List ℕ × Buffer))
        → p.audio_command ≡ audio_command_clear
        → NeedsStart p.audio
        → All (λ b. All IsSilent b.datas) (process_available_buffers R g p bs).1
    unfolding process_available_buffers
    clear_silences p bs e h =
        let q = apply_audio_command R p in
        process_buffers-IsMute bs
          (record q {
            telemetry = record (q.telemetry) { callbacks = wrapping_add64 q.telemetry.callbacks 1 };
          })
          (cleared p e h)
