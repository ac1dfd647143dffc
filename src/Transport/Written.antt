-- ===== src/Transport/Written.antt =====
-- crates/noire-pipewire/src/bypass.rs: what `write_processed` leaves in the ring.
use noire.Base.{
  ℕ, ◌-◌, ◌≤◌, ◌<◌, ◌≡◌, ◌⊎◌, inl, inr, refl, sym, ap, ◌∙◌, true, false, List, [], ◌∷◌, ◌++◌, map,
  append-nil, append_assoc, ltb, ltb→lt, Bool, arith, Bool-cases, length, length-append,
}
use noire.Dsp.Canonical.{Sample}
use noire.Transport.{
  SharedState, Ring, RingContract, push_samples, record_overflow, write_processed,
}
use noire.Transport.Laws.{tag}

module _ {R : Ring} (C : RingContract R) where
  pub push_samples_lem :
      (samples : List Sample) (ring : R.State) (generation : ℕ)
      → length samples ≤ R.free_slots ring
      → ((push_samples R ring generation samples).1 ≡ true)
        × (C.contents (push_samples R ring generation samples).0
            ≡ C.contents ring ++ map (tag generation) samples)
        × (R.capacity (push_samples R ring generation samples).0 ≡ R.capacity ring)
  unfolding push_samples
  push_samples_lem [] ring generation h = (refl, sym (append-nil _), refl)
  push_samples_lem (x ∷ xs) ring generation h =
      let (ok, kept, cap) =
        C.push_room ring (tag generation x) (R.free_slots ring - 1) (omega arith) in
      let next = (R.push ring (tag generation x)).0 in
      let (done, rest, left) = push_samples_lem xs next generation (
        omega (
          arith,
          cap,
          C.slots ring,
          C.slots next,
          C.held ring,
          C.held next,
          ap length kept,
          length-append (C.contents ring) (tag generation x ∷ []),
        )) in
      rw (ok, push_samples)
        (
          done,
          rest
              ∙ ap (λ l. l ++ map (tag generation) xs) kept
              ∙ append_assoc (C.contents ring) (tag generation x ∷ []) (map (tag generation) xs),
          left ∙ cap,
        )

  -- What becomes of a frame: publication is off, and it is passed over; it does not fit, and it is
  -- refused and counted; or it stands behind what the ring held.
  abbrev pub IsWritten : R.State → SharedState → List Sample → R.State × SharedState × Bool → Type 0
  IsWritten ring s samples (next, counted, accepted) =
      ((s.publication_enabled ≡ false) × (accepted ≡ true) × (next ≡ ring) × (counted ≡ s))
      ⊎ ((s.publication_enabled ≡ true)
          × (R.free_slots ring < length samples)
          × (accepted ≡ false)
          × (next ≡ ring)
          × (counted ≡ record_overflow s (length samples)))
      ⊎ ((s.publication_enabled ≡ true)
          × (length samples ≤ R.free_slots ring)
          × (accepted ≡ true)
          × (C.contents next ≡ C.contents ring ++ map (tag s.generation) samples)
          × (counted.generation ≡ s.generation)
          × (counted.overflows ≡ s.overflows))

  pub write_processed-IsWritten :
      (ring : R.State) (s : SharedState) (samples : List Sample)
      → IsWritten ring s samples (write_processed R ring s samples)
  unfolding write_processed
  write_processed-IsWritten ring s samples = elim (Bool-cases s.publication_enabled) [
    | inr off ↦ rw off (inl (refl, refl, refl, refl))
    | inl on ↦ elim (Bool-cases (ltb (R.free_slots ring) (length samples))) [
      | inl full ↦
          rw (on, full)
            (inr (inl (refl, ltb→lt (R.free_slots ring) (length samples) full, refl, refl, refl)))
      | inr room ↦
          let fits : length samples ≤ R.free_slots ring = ground arith in
          let (done, contents, cap) = push_samples_lem samples ring s.generation fits in
          rw (on, room, done) (inr (inr (refl, fits, refl, contents, refl, refl)))
    ]
  ]
