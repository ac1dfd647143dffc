-- ===== src/Model/Described.antt =====
-- crates/noire-model/src/descriptor.rs: which descriptions are accepted.
use noire.Base.{
  ◌*◌, ◌≡◌, ◌≤◌, ◌<◌, ◌⊎◌, inl, inr, refl, false, ◌||◌, Result, ok, err, ltb, ◌==◌, arith,
  Bool-cases, u64_max,
}
use noire.Base.Text.{is_blank}
use noire.Model.{
  ModelDescriptorSpec, DescriptorError, empty_id, empty_name, empty_version, empty_license,
  invalid_format, invalid_hop, invalid_delay, frame_size_overflow, ModelDescriptor, new_checked,
  new,
}

-- A format without zeros, a hop within the frame, a delay that covers the lookahead, and an
-- interleaved frame whose length fits a usize.
abbrev pub IsConsistent : ModelDescriptorSpec → Type 0
IsConsistent s =
    (0 < s.sample_rate_hz)
    × (0 < s.channels)
    × (0 < s.frame_samples)
    × (0 < s.hop_samples)
    × (s.hop_samples ≤ s.frame_samples)
    × (s.lookahead_samples ≤ s.delay_samples)
    × (s.frame_samples * s.channels ≤ u64_max)

-- A consistent description whose texts are not blank.
abbrev pub IsDescribed : ModelDescriptorSpec → Type 0
IsDescribed s =
    (is_blank s.id ≡ false)
    × (is_blank s.name ≡ false)
    × (is_blank s.version ≡ false)
    × (is_blank s.license ≡ false)
    × IsConsistent s

-- What a check of `P` answers for a description.
abbrev pub Decides : Type 0 → ModelDescriptorSpec → Result DescriptorError ModelDescriptor → Type 0
Decides P s r =
    (P × (r ≡ ok (record { spec = s; frame_buffer_samples = s.frame_samples * s.channels })))
    ⊎ ((¬ P) × ((e : DescriptorError) × (r ≡ err e)))

new_checked_accepts : (s : ModelDescriptorSpec) → Decides (IsConsistent s) s (new_checked s)
unfolding new_checked
new_checked_accepts s =
    elim (Bool-cases (s.sample_rate_hz == 0 || s.channels == 0 || s.frame_samples == 0)) [
      | inl b ↦ rw b (inr ((λ h. ground arith), (invalid_format, refl)))
      | inr format ↦ elim (Bool-cases (s.hop_samples == 0 || ltb s.frame_samples s.hop_samples)) [
        | inl b ↦ rw (format, b) (inr ((λ h. ground arith), (invalid_hop, refl)))
        | inr hop ↦ elim (Bool-cases (ltb s.delay_samples s.lookahead_samples)) [
          | inl b ↦ rw (format, hop, b) (inr ((λ h. ground arith), (invalid_delay, refl)))
          | inr delay ↦ elim (Bool-cases (ltb u64_max (s.frame_samples * s.channels))) [
            | inl b ↦
                rw (format, hop, delay, b) (inr ((λ h. ground arith), (frame_size_overflow, refl)))
            | inr fits ↦
                rw (format, hop, delay, fits)
                  (inl (
                    (
                      ground arith,
                      ground arith,
                      ground arith,
                      ground arith,
                      ground arith,
                      ground arith,
                      ground arith,
                    ),
                    refl,
                  ))
          ]
        ]
      ]
    ]

-- A description is accepted, unchanged and with the length of an interleaved frame, exactly when
-- its texts are not blank and its numbers are consistent: no zero in the format, a hop within the
-- frame, a delay that covers the lookahead, and a frame that fits a usize. Every other one is an
-- error.
pub new_accepts : (s : ModelDescriptorSpec) → Decides (IsDescribed s) s (new s)
unfolding new
new_accepts s = elim (Bool-cases (is_blank s.id)) [
  | inl b ↦ rw b (inr ((λ h. cc), (empty_id, refl)))
  | inr id ↦ elim (Bool-cases (is_blank s.name)) [
    | inl b ↦ rw (id, b) (inr ((λ h. cc), (empty_name, refl)))
    | inr name ↦ elim (Bool-cases (is_blank s.version)) [
      | inl b ↦ rw (id, name, b) (inr ((λ h. cc), (empty_version, refl)))
      | inr version ↦ elim (Bool-cases (is_blank s.license)) [
        | inl b ↦ rw (id, name, version, b) (inr ((λ h. cc), (empty_license, refl)))
        | inr license ↦ elim (new_checked_accepts s) [
          | inl (h, e) ↦ rw (id, name, version, license) (inl ((refl, refl, refl, refl, h), e))
          | inr (h, e) ↦ rw (id, name, version, license) (inr ((λ d. h d.4), e))
        ]
      ]
    ]
  ]
]
