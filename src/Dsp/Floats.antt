-- ===== src/Dsp/Floats.antt =====
-- f32 arithmetic on bit patterns, as the processor computes it: a parameter of the model.
use noire.Base.{ℕ, Bool}
use noire.Dsp.Canonical.{Sample}

pub record Floats : Type 0 where
  pub abs : Sample → Sample
  pub max : Sample → Sample → Sample
  pub add : Sample → Sample → Sample
  pub sub : Sample → Sample → Sample
  pub mul : Sample → Sample → Sample
  pub div : Sample → Sample → Sample
  pub neg : Sample → Sample
  pub mul_add : Sample → Sample → Sample → Sample
  pub sqrt : Sample → Sample
  pub from_int : ℕ → Sample
  pub lt : Sample → Sample → Bool
  pub le : Sample → Sample → Bool
