-- ===== src/Dsp/Frame/Copy.antt =====
-- crates/noire-dsp/src/frame.rs: copying a run of samples into the storage.
use noire.Base.{
  ◌+◌, ◌≤◌, ◌<◌, ◌≡◌, refl, sym, ap, ◌∙◌, List, [], ◌∷◌, ◌++◌, map, append-nil, append_assoc, arith,
  length, take, set, length-set, add-one, take-suc-set,
}
use noire.Dsp.Canonical.{model_frame_samples, frame_assembler_capacity, Sample}
use noire.Dsp.Sanitize.{SanitizeReport, sanitize_sample, clean, sanitize_sample-clean}
use noire.Dsp.Frame.{FrameAssembler, new, copy_samples}

-- The samples that wait for the next frame.
abbrev pub waiting : FrameAssembler → List Sample
waiting a = take a.pending a.storage

pub record IsValid (a : FrameAssembler) : Type 0 where
  pub room : a.pending < model_frame_samples
  pub sized : length a.storage ≡ frame_assembler_capacity

pub new-IsValid : IsValid new
unfolding new
new-IsValid = record { room = omega arith; sized = refl }

-- Copying a run that fits appends its sanitized samples to the waiting ones.
pub record Copied (a b : FrameAssembler) (xs : List Sample) : Type 0 where
  pub appended : waiting b ≡ waiting a ++ map clean xs
  pub counted : b.pending ≡ a.pending + length xs
  pub kept : length b.storage ≡ length a.storage

pub copy_samples-Copied :
    (xs : List Sample) (a : FrameAssembler) (r : SanitizeReport)
    → a.pending + length xs ≤ length a.storage
    → Copied a (copy_samples a xs r).0 xs
unfolding copy_samples
copy_samples-Copied [] a r h = record {
  appended = sym (append-nil (waiting a));
  counted = omega arith;
  kept = refl;
}
copy_samples-Copied (x ∷ xs) a r h =
    let v : Sample = (sanitize_sample x r).0 in
    let s : SanitizeReport = (sanitize_sample x r).1 in
    let b : FrameAssembler = record {
      storage = set a.storage a.pending v;
      pending = a.pending + 1;
    } in
    let len : length b.storage ≡ length a.storage = length-set a.storage a.pending v in
    let rest = copy_samples-Copied xs b s (omega (arith, len)) in
    let front : waiting b ≡ waiting a ++ v ∷ [] =
      rw add-one (take-suc-set a.storage a.pending v (omega arith)) in
    let whole : waiting b ++ map clean xs ≡ waiting a ++ (v ∷ map clean xs) =
      ap (λ l. l ++ map clean xs) front ∙ append_assoc (waiting a) (v ∷ []) (map clean xs) in
    let same : waiting a ++ (v ∷ map clean xs) ≡ waiting a ++ map clean (x ∷ xs) =
      ap (λ y. waiting a ++ (y ∷ map clean xs)) (sanitize_sample-clean x r) in
    record {
      appended = rest.appended ∙ whole ∙ same;
      counted = omega (arith, rest.counted);
      kept = rest.kept ∙ len;
    }
