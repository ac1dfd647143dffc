-- ===== src/Dsp/Frame/Conserve.antt =====
-- crates/noire-dsp/src/frame.rs: the samples before and after a call of `push`.
use mathlib.Core.List.{flatten, map-append}
use noire.Base.{
  ℕ, zero, suc, ◌+◌, ◌-◌, ◌*◌, ◌%◌, ◌≤◌, ◌<◌, ◌≡◌, refl, sym, ap, ◌∙◌, min, true, List, [], ◌∷◌,
  ◌++◌, map, append-nil, append_assoc, arith, ltb, ◌==◌, ok, length, take, drop, length-append,
  length-take, length-drop, length-map, take-drop-append, All, All-append, drop_all, Bool-cases,
  inl, inr, wrapping_add64,
}
use noire.Dsp.Canonical.{model_frame_samples, max_callback_frames, frame_assembler_capacity, Sample}
use noire.Dsp.Sanitize.{clean}
use noire.Dsp.Frame.{
  FrameAssembler, PushState, copy_samples, emit_if_full, push_step, push_loop, start_push, push,
}
use noire.Dsp.Frame.Copy.{waiting, IsValid, copy_samples-Copied}

pub flatten-append {ℓ} :
    {A : Type ℓ} (xss yss : List (List A)) → flatten (xss ++ yss) ≡ flatten xss ++ flatten yss
unfolding flatten
flatten-append [] yss = refl
flatten-append (xs ∷ xss) yss =
    ap (◌++◌ xs) (flatten-append xss yss) ∙ sym (append_assoc xs (flatten xss) (flatten yss))

flatten-snoc {ℓ} :
    {A : Type ℓ} (xss : List (List A)) (xs : List A) → flatten (xss ++ xs ∷ []) ≡ flatten xss ++ xs
unfolding flatten
flatten-snoc xss xs = flatten-append xss (xs ∷ []) ∙ ap (◌++◌ (flatten xss)) (append-nil xs)

-- Where the loop stands: what was emitted, what waits, and what is still to come make up `whole`.
record IsProgress (input whole : List Sample) (s : PushState) : Type 0 where
  sized : length s.assembler.storage ≡ frame_assembler_capacity
  conserved : flatten s.frames ++ (waiting s.assembler ++ map clean (drop s.consumed input)) ≡ whole
  in_range : s.consumed ≤ length input
  exact : All (λ f. length f ≡ model_frame_samples) s.frames
  counted : s.report.emitted_frames ≡ length s.frames % 0x1_0000_0000_0000_0000
  accepted : s.report.accepted_samples ≡ length input

emit_if_full-IsProgress :
    (input whole : List Sample) (s : PushState)
    → s.assembler.pending ≤ model_frame_samples
    → IsProgress input whole s
    → IsProgress input whole (emit_if_full s)
      × ((emit_if_full s).assembler.pending < model_frame_samples)
      × ((emit_if_full s).consumed ≡ s.consumed)
unfolding emit_if_full
emit_if_full-IsProgress input whole s h p =
    elim (Bool-cases (s.assembler.pending == model_frame_samples)) [
      | inl full ↦ rw full (emitted full, omega arith, refl)
      | inr more ↦ rw more (p, ground arith, refl)
    ]
  where
    frame : List Sample
    frame = take model_frame_samples s.assembler.storage

    rest : List Sample
    rest = map clean (drop s.consumed input)

    emitted :
        (s.assembler.pending == model_frame_samples) ≡ true
        → IsProgress input whole (record s {
          assembler = record (s.assembler) { pending = 0 };
          report = record (s.report) { emitted_frames = wrapping_add64 s.report.emitted_frames 1 };
          frames = s.frames ++ frame ∷ [];
        })
    emitted full =
        let e : s.assembler.pending ≡ model_frame_samples = ground arith in
        record {
          sized = p.sized;
          conserved =
              ap (λ l. l ++ rest) (flatten-snoc s.frames frame)
              ∙ append_assoc (flatten s.frames) frame rest
              ∙ ap (λ n. flatten s.frames ++ (take n s.assembler.storage ++ rest)) (sym e)
              ∙ p.conserved;
          in_range = p.in_range;
          exact =
              All-append _ s.frames (frame ∷ []) p.exact
                (omega (arith, length-take model_frame_samples s.assembler.storage, p.sized), tt);
          counted = omega (arith, p.counted, length-append s.frames (frame ∷ []));
          accepted = p.accepted;
        }

-- A round takes samples, keeps the invariant, and leaves room for the next.
push_step-IsProgress :
    (input whole : List Sample) (s : PushState)
    → s.assembler.pending < model_frame_samples
    → s.consumed < length input
    → IsProgress input whole s
    → IsProgress input whole (push_step input s)
      × ((push_step input s).assembler.pending < model_frame_samples)
      × (s.consumed < (push_step input s).consumed)
unfolding push_step
push_step-IsProgress input whole s room more p =
    let n : ℕ = min (model_frame_samples - s.assembler.pending) (length input - s.consumed) in
    let xs : List Sample = take n (drop s.consumed input) in
    let len : length xs ≡ n =
      omega (arith, length-take n (drop s.consumed input), length-drop s.consumed input) in
    let c = copy_samples-Copied xs s.assembler s.report.sanitized (omega (arith, len, p.sized)) in
    let a : FrameAssembler = (copy_samples s.assembler xs s.report.sanitized).0 in
    let rest : List Sample = map clean (drop (s.consumed + n) input) in
    let split : map clean xs ++ rest ≡ map clean (drop s.consumed input) =
      sym (map-append clean xs (drop (s.consumed + n) input))
      ∙ ap (map clean) (take-drop-append s.consumed n input) in
    let moved : waiting a ++ rest ≡ waiting s.assembler ++ map clean (drop s.consumed input) =
      ap (λ l. l ++ rest) c.appended
      ∙ append_assoc (waiting s.assembler) (map clean xs) rest
      ∙ ap (◌++◌ (waiting s.assembler)) split in
    let e =
      emit_if_full-IsProgress input whole
        (record s {
          assembler = a;
          consumed = s.consumed + n;
          report = record (s.report) {
            sanitized = (copy_samples s.assembler xs s.report.sanitized).1;
          };
        })
        (omega (arith, c.counted, len))
        (record {
          sized = c.kept ∙ p.sized;
          conserved = ap (◌++◌ (flatten s.frames)) moved ∙ p.conserved;
          in_range = omega arith;
          exact = p.exact;
          counted = p.counted;
          accepted = p.accepted;
        }) in
    (e.0, e.1, omega (arith, e.2))

-- With a round for each sample that is left, the loop takes all of them.
push_loop-IsProgress :
    (fuel : ℕ) (input whole : List Sample) (s : PushState)
    → length input ≤ s.consumed + fuel
    → s.assembler.pending < model_frame_samples
    → IsProgress input whole s
    → IsProgress input whole (push_loop fuel input s)
      × ((push_loop fuel input s).assembler.pending < model_frame_samples)
      × (length input ≤ (push_loop fuel input s).consumed)
unfolding push_loop
push_loop-IsProgress zero input whole s f room p = (p, room, omega arith)
push_loop-IsProgress (suc fuel) input whole s f room p =
    elim (Bool-cases (ltb s.consumed (length input))) [
      | inr done ↦ rw (done, push_loop) (p, room, ground arith)
      | inl more ↦
          let e = push_step-IsProgress input whole s room (ground arith) p in
          rw (more, push_loop)
            (push_loop-IsProgress fuel input whole (push_step input s) (omega (arith, e.2)) e.1 e.0)
    ]

length-flatten_exact :
    (xss : List (List Sample))
    → All (λ f. length f ≡ model_frame_samples) xss
    → length (flatten xss) ≡ 512 * length xss
unfolding flatten
length-flatten_exact [] h = refl
length-flatten_exact (xs ∷ xss) h =
    omega (arith, length-append xs (flatten xss), length-flatten_exact xss h.1)

-- A chunk within the callback bound is accepted. What was waiting, followed by the sanitized
-- chunk, is exactly the emitted frames followed by what waits afterwards; every emitted frame has
-- 512 samples, fewer than 512 samples wait, the storage keeps its size, and the report counts the
-- chunk's samples and the emitted frames.
pub push_conserves :
    (a : FrameAssembler) (input : List Sample)
    → IsValid a
    → length input ≤ max_callback_frames
    → (s : PushState) × (push a input ≡ ok s)
      × IsValid s.assembler
      × (flatten s.frames ++ waiting s.assembler ≡ waiting a ++ map clean input)
      × All (λ f. length f ≡ model_frame_samples) s.frames
      × (s.report.accepted_samples ≡ length input)
      × (s.report.emitted_frames ≡ length s.frames)
unfolding push start_push flatten
push_conserves a input v h =
    let s : PushState = push_loop (length input) input (start_push a input) in
    let e =
      push_loop-IsProgress (length input) input (waiting a ++ map clean input) (start_push a input)
        (omega arith) v.room
        (record {
          sized = v.sized;
          conserved = refl;
          in_range = omega arith;
          exact = tt;
          counted = refl;
          accepted = refl;
        }) in
    let p = e.0 in
    let same : flatten s.frames ++ waiting s.assembler ≡ waiting a ++ map clean input =
      ap (◌++◌ (flatten s.frames)) (
        sym (append-nil (waiting s.assembler))
        ∙ ap (λ l. waiting s.assembler ++ map clean l) (sym (drop_all s.consumed input e.2)))
      ∙ p.conserved in
    (
      s,
      ground arith,
      record { room = e.1; sized = p.sized },
      same,
      p.exact,
      p.accepted,
      omega (
        arith,
        p.counted,
        length-flatten_exact s.frames p.exact,
        ap length same,
        length-append (flatten s.frames) (waiting s.assembler),
        length-append (waiting a) (map clean input),
        length-map input clean,
        length-take a.pending a.storage,
      ),
    )
