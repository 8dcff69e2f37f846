-- ===== src/OutputChain/Exhausting.antt =====
-- Processors that cannot render for ever without input: those that run the shared helper of the
-- fixed one-to-one adapters, `process_fixed_1_to_1` of src/processor/adapters.rs.
use Prim.Native.String.{String}
use audio_engine_core.Base.{ℕ, ◌<◌, ◌≡◌, ◌∙◌, ap, Bool, Option, some, List, arith, min, inl, inr}
use audio_engine_core.Base.Results.{ok, Result-cases}
use audio_engine_core.Traits.{
  ProcessBuffers, ProcessProgress, Outcome, capacity, process_checked, StreamingProcessor,
}
use audio_engine_core.Traits.Progress.{validate-ok-eq}
use audio_engine_core.FixedStage.{process_fixed_1_to_1, run_body}
use audio_engine_core.OutputChain.Room.{Exhausts}

-- The frames that a one-to-one call moves.
abbrev moved : {A : Type 0} → ProcessBuffers A → ℕ
moved (ProcessBuffers.in_place block) = block.frames
moved (ProcessBuffers.out_of_place input output) = min input.frames output.frames

module _ {A S : Type 0} where
  process_fixed_1_to_1-moved :
      (body : List A → ℕ → S → Outcome (Unit {0}) × List A × S) (processor : String)
      (enabled : Bool) (expected : Option ℕ) (buffers : ProcessBuffers A) (s : S)
      {r : Outcome ProcessProgress × List A × S} {p : ProcessProgress}
      → process_fixed_1_to_1 processor enabled expected buffers body s ≡ some r
      → r.0 ≡ ok p
      → p.consumed_frames ≡ moved buffers
  unfolding process_fixed_1_to_1 run_body
  process_fixed_1_to_1-moved body processor enabled expected (ProcessBuffers.in_place block) s {r}
        {p} e h =
      ground (arith, e, h)
  process_fixed_1_to_1-moved body processor enabled expected
        (ProcessBuffers.out_of_place input output) s {r} {p} e h =
      ground (arith, e, h)

module _ {A S : Type 0} where
  -- Every call of the processor that succeeds is one of `process_fixed_1_to_1`.
  pub record IsFixed (P : StreamingProcessor A S) : Type 1 where
    pub State : Type 0
    pub body : List A → ℕ → State → Outcome (Unit {0}) × List A × State
    pub runs :
        (s : S) (buffers : ProcessBuffers A) (p : ProcessProgress)
        → (P.process s buffers).0 ≡ ok p
        → (processor : String) × (enabled : Bool) × (expected : Option ℕ) × (t : State)
          × (r : Outcome ProcessProgress × List A × State) × (process_fixed_1_to_1 processor enabled
                expected buffers body t
              ≡ some r)
          × (r.0 ≡ ok p)

  IsFixed-less :
      (P : StreamingProcessor A S)
      → IsFixed P
      → (s : S) (buffers : ProcessBuffers A) (p : ProcessProgress)
      → 0 < (capacity buffers).input_frames
      → 0 < (capacity buffers).output_frames
      → (process_checked P s buffers).0 ≡ ok p
      → p.consumed_frames ≡ 0
      → 0 < 0
  unfolding process_checked
  IsFixed-less P f s buffers p pos room e z = elim (Result-cases (P.process s buffers).0) [
    | inr (x, h) ↦ absurd (ground (arith, e, h))
    | inl (q, h) ↦
        let same : q ≡ p =
          validate-ok-eq (capacity buffers) (P.name (P.process s buffers).2) q
            (rw (process_checked, h) at e) in
        let (processor, enabled, expected, t, r, run, report) = f.runs s buffers q h in
        let count =
          process_fixed_1_to_1-moved f.body processor enabled expected buffers t run report in
        none_moved buffers q.consumed_frames pos room count
          (ap (λ (d : ProcessProgress). d.consumed_frames) same ∙ z)
  ]
    where
      none_moved :
          (b : ProcessBuffers A) (n : ℕ)
          → 0 < (capacity b).input_frames
          → 0 < (capacity b).output_frames
          → n ≡ moved b
          → n ≡ 0
          → 0 < 0
      none_moved (ProcessBuffers.in_place b) n pos room e z = omega arith
      none_moved (ProcessBuffers.out_of_place i o) n pos room e z = omega arith

  -- Such a processor holds nothing back.
  pub IsFixed-Exhausts : (P : StreamingProcessor A S) → IsFixed P → Exhausts P
  IsFixed-Exhausts P f = record {
    backlog = λ s. 0;
    most = 0;
    bounded = λ s. omega arith;
    less = IsFixed-less P f;
  }
