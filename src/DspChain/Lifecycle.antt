-- ===== src/DspChain/Lifecycle.antt =====
-- How `process`, `finish_with_policy` and `reset` of a chain follow each other, and what the loops
-- of `process` and `reset` compute.
use audio_engine_core.Base.{suc, ap, inl, inr, ℕ, ◌≡◌, refl, false, List, [], ◌∷◌, arith, length}
use audio_engine_core.Base.Results.{Result-cases, ok, err}
use audio_engine_core.AudioBlock.{AudioBlock}
use audio_engine_core.Float.{Float}
use audio_engine_core.Traits.{in_place, Outcome, StreamingProcessor, process_checked}
use audio_engine_core.DspChain.{
  block_of, DspChain, finish_started, process_stages, process, reset_stages, reset,
}

module _ (N : Float) {S : Type 0} (P : StreamingProcessor N.F S) where
  open N use {F}

  -- The first error of the stages' own resets, if any.
  abbrev pub first_error : List S → Outcome (Unit {0})
  first_error [] = ok tt
  first_error (s ∷ stages) = elim (P.reset s).0 [ ok u ↦ first_error stages | err e ↦ err e ]

  abbrev pub all_reset : List S → List S
  all_reset [] = []
  all_reset (s ∷ stages) = (P.reset s).1 ∷ all_reset stages

  reset_stages-first : (stages : List S) → (reset_stages N P stages).0 ≡ first_error stages
  unfolding reset_stages
  reset_stages-first [] = refl
  reset_stages-first (s ∷ stages) =
      ap (λ (o : Outcome (Unit {0})). elim (P.reset s).0 [ ok u ↦ o | err e ↦ err e ])
        (reset_stages-first stages)

  reset_stages-all : (stages : List S) → (reset_stages N P stages).1 ≡ all_reset stages
  unfolding reset_stages
  reset_stages-all [] = refl
  reset_stages-all (s ∷ stages) = ap (λ (ss : List S). (P.reset s).1 ∷ ss) (reset_stages-all stages)

  -- `reset` resets every stage, also past one that fails, reports the first error, and leaves a
  -- chain that `process` does not refuse.
  pub reset-all :
      (c : DspChain F S)
      → ((reset N P c).0 ≡ first_error c.processors)
        × ((reset N P c).1.processors ≡ all_reset c.processors)
        × (finish_started (reset N P c).1 ≡ false)
  unfolding reset
  reset-all c = (reset_stages-first c.processors, reset_stages-all c.processors, refl)

  length-process_stages :
      (stages : List S) (block : AudioBlock F)
      → length (process_stages N P stages block).2 ≡ length stages
  unfolding process_stages
  length-process_stages [] block = refl
  length-process_stages (s ∷ stages) block = ground (
    arith,
    length-process_stages stages
        (record block { samples = (process_checked P s (in_place block)).1 }),
  )

  -- What `process` leaves alone.
  pub record Keeps (c c' : DspChain F S) : Type 0 where
    pub stages : length c'.processors ≡ length c.processors
    pub stage : c'.finish_stage ≡ c.finish_stage
    pub started : finish_started c' ≡ finish_started c

  pub process-Keeps :
      (c : DspChain F S) (samples : List F) (channels : ℕ)
      → Keeps c (process N P c samples channels).2
  unfolding process
  process-Keeps c samples channels = elim (Result-cases (block_of samples channels)) [
    | inl (block, e) ↦ ground (arith, length-process_stages c.processors block)
    | inr (x, e) ↦ ground arith
  ]

  length-reset_stages : (stages : List S) → length (reset_stages N P stages).1 ≡ length stages
  unfolding reset_stages
  length-reset_stages [] = refl
  length-reset_stages (s ∷ stages) = ap (λ (n : ℕ). suc n) (length-reset_stages stages)

  -- After a reset the chain keeps its stages, and nothing of a drain is left.
  pub reset_lem :
      (c : DspChain F S)
      → (length (reset N P c).1.processors ≡ length c.processors)
        × ((reset N P c).1.finish_stage ≡ 0)
        × ((reset N P c).1.finish_complete ≡ false)
        × (finish_started (reset N P c).1 ≡ false)
  unfolding reset
  reset_lem c = (length-reset_stages c.processors, refl, refl, refl)
