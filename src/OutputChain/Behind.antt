-- ===== src/OutputChain/Behind.antt =====
-- What `process_after` and `finish` of `SourcePipeline` do to its stages.
use audio_engine_core.Base.{
  ℕ, ◌≡◌, ◌/◌, subst, refl, sym, ◌∙◌, ap, Bool, true, false, Option, none, some, List, [], ◌∷◌,
  arith, if◌then◌else◌, length, inl, inr, Bool-cases,
}
use audio_engine_core.Base.Results.{ok, err, ◌>>=◌, Result-cases}
use audio_engine_core.Traits.{ProcessProgress, Outcome, backend, StreamingProcessor}
use audio_engine_core.Float.{Float}
use audio_engine_core.DspChain.{block_of}
use audio_engine_core.OutputChain.Collector.{process_fixed_stage}
use audio_engine_core.Traits.{capacity_for_finish}
use audio_engine_core.Traits.Progress.{WithinCapacity, Honest, finish_checked-Honest}
use audio_engine_core.OutputChain.Collected.{length-fixed_stage}
use audio_engine_core.OutputChain.Room.{block_of_frames}
use audio_engine_core.OutputChain.Sources.{
  OutputStageId, same_id, SourcePipeline, stage, set_stage, Staged, process_ids, process_past,
  process_all, process_after, source_ids, manifest, finish_id, volume, equalizer, saturation,
  crossfeed, convolver, dynamic_loudness, peak_limiter, resampler, noise_shaper, quantize,
}

-- The stages behind a target, if it is there.
unfoldable pub behind : OutputStageId → List OutputStageId → Option (List OutputStageId)
behind target [] = none
behind target (id ∷ ids) =
    let rest = behind target ids in if same_id target id then some ids else rest

set_stage-channels :
    {S : Type 0} (id : OutputStageId) (s : S) (p : SourcePipeline S)
    → (set_stage id s p).channels ≡ p.channels
unfolding set_stage
set_stage-channels volume s p = refl
set_stage-channels equalizer s p = refl
set_stage-channels saturation s p = refl
set_stage-channels crossfeed s p = refl
set_stage-channels convolver s p = refl
set_stage-channels dynamic_loudness s p = refl
set_stage-channels peak_limiter s p = refl
set_stage-channels resampler s p = refl
set_stage-channels noise_shaper s p = refl
set_stage-channels quantize s p = refl

module _ (N : Float) {S : Type 0} (P : StreamingProcessor N.F S) where
  open N use {F}

  abbrev mark_found : Staged F S → Outcome Bool × List F × SourcePipeline S
  mark_found (outcome, samples, p) = ((do _ ← outcome; ok true), samples, p)

  past-ids :
      (ids : List OutputStageId) (target : OutputStageId) (p : SourcePipeline S) (buffer : List F)
      → process_past N P ids target true p buffer ≡ mark_found (process_ids N P ids p buffer)
  unfolding process_past process_ids
  past-ids [] target p buffer = refl
  past-ids (id ∷ ids) target p buffer = elim (Result-cases run.0) [
    | inl (u, e) ↦
        rw (process_past, process_ids, e) (past-ids ids target (set_stage id run.2 p) run.1)
    | inr (x, e) ↦ rw (process_past, process_ids, e) refl
  ]
    where
      run : Outcome ProcessProgress × List F × S
      run = process_fixed_stage N P (stage id p) buffer p.channels

  past-behind :
      (all ids : List OutputStageId) (target : OutputStageId) (p : SourcePipeline S)
      (buffer : List F)
      → behind target all ≡ some ids
      → process_past N P all target false p buffer ≡ process_past N P ids target true p buffer
  unfolding process_past behind
  past-behind [] ids target p buffer e = absurd (ground arith)
  past-behind (id ∷ all) ids target p buffer e = elim (Bool-cases (same_id target id)) [
    | inl here ↦
        let found : all ≡ ids = ground arith in
        ap (λ (b : Bool). process_past N P all target b p buffer) here
        ∙ ap (λ (t : List OutputStageId). process_past N P t target true p buffer) found
    | inr further ↦
        ap (λ (b : Bool). process_past N P all target b p buffer) further
        ∙ past-behind all ids target p buffer (ground arith)
  ]

  -- For a target among the source stages, `process_after` runs just the stages behind it, in the
  --   order of the manifest.
  pub process_after-behind :
      (p : SourcePipeline S) (target : OutputStageId) (buffer : List F) (ids : List OutputStageId)
      → behind target (source_ids manifest) ≡ some ids
      → process_after N P p target buffer ≡ process_ids N P ids p buffer
  unfolding process_after
  process_after-behind p target buffer ids e =
      rw
        (
          process_after,
          past-behind (source_ids manifest) ids target p buffer e ∙ past-ids ids target p buffer,
        )
        (unwrap (process_ids N P ids p buffer))
    where
      unwrap :
          (r : Staged F S)
          → ◌≡◌ {A = Staged F S}
              (
                (do
                  found ← (do _ ← r.0; ok true)
                  if found
                      then ok tt
                      else err (
                          backend "OutputRenderChain" "process source tail"
                            "source finish stage is absent from the canonical manifest")),
                r.1,
                r.2,
              )
              r
      unwrap (ok u, samples, q) = refl
      unwrap (err x, samples, q) = refl

  -- The stages keep the length of a buffer, and the pipeline its channels.
  process_past-kept :
      (ids : List OutputStageId) (target : OutputStageId) (found : Bool) (p : SourcePipeline S)
      (buffer : List F)
      → (length (process_past N P ids target found p buffer).1 ≡ length buffer)
        × ((process_past N P ids target found p buffer).2.channels ≡ p.channels)
  unfolding process_past
  process_past-kept [] target found p buffer = (refl, refl)
  process_past-kept (id ∷ ids) target false p buffer =
      process_past-kept ids target (same_id target id) p buffer
  process_past-kept (id ∷ ids) target true p buffer = elim (Result-cases run.0) [
    | inl (u, e) ↦
        let rest = process_past-kept ids target true (set_stage id run.2 p) run.1 in
        rw (process_past, e) (rest.0 ∙ room, rest.1 ∙ set_stage-channels id run.2 p)
    | inr (x, e) ↦ rw (process_past, e) (room, set_stage-channels id run.2 p)
  ]
    where
      run : Outcome ProcessProgress × List F × S
      run = process_fixed_stage N P (stage id p) buffer p.channels

      room : length run.1 ≡ length buffer
      room = length-fixed_stage N P (stage id p) buffer p.channels

  pub process_after-kept :
      (p : SourcePipeline S) (target : OutputStageId) (buffer : List F)
      → (length (process_after N P p target buffer).1 ≡ length buffer)
        × ((process_after N P p target buffer).2.channels ≡ p.channels)
  unfolding process_after
  process_after-kept p target buffer = process_past-kept (source_ids manifest) target false p buffer

  pub process_all-kept :
      (p : SourcePipeline S) (buffer : List F)
      → (length (process_all N P p buffer).1 ≡ length buffer)
        × ((process_all N P p buffer).2.channels ≡ p.channels)
  process_all-kept p buffer =
      let kept = process_past-kept (source_ids manifest) convolver true p buffer in
      let same = past-ids (source_ids manifest) convolver p buffer in
      (ap (λ t. length t.1) (sym same) ∙ kept.0, ap (λ t. t.2.channels) (sym same) ∙ kept.1)

  -- A finish of a stage reports like its processor, which is checked, and keeps the channels.
  pub finish_id-Honest :
      (ids : List OutputStageId) (p : SourcePipeline S) (target : OutputStageId) (scratch : List F)
      → ((finish_id N P ids p target scratch).2.channels ≡ p.channels)
        × ((q : ProcessProgress)
            → (finish_id N P ids p target scratch).0 ≡ ok q
            → WithinCapacity (capacity_for_finish (length scratch / p.channels)) q
              × Honest (capacity_for_finish (length scratch / p.channels)) q)
  unfolding finish_id
  finish_id-Honest [] p target scratch = (refl, λ q h. absurd (ground arith))
  finish_id-Honest (id ∷ ids) p target scratch = elim (Bool-cases (same_id target id)) [
    | inr further ↦ rw (finish_id, further) (finish_id-Honest ids p target scratch)
    | inl here ↦ elim (Result-cases (block_of scratch p.channels)) [
      | inr (x, e) ↦ rw (finish_id, here, e) (refl, λ q h. absurd (ground arith))
      | inl (b, e) ↦
          rw (finish_id, here, e)
            (
              set_stage-channels id _ p,
              λ q h.
                  subst
                    (λ (t : ℕ).
                      WithinCapacity (capacity_for_finish t) q × Honest (capacity_for_finish t) q)
                    (block_of_frames scratch p.channels e)
                    (finish_checked-Honest P (stage id p) b h),
            )
    ]
  ]
