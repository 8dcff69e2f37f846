-- ===== src/DspChain/Segment.antt =====
-- One round of the loop of `finish_with_policy`, the loop, and the method.
use audio_engine_core.Base.{
  ℕ, zero, suc, ◌+◌, ◌-◌, ◌*◌, Bool, true, not, ◌&&◌, ◌||◌, Option, none, some, List, [], ◌∷◌, ltb,
  leb, ◌==◌, if◌then◌else◌, is_none, saturating_add, length, get_elem?, take, drop, overwrite,
  unwrap_or,
}
use audio_engine_core.Base.Results.{ok, err, ◌>>=◌}
use audio_engine_core.AudioBlock.{AudioBlock}
use audio_engine_core.Float.{Float}
use audio_engine_core.Traits.{
  ProcessState, need_input, need_output, finished, ProcessProgress, ProcessError, Outcome, backend,
  progress, finished_with, StreamingProcessor, unknown_tail, finish_checked,
}
use audio_engine_core.DspChain.{
  ChainFinishPolicy, DspChain, block_of, validate_policy, threshold_power, next_stage,
}
use audio_engine_core.DspChain.Finish.{observe_finish_energy, arm_unknown, allowance, pass_on}

-- Where the drain stands: the chain, the output so far, the frames produced.
pub record Drain (F S : Type 0) : Type 0 where
  pub chain : DspChain F S
  pub output : List F
  pub produced : ℕ

-- How a round ends: the loop goes on, or breaks, or the method returns an error.
pub data Round (F S : Type 0) : Type 0 where
  again : Drain F S → Round F S
  stop : Drain F S → Round F S
  fail : ProcessError → Drain F S → Round F S

module _ (N : Float) {S : Type 0} (P : StreamingProcessor N.F S) where
  open N use {F}

  -- After a segment of `produced` frames of an unknown tail: the stage ends when it is quiet, or has
  -- rendered the longest tail.
  unfoldable pub close_observation : DspChain F S → Bool × ℕ → Outcome (Unit {0}) × DspChain F S
  close_observation c (quiet, observed) =
      let c1 = record c {
        finish_generated_frames = saturating_add c.finish_generated_frames observed;
      } in
      elim c.finish_policy [
        | none ↦ (err (backend "DspChain" "finish" "finish policy was not initialized"), c1)
        | some policy ↦ (
          ok tt,
          if quiet || leb policy.max_tail_frames c1.finish_generated_frames
              then next_stage (record c1 { finish_capped = c1.finish_capped || not quiet })
              else c1,
        )
      ]

  -- The `produced` frames of `segment` go through the later stages and are observed.
  unfoldable pub render_segment :
      DspChain F S → ℕ → Bool → List F → ℕ → ℕ → Outcome (Unit {0}) × List F × DspChain F S
  render_segment c stage unknown segment channels produced =
      let (now, c0) = observe_finish_energy N c segment channels produced in
      let early = unknown && leb c.finish_observation_end_stage (stage + 1) in
      let before = take (stage + 1) c.processors in
      let (outcome, samples, stages, c1) =
        pass_on N P unknown channels produced (stage + 1) (if early then some now else none)
          (if early then c0 else c) segment (drop (stage + 1) c.processors) in
      let c2 = record c1 { processors = overwrite c.processors (stage + 1) stages } in
      elim outcome [
        | err e ↦ (err e, samples, c2)
        | ok seen ↦
            if unknown
            then (let (late, c3) = observe_finish_energy N c2 samples channels produced in
                let (closed, c4) =
                  close_observation (if is_none seen then c3 else c2) (unwrap_or seen late) in
                (closed, samples, c4))
            else (ok tt, samples, c2)
      ]

  -- How a round ends once the stage at `stage` has reported `state`.
  unfoldable pub after_stage : ℕ → ProcessState → ℕ → Drain F S → Round F S
  after_stage stage state capacity d =
      let here = d.chain.finish_stage == stage in
      elim state [
        | need_input ↦ again d
        | need_output ↦
            if here then if ltb d.produced capacity then again d else stop d else again d
        | finished ↦ if here then again (record d { chain = next_stage d.chain }) else again d
      ]

  -- The stage has reported `p` and left `rendered` in the output.
  unfoldable pub pass_segment :
      Drain F S → DspChain F S → List F → Bool → ℕ → ℕ → ProcessProgress → Round F S
  pass_segment d c rendered unknown channels capacity p =
      let stage = d.chain.finish_stage in
      let start = d.produced * channels in
      let segment = take (p.produced_frames * channels) (drop start rendered) in
      let (passed, samples, c') =
        render_segment c stage unknown segment channels p.produced_frames in
      if p.produced_frames == 0
      then after_stage stage p.state capacity (record d { chain = c; output = rendered })
      else elim passed [
        | err e ↦ fail e (record d { chain = c'; output = overwrite rendered start samples })
        | ok _ ↦ after_stage stage p.state capacity (record {
          chain = c';
          output = overwrite rendered start samples;
          produced = d.produced + p.produced_frames;
        })
      ]

  unfoldable pub drain_block : Drain F S → S → Bool → ℕ → ℕ → AudioBlock F → Round F S
  drain_block d s unknown channels capacity block =
      let (reported, samples, s') = finish_checked P s block in
      let c = record (d.chain) {
        processors = overwrite d.chain.processors d.chain.finish_stage (s' ∷ []);
      } in
      let rendered = overwrite d.output (d.produced * channels) samples in
      elim reported [
        | err e ↦ fail e (record d { chain = c; output = rendered })
        | ok p ↦ pass_segment d c rendered unknown channels capacity p
      ]

  -- The stage renders `room` frames at most.
  unfoldable pub drain_stage : Drain F S → S → Bool → ℕ → ℕ → ℕ → Round F S
  drain_stage d s unknown room channels capacity =
      elim (block_of (take (room * channels) (drop (d.produced * channels) d.output)) channels) [
        | err e ↦ fail e d
        | ok block ↦ drain_block d s unknown channels capacity block
      ]

  -- One round, for the stage `s` at `finish_stage`.
  unfoldable pub drain_round : Drain F S → S → ℕ → ℕ → Round F S
  drain_round d s channels capacity =
      let unknown = unknown_tail (P.tail s) in
      let (armed, c) = arm_unknown N P d.chain unknown in
      let d' = record d { chain = c } in
      elim armed [
        | err e ↦ fail e d'
        | ok _ ↦ elim (allowance N P c unknown (capacity - d.produced)) [
          | err e ↦ fail e d'
          | ok room ↦
              if room == 0
              then again (record d' { chain = next_stage (record c { finish_capped = true }) })
              else drain_stage d' s unknown room channels capacity
        ]
      ]

  -- The `while` loop; `none` means that the fuel ran out.
  unfoldable pub drain_loop : ℕ → Drain F S → ℕ → ℕ → Option (Round F S)
  drain_loop zero d channels capacity = none
  drain_loop (suc fuel) d channels capacity =
      if ltb d.produced capacity
      then elim (get_elem? d.chain.processors d.chain.finish_stage) [
        | none ↦ some (stop d)
        | some s ↦ elim (drain_round d s channels capacity) [
          | again d' ↦ drain_loop fuel d' channels capacity
          | stop d' ↦ some (stop d')
          | fail e d' ↦ some (fail e d')
        ]
      ]
      else some (stop d)

  -- What the method returns when the loop is left.
  unfoldable pub drain_result : ℕ → Drain F S → Outcome ProcessProgress × List F × DspChain F S
  drain_result capacity d =
      if leb (length d.chain.processors) d.chain.finish_stage
      then (ok (finished_with d.produced), d.output, record (d.chain) { finish_complete = true })
      else if d.produced == capacity
      then (ok (progress 0 d.produced need_output), d.output, d.chain)
      else (err (backend "DspChain" "finish" "stage made no finish progress"), d.output, d.chain)

  -- The policy is fixed by the first call.
  unfoldable pub fix_policy : DspChain F S → ChainFinishPolicy F → Outcome (DspChain F S)
  fix_policy c policy =
      if is_none c.finish_policy
      then (do
        valid ← validate_policy N policy
        ok (record c {
          finish_threshold_power = threshold_power N valid;
          finish_policy = some valid;
        }))
      else ok c

  -- `finish_with_policy`, with fuel for the loop
  unfoldable pub finish_with_policy :
      ℕ
      → DspChain F S
      → AudioBlock F
      → ChainFinishPolicy F
      → Option (Outcome ProcessProgress × List F × DspChain F S)
  finish_with_policy fuel c output policy =
      if c.finish_complete
      then some (ok (finished_with 0), output.samples, c)
      else elim (fix_policy c policy) [
        | err e ↦ some (err e, output.samples, c)
        | ok c1 ↦
            if length c1.processors == 0
            then some (ok (finished_with 0), output.samples, record c1 { finish_complete = true })
            else if output.frames == 0
            then some (ok (progress 0 0 need_output), output.samples, c1)
            else elim (drain_loop fuel
                (record { chain = c1; output = output.samples; produced = 0 }) output.channels
                output.frames) [
                  | none ↦ none
                  | some (fail e d) ↦ some (err e, d.output, d.chain)
                  | some (stop d) ↦ some (drain_result output.frames d)
                  | some (again d) ↦ some (drain_result output.frames d)
                ]
      ]

  -- `ChainFinishPolicy::default`
  abbrev pub default_policy : ChainFinishPolicy F
  default_policy = record {
    energy_threshold_dbfs = N.sub N.zero (N.of_ℕ 120);
    silence_hold_frames = 12000;
    max_tail_frames = 1440000;
  }

  abbrev pub finish :
      ℕ → DspChain F S → AudioBlock F → Option (Outcome ProcessProgress × List F × DspChain F S)
  finish fuel c output = finish_with_policy fuel c output default_policy
