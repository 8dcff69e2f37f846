-- ===== src/OutputChain/Collector.antt =====
-- src/processor/output_chain.rs, `OutputBlockCollector`: the limiter, the observation of an open
-- tail, the noise shaper, and the samples they give. A method returns its result, the samples it
-- leaves in the borrowed block, and the new collector.
use audio_engine_core.Base.{
  ℕ, zero, suc, ◌+◌, ◌-◌, ◌*◌, ◌/◌, min, Bool, true, false, not, ◌||◌, Option, none, some, List, [],
  ◌++◌, ltb, leb, ◌==◌, if◌then◌else◌, is_some, length, take, drop, overwrite,
}
use Prim.Native.String.{String}
use mathlib.Core.List.{map}
use audio_engine_core.Base.Results.{ok, err, ◌>>=◌}
use audio_engine_core.Float.{Float}
use audio_engine_core.Traits.{
  in_place, ProcessProgress, Outcome, backend, is_finished, StreamingProcessor, process_checked,
  finish_checked,
}
use audio_engine_core.DspChain.{block_of}
use audio_engine_core.OutputChain.{UnknownTailPolicy, timed}
use audio_engine_core.OutputChain.Tail.{
  TailObservation, ObservationDecision, new_observation, observe, remaining_capacity_frames,
}

-- `OutputBlockCollector`
pub record Collector (F S : Type 0) : Type 0 where
  pub channels : ℕ
  pub limiter : S
  pub noise_shaper : S
  pub samples : List F
  pub observation : Option (TailObservation F)
  pub tail_truncated : Bool

-- What a method leaves: its result, the block, and the collector.
abbrev pub Left : Type 0 → Type 0 → Type 0
Left F S = Outcome (Unit {0}) × List F × Collector F S

module _ {F S : Type 0} where
  abbrev pub new_collector : ℕ → S → S → Collector F S
  new_collector channels limiter noise_shaper = record {
    channels = channels;
    limiter = limiter;
    noise_shaper = noise_shaper;
    samples = [];
    observation = none;
    tail_truncated = false;
  }

  unfoldable pub observation_stopped : Collector F S → Bool
  observation_stopped c = elim c.observation [ none ↦ false | some o ↦ o.stopped ]

  abbrev pub observation_active : Collector F S → Bool
  observation_active c = is_some c.observation

  unfoldable pub observation_capacity_frames : Collector F S → ℕ → ℕ
  observation_capacity_frames c requested = elim c.observation [
    | none ↦ requested
    | some o ↦ min requested (remaining_capacity_frames o)
  ]

  unfoldable pub end_observation : Collector F S → Collector F S
  end_observation c = elim c.observation [
    | none ↦ c
    | some o ↦ record c { observation = none; tail_truncated = c.tail_truncated || o.capped }
  ]

  abbrev pub mark_tail_truncated : Collector F S → Collector F S
  mark_tail_truncated c = record c { tail_truncated = true }

  unfoldable pub into_output : Collector F S → List F × Bool
  into_output c = let c1 = end_observation c in (c1.samples, c1.tail_truncated)

  -- `self.samples.truncate(frame * self.channels)`
  unfoldable pub truncate_to : Option ℕ → Collector F S → Collector F S
  truncate_to none c = c
  truncate_to (some frame) c = record c { samples = take (frame * c.channels) c.samples }

  -- Where the loop of `push_pre_limiter` is left.
  abbrev pub leaves : Collector F S → (processed total : ℕ) → Bool
  leaves c processed total =
      not (ltb processed total)
      || (observation_stopped c || observation_capacity_frames c (total - processed) == 0)

-- The loop of `finish_limiter` and of `RateBoundary::finish`: rounds that render into `scratch`, until
-- one reports the end. `none` means that the fuel ran out.
unfoldable pub finish_loop :
    {A W : Type 0}
    → (processor message : String) → (channels : ℕ)
    → (W → List A → ℕ → Outcome ProcessProgress × List A × W)
    → ℕ
    → W
    → List A
    → (generated limit : ℕ) → Option (Outcome (Unit {0}) × List A × W)
finish_loop processor message channels round zero w scratch generated limit = none
finish_loop processor message channels round (suc fuel) w scratch generated limit =
    if leb limit generated
    then some (err (backend processor "finish" message), scratch, w)
    else let (outcome, scratch', w') =
        round w scratch (min (length scratch / channels) (limit - generated)) in
      elim outcome [
        | err e ↦ some (err e, scratch', w')
        | ok p ↦ (elim (is_finished p.state) [
          | true ↦ some (ok tt, scratch', w')
          | false ↦
              finish_loop processor message channels round fuel w' scratch'
                (generated + p.produced_frames) limit
        ])
      ]

module _ (N : Float) {S : Type 0} where
  open N use {F}

  unfoldable pub begin_observation :
      Collector F S → UnknownTailPolicy F → ℕ → ℕ → Outcome (Collector F S)
  begin_observation c policy rate protected = do
    o ← timed (new_observation N policy rate protected)
    ok (record c { observation = some o })

  -- The decision about a block in `push_post_limiter`.
  unfoldable pub decide : Collector F S → List F → ObservationDecision × Option (TailObservation F)
  decide c block = elim c.observation [
    | none ↦ (record { keep_frames = length block / c.channels; truncate_to_frame = none }, none)
    | some o ↦
        let (decision, o') = observe N o block c.channels (length c.samples / c.channels) in
        (decision, some o')
  ]

module _ (N : Float) {S : Type 0} (P : StreamingProcessor N.F S) where
  open N use {F}

  -- The borrowed slice keeps its length, whatever the processor writes to it.
  unfoldable pub process_fixed_stage : S → List F → ℕ → Outcome ProcessProgress × List F × S
  process_fixed_stage s buffer channels = elim (block_of buffer channels) [
    | err e ↦ (err e, buffer, s)
    | ok block ↦
        let (outcome, samples, s') = process_checked P s (in_place block) in
        (outcome, overwrite buffer 0 samples, s')
  ]

  -- The kept samples are shaped, narrowed to `f32` and appended.
  unfoldable pub retain : Collector F S → List F → ℕ → Left F S
  retain c block keep =
      let (outcome, shaped, s) = process_fixed_stage c.noise_shaper (take keep block) c.channels in
      if ltb 0 keep
      then (
        (do _ ← outcome; ok tt),
        overwrite block 0 shaped,
        elim outcome [
          | err e ↦ record c { noise_shaper = s }
          | ok p ↦ record c { noise_shaper = s; samples = c.samples ++ map N.narrow shaped }
        ],
      )
      else (ok tt, block, c)

  unfoldable pub push_post_limiter : Collector F S → List F → Left F S
  push_post_limiter c block =
      if observation_stopped c
      then (ok tt, block, c)
      else let (decision, observation) = decide N c block in
        let (outcome, block', c1) =
          retain (record c { observation = observation }) block
            (decision.keep_frames * c.channels) in
        elim outcome [
          | err e ↦ (err e, block', c1)
          | ok _ ↦ (ok tt, block', truncate_to decision.truncate_to_frame c1)
        ]

  -- One round of `push_pre_limiter`, over a chunk of the block
  unfoldable pub push_chunk : Collector F S → List F → Left F S
  push_chunk c chunk =
      let (outcome, limited, s) = process_fixed_stage c.limiter chunk c.channels in
      elim outcome [
        | err e ↦ (err e, limited, record c { limiter = s })
        | ok p ↦ push_post_limiter (record c { limiter = s }) limited
      ]

  -- The `while` loop of `push_pre_limiter`; the rounds bound it, and are enough at the frames left.
  unfoldable pub push_frames : ℕ → Collector F S → List F → (processed total : ℕ) → Left F S
  push_frames zero c block processed total = (ok tt, block, c)
  push_frames (suc rounds) c block processed total =
      let frames = observation_capacity_frames c (total - processed) in
      if leaves c processed total
      then (ok tt, block, c)
      else let (outcome, chunk, c1) =
          push_chunk c (take (frames * c.channels) (drop (processed * c.channels) block)) in
        let block' = overwrite block (processed * c.channels) chunk in
        elim outcome [
          | err e ↦ (err e, block', c1)
          | ok _ ↦ push_frames rounds c1 block' (processed + frames) total
        ]

  abbrev pub push_pre_limiter : Collector F S → List F → Left F S
  push_pre_limiter c block =
      let total = length block / c.channels in push_frames total c block 0 total

  -- A round of `finish_limiter` that did not fail goes on or leaves the loop.
  unfoldable pub limiter_round :
      Collector F S → List F → ℕ → Outcome ProcessProgress × List F × Collector F S
  limiter_round c scratch capacity =
      elim (block_of (take (capacity * c.channels) scratch) c.channels) [
        | err e ↦ (err e, scratch, c)
        | ok block ↦
            let (outcome, rendered, s) = finish_checked P c.limiter block in
            let scratch1 = overwrite scratch 0 rendered in
            let c1 = record c { limiter = s } in
            elim outcome [
              | err e ↦ (err e, scratch1, c1)
              | ok p ↦
                  let (pushed, head, c2) =
                    push_post_limiter c1 (take (p.produced_frames * c.channels) scratch1) in
                  ((do _ ← pushed; ok p), overwrite scratch1 0 head, c2)
            ]
      ]

  abbrev pub finish_limiter : ℕ → Collector F S → List F → ℕ → Option (Left F S)
  finish_limiter fuel c scratch limit =
      finish_loop "PeakLimiter" "limiter finish exceeded its declared bound" c.channels
        limiter_round fuel c scratch 0 limit

  unfoldable pub finish_noise_shaper : Collector F S → Outcome (Unit {0}) × Collector F S
  finish_noise_shaper c = elim (block_of [] c.channels) [
    | err e ↦ (err e, c)
    | ok block ↦
        let (outcome, rendered, s) = finish_checked P c.noise_shaper block in
        (
          (do
            p ← outcome
            if not (is_finished p.state) || not (p.produced_frames == 0)
                then err (
                    backend "NoiseShaper" "finish"
                      "terminal noise shaper produced unexpected output")
                else ok tt),
          record c { noise_shaper = s },
        )
  ]
