-- ===== src/DspChain/Finish.antt =====
-- `finish_with_policy`: the stages are drained in order, each through all that follow it. A stage
-- whose tail has no known end is cut once its output has been quiet for long enough, or too long.
use audio_engine_core.Base.{
  ℕ, zero, suc, ◌+◌, ◌-◌, ◌*◌, min, max, Bool, false, not, ◌&&◌, ◌||◌, Option, none, some, List, [],
  ◌∷◌, leb, ◌==◌, if◌then◌else◌, is_none, saturating_add, take, drop, u64_max,
}
use audio_engine_core.Base.Results.{ok, err, ◌>>=◌, ◌>>◌, refuse, ok_or}
use audio_engine_core.Float.{Float}
use audio_engine_core.Timing.{FrameDuration, finite, zero_sample_rate}
use audio_engine_core.Traits.{
  in_place, Outcome, invalid_timing, backend, StreamingProcessor, process_checked,
}
use audio_engine_core.DspChain.{DspChain, block_of}

module _ (N : Float) where
  open N use {F}

  -- `FrameDuration::frames_at_rate_f64`
  unfoldable pub frames_at_rate : FrameDuration → ℕ → Outcome F
  frames_at_rate d target = do
    refuse (target == 0) (invalid_timing zero_sample_rate)
    elim d.sample_rate_hz [
      | none ↦ ok N.zero
      | some source ↦ ok (N.div (N.mul (N.of_ℕ d.frames) (N.of_ℕ target)) (N.of_ℕ source))
    ]

  unfoldable pub power_sum : F → List F → F
  power_sum acc [] = acc
  power_sum acc (x ∷ xs) = power_sum (N.add acc (N.mul x x)) xs

  -- The quiet frames in a row after `n` more frames: a loud frame starts again.
  unfoldable pub count_quiet : F → ℕ → ℕ → List F → ℕ → ℕ
  count_quiet threshold channels zero samples quiet = quiet
  count_quiet threshold channels (suc n) samples quiet =
      let power = N.div (power_sum N.zero (take channels samples)) (N.of_ℕ (max channels 1)) in
      let loud = not (N.is_finite power) || N.lt threshold power in
      count_quiet threshold channels n (drop channels samples)
        (if loud then 0 else saturating_add quiet 1)

  module _ {S : Type 0} where
    unfoldable pub observe_finish_energy : DspChain F S → List F → ℕ → ℕ → (Bool × ℕ) × DspChain F S
    observe_finish_energy c samples channels frames =
        let shielded = min c.finish_protected_frames frames in
        let observed = frames - shielded in
        let c1 = record c { finish_protected_frames = c.finish_protected_frames - shielded } in
        let quiet =
          count_quiet c.finish_threshold_power channels observed
            (drop (shielded * channels) samples) c.finish_quiet_frames in
        elim c.finish_policy [
          | none ↦ ((false, 0), c)
          | some policy ↦ if observed == 0 then ((false, 0), c1) else (
            (leb policy.silence_hold_frames quiet, observed),
            record c1 { finish_quiet_frames = quiet },
          )
        ]

  module _ {S : Type 0} (P : StreamingProcessor F S) where
    -- `tail_energy_observation_end_stage`: the first barrier from `index` on, or the end
    unfoldable pub barrier_from : ℕ → List S → ℕ
    barrier_from index [] = index
    barrier_from index (s ∷ stages) =
        if P.tail_energy_observation_barrier s then index else barrier_from (index + 1) stages

    abbrev pub tail_energy_observation_end_stage : DspChain F S → ℕ → ℕ
    tail_energy_observation_end_stage c stage =
        barrier_from (stage + 1) (drop (stage + 1) c.processors)

    unfoldable pub sum_protected : ℕ → F → List S → Outcome F
    sum_protected rate total [] = ok total
    sum_protected rate total (s ∷ stages) = do
      latency ← frames_at_rate (P.latency s) rate
      total' ← (elim (P.tail s) [
        | finite d ↦ (do tail ← frames_at_rate d rate; ok (N.add (N.add total latency) tail))
        | _ ↦ ok (N.add total latency)
      ])
      sum_protected rate total' stages

    -- `downstream_finish_protected_frames`
    unfoldable pub protected_frames : DspChain F S → ℕ → ℕ → Outcome ℕ
    protected_frames c stage end_stage = do
      total ←
          sum_protected c.sample_rate_hz N.zero (take (end_stage - stage) (drop stage c.processors))
      refuse (not (N.is_finite total) || (N.lt total N.zero || N.lt (N.of_ℕ u64_max) total)) (
          backend "DspChain" "compose finish timing"
            "downstream finish protection exceeds the frame domain")
      ok (N.ceil_usize total)

    -- The first time that the loop meets a stage of unknown tail, it starts to observe it.
    unfoldable pub arm_unknown : DspChain F S → Bool → Outcome (Unit {0}) × DspChain F S
    arm_unknown c unknown =
        let stage = c.finish_stage in
        let known : Bool = elim c.finish_unknown_stage [ none ↦ false | some u ↦ u == stage ] in
        let end_stage = tail_energy_observation_end_stage c stage in
        let begun = record c {
          finish_unknown_stage = some stage;
          finish_observation_end_stage = end_stage;
        } in
        if unknown && not known
        then (elim (protected_frames c stage end_stage) [
          | err e ↦ (err e, begun)
          | ok n ↦ (
            ok tt,
            record begun {
              finish_protected_frames = n;
              finish_quiet_frames = 0;
              finish_generated_frames = 0;
            },
          )
        ])
        else (ok tt, c)

    -- The frames that the stage may still render of the `room` left; 0 cuts it.
    unfoldable pub allowance : DspChain F S → Bool → ℕ → Outcome ℕ
    allowance c unknown room =
        if unknown
        then (do
          policy ←
              ok_or c.finish_policy
                (backend "DspChain" "finish" "finish policy was not initialized")
          let remaining_observed = policy.max_tail_frames - c.finish_generated_frames
          let remaining_quiet = policy.silence_hold_frames - c.finish_quiet_frames
          ok (
              min room (
                saturating_add c.finish_protected_frames (min remaining_observed remaining_quiet))))
        else ok room

    -- The segment goes through the stages from `index` on; where the observation ends among them,
    -- the energy is taken before that stage.
    unfoldable pub pass_on :
        Bool
        → ℕ
        → ℕ
        → ℕ
        → Option (Bool × ℕ)
        → DspChain F S
        → List F
        → List S
        → Outcome (Option (Bool × ℕ)) × List F × List S × DspChain F S
    pass_on unknown channels frames index seen c samples [] = (ok seen, samples, [], c)
    pass_on unknown channels frames index seen c samples (s ∷ stages) =
        let here = unknown && (is_none seen && index == c.finish_observation_end_stage) in
        let (now, c1) = observe_finish_energy c samples channels frames in
        let seen' = if here then some now else seen in
        let c' = if here then c1 else c in
        elim (block_of samples channels) [
          | err e ↦ (err e, samples, s ∷ stages, c')
          | ok block ↦
              let (outcome, samples', s') = process_checked P s (in_place block) in
              let (rest, samples'', stages', c'') =
                pass_on unknown channels frames (index + 1) seen' c' samples' stages in
              elim outcome [
                | err e ↦ (err e, samples', s' ∷ stages, c')
                | ok _ ↦ (rest, samples'', s' ∷ stages', c'')
              ]
        ]
