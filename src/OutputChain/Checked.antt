-- ===== src/OutputChain/Checked.antt =====
-- What a render refuses before it touches a stage, what its policy promises to the observation of a
-- tail, and the timeline of its result.
use audio_engine_core.Base.{
  ℕ, ◌-◌, ◌*◌, ◌/◌, ◌^◌, ◌≤◌, ◌<◌, ◌≡◌, ◌↔◌, refl, ◌∙◌, ap, min, true, false, List, arith, ◌==◌,
  length, drop, inl, inr, Bool-cases, length-drop, sub-mul-add,
}
use native.Mathlib.Nat.{mul-div_cancel}
use audio_engine_core.Base.Results.{ok, Result-cases}
use audio_engine_core.Float.{Float}
use audio_engine_core.Timing.{fit_usize}
use audio_engine_core.OutputChain.{
  compensated, raw_causal, UnknownTailPolicy, OfflineRenderPolicy, validate_render_policy,
  frames_for_milliseconds,
}
use audio_engine_core.OutputChain.Tail.{TailObservation, new_detector, new_observation}
use audio_engine_core.OutputChain.Observed.{IsObservation}
use audio_engine_core.OutputChain.Render.{trim_timeline}

-- A threshold that is finite and no more than full scale, and a hold that the longest tail can hold.
pub record IsRenderPolicy (N : Float) (p : UnknownTailPolicy N.F) : Type 0 where
  pub threshold_finite : N.is_finite p.energy_threshold_dbfs ≡ true
  pub threshold_low : N.lt N.zero p.energy_threshold_dbfs ≡ false
  pub hold_pos : 0 < p.silence_hold_ms
  pub hold_fits : p.silence_hold_ms ≤ p.max_tail_ms

frames_pos :
    (ms rate n : ℕ) → 0 < ms → frames_for_milliseconds ms rate ≡ ok n → (0 < n) × (n < 2 ^ 64)
unfolding frames_for_milliseconds fit_usize
frames_pos ms rate n pos e = elim (Bool-cases (rate == 0)) [
  | inl zero_rate ↦ absurd (ground arith)
  | inr some_rate ↦ let positive : 0 < ms * rate = grind arith in ground (arith, positive)
]

module _ (N : Float) where
  open N use {F}

  -- `validate` accepts just the policies with a finite threshold of at most 0 dBFS, a hold, and a
  --   longest tail that is no shorter than it.
  pub validate_render_policy_iff :
      (p : OfflineRenderPolicy F)
      → (validate_render_policy N p ≡ ok p) ↔ IsRenderPolicy N p.unknown_tail
  unfolding validate_render_policy
  validate_render_policy_iff p = (
    λ e. record {
      threshold_finite = ground arith;
      threshold_low = ground arith;
      hold_pos = ground arith;
      hold_fits = ground arith;
    },
    λ v. ground (arith, v),
  )

  -- Under a policy that passes validation an observation starts out sound, with nothing generated,
  --   the protected frames it was given, and a detector at rest with a hold.
  pub new_observation-IsObservation :
      (p : UnknownTailPolicy F) (rate protected : ℕ) {o : TailObservation F}
      → IsRenderPolicy N p
      → new_observation N p rate protected ≡ ok o
      → IsObservation o
        × (o.generated_frames ≡ 0)
        × (o.protected_frames ≡ protected)
        × (0 < o.detector.hold_frames)
        × (o.detector.below_frames ≡ 0)
  unfolding new_observation new_detector
  new_observation-IsObservation p rate protected {o} v e =
      elim (Result-cases (frames_for_milliseconds p.silence_hold_ms rate)) [
        | inr (x, eh) ↦ absurd (ground arith)
        | inl (h, eh) ↦ elim (Result-cases (frames_for_milliseconds p.max_tail_ms rate)) [
          | inr (x, em) ↦ absurd (ground arith)
          | inl (m, em) ↦
              let pos =
                frames_pos p.max_tail_ms rate m (omega (arith, v.hold_pos, v.hold_fits)) em in
              (
                record {
                  bounded = ground (arith, pos);
                  machine = ground (arith, pos);
                  running = ground (arith, pos);
                  cap = ground (arith, pos);
                },
                ground arith,
                ground arith,
                ground arith,
                ground arith,
              )
        ]
      ]

module _ {F : Type 0} where
  -- Of whole frames, a compensated timeline loses its first frames, as many as the latency or as there
  --   are, and keeps the rest in order; a raw one keeps all.
  pub trim_timeline_lem :
      (latency channels frames : ℕ) (output : List F)
      → 0 < channels
      → length output ≡ frames * channels
      → (length (trim_timeline raw_causal latency channels output) ≡ frames * channels)
        × (length (trim_timeline compensated latency channels output)
            ≡ (frames - latency) * channels)
        × (trim_timeline compensated latency channels output
            ≡ drop (min latency frames * channels) output)
  unfolding trim_timeline
  trim_timeline_lem latency channels frames output pos e = rw count (
    e,
    length-drop (min latency frames * channels) output
        ∙ omega (arith, e, left, sub-mul-add frames (min latency frames) channels (omega arith)),
    refl,
  )
    where
      count : length output / channels ≡ frames
      count = ap (λ (t : ℕ). t / channels) e ∙ mul-div_cancel frames {n = channels} pos

      left : (frames - min latency frames) * channels ≡ (frames - latency) * channels
      left = ap (λ (t : ℕ). t * channels) (omega arith)
