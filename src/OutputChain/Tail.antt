-- ===== src/OutputChain/Tail.antt =====
-- src/processor/output_chain.rs, `TailEnergyDetector` and `TailObservation`: where an open tail is
-- cut, after the first run of quiet frames that is long enough, or at the most frames allowed.
use audio_engine_core.Base.{
  ℕ, zero, suc, ◌+◌, ◌-◌, ◌*◌, ◌/◌, min, max, Bool, true, false, Option, none, some, List, [], ◌∷◌,
  ltb, leb, ◌==◌, if◌then◌else◌, length, take, drop, saturating_add,
}
use audio_engine_core.Base.Results.{Result, ok, ◌>>=◌}
use audio_engine_core.Float.{Float}
use audio_engine_core.Timing.{TimingError}
use audio_engine_core.DspChain.Finish.{power_sum}
use audio_engine_core.OutputChain.{UnknownTailPolicy, frames_for_milliseconds}

-- `TailEnergyDetector`
pub record TailEnergyDetector (F : Type 0) : Type 0 where
  pub energy_threshold : F
  pub hold_frames : ℕ
  pub below_frames : ℕ
  pub silence_start_frame : ℕ

-- `TailObservation`
pub record TailObservation (F : Type 0) : Type 0 where
  pub detector : TailEnergyDetector F
  pub protected_frames : ℕ
  pub generated_frames : ℕ
  pub max_frames : ℕ
  pub stopped : Bool
  pub capped : Bool

-- `ObservationDecision`
pub record ObservationDecision : Type 0 where
  pub keep_frames : ℕ
  pub truncate_to_frame : Option ℕ

-- The first `n` chunks of `channels` samples; `chunks_exact` has `len / channels` of them.
unfoldable pub chunks : {A : Type 0} → ℕ → ℕ → List A → List (List A)
chunks zero channels samples = []
chunks (suc n) channels samples = take channels samples ∷ chunks n channels (drop channels samples)

abbrev pub frames_of : {A : Type 0} → List A → ℕ → List (List A)
frames_of samples channels = chunks (length samples / channels) channels samples

-- `remaining_capacity_frames`
unfoldable pub remaining_capacity_frames : {F : Type 0} → TailObservation F → ℕ
remaining_capacity_frames o =
    if o.stopped then 0 else saturating_add o.protected_frames (o.max_frames - o.generated_frames)

-- `samples` of `observe` past the protected frames, as far as they are allowed
abbrev pub shielded : {F : Type 0} → TailObservation F → ℕ → ℕ
shielded o frames = min o.protected_frames frames

abbrev pub allowed : {F : Type 0} → TailObservation F → ℕ → ℕ
allowed o frames = min (frames - shielded o frames) (o.max_frames - o.generated_frames)

-- a frame below the threshold, at position `at`
abbrev pub note_quiet : {F : Type 0} → TailEnergyDetector F → ℕ → TailEnergyDetector F
note_quiet d at = record d {
  below_frames = d.below_frames + 1;
  silence_start_frame = if d.below_frames == 0 then at else d.silence_start_frame;
}

module _ (N : Float) where
  open N use {F}

  -- `TailEnergyDetector::new`
  unfoldable pub new_detector : UnknownTailPolicy F → ℕ → Result TimingError (TailEnergyDetector F)
  new_detector policy rate = do
    hold ← frames_for_milliseconds policy.silence_hold_ms rate
    let amplitude = N.pow10 (N.div policy.energy_threshold_dbfs (N.of_ℕ 20))
    ok (record {
      energy_threshold = N.mul amplitude amplitude;
      hold_frames = max hold 1;
      below_frames = 0;
      silence_start_frame = 0;
    })

  -- `TailObservation::new`
  unfoldable pub new_observation :
      UnknownTailPolicy F → ℕ → ℕ → Result TimingError (TailObservation F)
  new_observation policy rate protected = do
    detector ← new_detector policy rate
    most ← frames_for_milliseconds policy.max_tail_ms rate
    ok (record {
      detector = detector;
      protected_frames = protected;
      generated_frames = 0;
      max_frames = most;
      stopped = false;
      capped = false;
    })

  unfoldable pub frame_quiet : F → ℕ → List F → Bool
  frame_quiet threshold channels frame =
      N.le (N.div (power_sum N N.zero frame) (N.of_ℕ channels)) threshold

  -- The loop of `TailEnergyDetector::observe`, the frame at hand at position `at`.
  unfoldable pub observe_frames :
      TailEnergyDetector F → ℕ → List (List F) → ℕ → Option ℕ × TailEnergyDetector F
  observe_frames d channels [] at = (none, d)
  observe_frames d channels (frame ∷ frames) at =
      elim (frame_quiet d.energy_threshold channels frame) [
        | true ↦ (elim (leb d.hold_frames (d.below_frames + 1)) [
          | true ↦ (some (note_quiet d at).silence_start_frame, note_quiet d at)
          | false ↦ observe_frames (note_quiet d at) channels frames (at + 1)
        ])
        | false ↦ observe_frames (record d { below_frames = 0 }) channels frames (at + 1)
      ]

  -- `TailEnergyDetector::observe`
  abbrev pub detect : TailEnergyDetector F → List F → ℕ → ℕ → Option ℕ × TailEnergyDetector F
  detect d samples channels first = observe_frames d channels (frames_of samples channels) first

  -- What `TailObservation::observe` has found, with the flags that follow from it.
  unfoldable pub settle :
      TailObservation F
      → ℕ
      → Option ℕ × TailEnergyDetector F
      → ObservationDecision × TailObservation F
  settle o frames found =
      let generated =
        if ltb 0 (allowed o frames)
        then saturating_add o.generated_frames (allowed o frames)
        else o.generated_frames in
      let full = leb o.max_frames generated in
      (
        record { keep_frames = shielded o frames + allowed o frames; truncate_to_frame = found.0 },
        record o {
          detector = found.1;
          protected_frames = o.protected_frames - shielded o frames;
          generated_frames = generated;
          stopped = elim found.0 [ some at ↦ true | none ↦ full ];
          capped = elim found.0 [ some at ↦ o.capped | none ↦ if full then true else o.capped ];
        },
      )

  -- `TailObservation::observe`
  unfoldable pub observe :
      TailObservation F → List F → ℕ → ℕ → ObservationDecision × TailObservation F
  observe o samples channels first =
      let frames = length samples / channels in
      let heard =
        take (allowed o frames * channels) (drop (shielded o frames * channels) samples) in
      if o.stopped
      then (record { keep_frames = 0; truncate_to_frame = none }, o)
      else settle o frames (
          if ltb 0 (allowed o frames)
          then detect o.detector heard channels (first + shielded o frames)
          else (none, o.detector))
