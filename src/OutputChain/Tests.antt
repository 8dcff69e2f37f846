-- ===== src/OutputChain/Tests.antt =====
-- The offline renderer over the test processor and natural numbers.
use audio_engine_core.Base.{
  length, ℕ, ◌+◌, ◌^◌, ◌<◌, ◌≤◌, ◌≡◌, refl, true, false, none, some, [], ◌∷◌, arith,
}
use audio_engine_core.Base.Results.{ok}
use audio_engine_core.Traits.{Outcome}
use audio_engine_core.Traits.Tests.{echo}
use audio_engine_core.DspChain.Tests.{whole}
use audio_engine_core.Timing.{fit_usize, duration_zero, unknown}
use audio_engine_core.OutputChain.{
  ProcessorTiming, UnknownTailPolicy, compensated, frames_for_milliseconds,
}
use audio_engine_core.OutputChain.Tail.{
  TailEnergyDetector, TailObservation, observe, observe_frames, new_observation, new_detector,
}
use audio_engine_core.OutputChain.Quiet.{observe_frames-first_run, first_run, quiet_flags}
use audio_engine_core.OutputChain.Observed.{IsObservation, retained}
use audio_engine_core.OutputChain.Blocks.{Splits, observe-append}
use audio_engine_core.OutputChain.Collector.{Collector, push_pre_limiter, Left, finish_limiter}
use audio_engine_core.OutputChain.Budget.{IsCollector, Bounded}
use audio_engine_core.OutputChain.Collected.{push_pre_limiter-Bounded}
use audio_engine_core.OutputChain.Boundary.{RateBoundary, Passed, push}
use audio_engine_core.OutputChain.Doubler.{doubler, doubler_exhausts}
use audio_engine_core.OutputChain.Room.{Alike}
use audio_engine_core.OutputChain.Pushes.{push-ends}
use audio_engine_core.OutputChain.Sources.{
  process_after, process_ids, source_ids, manifest, convolver, dynamic_loudness, count_callback,
}
use audio_engine_core.OutputChain.Rounds.{finish_limiter-ends}
use audio_engine_core.OutputChain.Behind.{process_after-behind, behind}
use audio_engine_core.OutputChain.Render.{Rendering, Plan, tail_loop, render_stages}
use audio_engine_core.OutputChain.Fitting.{IsRendering, Ends}
use audio_engine_core.OutputChain.Drained.{tail_loop-Ends}
use audio_engine_core.OutputChain.Returned.{Returns}
use audio_engine_core.OutputChain.Rendered.{render_stages-Returns}
use audio_engine_core.OutputChain.Checked.{IsRenderPolicy, new_observation-IsObservation}
use audio_engine_core.OutputChain.Chain.{RenderChain}
use audio_engine_core.OutputChain.Offline.{Drive, FinishState, drive_tail}
use audio_engine_core.OutputChain.Tails.{drive_tail-ends}

-- The manifest has eight stages for the callback.
callback_stages : count_callback manifest ≡ 8
unfolding count_callback
callback_stages = refl

-- two quiet frames in a row are silence
abbrev detector : TailEnergyDetector ℕ
detector = record {
  energy_threshold = 4;
  hold_frames = 2;
  below_frames = 0;
  silence_start_frame = 0;
}

-- one protected frame, and four at most of the tail
abbrev observation : TailObservation ℕ
observation = record {
  detector = detector;
  protected_frames = 1;
  generated_frames = 0;
  max_frames = 4;
  stopped = false;
  capped = false;
}

observation-IsObservation : IsObservation observation
observation-IsObservation = record {
  bounded = omega arith;
  machine = omega arith;
  running = λ h. omega arith;
  cap = λ h. absurd cc;
}

observe-append_example :
    Splits whole 10
      (observe whole observation (9 ∷ 8 ∷ []) 1 10).0
      (observe whole observation (9 ∷ 8 ∷ 1 ∷ 2 ∷ []) 1 10)
      (observe whole
        (observe whole observation (9 ∷ 8 ∷ []) 1 10).1
        (1 ∷ 2 ∷ [])
        1
        (retained 10 (observe whole observation (9 ∷ 8 ∷ []) 1 10).0))
observe-append_example =
    observe-append whole observation (9 ∷ 8 ∷ []) (1 ∷ 2 ∷ []) 1 2 2 10 (omega arith) refl refl
      observation-IsObservation

observe_frames-first_run_example :
    (observe_frames whole detector 1 ((9 ∷ []) ∷ (1 ∷ []) ∷ (2 ∷ []) ∷ []) 5).0
    ≡ first_run 2 (quiet_flags whole 4 1 ((9 ∷ []) ∷ (1 ∷ []) ∷ (2 ∷ []) ∷ [])) 5
observe_frames-first_run_example =
    observe_frames-first_run whole detector 1 ((9 ∷ []) ∷ (1 ∷ []) ∷ (2 ∷ []) ∷ []) 5 refl
      (omega arith)

-- a collector with two samples, that observes a tail
abbrev collector : Collector ℕ ℕ
collector = record {
  channels = 1;
  limiter = 3;
  noise_shaper = 0;
  samples = 5 ∷ 6 ∷ [];
  observation = some observation;
  tail_truncated = false;
}

collector-IsCollector : IsCollector collector
collector-IsCollector = record {
  channels_pos = omega arith;
  whole = refl;
  observed = λ o e. ground (arith, observation-IsObservation);
}

push_pre_limiter-Bounded_example :
    Bounded collector (push_pre_limiter whole echo collector (7 ∷ 8 ∷ [])).2
push_pre_limiter-Bounded_example =
    push_pre_limiter-Bounded whole echo collector (7 ∷ 8 ∷ []) collector-IsCollector

finish_limiter-ends_example :
    (r : Left ℕ ℕ) × (finish_limiter whole echo 6 collector (0 ∷ 0 ∷ []) 5 ≡ some r)
    × Bounded collector r.2
    × (length r.1 ≡ 2)
finish_limiter-ends_example =
    finish_limiter-ends whole echo 6 collector (0 ∷ 0 ∷ []) 5 collector-IsCollector (omega arith)
      (omega arith)

process_after-behind_example :
    process_after whole echo
      (record {
        channels = 1;
        volume_stage = 0;
        eq_stage = 0;
        saturation_stage = 0;
        crossfeed_stage = 0;
        convolver_stage = 3;
        dynamic_loudness_stage = 1;
      })
      convolver
      (7 ∷ [])
    ≡ process_ids whole echo
        (dynamic_loudness ∷ [])
        (record {
          channels = 1;
          volume_stage = 0;
          eq_stage = 0;
          saturation_stage = 0;
          crossfeed_stage = 0;
          convolver_stage = 3;
          dynamic_loudness_stage = 1;
        })
        (7 ∷ [])
unfolding behind source_ids
process_after-behind_example =
    process_after-behind whole echo
      (record {
        channels = 1;
        volume_stage = 0;
        eq_stage = 0;
        saturation_stage = 0;
        crossfeed_stage = 0;
        convolver_stage = 3;
        dynamic_loudness_stage = 1;
      })
      convolver (7 ∷ []) (dynamic_loudness ∷ []) refl

abbrev boundary : RateBoundary ℕ ℕ
boundary = record { channels = 1; resampler = some 1; scratch = 0 ∷ 0 ∷ []; input_frames_seen = 0 }

push-ends_example :
    (r : Passed ℕ ℕ) × (push whole doubler 7 boundary collector (7 ∷ 8 ∷ []) ≡ some r)
    × Bounded collector r.3
    × Alike boundary r.2
push-ends_example =
    push-ends whole doubler doubler_exhausts 7 boundary collector (7 ∷ 8 ∷ []) collector-IsCollector
      (omega arith) (omega arith)

-- the stages of a render that fit together, with two frames of scratch
abbrev rendering : Rendering ℕ ℕ
rendering = record {
  sources = record {
    channels = 1;
    volume_stage = 0;
    eq_stage = 0;
    saturation_stage = 0;
    crossfeed_stage = 0;
    convolver_stage = 3;
    dynamic_loudness_stage = 1;
  };
  boundary = boundary;
  collector = collector;
  scratch = 0 ∷ 0 ∷ [];
}

rendering-IsRendering : IsRendering 1 2 rendering
rendering-IsRendering = record {
  collector_sound = collector-IsCollector;
  collector_channels = refl;
  boundary_channels = refl;
  source_channels = refl;
  boundary_room = omega arith;
  room = refl;
}

tail_loop-Ends_example :
    Ends 1 2 rendering (tail_loop whole doubler 13 convolver true 2 5 0 rendering)
tail_loop-Ends_example =
    tail_loop-Ends whole doubler doubler_exhausts 1 2 (omega arith) 13 convolver true 5 0 rendering
      rendering-IsRendering (omega arith) (omega arith)

-- a hold of one millisecond, in a tail of two at most
abbrev millisecond : UnknownTailPolicy ℕ
millisecond = record { energy_threshold_dbfs = 0; silence_hold_ms = 1; max_tail_ms = 2 }

millisecond-IsRenderPolicy : IsRenderPolicy whole millisecond
millisecond-IsRenderPolicy = record {
  threshold_finite = refl;
  threshold_low = refl;
  hold_pos = omega arith;
  hold_fits = omega arith;
}

millisecond-observation :
    new_observation whole millisecond 1000 3
    ≡ ok (record {
      detector = record {
        energy_threshold = 100;
        hold_frames = 1;
        below_frames = 0;
        silence_start_frame = 0;
      };
      protected_frames = 3;
      generated_frames = 0;
      max_frames = 2;
      stopped = false;
      capped = false;
    })
unfolding new_observation new_detector frames_for_milliseconds fit_usize
millisecond-observation = refl

abbrev fresh : TailObservation ℕ
fresh = record {
  detector = record {
    energy_threshold = 100;
    hold_frames = 1;
    below_frames = 0;
    silence_start_frame = 0;
  };
  protected_frames = 3;
  generated_frames = 0;
  max_frames = 2;
  stopped = false;
  capped = false;
}

new_observation-IsObservation_example :
    IsObservation fresh
    × (fresh.generated_frames ≡ 0)
    × (fresh.protected_frames ≡ 3)
    × (0 < fresh.detector.hold_frames)
    × (fresh.detector.below_frames ≡ 0)
new_observation-IsObservation_example =
    new_observation-IsObservation whole millisecond 1000 3 {o = fresh} millisecond-IsRenderPolicy
      millisecond-observation

-- a latency of no frames, and a tail with no end
abbrev open_timing : ProcessorTiming
open_timing = record { latency = duration_zero; tail = unknown }

abbrev plan : Plan ℕ
plan = record {
  channels = 1;
  source_rate = 1000;
  output_rate = 2000;
  policy = record { timeline = compensated; unknown_tail = millisecond };
  block_frames = 2;
  source_timings = record { id = convolver; name = "Convolver"; timing = open_timing } ∷ [];
  boundary_timing = open_timing;
  limiter_timing = open_timing;
  shaper_timing = open_timing;
}

render_stages-Returns_example : Returns 1 2 (
    render_stages whole doubler
      (2 ^ 64 + 8)
      (λ s. 1000)
      (λ s. 2000)
      plan
      (7 ∷ 8 ∷ 9 ∷ [])
      rendering)
render_stages-Returns_example =
    render_stages-Returns whole doubler doubler_exhausts plan (omega arith) (omega arith)
      millisecond-IsRenderPolicy (2 ^ 64 + 8) (λ s. 1000) (λ s. 2000) (7 ∷ 8 ∷ 9 ∷ []) rendering
      rendering-IsRendering (omega arith)

abbrev chain : RenderChain ℕ ℕ
chain = record {
  channels = 1;
  source_sample_rate = 1000;
  output_sample_rate = 1000;
  sources = record {
    channels = 1;
    volume_stage = 0;
    eq_stage = 0;
    saturation_stage = 0;
    crossfeed_stage = 0;
    convolver_stage = 3;
    dynamic_loudness_stage = 1;
  };
  limiter = 3;
  resampler = none;
  noise_shaper = 0;
  default_policy = record { timeline = compensated; unknown_tail = millisecond };
}

abbrev drive : Drive ℕ ℕ
drive = record { processor = 3; scratch = 0 ∷ 0 ∷ []; samples = 9 ∷ [] }

abbrev begun : FinishState ℕ
begun = record { detector = some detector; frames = 0; terminal = false; energy_stopped = false }

drive_tail-ends_example :
    (d' : Drive ℕ ℕ) × (r : Outcome (FinishState ℕ)) × (drive_tail whole echo 6 1 0 2 5 begun drive
      ≡ some (d', r))
    × ((g : FinishState ℕ)
        → r ≡ ok g
        → (g.frames ≤ 5) × (g.terminal ≡ false → g.energy_stopped ≡ false → g.frames ≡ 5))
drive_tail-ends_example =
    drive_tail-ends whole echo 6 1 0 2 5 begun drive (omega arith) (omega arith) refl (omega arith)
      (omega arith)
