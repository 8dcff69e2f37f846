-- ===== src/FixedStage/Tests.antt =====
-- A fixed stage that keeps its samples and counts its calls.
use audio_engine_core.Base.{ℕ, suc, ◌≡◌, refl, Bool, true, false, none, some, List, length}
use audio_engine_core.Base.Results.{ok}
use audio_engine_core.AudioBlock.{AudioBlock}
use audio_engine_core.Traits.{
  ProcessBuffers, ProcessProgress, Outcome, capacity_for_finish, validate,
}
use audio_engine_core.Traits.Tests.{two_frames}
use audio_engine_core.DspChain.Tests.{two_frames-IsBlock}
use audio_engine_core.FixedStage.{FixedLifecycle, process_fixed_1_to_1, finish_fixed_unknown}
use audio_engine_core.FixedStage.Accepted.{
  Accepted, process_fixed_1_to_1-Accepted, finish_fixed_unknown-accepted,
}

abbrev pub counting : List ℕ → ℕ → ℕ → Outcome (Unit {0}) × List ℕ × ℕ
counting samples channels calls = (ok tt, samples, suc calls)

abbrev counting_tail : List ℕ → ℕ → ℕ → List ℕ × ℕ
counting_tail samples channels calls = (samples, suc calls)

abbrev fresh : FixedLifecycle
fresh = record { finishing = false; finished = false; finish_enabled = none }

process_fixed_1_to_1-Accepted_example :
    (r : Outcome ProcessProgress × List ℕ × ℕ) × (process_fixed_1_to_1 "count" true
        (some 1)
        (ProcessBuffers.out_of_place two_frames two_frames)
        counting
        0
      ≡ some r)
    × Accepted counting "count" (ProcessBuffers.out_of_place two_frames two_frames) r
process_fixed_1_to_1-Accepted_example =
    process_fixed_1_to_1-Accepted counting "count" true (some 1)
      (ProcessBuffers.out_of_place two_frames two_frames) 0
      (two_frames-IsBlock, two_frames-IsBlock, refl)

finish_fixed_unknown-accepted_example :
    let r = finish_fixed_unknown 0 "count" true (some 1) fresh two_frames counting_tail 0 in
    (length r.1 ≡ 2)
    × ((p : ProcessProgress)
        → r.0 ≡ ok p
        → (validate (capacity_for_finish 2) "count" p ≡ ok p)
          × ((later : Bool) (next : AudioBlock ℕ) (t : ℕ)
              → finish_fixed_unknown 0 "count" later (some 1) r.2 next counting_tail t
                ≡ finish_fixed_unknown 0 "count" true (some 1) r.2 next counting_tail t))
finish_fixed_unknown-accepted_example =
    finish_fixed_unknown-accepted 0 "count" (some 1) counting_tail true fresh two_frames 0
