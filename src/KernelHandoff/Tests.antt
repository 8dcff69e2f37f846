-- ===== src/KernelHandoff/Tests.antt =====
-- A kernel that is published, adopted, drained and reclaimed.
use audio_engine_core.Base.{ℕ, zero, suc, ◌+◌, ◌≡◌, refl, Bool, true, false, none, arith, ◌≤◌, []}
use audio_engine_core.KernelHandoff.{System, answered, free, gate_step}
use audio_engine_core.KernelHandoff.Audio.{
  count, flush, retire_owned, discard_incoming, check_owned, check_incoming, take_published,
  release, sync_disabled, replace_owned, adopt_incoming, sync_enabled, settle, perform, sync_step,
  audio_step, Reached, start, next, audio, gated, publish, ask, reclaim_retired, set_enabled,
}
use audio_engine_core.KernelHandoff.Quiescent.{IsEmpty, Reached-quiescent}
use audio_engine_core.KernelHandoff.Status.{status, Reached-status}
use audio_engine_core.KernelHandoff.Kept.{owed, owed_adopted, owed_discarded, owed_reclaimed}
use audio_engine_core.KernelHandoff.Reading.{
  same, step, Meets, AllNewer, Meets-status, Meets-audio_idle,
}

audio_steps : ℕ → System ℕ → System ℕ
audio_steps zero s = s
audio_steps (suc n) s = audio_steps n (audio_step s)

gate_steps : ℕ → System ℕ → System ℕ
gate_steps zero s = s
gate_steps (suc n) s = gate_steps n (gate_step s)

audio_steps-Reached :
    (initial : Bool) (n : ℕ) {s : System ℕ} → Reached initial s → Reached initial (audio_steps n s)
unfolding audio_steps
audio_steps-Reached initial zero r = r
audio_steps-Reached initial (suc n) r = audio_steps-Reached initial n (next r audio)

gate_steps-Reached :
    (initial : Bool) (n : ℕ) {s : System ℕ} → Reached initial s → Reached initial (gate_steps n s)
unfolding gate_steps
gate_steps-Reached initial zero r = r
gate_steps-Reached initial (suc n) r = gate_steps-Reached initial n (next r gated)

-- Kernel 7 is published at the consumer's rate, and adopted by a call of `sync_convolver`.
abbrev published : (s : System ℕ) × Reached true s
published =
    (_, gate_steps-Reached true 4 (next start (publish 7 44100 refl (omega arith) (omega arith))))

abbrev adopted : (s : System ℕ) × Reached true s
adopted = (_, audio_steps-Reached true 13 published.1)

-- It is released when the control is disabled, and then reclaimed.
abbrev drains : (s : System ℕ) × Reached true s
drains = (_, audio_steps-Reached true 16 (next adopted.1 (set_enabled false)))

abbrev reclaimed : (s : System ℕ) × Reached true s
unfolding gate_steps audio_steps gate_step audio_step sync_step perform flush check_owned
    retire_owned take_published check_incoming discard_incoming sync_disabled release settle
    sync_enabled adopt_incoming replace_owned
reclaimed =
    let taken = gate_steps-Reached true 2 (next drains.1 (reclaim_retired refl)) in
    (_, gate_steps-Reached true 7 (next taken (ask refl)))

reclaimed_answer : reclaimed.0.gate ≡ answered true
unfolding gate_steps audio_steps gate_step audio_step sync_step perform flush check_owned
    retire_owned take_published check_incoming discard_incoming sync_disabled release settle
    sync_enabled adopt_incoming replace_owned
reclaimed_answer = refl

Reached-quiescent_example :
    IsEmpty reclaimed.0.consumer
    × (reclaimed.0.control.published ≡ none)
    × (reclaimed.0.control.retired ≡ none)
Reached-quiescent_example = Reached-quiescent true reclaimed.1 reclaimed_answer

adopted_gate : adopted.0.gate ≡ free
unfolding gate_steps audio_steps gate_step audio_step sync_step perform flush check_owned
    retire_owned take_published check_incoming discard_incoming sync_disabled release settle
    sync_enabled adopt_incoming replace_owned
adopted_gate = refl

adopted_todo : adopted.0.todo ≡ []
unfolding gate_steps audio_steps gate_step audio_step sync_step perform flush check_owned
    retire_owned take_published check_incoming discard_incoming sync_disabled release settle
    sync_enabled adopt_incoming replace_owned
adopted_todo = refl

adopted_one : adopted.0.control.adopted_kernels ≡ 1
unfolding gate_steps audio_steps gate_step audio_step sync_step perform flush check_owned
    retire_owned take_published check_incoming discard_incoming sync_disabled release settle
    sync_enabled adopt_incoming replace_owned
adopted_one = refl

Reached-status_example :
    ((status (λ n. adopted.0.control)).pending_kernels
      ≡ count adopted.0.control.published
        + count adopted.0.consumer.incoming
        + adopted.0.dropped.incoming_dropped)
    × ((status (λ n. adopted.0.control)).pending_reclamations
        ≡ count adopted.0.control.retired
          + count adopted.0.consumer.pending_retire
          + adopted.0.dropped.pending_dropped)
    × ((status (λ n. adopted.0.control)).adopted_kernels
          + (status (λ n. adopted.0.control)).discarded_kernels
        ≡ count adopted.0.consumer.owned
          + (status (λ n. adopted.0.control)).retired_kernels
          + adopted.0.dropped.owned_dropped)
Reached-status_example = Reached-status true adopted.1 adopted_gate adopted_todo

-- the audio thread goes on by one access between each two loads
audio_after : System ℕ → ℕ → System ℕ
audio_after s zero = s
audio_after s (suc n) = audio_step (audio_after s n)

audio_after-Meets : {s : System ℕ} → Reached true s → Meets true (audio_after s)
unfolding audio_after
audio_after-Meets r = record { begins = r; goes_on = λ n. step same audio }

-- While it adopts the kernel, the status counts what was pending as it began.
Meets-status_example :
    ((status (λ n. (audio_after published.0 n).control)).pending_kernels
      ≤ count (audio_after published.0 0).control.published
        + count (audio_after published.0 0).consumer.incoming
        + (audio_after published.0 0).dropped.incoming_dropped
        + (owed_adopted (audio_after published.0 0).todo
            + owed_discarded (audio_after published.0 0).todo
            + owed (audio_after published.0 0).gate))
    × ((status (λ n. (audio_after published.0 n).control)).pending_reclamations
        ≤ count (audio_after published.0 5).control.retired
          + count (audio_after published.0 5).consumer.pending_retire
          + (audio_after published.0 5).dropped.pending_dropped
          + owed_reclaimed (audio_after published.0 5).gate)
Meets-status_example = Meets-status true (audio_after published.0) (audio_after-Meets published.1)

drains_idle : (status (λ n. (audio_after drains.0 n).control)).audio_idle ≡ true
unfolding audio_after status gate_steps audio_steps gate_step audio_step sync_step perform flush
    check_owned retire_owned take_published check_incoming discard_incoming sync_disabled release
    settle sync_enabled adopt_incoming replace_owned
drains_idle = refl

Meets-audio_idle_example :
    AllNewer
      (status (λ n. (audio_after drains.0 n).control)).latest_published_generation
      (audio_after drains.0 4)
Meets-audio_idle_example =
    Meets-audio_idle true (audio_after drains.0) 3 (audio_after-Meets drains.1) drains_idle
