-- ===== src/KernelHandoff/Status.antt =====
-- src/processor/adapters/convolver/control.rs: `ConvolverStatus` and `status`, whose loads other
-- accesses may come between.
use audio_engine_core.Base.{
  ℕ, ◌+◌, ◌-◌, ◌%◌, ◌^◌, ◌≡◌, Bool, Option, none, some, [], arith, saturating_add, ◌==◌,
  if◌then◌else◌,
}
use audio_engine_core.KernelHandoff.{Control, free, System}
use audio_engine_core.KernelHandoff.Audio.{count, Reached}
use audio_engine_core.KernelHandoff.Kept.{Reached-IsKept}

-- `ConvolverStatus`
pub record ConvolverStatus : Type 0 where
  pub enabled : Bool
  pub latest_published_generation : ℕ
  pub latest_adopted_generation : ℕ
  pub audio_drained_generation : ℕ
  pub adopted_kernels : ℕ
  pub superseded_kernels : ℕ
  pub discarded_kernels : ℕ
  pub retired_kernels : ℕ
  pub reclaimed_kernels : ℕ
  pub deferred_adoptions : ℕ
  pub pending_kernels : ℕ
  pub pending_reclamations : ℕ
  pub backpressured : Bool
  pub audio_idle : Bool
  pub active_sample_rate_hz : ℕ
  pub waiting_for_sample_rate_hz : Option ℕ

abbrev waiting_rate : ℕ → Option ℕ
waiting_rate rate = if rate == 0 then none else some rate

module _ {K : Type 0} where
  -- `status`: `at n` is what its load number `n` meets.
  unfoldable pub status : (ℕ → Control K) → ConvolverStatus
  status at =
      let latest_published_generation = (at 0).latest_published_generation in
      let audio_drained_generation = (at 1).audio_drained_generation in
      let adopted_kernels = (at 2).adopted_kernels in
      let superseded_kernels = (at 3).superseded_kernels in
      let discarded_kernels = (at 4).discarded_kernels in
      let retired_kernels = (at 5).retired_kernels in
      let reclaimed_kernels = (at 6).reclaimed_kernels in
      let completed_publications =
        saturating_add (saturating_add adopted_kernels superseded_kernels) discarded_kernels in
      record {
        enabled = (at 7).enabled;
        latest_published_generation = latest_published_generation;
        latest_adopted_generation = (at 8).latest_adopted_generation;
        audio_drained_generation = audio_drained_generation;
        adopted_kernels = adopted_kernels;
        superseded_kernels = superseded_kernels;
        discarded_kernels = discarded_kernels;
        retired_kernels = retired_kernels;
        reclaimed_kernels = reclaimed_kernels;
        deferred_adoptions = (at 9).deferred_adoptions;
        pending_kernels = latest_published_generation - completed_publications;
        pending_reclamations = retired_kernels - reclaimed_kernels;
        backpressured = (at 10).backpressured;
        audio_idle = audio_drained_generation == latest_published_generation;
        active_sample_rate_hz = (at 11).active_sample_rate_hz % 2 ^ 32;
        waiting_for_sample_rate_hz = waiting_rate ((at 12).waiting_for_sample_rate_hz % 2 ^ 32);
      }

  -- Where no other access comes between the loads of `status`, no control thread holds the gate and the
  -- audio thread has no access left to make on its way, it counts as pending just the kernels that wait
  -- in the slot or came in, and as to be reclaimed those that wait for it, each with those that a
  -- teardown dropped there; adopted and discarded kernels are in use, retired or dropped in use by a
  -- teardown.
  pub Reached-status :
      (initial : Bool) {s : System K}
      → Reached initial s
      → s.gate ≡ free
      → s.todo ≡ []
      → ((status (λ n. s.control)).pending_kernels
          ≡ count s.control.published + count s.consumer.incoming + s.dropped.incoming_dropped)
        × ((status (λ n. s.control)).pending_reclamations
            ≡ count s.control.retired + count s.consumer.pending_retire + s.dropped.pending_dropped)
        × ((status (λ n. s.control)).adopted_kernels + (status (λ n. s.control)).discarded_kernels
            ≡ count s.consumer.owned
              + (status (λ n. s.control)).retired_kernels
              + s.dropped.owned_dropped)
  unfolding status
  Reached-status initial {s} r g e =
      let k = Reached-IsKept initial r in (ground arith, ground arith, ground arith)
