-- ===== src/OutputChain/Limits.antt =====
-- The frame limits of a finish fit in one more than 64 bits.
use audio_engine_core.Base.{ℕ, ◌≤◌, ◌≡◌, ◌^◌, arith}
use audio_engine_core.Base.Results.{ok}
use audio_engine_core.Float.{Float}
use audio_engine_core.Timing.{fit_usize}
use audio_engine_core.OutputChain.{
  ProcessorTiming, OfflineRenderPolicy, checked_frame_sum, source_finish_frame_limit,
  finish_frame_limit,
}

module _ (N : Float) where
  open N use {F}

  pub source_limit-fits :
      (timing : ProcessorTiming) (protected source_rate output_rate : ℕ)
      (policy : OfflineRenderPolicy F) (block_frames : ℕ) {limit : ℕ}
      → source_finish_frame_limit N timing protected source_rate output_rate policy block_frames
        ≡ ok limit
      → limit ≤ 2 ^ 64
  unfolding source_finish_frame_limit checked_frame_sum fit_usize
  source_limit-fits timing protected source_rate output_rate policy block_frames e =
      ground (arith, e)

  pub finish_limit-fits :
      (input_frames input_rate output_rate : ℕ) (timing : ProcessorTiming)
      (policy : OfflineRenderPolicy F) (block_frames : ℕ) {limit : ℕ}
      → finish_frame_limit N input_frames input_rate output_rate timing policy block_frames
        ≡ ok limit
      → limit ≤ 2 ^ 64
  unfolding finish_frame_limit checked_frame_sum fit_usize
  finish_limit-fits input_frames input_rate output_rate timing policy block_frames e =
      ground (arith, e)
