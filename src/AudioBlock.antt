-- ===== src/AudioBlock.antt =====
-- src/audio_block.rs: the geometry of a borrowed interleaved block. `AudioBlockRef` and
-- `AudioBlockMut` are one record, as a borrow has no content of its own; a sample is any value.
use audio_engine_core.Base.{
  ℕ, ◌*◌, ◌/◌, ◌%◌, ◌≡◌, ◌≢◌, not, List, arith, ◌==◌, if◌then◌else◌, length,
}
use audio_engine_core.Base.Results.{Result, ok, err, ◌>>=◌}
use native.Mathlib.Nat.{div-add-mod}

-- `AudioBlockError`
pub data AudioBlockError : Type 0 where
  zero_channels : AudioBlockError
  incomplete_frame : (samples channels : ℕ) → AudioBlockError
  channel_mismatch : (input_channels output_channels : ℕ) → AudioBlockError

-- `AudioBlockRef`, `AudioBlockMut`
pub record AudioBlock (A : Type 0) : Type 0 where
  pub samples : List A
  pub channels : ℕ
  pub frames : ℕ

unfoldable pub validated_channel_count : ℕ → Result AudioBlockError ℕ
validated_channel_count channels = if channels == 0 then err zero_channels else ok channels

module _ {A : Type 0} where
  unfoldable pub new : List A → ℕ → Result AudioBlockError (AudioBlock A)
  unfolding validated_channel_count
  new samples channels = do
    count ← validated_channel_count channels
    if not (length samples % count == 0)
        then err (incomplete_frame (length samples) count)
        else ok (record { samples = samples; channels = count; frames = length samples / count })

  -- The invariant of a view: whole frames of at least one channel.
  pub record IsBlock (b : AudioBlock A) : Type 0 where
    pub channels_pos : b.channels ≢ 0
    pub whole : length b.samples ≡ b.frames * b.channels

  -- A view is made exactly of whole frames: an accepted one is well formed over the same samples
  --   and channels.
  pub new-IsBlock :
      (samples : List A) (channels : ℕ) {b : AudioBlock A}
      → new samples channels ≡ ok b
      → IsBlock b × (b.samples ≡ samples) × (b.channels ≡ channels)
  unfolding new
  new-IsBlock samples channels h = ground (arith, div-add-mod (length samples) channels)

  pub new_of_whole :
      (samples : List A) (channels : ℕ)
      → channels ≢ 0
      → length samples % channels ≡ 0
      → new samples channels
        ≡ ok (record { samples = samples; channels = channels; frames = length samples / channels })
  unfolding new
  new_of_whole samples channels h k = ground arith
