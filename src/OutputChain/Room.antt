-- ===== src/OutputChain/Room.antt =====
-- What a round of a resampler is given: its frames of input, its room for output, and when it ends.
use audio_engine_core.Base.{
  ℕ, suc, ◌*◌, ◌/◌, max, ◌≤◌, ◌<◌, ◌≡◌, List, arith, ◌==◌, length, take, drop, inl, inr, Bool-cases,
  Option-cases, length-drop, length-take,
}
use native.Mathlib.Nat.{mul-div_cancel, mul-le-mul_right, div-add-mod}
use audio_engine_core.Base.Results.{ok}
use audio_engine_core.AudioBlock
use audio_engine_core.AudioBlock.{AudioBlock}
use audio_engine_core.Traits.{
  ProcessBuffers, capacity, ProcessProgress, StreamingProcessor, process_checked,
}
use audio_engine_core.DspChain.{block_of}
use audio_engine_core.OutputChain.Collector.{Collector, observation_capacity_frames}
use audio_engine_core.OutputChain.Boundary.{RateBoundary}

-- A processor that cannot render for ever without input: what it holds back is bounded, and is less
-- after a call that had input and room, and consumed nothing.
pub record Exhausts {A S : Type 0} (P : StreamingProcessor A S) : Type 0 where
  pub backlog : S → ℕ
  pub most : ℕ
  pub bounded : (s : S) → backlog s ≤ most
  pub less :
      (s : S) (buffers : ProcessBuffers A) (p : ProcessProgress)
      → 0 < (capacity buffers).input_frames
      → 0 < (capacity buffers).output_frames
      → (process_checked P s buffers).0 ≡ ok p
      → p.consumed_frames ≡ 0
      → backlog (process_checked P s buffers).2 < backlog s

pub block_of_frames :
    {A : Type 0} (samples : List A) (channels : ℕ) {b : AudioBlock A}
    → block_of samples channels ≡ ok b
    → b.frames ≡ length samples / channels
unfolding AudioBlock.new AudioBlock.validated_channel_count
block_of_frames samples channels e = ground arith

pub left_frames :
    {A : Type 0} (samples : List A) (channels consumed : ℕ) {i : AudioBlock A}
    → consumed < length samples / channels
    → block_of (drop (consumed * channels) samples) channels ≡ ok i
    → 0 < i.frames
unfolding AudioBlock.new AudioBlock.validated_channel_count
left_frames samples channels consumed lt e = elim (Bool-cases (channels == 0)) [
  | inl none_there ↦ absurd (ground arith)
  | inr some_there ↦
      let le : suc consumed * channels ≤ length samples / channels * channels =
        mul-le-mul_right channels lt in
      ground (
        arith,
        le,
        length-drop (consumed * channels) samples,
        div-add-mod (length samples) channels,
        div-add-mod (length (drop (consumed * channels) samples)) channels,
      )
]

-- The block that a round is given has the frames of its capacity.
pub block_capacity :
    {A : Type 0} (scratch : List A) (channels capacity : ℕ) {b : AudioBlock A}
    → 0 < channels
    → capacity ≤ length scratch / channels
    → block_of (take (capacity * channels) scratch) channels ≡ ok b
    → b.frames ≡ capacity
unfolding AudioBlock.new AudioBlock.validated_channel_count
block_capacity scratch channels capacity pos le e =
    let span : capacity * channels ≤ length scratch / channels * channels =
      mul-le-mul_right channels le in
    ground (
      arith,
      length-take (capacity * channels) scratch,
      span,
      div-add-mod (length scratch) channels,
      mul-div_cancel capacity {n = channels} pos,
    )

pub block_of_channels :
    {A : Type 0} (samples : List A) (channels : ℕ) {b : AudioBlock A}
    → block_of samples channels ≡ ok b
    → 0 < channels
unfolding AudioBlock.new AudioBlock.validated_channel_count
block_of_channels samples channels e = ground arith

-- A round is given a frame at least of a scratch that has one, and no more than the scratch has.
pub round_capacity :
    {F S : Type 0} (c : Collector F S) (frames : ℕ)
    → 0 < frames
    → (0 < max (observation_capacity_frames c frames) 1)
      × (max (observation_capacity_frames c frames) 1 ≤ frames)
unfolding observation_capacity_frames
round_capacity c frames pos = elim (Option-cases c.observation) [
  | inl e ↦ rw (observation_capacity_frames, e) (omega arith, omega arith)
  | inr (o, e) ↦ rw (observation_capacity_frames, e) (omega arith, omega arith)
]

-- The boundary keeps its channels and the room of its scratch.
abbrev pub Alike : {F S : Type 0} → RateBoundary F S → RateBoundary F S → Type 0
Alike b b' = (b'.channels ≡ b.channels) × (length b'.scratch ≡ length b.scratch)

pub alike_room : {a b c d : ℕ} → a ≡ c → b ≡ d → 0 < c / d → 0 < a / b
alike_room p q h = rw (p, q) h
