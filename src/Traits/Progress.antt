-- ===== src/Traits/Progress.antt =====
-- The progress contract of a processor, and `ProcessCapacity::validate`.
use Prim.Native.String.{String}
use audio_engine_core.Base.{◌≤◌, ◌<◌, ◌≡◌, refl, subst, ◌↔◌, ◌⊎◌, Bool, true, false, arith}
use audio_engine_core.Base.Results.{ok, err, ◌>>=◌}
use audio_engine_core.AudioBlock.{AudioBlock}
use audio_engine_core.Traits.{finish_checked, capacity_for_finish}
use audio_engine_core.Traits.{
  ProcessBufferMode, ProcessBuffers, ProcessState, need_input, need_output, finished,
  ProcessProgress, ProcessCapacity, Outcome, StreamingProcessor, capacity, validate,
  process_checked, invalid_direction,
}

-- What a processor may report after a call with that capacity, by the kind of call.
pub data Honest (c : ProcessCapacity) (p : ProcessProgress) : Type 0 where
  -- A finishing call fills its output or ends, and consumes nothing if it ends.
  fills :
      c.finishing ≡ true → p.state ≡ need_output → p.produced_frames ≡ c.output_frames → Honest c p
  ends : c.finishing ≡ true → p.state ≡ finished → p.consumed_frames ≡ 0 → Honest c p
  -- An in-place call replaces the whole block.
  replaces :
      c.finishing ≡ false
      → c.mode ≡ ProcessBufferMode.in_place
      → p.state ≡ need_input
      → p.consumed_frames ≡ c.input_frames
      → p.produced_frames ≡ c.output_frames
      → Honest c p
  -- An out-of-place call uses up its input or its output.
  drains :
      c.finishing ≡ false
      → c.mode ≡ ProcessBufferMode.out_of_place
      → p.state ≡ need_input
      → p.consumed_frames ≡ c.input_frames
      → Honest c p
  blocks :
      c.finishing ≡ false
      → c.mode ≡ ProcessBufferMode.out_of_place
      → p.state ≡ need_output
      → p.produced_frames ≡ c.output_frames
      → Honest c p

-- Within the capacity, and moving unless a side is empty or the stream has ended.
pub record WithinCapacity (c : ProcessCapacity) (p : ProcessProgress) : Type 0 where
  pub consumed_fits : p.consumed_frames ≤ c.input_frames
  pub produced_fits : p.produced_frames ≤ c.output_frames
  pub moves :
      (0 < p.consumed_frames)
      ⊎ (0 < p.produced_frames)
      ⊎ (c.input_frames ≡ 0)
      ⊎ (c.output_frames ≡ 0)
      ⊎ (p.state ≡ finished)

pub validate-ok-eq :
    (c : ProcessCapacity) (processor : String) (p : ProcessProgress) {q : ProcessProgress}
    → validate c processor p ≡ ok q
    → p ≡ q
unfolding validate
validate-ok-eq c processor p e = ground arith

direction-Honest :
    (c : ProcessCapacity) (p : ProcessProgress) → invalid_direction c p ≡ false → Honest c p
unfolding invalid_direction
direction-Honest c p h = go c.finishing c.mode p.state refl refl refl
  where
    go :
        (f : Bool) (m : ProcessBufferMode) (s : ProcessState)
        → c.finishing ≡ f
        → c.mode ≡ m
        → p.state ≡ s
        → Honest c p
    go true m need_input ef em es = absurd (ground arith)
    go true m need_output ef em es = fills ef es (ground arith)
    go true m finished ef em es = ends ef es (ground arith)
    go false ProcessBufferMode.in_place need_input ef em es =
        replaces ef em es (ground arith) (ground arith)
    go false ProcessBufferMode.in_place need_output ef em es = absurd (ground arith)
    go false ProcessBufferMode.in_place finished ef em es = absurd (ground arith)
    go false ProcessBufferMode.out_of_place need_input ef em es = drains ef em es (ground arith)
    go false ProcessBufferMode.out_of_place need_output ef em es = blocks ef em es (ground arith)
    go false ProcessBufferMode.out_of_place finished ef em es = absurd (ground arith)

Honest-direction :
    (c : ProcessCapacity) (p : ProcessProgress) → Honest c p → invalid_direction c p ≡ false
unfolding invalid_direction
Honest-direction c p (fills f s e) = ground arith
Honest-direction c p (ends f s e) = ground arith
Honest-direction c p (replaces f m s e d) = ground arith
Honest-direction c p (drains f m s e) = ground arith
Honest-direction c p (blocks f m s e) = ground arith

accepted :
    (c : ProcessCapacity) (processor : String) (p : ProcessProgress)
    → validate c processor p ≡ ok p
    → invalid_direction c p ≡ false
unfolding validate
accepted c processor p e = ground arith

accepted-WithinCapacity :
    (c : ProcessCapacity) (processor : String) (p : ProcessProgress)
    → validate c processor p ≡ ok p
    → WithinCapacity c p
unfolding validate
accepted-WithinCapacity c processor p e = record {
  consumed_fits = ground arith;
  produced_fits = ground arith;
  moves = ground arith;
}

WithinCapacity-accepted :
    (c : ProcessCapacity) (processor : String) (p : ProcessProgress)
    → WithinCapacity c p
    → invalid_direction c p ≡ false
    → validate c processor p ≡ ok p
unfolding validate
WithinCapacity-accepted c processor p w d = ground arith

-- `validate` accepts a report exactly when it stays within the capacity, moves unless it may stand
-- still, and is honest for the kind of call.
pub validate_iff :
    (c : ProcessCapacity) (processor : String) (p : ProcessProgress)
    → (validate c processor p ≡ ok p) ↔ (WithinCapacity c p × Honest c p)
validate_iff c processor p = (
  λ e. (accepted-WithinCapacity c processor p e, direction-Honest c p (accepted c processor p e)),
  λ h. WithinCapacity-accepted c processor p h.0 (Honest-direction c p h.1),
)

validate-Honest :
    (c : ProcessCapacity) (processor : String) (o : Outcome ProcessProgress) {q : ProcessProgress}
    → (o >>= validate c processor) ≡ ok q
    → WithinCapacity c q × Honest c q
validate-Honest c processor (ok p) {q} e =
    let same : p ≡ q = validate-ok-eq c processor p e in
    (validate_iff c processor q).0 (subst (λ t. validate c processor t ≡ ok q) same e)
validate-Honest c processor (err x) e = cc

module _ {A S : Type 0} (P : StreamingProcessor A S) where
  -- Whatever a processor does, a call of it through `process_checked` that succeeds reports an
  -- honest progress within the capacity of the buffers that it was given.
  pub process_checked-Honest :
      (s : S) (buffers : ProcessBuffers A) {q : ProcessProgress}
      → (process_checked P s buffers).0 ≡ ok q
      → WithinCapacity (capacity buffers) q × Honest (capacity buffers) q
  unfolding process_checked
  process_checked-Honest s buffers e =
      validate-Honest (capacity buffers) (P.name (P.process s buffers).2) (P.process s buffers).0 e

  pub finish_checked-Honest :
      (s : S) (output : AudioBlock A) {q : ProcessProgress}
      → (finish_checked P s output).0 ≡ ok q
      → WithinCapacity (capacity_for_finish output.frames) q
        × Honest (capacity_for_finish output.frames) q
  unfolding finish_checked
  finish_checked-Honest s output e =
      validate-Honest (capacity_for_finish output.frames) (P.name (P.finish s output).2)
        (P.finish s output).0 e
