-- ===== src/OutputChain/Returned.antt =====
-- Parts of a render that end, one after the other.
use audio_engine_core.Base.{
  ℕ, ◌<◌, ◌≡◌, refl, ◌∙◌, Bool, true, false, Option, some, arith, if◌then◌else◌, inl, inr,
  Option-cases,
}
use audio_engine_core.Base.Results.{ok, err, Result-cases}
use audio_engine_core.Float.{Float}
use audio_engine_core.Traits.{Outcome, StreamingProcessor}
use audio_engine_core.OutputChain.Collector.{Collector, end_observation, mark_tail_truncated}
use audio_engine_core.OutputChain.Budget.{IsCollector}
use audio_engine_core.OutputChain.Room.{Exhausts}
use audio_engine_core.OutputChain.Checked.{IsRenderPolicy}
use audio_engine_core.OutputChain.Render.{Run, ◌>>=◌, Rendering, Plan}
use audio_engine_core.OutputChain.Fitting.{IsRendering, Ends}
use audio_engine_core.OutputChain.Drained.{combined}

-- A part of a render that ends with stages that still fit together.
pub record Returns {F S A : Type 0} (channels block_frames : ℕ)
    (run : Option (Rendering F S × Outcome A)) : Type 0 where
  pub left : Rendering F S
  pub outcome : Outcome A
  pub ends : run ≡ some (left, outcome)
  pub fits : IsRendering channels block_frames left

module _ {F S : Type 0} (channels block_frames : ℕ) where
  pub returned :
      {A : Type 0} {w : Rendering F S} {run : Option (Rendering F S × Outcome A)}
      → Ends channels block_frames w run
      → Returns channels block_frames run
  returned r = record { left = r.left; outcome = r.outcome; ends = r.ends; fits = r.fits }

  abbrev pub done-Returns :
      {A : Type 0} (w : Rendering F S) (r : Outcome A)
      → IsRendering channels block_frames w
      → Returns channels block_frames (some (w, r))
  done-Returns w r v = record { left = w; outcome = r; ends = refl; fits = v }

  pub if-Returns :
      {A : Type 0} (b : Bool) (t u : Run (Rendering F S) A) (w : Rendering F S)
      → (b ≡ true → Returns channels block_frames (t w))
      → (b ≡ false → Returns channels block_frames (u w))
      → Returns channels block_frames ((if b then t else u) w)
  if-Returns true t u w f g = f refl
  if-Returns false t u w f g = g refl

  -- The collector may change, if it stays sound and keeps its channels.
  pub refit :
      (w : Rendering F S) (c : Collector F S)
      → IsRendering channels block_frames w
      → IsCollector c
      → c.channels ≡ w.collector.channels
      → IsRendering channels block_frames (record w { collector = c })
  refit w c v sound same = record {
    collector_sound = sound;
    collector_channels = same ∙ v.collector_channels;
    boundary_channels = v.boundary_channels;
    boundary_room = v.boundary_room;
    source_channels = v.source_channels;
    room = v.room;
  }

pub end_observation-IsCollector :
    {F S : Type 0} (c : Collector F S)
    → IsCollector c
    → IsCollector (end_observation c) × ((end_observation c).channels ≡ c.channels)
unfolding end_observation
end_observation-IsCollector c v = elim (Option-cases c.observation) [
  | inl e ↦ rw (end_observation, e) (v, refl)
  | inr (o, e) ↦
      rw (end_observation, e)
        (
          record {
            channels_pos = v.channels_pos;
            whole = v.whole;
            observed = λ o' h. absurd (ground arith);
          },
          refl,
        )
]

pub mark_tail_truncated-IsCollector :
    {F S : Type 0} (c : Collector F S) → IsCollector c → IsCollector (mark_tail_truncated c)
mark_tail_truncated-IsCollector c v = record {
  channels_pos = v.channels_pos;
  whole = v.whole;
  observed = v.observed;
}

module _ (N : Float) {S : Type 0} (P : StreamingProcessor N.F S) (x : Exhausts P) (plan : Plan N.F)
    (some_channels : 0 < plan.channels) (some_frames : 0 < plan.block_frames)
    (valid : IsRenderPolicy N plan.policy.unknown_tail) where
  open N use {F}

  pub then-Returns :
      {A B : Type 0} (w : Rendering F S) (m : Run (Rendering F S) A) (f : A → Run (Rendering F S) B)
      (first : Returns plan.channels plan.block_frames (m w))
      → ((a : A) → first.outcome ≡ ok a → Returns plan.channels plan.block_frames (f a first.left))
      → Returns plan.channels plan.block_frames ((m >>= f) w)
  then-Returns w m f first next = elim (Result-cases first.outcome) [
    | inr (y, e) ↦ record {
      left = first.left;
      outcome = err y;
      ends = combined N P x plan.channels plan.block_frames some_channels w m f first.ends e refl;
      fits = first.fits;
    }
    | inl (a, e) ↦
        let rest = next a e in
        record {
          left = rest.left;
          outcome = rest.outcome;
          ends =
              combined N P x plan.channels plan.block_frames some_channels w m f first.ends e
                rest.ends;
          fits = rest.fits;
        }
  ]
