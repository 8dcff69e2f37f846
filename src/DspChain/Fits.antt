-- ===== src/DspChain/Fits.antt =====
-- Where the loop of `finish_with_policy` may stand, and what one round leaves it to do.
use audio_engine_core.Base.{
  false, true, is_some, ℕ, ◌+◌, ◌-◌, ◌*◌, ◌≤◌, ◌<◌, ◌≡◌, ◌⊎◌, arith, length,
}
use audio_engine_core.Float.{Float}
use audio_engine_core.Traits.{ProcessProgress, capacity_for_finish, StreamingProcessor}
use audio_engine_core.Traits.Progress.{Honest}
use audio_engine_core.DspChain.Segment.{Drain, Round, again, stop, fail, after_stage}

module _ (N : Float) {S : Type 0} (P : StreamingProcessor N.F S) where
  open N use {F}

  -- Where the drain may stand: the geometry of the output, and a stage of the chain.
  pub record Fits (n channels capacity : ℕ) (d : Drain F S) : Type 0 where
    pub room : length d.output ≡ capacity * channels
    pub produced : d.produced ≤ capacity
    pub stages : length d.chain.processors ≡ n
    pub stage : d.chain.finish_stage ≤ n
    pub complete : d.chain.finish_complete ≡ false
    pub policy : is_some d.chain.finish_policy ≡ true

  abbrev pub work_left : ℕ → Drain F S → ℕ
  work_left capacity d = length d.chain.processors - d.chain.finish_stage + (capacity - d.produced)

  -- A round that goes on has less to do, one that breaks has filled the output, and one that fails
  -- leaves the chain where it may stand.
  abbrev pub Advances : ℕ → ℕ → ℕ → Drain F S → Round F S → Type 0
  Advances n channels capacity d (again d') =
      Fits n channels capacity d' × (work_left capacity d' < work_left capacity d)
  Advances n channels capacity d (stop d') = Fits n channels capacity d' × (d'.produced ≡ capacity)
  Advances n channels capacity d (fail e d') = Fits n channels capacity d'

  pub after_stage-Advances :
      (n channels capacity : ℕ) (stage : ℕ) (p : ProcessProgress) (room : ℕ) (d d' : Drain F S)
      → Fits n channels capacity d'
      → d.produced < capacity
      → length d.chain.processors ≡ n
      → stage < n
      → d.chain.finish_stage ≡ stage
      → (d'.chain.finish_stage ≡ stage) ⊎ (d'.chain.finish_stage ≡ stage + 1)
      → d'.produced ≡ d.produced + p.produced_frames
      → 0 < room
      → Honest (capacity_for_finish room) p
      → Advances n channels capacity d (after_stage N P stage p.state capacity d')
  unfolding after_stage
  after_stage-Advances n channels capacity stage p room d d' f lt len hs e moved made pos
        (Honest.fills a st b) =
      ground arith
  after_stage-Advances n channels capacity stage p room d d' f lt len hs e moved made pos
        (Honest.ends a st b) =
      ground arith
  after_stage-Advances n channels capacity stage p room d d' f lt len hs e moved made pos
        (Honest.replaces a m st b c) =
      cc
  after_stage-Advances n channels capacity stage p room d d' f lt len hs e moved made pos
        (Honest.drains a m st b) =
      cc
  after_stage-Advances n channels capacity stage p room d d' f lt len hs e moved made pos
        (Honest.blocks a m st b) =
      cc
