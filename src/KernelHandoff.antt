-- ===== src/KernelHandoff.antt =====
-- src/processor/adapters/convolver.rs with its control.rs and handoff.rs: how a convolver kernel goes
-- from the control threads to the audio thread and back. A step makes at most one access of what the
-- threads share: a slot, the enabled flag, a generation, a counter or a rate; all accesses are taken
-- to be sequentially consistent, and the counters do not reach 2^64. A kernel is its generation and
-- rate with a payload; what the audio does with the payload, and its wet and dry transition, are left
-- out.
pub mod Audio
pub mod Kept
pub mod Quiescent
pub mod Status
pub mod Reading
mod Tests
use audio_engine_core.Base.{
  List, [], ◌∷◌, ℕ, suc, ◌+◌, ◌-◌, ◌<◌, Bool, true, false, not, ◌&&◌, ◌||◌, Option, none, some,
  saturating_add, wrapping_add, ◌==◌, if◌then◌else◌, is_none, is_some,
}

-- `PublishedConvolver`
pub record Kernel (K : Type 0) : Type 0 where
  pub generation : ℕ
  pub sample_rate_hz : ℕ
  pub kernel : K

-- `ConvolverControlInner`; the gate and the consumer's lease are in `System`
pub record Control (K : Type 0) : Type 0 where
  pub published : Option (Kernel K)
  pub retired : Option (Kernel K)
  pub enabled : Bool
  pub latest_published_generation : ℕ
  pub latest_adopted_generation : ℕ
  pub audio_drained_generation : ℕ
  pub adopted_kernels : ℕ
  pub superseded_kernels : ℕ
  pub discarded_kernels : ℕ
  pub retired_kernels : ℕ
  pub reclaimed_kernels : ℕ
  pub deferred_adoptions : ℕ
  pub backpressured : Bool
  pub active_sample_rate_hz : ℕ
  pub waiting_for_sample_rate_hz : ℕ

-- the kernels that `ConvolverProcessor` owns, and its rate
pub record Consumer (K : Type 0) : Type 0 where
  pub owned : Option (Kernel K)
  pub incoming : Option (Kernel K)
  pub pending_retire : Option (Kernel K)
  pub sample_rate_hz : ℕ

-- Where the audio thread stands in `sync_convolver` and in `acknowledge_drained`.
pub data Sync : Type 0 where
  resting flushing checking_owned taking checking_incoming checking_enabled settling : Sync
  when_disabled when_enabled : Sync
  drained drained_load : Sync
  drained_again drained_store : ℕ → Sync

-- An access that the audio thread makes on its way, before it goes on.
pub data Access : Type 0 where
  flush_one adopted_one discarded_one retired_one deferred_one : Access
  backpressure_on backpressure_off report_pending waiting_if_enabled : Access
  adopted_is active_is waiting_is : ℕ → Access

-- What a control thread does once it has reclaimed.
pub data Task (K : Type 0) : Type 0 where
  leave : Task K
  publication : K → ℕ → Task K

-- Where the control thread stands that holds the gate, in `publish_inner`, in `reclaim_retired` or in
-- `is_quiescent`.
pub data Gate (K : Type 0) : Type 0 where
  free counting : Gate K
  reclaiming reclaimed : Task K → Gate K
  publishing : K → ℕ → Gate K
  replaced : ℕ → Bool → Gate K
  asking_enabled asking_published asking_retired asking_drained : Gate K
  asking_latest : ℕ → Gate K
  asking_published_again asking_retired_again : Gate K
  answered : Bool → Gate K

-- How many kernels the teardown of a consumer dropped in each place; no step reads it.
pub record Dropped : Type 0 where
  pub owned_dropped : ℕ
  pub incoming_dropped : ℕ
  pub pending_dropped : ℕ

pub record System (K : Type 0) : Type 0 where
  pub control : Control K
  pub consumer : Consumer K
  pub sync : Sync
  pub todo : List Access
  pub gate : Gate K
  pub dropped : Dropped

module _ {K : Type 0} where
  abbrev pub new_control : Bool → Control K
  new_control initial = record {
    published = none;
    retired = none;
    enabled = initial;
    latest_published_generation = 0;
    latest_adopted_generation = 0;
    audio_drained_generation = 0;
    adopted_kernels = 0;
    superseded_kernels = 0;
    discarded_kernels = 0;
    retired_kernels = 0;
    reclaimed_kernels = 0;
    deferred_adoptions = 0;
    backpressured = false;
    active_sample_rate_hz = 0;
    waiting_for_sample_rate_hz = 0;
  }

  -- a control and its consumer, as `ConvolverControl::new` and `ConvolverProcessor::new` leave them
  abbrev pub new : Bool → System K
  new initial = record {
    control = new_control initial;
    consumer = record {
      owned = none;
      incoming = none;
      pending_retire = none;
      sample_rate_hz = 44100;
    };
    sync = resting;
    todo = active_is 44100 ∷ waiting_is 0 ∷ [];
    gate = free;
    dropped = record { owned_dropped = 0; incoming_dropped = 0; pending_dropped = 0 };
  }

  abbrev pub after : Task K → Gate K
  after leave = free
  after (publication kernel rate) = publishing kernel rate

  -- `reclaim_retired_unlocked`, up to its count
  abbrev pub reclaim : Task K → System K → System K
  reclaim task s = elim s.control.retired [
    | none ↦ record s { gate = after task }
    | some k ↦ record s { control = record s.control { retired = none }; gate = reclaimed task }
  ]

  -- the next access of the thread that holds the gate
  unfoldable pub gate_step : System K → System K
  gate_step s = elim s.gate [
    | free ↦ s
    | reclaiming task ↦ reclaim task s
    | reclaimed task ↦ record s {
      gate = after task;
      control = record s.control { reclaimed_kernels = s.control.reclaimed_kernels + 1 };
    }
    | publishing kernel rate ↦
        let generation = wrapping_add s.control.latest_published_generation 1 in
        record s {
          gate = replaced generation (is_some s.control.published);
          control = record s.control {
            published =
                some (record { generation = generation; sample_rate_hz = rate; kernel = kernel });
          };
        }
    | replaced generation superseded ↦ record s {
      gate = if superseded then counting else reclaiming leave;
      control = record s.control { latest_published_generation = generation };
    }
    | counting ↦ record s {
      gate = reclaiming leave;
      control = record s.control { superseded_kernels = s.control.superseded_kernels + 1 };
    }
    | asking_enabled ↦ record s {
      gate = if s.control.enabled then answered false else asking_published;
    }
    | asking_published ↦ record s {
      gate = if is_none s.control.published then asking_retired else answered false;
    }
    | asking_retired ↦ record s {
      gate = if is_none s.control.retired then asking_drained else answered false;
    }
    | asking_drained ↦ record s { gate = asking_latest s.control.audio_drained_generation }
    | asking_latest generation ↦ record s {
      gate =
          if generation == s.control.latest_published_generation
          then asking_published_again
          else answered false;
    }
    | asking_published_again ↦ record s {
      gate = if is_none s.control.published then asking_retired_again else answered false;
    }
    | asking_retired_again ↦ record s { gate = answered (is_none s.control.retired) }
    | answered _ ↦ record s { gate = free }
  ]
