-- ===== src/RealtimeSnapshot.antt =====
-- src/processor/lockfree_params.rs, `RealtimeSnapshot`: a writer publishes boxed snapshots that
-- readers copy without a lock, each box guarded by the hazard slots of the readers. A step is one
-- atomic access, all of them sequentially consistent, and a box is an address of the heap. Publishing
-- is under a mutex, so that there is one writer; the sequence is stored by it alone, so that its load
-- and its store are one step, and the retired boxes are its own.
pub mod Safe
pub mod Load
pub mod Publish
pub mod Reads
mod Tests
use audio_engine_core.Base.{
  ℕ, zero, suc, ◌+◌, ◌/◌, ◌%◌, ◌^◌, ◌<◌, ◌≡◌, Bool, true, false, Option, none, some, List, [], ◌∷◌,
  ◌++◌, ◌==◌, ltb, if◌then◌else◌, wrapping_add,
}

-- Where a call of `load_with_generation` stands: `crashed` is a read of a box that was freed.
pub data Reader (T : Type 0) : Type 0 where
  resting : Reader T
  began : (before : ℕ) → Reader T
  loaded guarded rechecked validated : (before pointer : ℕ) → Reader T
  copied : (before : ℕ) (value : T) → Reader T
  returning returned : Option (T × ℕ) → Reader T
  crashed : Reader T

-- Where a call of `publish` stands. The scan goes through the retired boxes, and for each through
-- the hazard slots from `slot` on; it gathers those it keeps.
pub data Writer (T : Type 0) : Type 0 where
  idle : Writer T
  opened : (value : T) → Writer T
  swapped : (previous : ℕ) → Writer T
  scanning : (keep todo : List ℕ) → Writer T
  testing : (keep : List ℕ) (box : ℕ) (todo : List ℕ) (slot : ℕ) → Writer T

-- The memory that the two share, and where they stand; `published` and `swaps` record the snapshot
-- of each generation and their number, which no step reads.
pub record System (T : Type 0) : Type 0 where
  pub heap : ℕ → Option T
  pub current : ℕ
  pub sequence : ℕ
  pub retired : List ℕ
  pub hazard : ℕ → ℕ
  pub reader : ℕ → Reader T
  pub writer : Writer T
  pub published : ℕ → Option T
  pub swaps : ℕ

abbrev pub put : {A : Type 0} → (ℕ → A) → ℕ → A → ℕ → A
put f i a j = if j == i then a else f j

module _ {T : Type 0} where
  abbrev pub set_reader : System T → ℕ → Reader T → System T
  set_reader s i r = record s { reader = put s.reader i r }

  -- the next access of the reader in slot `i`
  unfoldable pub reader_step : ℕ → System T → System T
  reader_step i s = elim (s.reader i) [
    | resting ↦ set_reader s i (if s.sequence % 2 == 0 then began s.sequence else returned none)
    | began before ↦ set_reader s i (loaded before s.current)
    | loaded before pointer ↦
        set_reader (record s { hazard = put s.hazard i pointer }) i (guarded before pointer)
    | guarded before pointer ↦
        set_reader s i (if s.current == pointer then rechecked before pointer else returning none)
    | rechecked before pointer ↦
        set_reader s i (if s.sequence == before then validated before pointer else returning none)
    | validated before pointer ↦ (elim (s.heap pointer) [
      | some value ↦ set_reader s i (copied before value)
      | none ↦ set_reader s i crashed
    ])
    | copied before value ↦
        set_reader s i (returning (if s.sequence == before then some (value, before / 2) else none))
    | returning o ↦ set_reader (record s { hazard = put s.hazard i 0 }) i (returned o)
    | returned o ↦ set_reader s i resting
    | crashed ↦ s
  ]

  -- The next access of the writer over `readers` slots, which may publish `value` in a box at
  -- `address`.
  unfoldable pub writer_step : ℕ → T → ℕ → System T → System T
  writer_step readers value address s = elim s.writer [
    | idle ↦ record s { sequence = wrapping_add s.sequence 1; writer = opened value }
    | opened v ↦ record s {
      heap = put s.heap address (some v);
      current = address;
      writer = swapped s.current;
      published = put s.published (s.swaps + 1) (some v);
      swaps = s.swaps + 1;
    }
    | swapped previous ↦ record s {
      sequence = wrapping_add s.sequence 1;
      retired = [];
      writer = scanning [] (s.retired ++ (previous ∷ []));
    }
    | scanning keep [] ↦ record s { retired = keep; writer = idle }
    | scanning keep (box ∷ todo) ↦ record s { writer = testing keep box todo 0 }
    | testing keep box todo slot ↦
        if ltb slot readers
        then if s.hazard slot == box
          then record s { writer = scanning (keep ++ (box ∷ [])) todo }
          else record s { writer = testing keep box todo (slot + 1) }
        else record s { heap = put s.heap box none; writer = scanning keep todo }
  ]

  -- One step of the readers in the slots below `readers` and of the writer. An allocation is of an
  -- address that is free, and the sequence has not used up its 64 bits.
  pub data Step (readers : ℕ) (s : System T) : System T → Type 0 where
    reads : (i : ℕ) → i < readers → Step readers s (reader_step i s)
    writes :
        (value : T) (address : ℕ)
        → s.heap address ≡ none
        → s.sequence + 1 < 2 ^ 64
        → Step readers s (writer_step readers value address s)

  -- `RealtimeSnapshot::new`, with every slot of a reader registered and empty
  abbrev pub start : T → System T
  start snapshot = record {
    heap = put (λ a. none) 1 (some snapshot);
    current = 1;
    sequence = 0;
    retired = [];
    hazard = λ i. 0;
    reader = λ i. resting;
    writer = idle;
    published = put (λ g. none) 0 (some snapshot);
    swaps = 0;
  }

  pub data Reached (readers : ℕ) (snapshot : T) : System T → Type 0 where
    starts : Reached readers snapshot (start snapshot)
    steps :
        {s t : System T}
        → Reached readers snapshot s
        → Step readers s t
        → Reached readers snapshot t
