-- ===== src/OutputChain/Budget.antt =====
-- The invariant of a collector, and the budget of an observed tail that its frames come out of.
use audio_engine_core.Base.{
  ℕ, suc, ◌+◌, ◌-◌, ◌*◌, ◌/◌, ◌≤◌, ◌<◌, ◌≡◌, refl, ◌∙◌, sym, ap, min, true, Option, none, some,
  List, [], ◌∷◌, arith, leb, is_some, length, take, inl, inr, Bool-cases, length-take,
}
use mathlib.Core.List.{map}
use native.Mathlib.Nat.{mul-div_cancel, mul-le-mul_right}
use audio_engine_core.OutputChain.Tail.{TailObservation}
use audio_engine_core.OutputChain.Observed.{IsObservation}
use audio_engine_core.OutputChain.Collector.{Collector, truncate_to}

pub length-map {ℓ κ} :
    {A : Type ℓ} {B : Type κ} (f : A → B) (xs : List A) → length (map f xs) ≡ length xs
length-map f [] = refl
length-map f (x ∷ xs) = ap suc (length-map f xs)

-- The frames that an observed tail may still have.
unfoldable pub budget : {F : Type 0} → Option (TailObservation F) → ℕ
budget none = 0
budget (some o) = o.protected_frames + (o.max_frames - o.generated_frames)

pub min-mul : (a b c : ℕ) → min (a * c) (b * c) ≡ min a b * c
min-mul a b c = elim (Bool-cases (leb a b)) [
  | inl le ↦
      let h : a * c ≤ b * c = mul-le-mul_right c (ground arith) in
      let e : min a b ≡ a = ground arith in rw e (omega arith)
  | inr gt ↦
      let h : b * c ≤ a * c = mul-le-mul_right c (ground arith) in
      let e : min a b ≡ b = ground arith in rw e (omega arith)
]

module _ {F S : Type 0} where
  abbrev pub frames : Collector F S → ℕ
  frames c = length c.samples / c.channels

  -- The invariant of a collector: whole frames, and a sound observation, if there is one.
  pub record IsCollector (c : Collector F S) : Type 0 where
    pub channels_pos : 0 < c.channels
    pub whole : length c.samples ≡ frames c * c.channels
    pub observed : (o : TailObservation F) → c.observation ≡ some o → IsObservation o

  -- What a push may do to a collector: its observation stays, and the frames it adds to an observed
  -- tail come out of the tail's budget.
  pub record Bounded (c c' : Collector F S) : Type 0 where
    pub sound : IsCollector c'
    pub channels : c'.channels ≡ c.channels
    pub active : is_some c'.observation ≡ is_some c.observation
    pub bound :
        is_some c.observation ≡ true
        → frames c' + budget c'.observation ≤ frames c + budget c.observation

  pub Bounded-refl : (c : Collector F S) → IsCollector c → Bounded c c
  Bounded-refl c v = record { sound = v; channels = refl; active = refl; bound = λ h. omega arith }

  pub Bounded-trans : (a b c : Collector F S) → Bounded a b → Bounded b c → Bounded a c
  Bounded-trans a b c p q = record {
    sound = q.sound;
    channels = q.channels ∙ p.channels;
    active = q.active ∙ p.active;
    bound = λ h.
        let lower : frames c + budget c.observation ≤ frames b + budget b.observation =
          q.bound (p.active ∙ h) in
        let upper : frames b + budget b.observation ≤ frames a + budget a.observation = p.bound h in
        omega arith;
  }

  -- A collector that got `n` frames.
  pub with_frames :
      (c : Collector F S) (xs : List F) (n : ℕ)
      → IsCollector c
      → length xs ≡ n * c.channels
      → IsCollector (record c { samples = xs }) × (frames (record c { samples = xs }) ≡ n)
  with_frames c xs n v e =
      let count : length xs / c.channels ≡ n =
        ap (λ (t : ℕ). t / c.channels) e ∙ mul-div_cancel n {n = c.channels} v.channels_pos in
      (
        record {
          channels_pos = v.channels_pos;
          whole = e ∙ ap (λ (t : ℕ). t * c.channels) (sym count);
          observed = v.observed;
        },
        count,
      )

  pub truncate-Bounded :
      (frame : Option ℕ) (a c : Collector F S) → Bounded a c → Bounded a (truncate_to frame c)
  unfolding truncate_to
  truncate-Bounded none a c v = v
  truncate-Bounded (some k) a c v = record {
    sound = cut.0;
    channels = v.channels;
    active = v.active;
    bound = λ h. omega (arith, cut.1, v.bound h);
  }
    where
      cut :
          IsCollector (record c { samples = take (k * c.channels) c.samples })
          × (frames (record c { samples = take (k * c.channels) c.samples }) ≡ min k (frames c))
      cut = with_frames c (take (k * c.channels) c.samples) (min k (frames c)) v.sound (
          length-take (k * c.channels) c.samples
          ∙ ap (min (k * c.channels)) v.sound.whole
          ∙ min-mul k (frames c) c.channels)

  -- The limiter has a state of its own.
  pub relimited : (a c : Collector F S) (s : S) → Bounded a c → Bounded a (record c { limiter = s })
  relimited a c s v = record {
    sound = record {
      channels_pos = v.sound.channels_pos;
      whole = v.sound.whole;
      observed = v.sound.observed;
    };
    channels = v.channels;
    active = v.active;
    bound = v.bound;
  }
