-- ===== src/RingBuffer/Copy.antt =====
-- A copy in at most two pieces, split where the ring wraps, at the level of samples.
use audio_engine_core.Base.{
  ℕ, ◌≢◌, ◌+◌, ◌-◌, ◌*◌, ◌%◌, ◌≤◌, ◌<◌, min, ◌≡◌, refl, ◌∙◌, ◌⊎◌, inl, inr, Option, List,
  Bool-cases, ltb, if◌then◌else◌, ltb→lt, ltb→le, lt→ltb, le→ltb, ap, arith, length, get_elem?,
  take, drop, overwrite, length-take, length-drop, length-overwrite, get_elem?-take, get_elem?-drop,
  get_elem?-overwrite_in, get_elem?-overwrite_below, get_elem?-overwrite_above,
}
use native.Mathlib.Nat.{mod-add-mod, mod-eq_of_lt, mod-eq-sub-mod, add-mod_right, mul-le-mul_right}
use native.Mathlib.Decide.{dec_lt, ℕ_discrete}

-- The samples that were ever written, by their place in the stream.
abbrev pub History : Type 0 → Type 0
History A = ℕ → Option A

-- After `n` samples of the stream come those of the block.
abbrev pub extend : {A : Type 0} → History A → ℕ → List A → History A
extend h n block q = if ltb q n then h q else get_elem? block (q - n)

-- `i` is the place in a ring of `C` that lies `k` beyond the place `s`.
abbrev pub Beyond : ℕ → ℕ → ℕ → ℕ → Type 0
Beyond C s k i = (i ≡ s + k) ⊎ (i + C ≡ s + k)

pub mod-Beyond : (C S k : ℕ) → 0 < C → k < C → Beyond C (S % C) k ((S + k) % C)
mod-Beyond C S k pos h = elim (dec_lt (S % C + k) C) [
  | yes p ↦ inl (sym_mod ∙ mod-eq_of_lt p)
  | no p ↦ inr (omega (arith, sym_mod, wrap p, below))
]
  where
    below : S % C < C
    below = omega arith

    sym_mod : (S + k) % C ≡ (S % C + k) % C
    sym_mod = rw mod-add-mod refl

    wrap : (S % C + k < C → ⊥) → (S % C + k) % C ≡ S % C + k - C
    wrap p =
        mod-eq-sub-mod {n = S % C + k} {m = C} (omega arith)
        ∙ mod-eq_of_lt {n = S % C + k - C} {m = C} (omega (arith, below))

-- The first piece ends with the block, or at the end of the ring.
abbrev pub Split : ℕ → ℕ → ℕ → ℕ → Type 0
Split C s F L = ((F ≡ L) × (s + L ≤ C)) ⊎ ((F + s ≡ C) × (F ≤ L))

-- Of the frame counts that the code computes.
pub min-Split :
    (total ch start frames : ℕ)
    → start < total
    → Split (total * ch) (start * ch) (min frames (total - start) * ch) (frames * ch)
min-Split total ch start frames h = elim (dec_lt (total - start) frames) [
  | yes p ↦
      let e : min frames (total - start) + start ≡ total = omega arith in
      let l : min frames (total - start) ≤ frames = omega arith in
      inr (omega (arith, ap (λ (t : ℕ). t * ch) e), mul-le-mul_right ch l)
  | no p ↦
      let e : min frames (total - start) ≡ frames = omega arith in
      let l : start + frames ≤ total = omega arith in
      inl (ap (λ (t : ℕ). t * ch) e, omega (arith, mul-le-mul_right ch l))
]

module _ {A : Type 0} (ring src : List A) (s F L : ℕ) where
  abbrev pub two_pieces : List A
  two_pieces = overwrite (overwrite ring s (take F src)) 0 (take (L - F) (drop F src))

  pub length-two_pieces : length two_pieces ≡ length ring
  length-two_pieces =
      length-overwrite (overwrite ring s (take F src)) 0 (take (L - F) (drop F src))
      ∙ length-overwrite ring s (take F src)

  module _ (C : ℕ) (ring_len : length ring ≡ C) (src_len : length src ≡ L) (fits : L ≤ C)
      (s_in : s < C) (split : Split C s F L) where
    first_len : length (take F src) ≡ F
    first_len = omega (arith, length-take F src)

    second_len : length (take (L - F) (drop F src)) ≡ L - F
    second_len = omega (arith, length-take (L - F) (drop F src), length-drop F src)

    -- Places past the start hold the block,
    pub two_pieces_in :
        (i k : ℕ) → i < C → k < L → Beyond C s k i → get_elem? two_pieces i ≡ get_elem? src k
    two_pieces_in i k hi hk b = elim (dec_lt k F) [
      | yes p ↦
          get_elem?-overwrite_above (overwrite ring s (take F src)) 0 (take (L - F) (drop F src)) i
            (omega (arith, second_len))
          ∙ get_elem?-overwrite_in ring s (take F src) i k (omega arith) (omega (arith, first_len))
              (omega arith)
          ∙ get_elem?-take F src k p
      | no p ↦
          get_elem?-overwrite_in (overwrite ring s (take F src)) 0 (take (L - F) (drop F src)) i i
            (omega arith) (omega (arith, second_len))
            (omega (arith, length-overwrite ring s (take F src)))
          ∙ get_elem?-take (L - F) (drop F src) i (omega arith)
          ∙ get_elem?-drop F src i k (omega arith)
    ]

    -- and the others what they held.
    pub two_pieces_out :
        (i k : ℕ)
        → i < C
        → k < C
        → L ≤ k
        → Beyond C s k i
        → get_elem? two_pieces i ≡ get_elem? ring i
    two_pieces_out i k hi hk hl b =
        get_elem?-overwrite_above (overwrite ring s (take F src)) 0 (take (L - F) (drop F src)) i
          (omega (arith, second_len))
        ∙ outside b
      where
        outside : Beyond C s k i → get_elem? (overwrite ring s (take F src)) i ≡ get_elem? ring i
        outside (inl e) = get_elem?-overwrite_above ring s (take F src) i (omega (arith, first_len))
        outside (inr e) = get_elem?-overwrite_below ring s (take F src) i (omega arith)

    -- If the ring held the newest `C` samples of a stream of `n`, and the block goes in `skip`
    -- samples later, it holds the newest `C` of the longer stream.
    pub two_pieces_holds :
        (h : History A) (block : List A) (n skip S : ℕ)
        → s ≡ S % C
        → S ≡ n + skip
        → (skip ≢ 0 → L ≡ C)
        → ((k : ℕ) → k < L → get_elem? src k ≡ get_elem? block (skip + k))
        → ((q : ℕ) → q < n → n ≤ q + C → get_elem? ring (q % C) ≡ h q)
        → (q : ℕ) → q < S + L
        → S + L ≤ q + C
        → get_elem? two_pieces (q % C) ≡ extend h n block q
    two_pieces_holds h block n skip S es eS full same old q below recent =
        elim (Bool-cases (ltb q S)) [
          | inl before ↦
              let lt : q < S = ltb→lt q S before in
              let no_skip : skip ≡ 0 = elim (ℕ_discrete skip 0) [
                | yes e ↦ e
                | no ne ↦ absurd (omega (arith, full ne))
              ] in
              rw (lt→ltb q n (omega arith)) (
                two_pieces_out (q % C) (q + C - S) (omega arith) (omega arith) (omega arith)
                  (place (q + C - S) (omega arith) (q + C) (omega arith) (add-mod_right q C))
                ∙ old q (omega arith) (omega arith))
          | inr after ↦
              let le : S ≤ q = ltb→le q S after in
              rw (le→ltb n q (omega arith)) (
                two_pieces_in (q % C) (q - S) (omega arith) (omega arith)
                  (place (q - S) (omega arith) q (omega arith) refl)
                ∙ same (q - S) (omega arith)
                ∙ ap (get_elem? block) (omega arith))
        ]
      where
        place : (k : ℕ) → k < C → (t : ℕ) → S + k ≡ t → t % C ≡ q % C → Beyond C s k (q % C)
        place k hk t e m = rw (es, ← m, ← e) (mod-Beyond C S k (omega arith) hk)
