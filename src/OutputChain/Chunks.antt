-- ===== src/OutputChain/Chunks.antt =====
-- The frames of a block of interleaved samples, as `chunks_exact` gives them.
use audio_engine_core.Base.{
  ℕ, zero, suc, ◌+◌, ◌-◌, ◌*◌, ◌/◌, ◌≤◌, ◌<◌, ◌≡◌, refl, ◌∙◌, sym, ap, List, [], ◌∷◌, ◌++◌, arith,
  min, leb, ◌⊎◌, inl, inr, Bool-cases, length, take, drop, drop-drop, drop-take, take-take,
  length-take, length-drop,
}
use mathlib.Core.List.{append-nil}
use native.Mathlib.Nat.{mul-div_cancel, mul-le-mul_right}
use audio_engine_core.OutputChain.Tail.{chunks, frames_of}

le_cases : (a b : ℕ) → (a ≤ b) ⊎ (b < a)
le_cases a b = elim (Bool-cases (leb a b)) [
  | inl le ↦ inl (ground arith)
  | inr gt ↦ inr (ground arith)
]

module _ {A : Type 0} where
  pub length-chunks : (n c : ℕ) (xs : List A) → length (chunks n c xs) ≡ n
  unfolding chunks
  length-chunks zero c xs = refl
  length-chunks (suc n) c xs = ap suc (length-chunks n c (drop c xs))

  pub take_append_left : (n : ℕ) (xs ys : List A) → n ≤ length xs → take n (xs ++ ys) ≡ take n xs
  take_append_left zero xs ys h = refl
  take_append_left (suc n) [] ys h = absurd (omega arith)
  take_append_left (suc n) (x ∷ xs) ys h =
      ap (λ (t : List A). x ∷ t) (take_append_left n xs ys (omega arith))

  pub drop_append_left :
      (n : ℕ) (xs ys : List A) → n ≤ length xs → drop n (xs ++ ys) ≡ drop n xs ++ ys
  drop_append_left zero xs ys h = refl
  drop_append_left (suc n) [] ys h = absurd (omega arith)
  drop_append_left (suc n) (x ∷ xs) ys h = drop_append_left n xs ys (omega arith)

  pub drop_append_right :
      (n k : ℕ) (xs ys : List A) → n ≡ length xs + k → drop n (xs ++ ys) ≡ drop k ys
  drop_append_right n k [] ys e = ap (λ (t : ℕ). drop t ys) (omega arith)
  drop_append_right zero k (x ∷ xs) ys e = absurd (omega arith)
  drop_append_right (suc n) k (x ∷ xs) ys e = drop_append_right n k xs ys (omega arith)

  pub take_append_right :
      (n k : ℕ) (xs ys : List A) → n ≡ length xs + k → take n (xs ++ ys) ≡ xs ++ take k ys
  take_append_right n k [] ys e = ap (λ (t : ℕ). take t ys) (omega arith)
  take_append_right zero k (x ∷ xs) ys e = absurd (omega arith)
  take_append_right (suc n) k (x ∷ xs) ys e =
      ap (λ (t : List A). x ∷ t) (take_append_right n k xs ys (omega arith))

  pub take_of_le : (n : ℕ) (xs : List A) → length xs ≤ n → take n xs ≡ xs
  take_of_le zero [] h = refl
  take_of_le zero (x ∷ xs) h = absurd (omega arith)
  take_of_le (suc n) [] h = refl
  take_of_le (suc n) (x ∷ xs) h = ap (λ (t : List A). x ∷ t) (take_of_le n xs (omega arith))

  take-nothing : (n : ℕ) (xs : List A) → n ≡ 0 → take n xs ≡ []
  take-nothing zero xs e = refl
  take-nothing (suc n) xs e = absurd (omega arith)

  -- A window of two lists, of `a` elements from `s` on, is the windows of each.
  pub window-append :
      (s a s1 a1 s2 a2 : ℕ) (xs ys : List A)
      → s1 ≡ min s (length xs)
      → a1 ≡ min a (length xs - s1)
      → s2 ≡ s - s1
      → a2 ≡ a - a1
      → s + a ≤ length xs + length ys
      → take a (drop s (xs ++ ys)) ≡ take a1 (drop s1 xs) ++ take a2 (drop s2 ys)
  window-append s a s1 a1 s2 a2 xs ys es1 ea1 es2 ea2 fits = elim (le_cases (length xs) s) [
    | inl past ↦
        ap (take a) (drop_append_right s s2 xs ys (omega arith))
        ∙ ap (λ (t : ℕ). take t (drop s2 ys)) (omega arith)
        ∙ ap (λ (t : List A). t ++ take a2 (drop s2 ys))
            (sym (take-nothing a1 (drop s1 xs) (omega arith)))
    | inr before ↦
        let first : s1 ≡ s = omega arith in
        let second : s2 ≡ 0 = omega arith in
        ap (take a) (drop_append_left s xs ys (omega arith))
        ∙ rw (first, second)
            (elim (le_cases a (length xs - s)) [
              | inl inside ↦
                  let same : a1 ≡ a = omega arith in
                  take_append_left a (drop s xs) ys (omega (arith, length-drop s xs))
                  ∙ sym (append-nil (take a (drop s xs)))
                  ∙ rw same (
                      ap (λ (t : List A). take a (drop s xs) ++ t)
                        (sym (take-nothing a2 ys (omega arith))))
              | inr across ↦
                  take_append_right a a2 (drop s xs) ys (omega (arith, length-drop s xs))
                  ∙ ap (λ (t : List A). t ++ take a2 ys)
                      (sym (take_of_le a1 (drop s xs) (omega (arith, length-drop s xs))))
            ])
  ]

cons {ℓ} :
    {A : Type ℓ} {x y : A} {xs ys : List A} → x ≡ y → xs ≡ ys → ◌≡◌ {A = List A} (x ∷ xs) (y ∷ ys)
cons e h = cc

module _ {A : Type 0} (c : ℕ) where
  chunks-prefix : (n m : ℕ) (xs : List A) → n ≤ m → chunks n c xs ≡ take n (chunks m c xs)
  unfolding chunks
  chunks-prefix zero m xs h = refl
  chunks-prefix (suc n) zero xs h = absurd (omega arith)
  chunks-prefix (suc n) (suc m) xs h =
      ap (λ (t : List (List A)). take c xs ∷ t) (chunks-prefix n m (drop c xs) (omega arith))

  chunks-drop :
      (k n m : ℕ) (xs : List A) → m ≡ k + n → chunks n c (drop (k * c) xs) ≡ drop k (chunks m c xs)
  unfolding chunks
  chunks-drop zero n m xs e =
      let z : 0 * c ≡ 0 = omega arith in rw z (ap (λ (t : ℕ). chunks t c xs) (omega arith))
  chunks-drop (suc k) n zero xs e = absurd (omega arith)
  chunks-drop (suc k) n (suc m) xs e =
      ap (chunks n c) (sym (drop-drop (k * c) c (suc k * c) xs (omega arith)))
      ∙ chunks-drop k n m (drop c xs) (omega arith)

  chunks-take : (n : ℕ) (xs : List A) → chunks n c (take (n * c) xs) ≡ chunks n c xs
  unfolding chunks
  chunks-take zero xs = refl
  chunks-take (suc n) xs = cons (take-take c (suc n * c) xs (omega arith)) (
      ap (chunks n c) (drop-take c (suc n * c) (n * c) xs (omega arith))
      ∙ chunks-take n (drop c xs))

  -- Whole frames in front stay whole frames.
  pub chunks-append :
      (m n t : ℕ) (xs ys : List A)
      → t ≡ m + n
      → length xs ≡ m * c
      → chunks t c (xs ++ ys) ≡ chunks m c xs ++ chunks n c ys
  unfolding chunks
  chunks-append zero n t [] ys e h = ap (λ (k : ℕ). chunks k c ys) (omega arith)
  chunks-append zero n t (x ∷ xs) ys e h = absurd (omega arith)
  chunks-append (suc m) n zero xs ys e h = absurd (omega arith)
  chunks-append (suc m) n (suc t) xs ys e h = cons (take_append_left c xs ys (omega arith)) (
      ap (chunks t c) (drop_append_left c xs ys (omega arith))
      ∙ chunks-append m n t (drop c xs) ys (omega arith) (omega (arith, length-drop c xs)))

  -- The frames of a part of a block, from whole frame to whole frame.
  pub frames_of-part :
      (k n m : ℕ) (xs : List A)
      → 0 < c
      → k + n ≤ m
      → length xs ≡ m * c
      → frames_of (take (n * c) (drop (k * c) xs)) c ≡ take n (drop k (chunks m c xs))
  frames_of-part k n m xs pos h e =
      ap (λ (t : ℕ). chunks t c (take (n * c) (drop (k * c) xs))) count
      ∙ chunks-take n (drop (k * c) xs)
      ∙ chunks-drop k n (k + n) xs refl
      ∙ ap (drop k) (chunks-prefix (k + n) m xs h)
      ∙ drop-take k (k + n) n (chunks m c xs) (omega arith)
    where
      fits : (k + n) * c ≤ m * c
      fits = mul-le-mul_right c h

      count : length (take (n * c) (drop (k * c) xs)) / c ≡ n
      count =
          ap (λ (t : ℕ). t / c)
            (omega (arith, fits, length-take (n * c) (drop (k * c) xs), length-drop (k * c) xs))
          ∙ mul-div_cancel n {n = c} pos
