-- ===== src/Base/Lists.antt =====
-- Slices as lists with native indices, under the library's names.
use Prim.Native.Nat.{ℕ, zero, suc, ◌+◌, ◌-◌, ◌<◌, ◌≤◌, min}
use mathlib.Core.Path.{◌≡◌, refl, ap}
use mathlib.Core.Logic.{◌⊎◌, inl, inr}
use mathlib.Core.List.{List, [], ◌∷◌, ◌++◌}
use mathlib.Core.Option.{Option, none, some}
use native.Mathlib.Omega.{arith}
use audio_engine_core.Base.Tests.{if◌then◌else◌, leb, le→leb}

module _ {ℓ} {A : Type ℓ} where
  abbrev pub length : List A → ℕ
  length [] = 0
  length (x ∷ xs) = suc (length xs)

  abbrev pub get_elem? : List A → ℕ → Option A
  get_elem? [] i = none
  get_elem? (x ∷ xs) zero = some x
  get_elem? (x ∷ xs) (suc i) = get_elem? xs i

  abbrev pub take : ℕ → List A → List A
  take zero xs = []
  take (suc n) [] = []
  take (suc n) (x ∷ xs) = x ∷ take n xs

  abbrev pub drop : ℕ → List A → List A
  drop zero xs = xs
  drop (suc n) [] = []
  drop (suc n) (x ∷ xs) = drop n xs

  abbrev pub replicate : ℕ → A → List A
  replicate zero a = []
  replicate (suc n) a = a ∷ replicate n a

  -- `dst[at..at + src.len()].copy_from_slice(src)`, where that range lies inside `dst`
  abbrev pub overwrite : List A → ℕ → List A → List A
  overwrite dst at [] = dst
  overwrite [] at (y ∷ ys) = []
  overwrite (x ∷ xs) zero (y ∷ ys) = y ∷ overwrite xs zero ys
  overwrite (x ∷ xs) (suc at) (y ∷ ys) = x ∷ overwrite xs at (y ∷ ys)

  -- `&xs[lo..hi]`, which panics out of range
  unfoldable pub slice : List A → ℕ → ℕ → Option (List A)
  slice xs lo hi =
      if leb lo hi
      then if leb hi (length xs) then some (take (hi - lo) (drop lo xs)) else none
      else none

  -- `dst[at..at + src.len()].copy_from_slice(src)`, which panics out of range
  unfoldable pub copy_into : List A → ℕ → List A → Option (List A)
  copy_into dst at src =
      if leb (at + length src) (length dst) then some (overwrite dst at src) else none

  pub length-append : (xs ys : List A) → length (xs ++ ys) ≡ length xs + length ys
  length-append [] ys = omega arith
  length-append (x ∷ xs) ys = omega (arith, length-append xs ys)

  pub length-take : (n : ℕ) (xs : List A) → length (take n xs) ≡ min n (length xs)
  length-take zero xs = omega arith
  length-take (suc n) [] = omega arith
  length-take (suc n) (x ∷ xs) = omega (arith, length-take n xs)

  pub length-drop : (n : ℕ) (xs : List A) → length (drop n xs) ≡ length xs - n
  length-drop zero xs = omega arith
  length-drop (suc n) [] = omega arith
  length-drop (suc n) (x ∷ xs) = omega (arith, length-drop n xs)

  pub length-replicate : (n : ℕ) (a : A) → length (replicate n a) ≡ n
  length-replicate zero a = refl
  length-replicate (suc n) a = ap suc (length-replicate n a)

  pub length-overwrite :
      (dst : List A) (at : ℕ) (src : List A) → length (overwrite dst at src) ≡ length dst
  length-overwrite dst at [] = refl
  length-overwrite [] at (y ∷ ys) = refl
  length-overwrite (x ∷ xs) zero (y ∷ ys) = ap suc (length-overwrite xs zero ys)
  length-overwrite (x ∷ xs) (suc at) (y ∷ ys) = ap suc (length-overwrite xs at (y ∷ ys))

  pub get_elem?-take :
      (n : ℕ) (xs : List A) (i : ℕ) → i < n → get_elem? (take n xs) i ≡ get_elem? xs i
  get_elem?-take zero xs i h = absurd (omega arith)
  get_elem?-take (suc n) [] i h = refl
  get_elem?-take (suc n) (x ∷ xs) zero h = refl
  get_elem?-take (suc n) (x ∷ xs) (suc i) h = get_elem?-take n xs i (omega arith)

  pub get_elem?-append_left :
      (xs ys : List A) (i : ℕ) → i < length xs → get_elem? (xs ++ ys) i ≡ get_elem? xs i
  get_elem?-append_left [] ys i h = absurd (omega arith)
  get_elem?-append_left (x ∷ xs) ys zero h = refl
  get_elem?-append_left (x ∷ xs) ys (suc i) h = get_elem?-append_left xs ys i (omega arith)

  pub get_elem?_of_lt : (xs : List A) (i : ℕ) → i < length xs → (a : A) × (get_elem? xs i ≡ some a)
  get_elem?_of_lt [] i h = absurd (omega arith)
  get_elem?_of_lt (x ∷ xs) zero h = (x, refl)
  get_elem?_of_lt (x ∷ xs) (suc i) h = get_elem?_of_lt xs i (omega arith)

  pub get_elem?-drop :
      (n : ℕ) (xs : List A) (i j : ℕ) → j ≡ n + i → get_elem? (drop n xs) i ≡ get_elem? xs j
  get_elem?-drop zero xs i j e = ap (get_elem? xs) (omega arith)
  get_elem?-drop (suc n) [] i j e = refl
  get_elem?-drop (suc n) (x ∷ xs) i zero e = absurd (omega arith)
  get_elem?-drop (suc n) (x ∷ xs) i (suc j) e = get_elem?-drop n xs i j (omega arith)

  -- An overwritten place holds the source's element,
  pub get_elem?-overwrite_in :
      (dst : List A) (at : ℕ) (src : List A) (j k : ℕ)
      → j ≡ at + k
      → k < length src
      → j < length dst
      → get_elem? (overwrite dst at src) j ≡ get_elem? src k
  get_elem?-overwrite_in dst at [] j k e h l = absurd (omega arith)
  get_elem?-overwrite_in [] at (y ∷ ys) j k e h l = absurd (omega arith)
  get_elem?-overwrite_in (x ∷ xs) zero (y ∷ ys) zero zero e h l = refl
  get_elem?-overwrite_in (x ∷ xs) zero (y ∷ ys) zero (suc k) e h l = absurd (omega arith)
  get_elem?-overwrite_in (x ∷ xs) zero (y ∷ ys) (suc j) zero e h l = absurd (omega arith)
  get_elem?-overwrite_in (x ∷ xs) zero (y ∷ ys) (suc j) (suc k) e h l =
      get_elem?-overwrite_in xs zero ys j k (omega arith) (omega arith) (omega arith)
  get_elem?-overwrite_in (x ∷ xs) (suc at) (y ∷ ys) zero k e h l = absurd (omega arith)
  get_elem?-overwrite_in (x ∷ xs) (suc at) (y ∷ ys) (suc j) k e h l =
      get_elem?-overwrite_in xs at (y ∷ ys) j k (omega arith) h (omega arith)

  -- and every other place what it held.
  pub get_elem?-overwrite_below :
      (dst : List A) (at : ℕ) (src : List A) (j : ℕ)
      → j < at
      → get_elem? (overwrite dst at src) j ≡ get_elem? dst j
  get_elem?-overwrite_below dst at [] j h = refl
  get_elem?-overwrite_below [] at (y ∷ ys) j h = refl
  get_elem?-overwrite_below (x ∷ xs) zero (y ∷ ys) j h = absurd (omega arith)
  get_elem?-overwrite_below (x ∷ xs) (suc at) (y ∷ ys) zero h = refl
  get_elem?-overwrite_below (x ∷ xs) (suc at) (y ∷ ys) (suc j) h =
      get_elem?-overwrite_below xs at (y ∷ ys) j (omega arith)

  pub get_elem?-overwrite_above :
      (dst : List A) (at : ℕ) (src : List A) (j : ℕ)
      → at + length src ≤ j
      → get_elem? (overwrite dst at src) j ≡ get_elem? dst j
  get_elem?-overwrite_above dst at [] j h = refl
  get_elem?-overwrite_above [] at (y ∷ ys) j h = refl
  get_elem?-overwrite_above (x ∷ xs) zero (y ∷ ys) zero h = absurd (omega arith)
  get_elem?-overwrite_above (x ∷ xs) zero (y ∷ ys) (suc j) h =
      get_elem?-overwrite_above xs zero ys j (omega arith)
  get_elem?-overwrite_above (x ∷ xs) (suc at) (y ∷ ys) zero h = refl
  get_elem?-overwrite_above (x ∷ xs) (suc at) (y ∷ ys) (suc j) h =
      get_elem?-overwrite_above xs at (y ∷ ys) j (omega arith)

  pub slice_prefix : (xs : List A) (n : ℕ) → n ≤ length xs → slice xs 0 n ≡ some (take n xs)
  unfolding slice
  slice_prefix xs n h =
      rw (le→leb 0 n (omega arith), le→leb n (length xs) h)
        (ap (λ k. some (take k xs)) (omega arith))

  pub slice_add :
      (xs : List A) (lo n : ℕ)
      → lo + n ≤ length xs
      → slice xs lo (lo + n) ≡ some (take n (drop lo xs))
  unfolding slice
  slice_add xs lo n h =
      rw (le→leb lo (lo + n) (omega arith), le→leb (lo + n) (length xs) h)
        (ap (λ k. some (take k (drop lo xs))) (omega arith))

  pub slice_span :
      (xs : List A) (lo hi n : ℕ)
      → hi ≡ lo + n
      → hi ≤ length xs
      → slice xs lo hi ≡ some (take n (drop lo xs))
  slice_span xs lo hi n e h = rw e (slice_add xs lo n (omega arith))

  pub copy_into_of_le :
      (dst : List A) (at : ℕ) (src : List A)
      → at + length src ≤ length dst
      → copy_into dst at src ≡ some (overwrite dst at src)
  unfolding copy_into
  copy_into_of_le dst at src h = rw (le→leb (at + length src) (length dst) h)

  pub get_elem?_of_le : (xs : List A) (i : ℕ) → length xs ≤ i → get_elem? xs i ≡ none
  get_elem?_of_le [] i h = refl
  get_elem?_of_le (x ∷ xs) zero h = absurd (omega arith)
  get_elem?_of_le (x ∷ xs) (suc i) h = get_elem?_of_le xs i (omega arith)

pub List-cases {ℓ} :
    {A : Type ℓ} (xs : List A) → (xs ≡ []) ⊎ ((x : A) × (t : List A) × (xs ≡ x ∷ t))
List-cases [] = inl refl
List-cases (x ∷ t) = inr (x, t, refl)
