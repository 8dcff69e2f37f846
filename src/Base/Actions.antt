-- ===== src/Base/Actions.antt =====
-- Calls that read and change the world around the program and return a result, and `do` blocks over
-- them.
use mathlib.Core.Path.{◌≡◌, refl}
use native.Mathlib.Omega.{arith}
use audio_engine_core.Base.Results.{Result, ok, err}

abbrev pub Action {ℓ κ μ} : Type ℓ → Type κ → Type μ → Type (ℓ ⊔ κ ⊔ μ)
Action W E A = W → W × Result E A

module _ {ℓ κ μ ν} {W : Type ℓ} {E : Type κ} {A : Type μ} {B : Type ν} where
  abbrev pub and_then : W × Result E A → (A → Action W E B) → W × Result E B
  and_then (w, ok a) f = f a w
  and_then (w, err e) f = (w, err e)

infixl 5 ◌>>=◌ ◌>>◌
abbrev pub ◌>>=◌ {ℓ κ μ ν} :
    {W : Type ℓ} {E : Type κ} {A : Type μ} {B : Type ν}
    → Action W E A
    → (A → Action W E B)
    → Action W E B
m >>= f = λ w. and_then (m w) f

abbrev pub ◌>>◌ {ℓ κ μ} :
    {W : Type ℓ} {E : Type κ} {B : Type μ} → Action W E (Unit {0}) → Action W E B → Action W E B
m >> k = m >>= λ _. k

-- `Ok(a)`, `Err(e)` and a `Result` that touches nothing
abbrev pub done {ℓ κ μ} : {W : Type ℓ} {E : Type κ} {A : Type μ} → A → Action W E A
done a = λ w. (w, ok a)

abbrev pub throw {ℓ κ μ} : {W : Type ℓ} {E : Type κ} {A : Type μ} → E → Action W E A
throw e = λ w. (w, err e)

abbrev pub pure {ℓ κ μ} : {W : Type ℓ} {E : Type κ} {A : Type μ} → Result E A → Action W E A
pure r = λ w. (w, r)

-- `map_err`
abbrev pub err_with {ℓ κ μ ν} :
    {W : Type ℓ} {E : Type κ} {F : Type μ} {A : Type ν} → (E → F) → W × Result E A → W × Result F A
err_with f (w, ok a) = (w, ok a)
err_with f (w, err e) = (w, err (f e))

-- A call that succeeds went on from the result of its first part.
pub and_then-eq-ok {ℓ κ μ ν} :
    {W : Type ℓ} {E : Type κ} {A : Type μ} {B : Type ν} (p : W × Result E A) (f : A → Action W E B)
    {b : B}
    → (and_then p f).1 ≡ ok b
    → (a : A) × (p.1 ≡ ok a) × (and_then p f ≡ f a p.0)
and_then-eq-ok (w, ok a) f e = (a, refl, refl)
and_then-eq-ok (w, err x) f e = absurd (ground arith)
