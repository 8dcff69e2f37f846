-- ===== src/Float.antt =====
-- `f64`, as far as the modelled code computes with it: the IEEE operations are a parameter, and no
-- law of theirs is assumed but where a theorem names it.
use audio_engine_core.Base.{ℕ, Bool}

pub record Float : Type 1 where
  pub F : Type 0
  pub zero : F
  pub one : F
  -- `n as f64`, for a frame count or a sample rate
  pub of_ℕ : ℕ → F
  pub add : F → F → F
  pub sub : F → F → F
  pub mul : F → F → F
  pub div : F → F → F
  pub is_finite : F → Bool
  pub lt : F → F → Bool
  pub eq : F → F → Bool
  pub le : F → F → Bool
  -- `x.floor()`, `x.ceil()`, and `x as usize`
  pub floor_of : F → F
  pub ceil_of : F → F
  pub to_usize : F → ℕ
  -- `x as f32 as f64`
  pub narrow : F → F
  -- `x.ceil() as usize`
  pub ceil_usize : F → ℕ
  -- `x.round() as usize`
  pub round_usize : F → ℕ
  -- `10.0_f64.powf(x)`
  pub pow10 : F → F
