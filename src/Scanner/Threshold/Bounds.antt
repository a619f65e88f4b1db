-- ===== src/Scanner/Threshold/Bounds.antt =====
-- The arithmetic of the accuracy of `search`.
use m_scale.Common.{ℕ, ◌+◌, ◌*◌, ◌≤◌, ◌<◌, ◌≡◌, arith, ap}
use native.Mathlib.Decide.{dec_lt}

mul_mono : (a b c : ℕ) → a ≤ b → a * c ≤ b * c
mul_mono a b c h = grind arith

pub small_step : (n d s v : ℕ) → 2 * n ≤ d → s * d < v * n → 2 * s < v
small_step n d s v h k = elim (dec_lt (2 * s) v) [
  | yes p ↦ p
  | no p ↦ absurd (omega (arith, mul_mono v (2 * s) n (omega arith), mul_mono (2 * n) d s h))
]

pub within : (n d s v b t : ℕ) → t < b + s → s * d < v * n → v ≤ 2 * t → t * d < b * d + 2 * n * t
within n d s v b t h k l = omega (arith, mul_mono t (b + s) d (omega arith), mul_mono v (2 * t) n l)

pub closes : (n d s v t : ℕ) → s * (d + n) ≤ t * n → t < v + s → 0 < n → s * d < v * n
closes n d s v t h l p = omega (arith, mul_mono (t + 1) (v + s) n (omega arith))

pub halves : (n d s h t p : ℕ) → s ≡ 2 * h → s * (d + n) ≤ t * n * (p * 2) → h * (d + n) ≤ t * n * p
halves n d s h t p e l = omega (arith, ap (λ (x : ℕ). x * (d + n)) e)
