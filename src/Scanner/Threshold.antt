-- ===== src/Scanner/Threshold.antt =====
-- `search` on a system with a threshold: up to the load `top` the result is the one that is expected,
-- above it a worse one. (This is what boundary_tests.py sets up.)
mod Bounds
mod Rounds
pub use m_scale.Scanner.Threshold.Rounds.{threshold, IsFair}
use m_scale.Scanner.Threshold.Rounds.{
  pow_double, is_better_ok, is_better_bad, half_of, advance-Inv, narrowed, risen, turned, doubled,
  rise_open, rise_bound, turn_bound, narrow_closes, Inv,
}
use native.Mathlib.Nat.{pow-suc, mul_assoc, mul-le-mul, mul-le-mul_left}
use m_scale.Scanner.Threshold.Bounds.{small_step, within, closes, halves}
use m_scale.Common.{
  ℕ, zero, suc, ◌+◌, ◌-◌, ◌*◌, ◌/◌, ◌^◌, ◌≤◌, ◌<◌, ◌≡◌, refl, arith, true, false, ◌⊎◌, inl, inr,
  some, leb, ltb, if◌then◌else◌, Bool-cases, ◌∙◌, Option,
}
use m_scale.Integer.{ℤ, leb_ℤ, eqb_ℤ}
use m_scale.Scanner.{
  Measure, RunFn, Increment, up, down, size, Search, Goal, Found, start, next_inc, is_better, weigh,
  advance, is_close, found, search_loop, search,
}

module _ (g : Goal) (top : ℕ) (hi : ℤ) where
  -- The result of `search` says that the last run succeeded, and its rate is a fine load, less than
  -- twice the error percentage below the threshold.
  abbrev pub IsAccurate : Found → Type 0
  IsAccurate r =
      (r.status ≡ true)
      × (r.best_rate ≤ top)
      × (top * g.den < r.best_rate * g.den + 2 * g.num * top)

  close-IsAccurate :
      IsFair g top hi
      → (s : Search) → Inv g top hi s
      → s.first_toggle ≡ true
      → is_close g s ≡ true
      → IsAccurate (found g true (weigh g s (threshold g top hi s.value)))
  unfolding weigh
  close-IsAccurate fair s i t c = elim (Bool-cases (leb s.value top)) [
    | inl fits ↦
        let better = is_better_ok g top hi fair s (threshold g top hi s.value) i.res (rw fits) in
        let near = within g.num g.den (size s.last_increase) s.value s.value top in
        ground (arith, better, near)
    | inr over ↦
        let better = is_better_bad g top hi fair s (threshold g top hi s.value) i.res (rw over) in
        let near = within g.num g.den (size s.last_increase) s.value s.best_rate top in
        ground (arith, better, near, small_step g.num g.den (size s.last_increase) s.value)
  ]

  abbrev pub Ends : Option Found → Type 0
  Ends o = (r : Found) × (o ≡ some r) × IsAccurate r

  module _ {W : Type 0} (run : RunFn W) where
    -- The callback measures the system with the threshold, whatever state it is in.
    abbrev pub Measures : Type 0
    Measures = (v : ℕ) (w : W) → (run v w).0 ≡ threshold g top hi v

    loop_step :
        Measures
        → (f : ℕ) (s : Search) (w : W)
        → (search_loop g (suc f) run s w).0 ≡ (
            if is_close g s
            then some (found g true (weigh g s (threshold g top hi s.value)))
            else (search_loop g f run
                (advance g s (threshold g top hi s.value))
                (run s.value w).1).0)
    unfolding search_loop
    loop_step measures f s w = ground (arith, measures s.value w)

    Ends-close :
        Measures
        → (f : ℕ) (s : Search) (w : W) → is_close g s ≡ true
        → IsAccurate (found g true (weigh g s (threshold g top hi s.value)))
        → Ends (search_loop g (suc f) run s w).0
    Ends-close measures f s w c a = (
      found g true (weigh g s (threshold g top hi s.value)),
      loop_step measures f s w ∙ (rw c refl),
      a,
    )

    Ends-next :
        Measures
        → (f : ℕ) (s : Search) (w : W) → is_close g s ≡ false
        → Ends (search_loop g f run (advance g s (threshold g top hi s.value)) (run s.value w).1).0
        → Ends (search_loop g (suc f) run s w).0
    Ends-next measures f s w c (r, e, a) = (r, loop_step measures f s w ∙ (rw c e), a)

    narrow-Ends :
        IsFair g top hi
        → Measures
        → (k f : ℕ) (s : Search) (w : W) (q : ℕ) → Inv g top hi s
        → s.first_toggle ≡ true
        → size s.last_increase ≡ q * 2 ^ f
        → size s.last_increase * (g.den + g.num) ≤ top * g.num * 2 ^ k
        → k < f
        → Ends (search_loop g f run s w).0
    narrow-Ends fair measures k zero s w q i t e h l = absurd (omega arith)
    narrow-Ends fair measures zero (suc f) s w q i t e h l =
        let c = narrow_closes g top hi fair s i t (omega arith) in
        Ends-close measures f s w c (close-IsAccurate fair s i t c)
    narrow-Ends fair measures (suc k) (suc f) s w q i t e h l = elim (Bool-cases (is_close g s)) [
      | inl c ↦ Ends-close measures f s w c (close-IsAccurate fair s i t c)
      | inr c ↦
          let half = half_of g top hi (size s.last_increase) q f e in
          let next = narrowed g top hi s t in
          Ends-next measures f s w c (
            narrow-Ends fair measures k f (advance g s (threshold g top hi s.value))
              (run s.value w).1 q (advance-Inv g top hi fair s q f i e) next.0 (next.1 ∙ half.0)
              (rw next.1 (
                halves g.num g.den (size s.last_increase) (size s.last_increase / 2) top (2 ^ k)
                  half.1 (rw (pow-suc 2 k) at h)))
              (omega arith))
    ]

    rise-Ends :
        IsFair g top hi
        → Measures
        → (d k f : ℕ) (s : Search) (w : W) (q : ℕ) → Inv g top hi s
        → s.first_toggle ≡ false
        → size s.last_increase ≡ q * 2 ^ f
        → top < s.best_rate * 2 ^ d
        → g.den + g.num ≤ g.num * 2 ^ k
        → d + k + 1 < f
        → Ends (search_loop g f run s w).0
    rise-Ends fair measures d k zero s w q i t e h l b = absurd (omega arith)
    rise-Ends fair measures zero k (suc f) s w q i t e h l b = absurd (omega (arith, i.fine))
    rise-Ends fair measures (suc d) k (suc f) s w q i t e h l b =
        elim (Bool-cases (leb s.value top)) [
          | inl fits ↦
              let up_step = risen g top hi fair s i t fits in
              Ends-next measures f s w (rise_open g top hi fair s i t) (
                rise-Ends fair measures d k f (advance g s (threshold g top hi s.value))
                  (run s.value w).1 (4 * q) (advance-Inv g top hi fair s q f i e) up_step.0
                  (omega (arith, up_step.2, doubled g top hi s i t, pow_double g top hi q f))
                  (rw up_step.1 (rise_bound g top hi s d i t h)) l (omega arith))
          | inr over ↦
              let turn = turned g top hi fair s over in
              let half = half_of g top hi (size s.last_increase) q f e in
              Ends-next measures f s w (rise_open g top hi fair s i t) (
                narrow-Ends fair measures k f (advance g s (threshold g top hi s.value))
                  (run s.value w).1 q (advance-Inv g top hi fair s q f i e) turn.0 (turn.1 ∙ half.0)
                  (rw turn.1 (turn_bound g top hi s k i t l)) (omega arith))
        ]

  first_ok :
      IsFair g top hi
      → (v : ℕ) → v ≤ top
      → Inv g top hi (advance g (start g v) (threshold g top hi v))
        × ((advance g (start g v) (threshold g top hi v)).first_toggle ≡ false)
        × ((advance g (start g v) (threshold g top hi v)).best_rate ≡ v)
        × (size (advance g (start g v) (threshold g top hi v)).last_increase ≡ v)
  unfolding advance next_inc weigh is_better
  first_ok fair v h = let same : leb v top ≡ true = ground arith in ground (arith, same)

  first_open : IsFair g top hi → (v : ℕ) → is_close g (start g v) ≡ false
  first_open fair v =
      ground (arith, mul-le-mul_left {m = g.num} {n = g.den} v (omega (arith, fair.small)))

-- `search` ends and its answer is accurate, for every callback that measures a system with a threshold
-- `top`: rate `v` and the expected result at a load `v` up to `top`, a worse result above it. The
-- starting load `v` is at most `top`; it reaches `top` by fewer than `d` doublings; the
-- fuel exceeds `d + k + 2`, where `2 ^ k` is at least `(den + num) / num`; and the load is fine enough
-- in fixed point to be halved once a round. Then the status is true, and the best rate is at most
-- `top`, and below it by less than twice the error percentage of `top`.
pub search_finds_threshold :
    {W : Type 0} (g : Goal) (top : ℕ) (hi : ℤ) (run : RunFn W) (d k fuel u v : ℕ) (w : W)
    → IsFair g top hi
    → Measures g top hi run
    → v ≡ u * 2 ^ fuel
    → v ≤ top
    → top < v * 2 ^ d
    → g.den + g.num ≤ g.num * 2 ^ k
    → d + k + 2 < fuel
    → Ends g top hi (search g fuel run v w).0
unfolding search
search_finds_threshold g top hi run d k zero u v w fair measures fine ok reach close enough =
    absurd (omega arith)
search_finds_threshold g top hi run d k (suc f) u v w fair measures fine ok reach close enough =
    let (inv, rising, best, step) = first_ok g top hi fair v ok in
    Ends-next g top hi run measures f (start g v) w (first_open g top hi fair v) (
      rise-Ends g top hi run fair measures d k f (advance g (start g v) (threshold g top hi v))
        (run v w).1 (2 * u) inv rising (omega (arith, step, pow_double g top hi u f))
        (rw best reach) close (omega arith))
