-- ===== src/Scanner/Threshold/Rounds.antt =====
-- One round of `search` on a system with a threshold.
use native.Mathlib.Nat.{pow-suc, mul_assoc, mul-le-mul}
use m_scale.Scanner.Threshold.Bounds.{small_step, closes}
use m_scale.Common.{
  ℕ, suc, ◌+◌, ◌*◌, ◌/◌, ◌^◌, ◌≤◌, ◌<◌, ◌≡◌, arith, true, false, ◌⊎◌, inl, inr, leb, ltb,
  if◌then◌else◌, Bool-cases, ◌∙◌,
}
use m_scale.Integer.{ℤ, leb_ℤ, eqb_ℤ}
use m_scale.Scanner.{Measure, size, Search, Goal, next_inc, is_better, weigh, advance, is_close}

module _ (g : Goal) (top : ℕ) (hi : ℤ) where
  abbrev pub threshold : ℕ → Measure
  threshold v = record {
    status = true;
    rate = v;
    res = if leb v top then g.expected_result else hi;
  }

  -- The error percentage is positive and at most a half, -1 is not the result expected, and `hi` is
  -- worse than that.
  pub record IsFair : Type 0 where
    pub positive : 0 < g.num
    pub small : 2 * g.num ≤ g.den
    pub no_sentinel : eqb_ℤ g.expected_result g.minus_one ≡ false
    pub worse : leb_ℤ hi g.expected_result ≡ false

  -- After the first round: the best rate is the highest that was fine, and one step below the load.
  pub record Inv (s : Search) : Type 0 where
    pub above : s.value ≡ s.best_rate + size s.last_increase
    pub fine : s.best_rate ≤ top
    pub res : s.best_res ≡ g.expected_result
    pub bracket :
        ((s.first_toggle ≡ true) × (top < s.best_rate + 2 * size s.last_increase))
        ⊎ ((s.first_toggle ≡ false) × (size s.last_increase ≡ s.best_rate))

  abbrev pub Steps : ℕ → Search → Type 0
  Steps f s = (q : ℕ) × (size s.last_increase ≡ q * 2 ^ f)

  pub pow_double : (q f : ℕ) → q * 2 ^ suc f ≡ 2 * (q * 2 ^ f)
  pow_double q f = rw (pow-suc 2 f) (omega arith)

  pub is_better_ok :
      IsFair
      → (s : Search) (m : Measure) → s.best_res ≡ g.expected_result
      → m.res ≡ g.expected_result
      → is_better g s m ≡ ltb s.best_rate m.rate
  unfolding is_better
  is_better_ok fair s m b r = ground arith

  pub is_better_bad :
      IsFair
      → (s : Search) (m : Measure) → s.best_res ≡ g.expected_result
      → m.res ≡ hi
      → is_better g s m ≡ false
  unfolding is_better
  is_better_bad fair s m b r = ground arith

  advance_ok :
      IsFair
      → (s : Search) (h : ℕ) → Inv s
      → leb s.value top ≡ true
      → size s.last_increase ≡ 2 * h
      → Inv (advance g s (threshold s.value))
  unfolding advance next_inc weigh
  advance_ok fair s h i fits e =
      let better = is_better_ok fair s (threshold s.value) i.res (rw fits) in ground (arith, better)

  advance_bad :
      IsFair
      → (s : Search) (h : ℕ) → Inv s
      → leb s.value top ≡ false
      → size s.last_increase ≡ 2 * h
      → Inv (advance g s (threshold s.value))
  unfolding advance next_inc weigh
  advance_bad fair s h i fits e =
      let better = is_better_bad fair s (threshold s.value) i.res (rw fits) in
      ground (arith, better)

  pub half_of : (n q f : ℕ) → n ≡ q * 2 ^ suc f → (n / 2 ≡ q * 2 ^ f) × (n ≡ 2 * (n / 2))
  half_of n q f h = let e : n ≡ 2 * (q * 2 ^ f) = h ∙ pow_double q f in omega arith

  pub advance-Inv :
      IsFair
      → (s : Search) (q f : ℕ) → Inv s
      → size s.last_increase ≡ q * 2 ^ suc f
      → Inv (advance g s (threshold s.value))
  advance-Inv fair s q f i e = elim (Bool-cases (leb s.value top)) [
    | inl fits ↦ advance_ok fair s (size s.last_increase / 2) i fits (half_of _ q f e).1
    | inr over ↦ advance_bad fair s (size s.last_increase / 2) i over (half_of _ q f e).1
  ]

  -- Once a load was too high, each round halves the step.
  pub narrowed :
      (s : Search)
      → s.first_toggle ≡ true
      → ((advance g s (threshold s.value)).first_toggle ≡ true)
        × (size (advance g s (threshold s.value)).last_increase ≡ size s.last_increase / 2)
  unfolding advance next_inc weigh
  narrowed s t = ground arith

  -- A load that is fine, before any was too high, is doubled.
  pub risen :
      IsFair
      → (s : Search) → Inv s
      → s.first_toggle ≡ false
      → leb s.value top ≡ true
      → ((advance g s (threshold s.value)).first_toggle ≡ false)
        × ((advance g s (threshold s.value)).best_rate ≡ s.value)
        × (size (advance g s (threshold s.value)).last_increase ≡ s.value)
  unfolding advance next_inc weigh
  risen fair s i t fits =
      let better = is_better_ok fair s (threshold s.value) i.res (rw fits) in ground (arith, better)

  pub turned :
      IsFair
      → (s : Search) → leb s.value top ≡ false
      → ((advance g s (threshold s.value)).first_toggle ≡ true)
        × (size (advance g s (threshold s.value)).last_increase ≡ size s.last_increase / 2)
  unfolding advance next_inc weigh
  turned fair s over = ground arith

  pub doubled : (s : Search) → Inv s → s.first_toggle ≡ false → s.value ≡ 2 * size s.last_increase
  doubled s i t = ground arith

  pub rise_open : IsFair → (s : Search) → Inv s → s.first_toggle ≡ false → is_close g s ≡ false
  rise_open fair s i t =
      ground
        (arith, doubled s i t, small_step g.num g.den (size s.last_increase) s.value fair.small)

  pub rise_bound :
      (s : Search) (d : ℕ)
      → Inv s
      → s.first_toggle ≡ false
      → top < s.best_rate * 2 ^ suc d
      → top < s.value * 2 ^ d
  rise_bound s d i t h =
      let e : s.value ≡ 2 * s.best_rate = ground arith in
      rw e (omega (arith, pow_double s.best_rate d))

  pub turn_bound :
      (s : Search) (k : ℕ)
      → Inv s
      → s.first_toggle ≡ false
      → g.den + g.num ≤ g.num * 2 ^ k
      → size s.last_increase / 2 * (g.den + g.num) ≤ top * g.num * 2 ^ k
  turn_bound s k i t l =
      let half : size s.last_increase / 2 ≤ top = ground arith in
      rw (mul_assoc top g.num (2 ^ k)) (mul-le-mul half l)

  pub narrow_closes :
      IsFair
      → (s : Search) → Inv s
      → s.first_toggle ≡ true
      → size s.last_increase * (g.den + g.num) ≤ top * g.num
      → is_close g s ≡ true
  narrow_closes fair s i t h =
      let below : top < s.value + size s.last_increase = ground arith in
      let c = closes g.num g.den (size s.last_increase) s.value top h below fair.positive in
      ground (arith, c)
