-- ===== src/Scanner/Defects.antt =====
-- Where `search` does not do what it is for.
use native.Mathlib.Nat.{pow-suc, mul-le-mul_left}
use m_scale.Common.{ℕ, zero, suc, ◌*◌, ◌^◌, ◌≤◌, ◌≡◌, ◌∙◌, refl, arith, true, false, none}
use m_scale.Integer.{leb_ℤ}
use m_scale.Scanner.{
  Measure, RunFn, size, Search, Goal, start, next_inc, is_better, weigh, advance, is_close,
  search_loop, search,
}

-- A result that is worse than expected replaces every best result that is better than expected,
-- however far off the new one is: the test compares it with the best result where it should compare
-- the best result with the one expected.
pub weigh_keeps_worse :
    (g : Goal) (s : Search) (m : Measure)
    → leb_ℤ g.expected_result s.best_res ≡ false
    → leb_ℤ m.res g.expected_result ≡ false
    → ((weigh g s m).best_res ≡ m.res) × ((weigh g s m).best_rate ≡ m.rate)
unfolding weigh is_better
weigh_keeps_worse g s m better worse = ground arith

module _ (g : Goal) {W : Type 0} (run : RunFn W) where
  -- Every run succeeds and is worse than expected, at any load.
  abbrev pub AlwaysWorse : Type 0
  AlwaysWorse =
      (v : ℕ) (w : W)
      → ((run v w).0.status ≡ true) × (leb_ℤ (run v w).0.res g.expected_result ≡ false)

  next_worse :
      (s : Search) (m : Measure) (h : ℕ)
      → leb_ℤ m.res g.expected_result ≡ false
      → s.value ≡ size s.last_increase
      → size s.last_increase ≡ 2 * h
      → ((advance g s m).value ≡ h) × (size (advance g s m).last_increase ≡ h)
  unfolding advance next_inc weigh
  next_worse s m h worse e d = ground arith

  stays_open : (s : Search) → g.num ≤ g.den → s.value ≡ size s.last_increase → is_close g s ≡ false
  stays_open s small e =
      ground (arith, mul-le-mul_left {m = g.num} {n = g.den} (size s.last_increase) small)

  loop_endless :
      AlwaysWorse
      → g.num ≤ g.den
      → (f : ℕ) (s : Search) (w : W) (q : ℕ) → s.value ≡ size s.last_increase
      → size s.last_increase ≡ q * 2 ^ f
      → (search_loop g f run s w).0 ≡ none
  unfolding search_loop
  loop_endless worse small zero s w q e d = refl
  loop_endless worse small (suc f) s w q e d =
      let h = q * 2 ^ f in
      let half : size s.last_increase ≡ 2 * h = d ∙ rw (pow-suc 2 f) (omega arith) in
      let (value, step) = next_worse s (run s.value w).0 h (worse s.value w).1 e half in
      ground (
        arith,
        (worse s.value w).0,
        stays_open s small e,
        loop_endless worse small f (advance g s (run s.value w).0) (run s.value w).1 q
            (omega (arith, value, step)) step,
      )

-- Where every load is worse than expected, `search` does not end, whatever the fuel (and so however
-- many runs are made), if the starting load can be halved that often and the error percentage is at
-- most 100%.
pub search_never_ends :
    {W : Type 0} (g : Goal) (run : RunFn W) (fuel u v : ℕ) (w : W)
    → AlwaysWorse g run
    → g.num ≤ g.den
    → v ≡ u * 2 ^ fuel
    → (search g fuel run v w).0 ≡ none
unfolding search
search_never_ends g run fuel u v w worse small fine =
    loop_endless g run worse small fuel (start g v) w u refl fine
