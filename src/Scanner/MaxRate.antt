-- ===== src/Scanner/MaxRate.antt =====
-- `find_max_rate`: it ends where rates are bounded, with the highest rate that it measured.
use m_scale.Common.{
  ℕ, zero, suc, ◌+◌, ◌*◌, ◌≤◌, ◌<◌, ◌≡◌, ◌∙◌, refl, arith, none, some, Option, ltb, if◌then◌else◌,
  ◌⊎◌, inl, inr, List, [], ◌∷◌, All, Bool-cases, nat_beq, ◌||◌,
}
use m_scale.Scanner.{
  Measure, RunFn, Climb, note_max, is_flat, climb_on, climb_loop, base_camp, find_max_rate,
}

abbrev pub Any {ℓ} : {A : Type ℓ} → (A → Type 0) → List A → Type 0
Any P [] = ⊥
Any P (x ∷ xs) = P x ⊎ Any P xs

module _ {W : Type 0} (unit : ℕ) (run : RunFn W) where
  -- The measures of `n` runs, each at twice the load of the one before.
  abbrev pub doublings : ℕ → ℕ → W → List Measure
  doublings zero v w = []
  doublings (suc n) v w = (run v w).0 ∷ doublings n (v + v) (run v w).1

  -- The world that these runs leave.
  abbrev pub after_doublings : ℕ → ℕ → W → W
  after_doublings zero v w = w
  after_doublings (suc n) v w = after_doublings n (v + v) (run v w).1

  -- The result `c'` of rounds over `ms` that began with `c`: its rate is `top`.
  record Tops (top : ℕ) (c c' : Climb) (ms : List Measure) : Type 0 where
    is_top : c'.max_value_rate ≡ some top
    highest : All (λ m. m.rate ≤ top) ms
    before : (b : ℕ) → c.max_value_rate ≡ some b → b ≤ top
    measured :
        Any (λ m. (m.rate ≡ top) × (m.res ≡ c'.max_value_drop)) ms
        ⊎ ((c.max_value_rate ≡ some top) × (c.max_value_drop ≡ c'.max_value_drop))

  abbrev new_top : Option ℕ → ℕ → ℕ
  new_top none rate = rate
  new_top (some best) rate = if nat_beq best 0 || ltb best rate then rate else best

  note_max-Tops :
      (c : Climb) (m : Measure) → Tops (new_top c.max_value_rate m.rate) c (note_max c m) (m ∷ [])
  unfolding note_max
  note_max-Tops c m = record {
    is_top = ground arith;
    highest = ground arith;
    before = λ b e. ground arith;
    measured = ground arith;
  }

  Tops-cons :
      (c c' : Climb) (m : Measure) (ms : List Measure) (top : ℕ)
      → Tops top (climb_on c m) c' ms
      → Tops top c c' (m ∷ ms)
  unfolding climb_on
  Tops-cons c c' m ms top rest =
      let here = note_max-Tops c m in
      let le = rest.before (new_top c.max_value_rate m.rate) here.is_top in
      record {
        is_top = rest.is_top;
        highest = (omega (arith, here.highest.0, le), rest.highest);
        before = λ b e. omega (arith, here.before b e, le);
        measured = elim rest.measured [
          | inl later ↦ inl (inr later)
          | inr (rate, drop) ↦ ground (arith, here.is_top, here.measured)
        ];
      }

  -- The loop ended with `c'` after `n` runs.
  abbrev Peaks : Climb → W → Option Climb × W → Type 0
  Peaks c w p =
      (c' : Climb) × (n : ℕ) × (top : ℕ) × (p ≡ (some c', after_doublings n c.value w))
      × Tops top c c' (doublings n c.value w)

  round_ends :
      (fuel : ℕ) (c : Climb) (w : W)
      → climb_loop unit run (suc fuel) c w
        ≡ (some (note_max c (run c.value w).0), (run c.value w).1)
      → Peaks c w (climb_loop unit run (suc fuel) c w)
  round_ends fuel c w e = (
    note_max c (run c.value w).0,
    1,
    new_top c.max_value_rate (run c.value w).0.rate,
    e,
    note_max-Tops c (run c.value w).0,
  )

  round_goes_on :
      (fuel : ℕ) (c : Climb) (w : W)
      → climb_loop unit run (suc fuel) c w
        ≡ (climb_loop unit run fuel (climb_on c (run c.value w).0) (run c.value w).1)
      → Peaks
          (climb_on c (run c.value w).0)
          (run c.value w).1
          (climb_loop unit run fuel (climb_on c (run c.value w).0) (run c.value w).1)
      → Peaks c w (climb_loop unit run (suc fuel) c w)
  unfolding climb_on
  round_goes_on fuel c w e (c', n, top, p, t) =
      (c', suc n, top, e ∙ p, Tops-cons c c' (run c.value w).0 _ top t)

  -- One round: it ends the loop, or the rate grew by 2% and is at least 1.
  climb_once :
      (fuel : ℕ) (c : Climb) (w : W)
      → (51 * c.last_rate ≤ 50 * (run c.value w).0.rate
          → unit ≤ (run c.value w).0.rate
          → Peaks
              (climb_on c (run c.value w).0)
              (run c.value w).1
              (climb_loop unit run fuel (climb_on c (run c.value w).0) (run c.value w).1))
      → Peaks c w (climb_loop unit run (suc fuel) c w)
  unfolding climb_loop
  climb_once fuel c w further = elim (Bool-cases (is_flat c (run c.value w).0)) [
    | inl flat ↦ round_ends fuel c w (ground arith)
    | inr steep ↦ elim (Bool-cases (ltb (run c.value w).0.rate unit)) [
      | inl weak ↦ round_ends fuel c w (ground arith)
      | inr strong ↦ round_goes_on fuel c w (ground arith) (further (ground arith) (ground arith))
    ]
  ]

  last_rate-climb_on : (c : Climb) (m : Measure) → (climb_on c m).last_rate ≡ m.rate
  unfolding climb_on
  last_rate-climb_on c m = refl

  climb_loop-Peaks :
      (most : ℕ)
      → ((v : ℕ) (w : W) → (run v w).0.rate ≤ most)
      → (fuel : ℕ) (c : Climb) (w : W) → unit ≤ c.last_rate
      → c.last_rate ≤ most
      → 50 * most < 50 * c.last_rate + fuel * unit
      → Peaks c w (climb_loop unit run fuel c w)
  climb_loop-Peaks most bounded zero c w low high h = absurd (omega arith)
  climb_loop-Peaks most bounded (suc fuel) c w low high h = climb_once fuel c w λ steep strong.
      let e = last_rate-climb_on c (run c.value w).0 in
      climb_loop-Peaks most bounded fuel (climb_on c (run c.value w).0) (run c.value w).1
        (rw e strong) (rw e (bounded c.value w)) (omega (arith, e))

  started :
      (v : ℕ) {c' : Climb} {ms : List Measure} {top : ℕ}
      → Tops top (base_camp unit run v) c' ms
      → Any (λ m. (m.rate ≡ top) × (m.res ≡ c'.max_value_drop)) ms
  started v t = elim t.measured [ inl m ↦ m | inr (e, d) ↦ absurd (cc) ]

-- `find_max_rate` ends, for every callback whose rates stay below a bound `most`: with fuel for more
-- than `50 * most / unit` rounds it makes a number `n` of runs, each at twice the load of the one
-- before, and leaves the world as these runs do; its result is the rate and the drop of one of these
-- runs, and no lower than the rate of any of them.
pub find_max_rate-highest :
    {W : Type 0} (unit : ℕ) (run : RunFn W) (most fuel v : ℕ) (w : W)
    → ((u : ℕ) (x : W) → (run u x).0.rate ≤ most)
    → 50 * most < fuel * unit
    → (c : Climb) × (n : ℕ) × (top : ℕ) × (find_max_rate unit run fuel v w
        ≡ (some c, after_doublings unit run n v w))
      × (c.max_value_rate ≡ some top)
      × All (λ m. m.rate ≤ top) (doublings unit run n v w)
      × Any (λ m. (m.rate ≡ top) × (m.res ≡ c.max_value_drop)) (doublings unit run n v w)
unfolding find_max_rate
find_max_rate-highest unit run most zero v w bounded enough = absurd (omega arith)
find_max_rate-highest unit run most (suc f) v w bounded enough =
    let (c', n, top, e, t) = climb_once unit run f (base_camp unit run v) w λ steep strong.
      let q = last_rate-climb_on unit run (base_camp unit run v) (run v w).0 in
      climb_loop-Peaks unit run most bounded f (climb_on (base_camp unit run v) (run v w).0)
        (run v w).1 (rw q strong) (rw q (bounded v w)) (omega (arith, q)) in
    (c', n, top, e, t.is_top, t.highest, started unit run v t)
