-- ===== src/Scanner.antt =====
-- `Scanner` of src/main/python/hydra/lib/boundary.py. Rates and loads are fixed-point numbers: `unit`
-- of them make 1, and what the source divides is divided down to a whole number of these.
-- `run` is the callback `runfn`; `W` is the state of what it measures.
pub mod Steps
pub mod Threshold
pub mod MaxRate
pub mod Defects
pub mod Raising
use m_scale.Common.{
  ℕ, zero, suc, ◌+◌, ◌-◌, ◌*◌, ◌/◌, Bool, true, false, not, ◌&&◌, ◌||◌, Option, none, some, List,
  [], ◌∷◌, ltb, leb, nat_beq, if◌then◌else◌, nat_eq,
}
use m_scale.Dict.{Dict, insert}
use m_scale.Integer.{ℤ, negsuc, leb_ℤ, eqb_ℤ, dist, pos}

-- `(status, rate, res)`
pub record Measure : Type 0 where
  pub status : Bool
  pub rate : ℕ
  pub res : ℤ

abbrev pub RunFn : Type 0 → Type 0
RunFn W = ℕ → W → Measure × W

-- `inc`, with its sign.
pub data Increment : Type 0 where
  up down : ℕ → Increment

-- `abs(inc)`
abbrev pub size : Increment → ℕ
size (up n) = n
size (down n) = n

-- `value += inc`
abbrev pub add_inc : ℕ → Increment → ℕ
add_inc v (up n) = v + n
add_inc v (down n) = v - n

-- The local variables of `search`.
pub record Search : Type 0 where
  pub value : ℕ
  pub last_increase : Increment
  pub first_toggle : Bool
  pub cnt : ℕ
  pub inital_toggle_count : ℕ
  pub best_res : ℤ
  pub best_rate : ℕ

-- `(status, cnt, best_res, best_rate)`, before `int` is taken of `best_res`.
pub record Found : Type 0 where
  pub status : Bool
  pub cnt : ℕ
  pub best_res : ℤ
  pub best_rate : ℕ

-- The arguments of `search`, and -1 in fixed point; the error percentage is `num / den`.
pub record Goal : Type 0 where
  pub expected_result : ℤ
  pub num : ℕ
  pub den : ℕ
  pub minus_one : ℤ

abbrev pub start : Goal → ℕ → Search
start g v = record {
  value = v;
  last_increase = up v;
  first_toggle = false;
  cnt = 0;
  inital_toggle_count = 0;
  best_res = g.minus_one;
  best_rate = 0;
}

module _ (g : Goal) where
  unfoldable pub next_inc : Search → Measure → Increment
  next_inc s m =
      if leb_ℤ m.res g.expected_result
      then (if not s.first_toggle then up s.value else up (size s.last_increase / 2))
      else down (size s.last_increase / 2)

  unfoldable pub is_better : Search → Measure → Bool
  is_better s m =
      eqb_ℤ s.best_res g.minus_one
      || ltb (dist g.expected_result m.res) (dist s.best_res m.res)
      || (eqb_ℤ m.res s.best_res && ltb s.best_rate m.rate)

  -- The updates of a round up to the test that may end the loop.
  unfoldable pub weigh : Search → Measure → Search
  weigh s m = record s {
    first_toggle = s.first_toggle || not (leb_ℤ m.res g.expected_result);
    best_res = if is_better s m then m.res else s.best_res;
    best_rate = if is_better s m then m.rate else s.best_rate;
  }

  -- `abs(last_increase) < (value * error_percentage)`
  abbrev pub is_close : Search → Bool
  is_close s = ltb (size s.last_increase * g.den) (s.value * g.num)

  -- The updates after that test.
  unfoldable pub advance : Search → Measure → Search
  unfolding next_inc weigh
  advance s m =
      let t = weigh s m in
      record t {
        last_increase = next_inc s m;
        value = add_inc s.value (next_inc s m);
        cnt = s.cnt + 1;
        inital_toggle_count =
            if t.first_toggle then s.inital_toggle_count else s.inital_toggle_count + 1;
      }

  abbrev pub found : Bool → Search → Found
  found status s = record {
    status = status;
    cnt = s.cnt;
    best_res = s.best_res;
    best_rate = s.best_rate;
  }

  -- The loop on fuel; `none` says that the fuel ran out.
  unfoldable pub search_loop : {W : Type 0} → ℕ → RunFn W → Search → W → Option Found × W
  search_loop zero run s w = (none, w)
  search_loop (suc fuel) run s w =
      let (m, w') = run s.value w in
      let rest = search_loop fuel run (advance s m) w' in
      if not m.status
      then (some (found false s), w')
      else if is_close s
      then (some (found true (weigh s m)), w')
      else rest

  unfoldable pub search : {W : Type 0} → ℕ → RunFn W → ℕ → W → Option Found × W
  unfolding search_loop
  search fuel run start_value = search_loop fuel run (start g start_value)

-- The loop variables of `find_max_rate`; `max_value_rate` starts as `None`.
pub record Climb : Type 0 where
  pub value : ℕ
  pub last_rate : ℕ
  pub max_value_rate : Option ℕ
  pub max_value_drop : ℤ

-- `not max_value_rate or max_value_rate < rate`
abbrev pub is_record : Option ℕ → ℕ → Bool
is_record none rate = true
is_record (some best) rate = nat_beq best 0 || ltb best rate

unfoldable pub note_max : Climb → Measure → Climb
note_max c m =
    if is_record c.max_value_rate m.rate
    then record c { max_value_rate = some m.rate; max_value_drop = m.res }
    else c

-- `(1.0 * (rate - last_rate) / last_rate) < 0.02`, for a positive `last_rate`.
abbrev pub is_flat : Climb → Measure → Bool
is_flat c m = ltb (50 * m.rate) (51 * c.last_rate)

unfoldable pub climb_on : Climb → Measure → Climb
unfolding note_max
climb_on c m = record (note_max c m) { value = c.value + c.value; last_rate = m.rate }

-- `unit` is 1 in fixed point. The result is `(True, max_value_rate, max_value_drop)`; the loop runs on
-- fuel, and `none` says that it ran out.
module _ {W : Type 0} (unit : ℕ) (run : RunFn W) where
  unfoldable pub climb_loop : ℕ → Climb → W → Option Climb × W
  climb_loop zero c w = (none, w)
  climb_loop (suc fuel) c w =
      let (m, w') = run c.value w in
      let rest = climb_loop fuel (climb_on c m) w' in
      if is_flat c m
      then (some (note_max c m), w')
      else if ltb m.rate unit
      then (some (note_max c m), w')
      else rest

  abbrev pub base_camp : ℕ → Climb
  base_camp start_value = record {
    value = start_value;
    last_rate = unit / 10;
    max_value_rate = none;
    max_value_drop = pos 0;
  }

  unfoldable pub find_max_rate : ℕ → ℕ → W → Option Climb × W
  unfolding climb_loop
  find_max_rate fuel start_value = climb_loop fuel (base_camp start_value)

  -- `range`: a run for each entry of `data`.
  unfoldable pub range : List ℕ → Dict ℕ Measure → W → Dict ℕ Measure × W
  range [] res w = (res, w)
  range (r ∷ rest) res w = let (m, w') = run r w in range rest (insert res r m) w'
