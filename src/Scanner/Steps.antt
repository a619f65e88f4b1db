-- ===== src/Scanner/Steps.antt =====
-- The load of `search` never falls below the step that is taken from it, whatever the callback says.
use m_scale.Common.{◌≤◌, arith}
use m_scale.Scanner.{Measure, size, Search, Goal, next_inc, weigh, advance}

module _ (g : Goal) where
  abbrev pub IsStep : Search → Type 0
  IsStep s = size s.last_increase ≤ s.value

  -- After each round of `search` the absolute value of `last_increase` is at most the load. So the
  -- subtraction in the next round stays at or above zero.
  pub advance-IsStep : (s : Search) (m : Measure) → IsStep s → IsStep (advance g s m)
  unfolding advance next_inc weigh
  advance-IsStep s m h = ground arith
