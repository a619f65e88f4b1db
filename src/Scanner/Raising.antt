-- ===== src/Scanner/Raising.antt =====
-- The methods of `Scanner` over a callback that may raise: an exception leaves the scanner at once. It
-- is kept beside the state, and the callback is not called again.
pub mod Simulation
use m_scale.Common.{ℕ, Option, none, some, List, [], Error, Exec, Result, ok, err, false, nat_eq}
use m_scale.Dict.{Dict}
use m_scale.Integer.{pos}
use m_scale.Scanner.{Measure, RunFn, Goal, Found, Climb, search, find_max_rate, range}

-- The state, and the exception that was raised.
abbrev pub Guarded : Type 0 → Type 0
Guarded W = W × Option Error

-- What the loops read after an exception: it ends `search` and `find_max_rate`.
abbrev no_measure : Measure
no_measure = record { status = false; rate = 0; res = pos 0 }

unfoldable pub guarded : {W : Type 0} → (ℕ → Exec W Measure) → RunFn (Guarded W)
guarded run v (w, some e) = (no_measure, (w, some e))
guarded run v (w, none) =
    let (r, w') = run v w in elim r [ ok m ↦ (m, (w', none)) | err e ↦ (no_measure, (w', some e)) ]

abbrev pub unguarded : {W A : Type 0} → A × Guarded W → Result A × W
unguarded (a, (w, none)) = (ok a, w)
unguarded (a, (w, some e)) = (err e, w)

module _ {W : Type 0} (run : ℕ → Exec W Measure) where
  unfoldable pub raising_search : Goal → ℕ → ℕ → Exec W (Option Found)
  unfolding guarded
  raising_search g fuel start_value w =
      unguarded (search g fuel (guarded run) start_value (w, none))

  unfoldable pub raising_find_max_rate : ℕ → ℕ → ℕ → Exec W (Option Climb)
  unfolding guarded
  raising_find_max_rate unit fuel start_value w =
      unguarded (find_max_rate unit (guarded run) fuel start_value (w, none))

  unfoldable pub raising_range : ℕ → List ℕ → Exec W (Dict ℕ Measure)
  unfolding guarded
  raising_range unit rates w = unguarded (range unit (guarded run) rates [] (w, none))
