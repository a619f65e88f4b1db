-- ===== src/Scanner/Raising/Simulation.antt =====
-- Where a callback that may raise does not raise, `search` over it is `search` over one that cannot.
use m_scale.Common.{ℕ, zero, suc, ◌≡◌, refl, arith, none, ok, Exec}
use m_scale.Scanner.{Measure, RunFn, Goal, Search, search_loop, search, advance, start}
use m_scale.Scanner.Raising.{guarded, raising_search}

-- `run` does on the states that come from a `V` what `f` does there.
module _ {V W : Type 0} (g : Goal) (run : ℕ → Exec W Measure) (state_of : V → W) (f : RunFn V)
    (follows : (v : ℕ) (x : V) → run v (state_of x) ≡ (ok (f v x).0, state_of (f v x).1)) where
  guarded_lem :
      (v : ℕ) (x : V) → guarded run v (state_of x, none) ≡ ((f v x).0, (state_of (f v x).1, none))
  unfolding guarded
  guarded_lem v x = ground (arith, follows v x)

  search_loop-follows :
      (fuel : ℕ) (s : Search) (x : V)
      → search_loop g fuel (guarded run) s (state_of x, none)
        ≡ ((search_loop g fuel f s x).0, (state_of (search_loop g fuel f s x).1, none))
  unfolding search_loop
  search_loop-follows zero s x = refl
  search_loop-follows (suc fuel) s x = ground (
    arith,
    guarded_lem s.value x,
    search_loop-follows fuel (advance g s (f s.value x).0) (f s.value x).1,
  )

  pub raising_search-follows :
      (fuel start_value : ℕ) (x : V)
      → raising_search run g fuel start_value (state_of x)
        ≡ (ok (search g fuel f start_value x).0, state_of (search g fuel f start_value x).1)
  unfolding raising_search search
  raising_search-follows fuel start_value x =
      ground (arith, search_loop-follows fuel (start g start_value) x)
