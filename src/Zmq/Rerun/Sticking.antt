-- ===== src/Zmq/Rerun/Sticking.antt =====
-- The slow subscribers of an earlier run, in `rerun_test` of zmqtest/runtest.py.
use m_scale.Common.{
  ℕ, ◌<◌, ◌≡◌, refl, false, Option, String, List, [], ◌∷◌, ◌++◌, ok, string_eq, nat_eq,
}
use m_scale.Dict.{Dict, insert}
use m_scale.Hydra.{Endpoint, AppInfo, known, Hydra, Backend, sub_config}
use m_scale.Zmq.RunTest.{Options, set_of, rate_if}
use m_scale.Zmq.Rerun.{choose_clients}

-- The rates that each subscriber is to get: of receiving and of reconnecting.
abbrev pub rates_for :
    Options
    → Option (List String)
    → Option (List String)
    → Dict String Endpoint
    → List (String × ℕ × ℕ)
rates_for options slow rec [] = []
rates_for options slow rec ((key, e) ∷ ipm) =
    (key, rate_if slow key options.slow_clients_rate, rate_if rec key options.rec_clients_rate)
    ∷ rates_for options slow rec ipm

module _ {W : Type 0} (b : Backend W) (sent : W → List (String × ℕ × ℕ)) where
  -- `sent` are the rates that subscribers were sent; `random` chooses an index of the list, and
  -- sends none.
  pub record IsLogged : Type 0 where
    pub logs :
        (e : Endpoint) (t : String) (r c : ℕ) (w : W)
        → ((b.update_config e t (sub_config r c) w).0 ≡ ok tt)
          × (sent (b.update_config e t (sub_config r c) w).1 ≡ sent w ++ (t, r, c) ∷ [])
    pub range : (n : ℕ) (w : W) → 0 < n → (b.choice n w).0 < n
    pub quiet : (n : ℕ) (w : W) → sent (b.choice n w).1 ≡ sent w

  abbrev chosen_info : AppInfo → List String → AppInfo
  chosen_info info cset = record info {
    property = insert info.property "reconnecting_clients" (set_of cset);
  }

  abbrev chosen_hydra : Hydra W → String → AppInfo → List String → W → Hydra W
  chosen_hydra h app info cset w = record h {
    apps = insert h.apps app (known (chosen_info info cset));
    world = w;
  }

  choose_none :
      (app property : String) (h : Hydra W) → choose_clients b app property 0 h ≡ (ok false, h)
  unfolding choose_clients
  choose_none app property h = refl
