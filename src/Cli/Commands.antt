-- ===== src/Cli/Commands.antt =====
-- `hydra cli scale`.
use m_scale.Common.{ℕ, suc, ◌<◌, ◌≡◌, arith, true, false, some, ok}
use m_scale.Hydra.Startup.{Settings, marathon_addr}
use m_scale.Marathon.Waiting.{Converging, distance, scale_app-answers, wait_app_ready-reaches}
use m_scale.Cli.{Outer, Args, dispatch, scale}

module _ {W Json : Type 0} (o : Outer W Json) (s : Settings) (args : Args)
    (c : Converging (o.marathon (marathon_addr s)) args.app) where
  -- The command `scale`, where neither `ls` nor `stop` is given and the argument is a number, on a
  -- marathon that answers and brings the number of running tasks nearer to the one asked for in each
  -- sleep, with fuel for more rounds of the wait than tasks are missing or too many: it returns, and the
  -- app then has as many tasks running as its argument says.
  pub dispatch-scales :
      args.ls ≡ false
      → args.stop ≡ false
      → args.scale ≡ true
      → (n : ℕ) → o.int args.scale_arg ≡ some n
      → (fuel : ℕ) (w : W) → distance (c.app_of w).tasks_running n < suc fuel
      → (w' : W) × (dispatch o (suc fuel) s args w ≡ (ok tt, w'))
        × ((c.app_of w').tasks_running ≡ n)
  unfolding dispatch scale
  dispatch-scales no_ls no_stop is_scale n num fuel w enough =
      let mcli = o.marathon (marathon_addr s) in
      let (w1, r, t, a) = scale_app-answers mcli args.app c fuel n 300000 w (omega arith) in
      let (w', q, x, y) =
        wait_app_ready-reaches mcli args.app c (suc fuel) n 1000 w1 (omega arith) t
          (ground (arith, a, enough)) in
      (w', ground (arith, no_ls, no_stop, is_scale, num, r, q), x)
