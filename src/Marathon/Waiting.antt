-- ===== src/Marathon/Waiting.antt =====
-- `scale_app`, then `wait_app_ready` of mmapi.py, on a marathon that starts and stops tasks while the
-- code sleeps.
use m_scale.Common.{
  ℕ, zero, suc, ◌+◌, ◌-◌, ◌≤◌, ◌<◌, ◌≡◌, arith, ok, some, String, ltb, Bool-cases, inl, inr,
  nat_beq,
}
use m_scale.Marathon.{Client, MarathonApp, try_until, get_app, scale_app, wait_app_ready}

abbrev pub distance : ℕ → ℕ → ℕ
distance a b = (a - b) + (b - a)

-- What marathon keeps of one app: how it stands, and how many tasks it was asked for. Its calls
-- answer; a sleep brings the number of running tasks nearer to the one asked for, from either side.
pub record Converging {W : Type 0} (mcli : Client W) (app : String) : Type 0 where
  pub app_of : W → MarathonApp
  pub target : W → ℕ
  pub gets_app : (w : W) → mcli.get_app app w ≡ (ok (some (app_of w)), w)
  pub scales_app :
      (n : ℕ) (w : W)
      → (w' : W) × (mcli.scale_app app n w ≡ (ok tt, w')) × (target w' ≡ n) × (app_of w' ≡ app_of w)
  pub keeps_target : (d : ℕ) (w : W) → target (mcli.sleep d w) ≡ target w
  pub nears :
      (d : ℕ) (w : W)
      → 0 < d
      → distance (app_of (mcli.sleep d w)).tasks_running (target w)
        ≤ distance (app_of w).tasks_running (target w) - 1

module _ {W : Type 0} (mcli : Client W) (app : String) (c : Converging mcli app) where
  pub get_app-answers :
      (fuel timeout : ℕ) (w : W)
      → 0 < timeout
      → get_app mcli (suc fuel) app timeout w ≡ (ok (some (some (c.app_of w))), w)
  unfolding get_app try_until
  get_app-answers fuel timeout w p = ground (arith, c.gets_app w)

  pub scale_app-answers :
      (fuel n timeout : ℕ) (w : W)
      → 0 < timeout
      → (w' : W) × (scale_app mcli (suc fuel) app n timeout w ≡ (ok (some tt), w'))
        × (c.target w' ≡ n)
        × (c.app_of w' ≡ c.app_of w)
  unfolding scale_app try_until
  scale_app-answers fuel n timeout w p =
      let (w', r, t, a) = c.scales_app n w in (w', ground (arith, r), t, a)

  pub wait_app_ready-reaches :
      (fuel n nap : ℕ) (w : W)
      → 0 < nap
      → c.target w ≡ n
      → distance (c.app_of w).tasks_running n < fuel
      → (w' : W) × (wait_app_ready mcli fuel app n nap w ≡ (ok (some (c.app_of w')), w'))
        × ((c.app_of w').tasks_running ≡ n)
        × (c.target w' ≡ n)
  unfolding wait_app_ready
  wait_app_ready-reaches zero n nap w p t l = absurd (omega arith)
  wait_app_ready-reaches (suc fuel) n nap w p t l =
      elim (Bool-cases (ltb n (c.app_of w).tasks_running)) [
        | inl more ↦
            let (w1, s, t1, same) = scale_app-answers fuel n 300000 w (omega arith) in
            let near = c.nears 1000 w1 (omega arith) in
            let (w', r, x, y) =
              wait_app_ready-reaches fuel n nap (mcli.sleep 1000 w1) p
                (ground (arith, c.keeps_target 1000 w1)) (ground arith) in
            (w', ground (arith, get_app-answers fuel 300000 w (omega arith), s, r), x, y)
        | inr few ↦ elim (Bool-cases (nat_beq (c.app_of w).tasks_running n)) [
          | inl there ↦
              (w, ground (arith, get_app-answers fuel 300000 w (omega arith)), ground arith, t)
          | inr short ↦
              let near = c.nears nap w p in
              let (w', r, x, y) =
                wait_app_ready-reaches fuel n nap (mcli.sleep nap w) p
                  (ground (arith, c.keeps_target nap w)) (ground arith) in
              (w', ground (arith, get_app-answers fuel 300000 w (omega arith), r), x, y)
        ]
      ]
