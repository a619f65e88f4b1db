-- ===== src/Hydra/Scaling/Sizes.antt =====
-- `scale_app` and `delete_app` on a cluster that starts and stops at most `limit` tasks at a time.
use m_scale.Common.{
  ℕ, suc, ◌+◌, ◌≤◌, ◌<◌, ◌≡◌, refl, ok, some, true, arith, nat_eq, string_eq, ltb, Bool-cases, inl,
  inr, String, List, length, ◌-◌, if◌then◌else◌, ◌∷◌, [], Bool, false,
}
use m_scale.Dict.{has_key, HasKeysOnce, has_key-delete}
use m_scale.Hydra.{Task, Hydra, Backend}
use m_scale.Hydra.Scaling.{
  count_tasks, scale_to, scale_rounds, scale_at_once, scale_app, scaled, shrink, launch,
  delete_deployments, delete_app, delete_running, remove_app,
}
use m_scale.Hydra.Scaling.Cluster.{scale_batches_lem, delete_batches_lem}
use m_scale.Hydra.Apps.Refresh.{refresh_app_info_lem}

module _ {W : Type 0} (b : Backend W) (app : String) (limit : ℕ) (tasks_of : W → List Task)
    (gets_tasks : (w : W) → b.get_tasks app w ≡ (ok (tasks_of w), w))
    (scales : (n : ℕ) (w : W)
      → n ≤ length (tasks_of w) + limit
      → length (tasks_of w) ≤ n + limit
      → (w' : W) × (scale_to b app n w ≡ (ok tt, w')) × (length (tasks_of w') ≡ n)) where
  counts : (w : W) → count_tasks b app w ≡ (ok (length (tasks_of w)), w)
  unfolding count_tasks
  counts w = ground (arith, gets_tasks w)

  scale_rounds_lem :
      (fuel cnt batch threshold : ℕ) (w : W)
      → 0 < batch
      → batch ≤ limit
      → threshold ≤ limit
      → length (tasks_of w) ≤ threshold
      → threshold < cnt
      → cnt < fuel
      → (w' : W) × (scale_rounds b fuel app cnt batch threshold w ≡ (ok (some tt), w'))
        × (length (tasks_of w') ≡ cnt)
  unfolding scale_rounds
  scale_rounds_lem fuel cnt batch threshold w pos_batch l m few more enough =
      let (w1, s, c) = scales threshold w (ground arith) (ground arith) in
      let (w', r, d) =
        scale_batches_lem b app limit (λ w. length (tasks_of w)) counts scales fuel cnt batch
          threshold (cnt - threshold) w1 pos_batch l c (ground arith) (ground arith) in
      (w', ground (arith, counts w), d)

  launch_lem :
      (fuel cnt batch threshold : ℕ) (w : W)
      → 0 < batch
      → batch ≤ limit
      → threshold ≤ limit
      → length (tasks_of w) ≤ threshold
      → cnt < fuel
      → (w' : W) × (launch b fuel app cnt batch threshold w ≡ (ok (some tt), w'))
        × (length (tasks_of w') ≡ cnt)
  unfolding launch scale_at_once
  launch_lem fuel cnt batch threshold w pos_batch l m few enough =
      elim (Bool-cases (ltb threshold cnt)) [
        | inl more ↦
            let (w', r, d) =
              scale_rounds_lem fuel cnt batch threshold w pos_batch l m few (ground arith) enough in
            (w', ground (arith, r), d)
        | inr fits ↦
            let (w', r, d) = scales cnt w (ground arith) (ground arith) in
            (w', ground (arith, r), d)
      ]

  -- On a cluster that starts and stops at most `limit` tasks of an app at a time, and has at most
  -- `threshold` of this one: where the app is known, the batch is above 0, the batch and the threshold
  -- are within the limit, and there is more fuel than tasks asked for, `scale_app` returns, and the app
  -- then has as many tasks as asked for.
  pub scale_app-count :
      (ip_of : String → String)
      → ((host : String) (w : W) → b.get_ip host w ≡ (ok (ip_of host), w))
      → (fuel cnt batch threshold : ℕ) (h : Hydra W) → 0 < batch
      → batch ≤ limit
      → threshold ≤ limit
      → length (tasks_of h.world) ≤ threshold
      → cnt < fuel
      → has_key h.apps app ≡ true
      → ((scale_app b fuel app cnt batch threshold h).0 ≡ ok (some tt))
        × (length (tasks_of (scale_app b fuel app cnt batch threshold h).1.world) ≡ cnt)
  unfolding scale_app scaled
  scale_app-count ip_of ips fuel cnt batch threshold h pos_batch l m few enough there =
      let (w', r, d) = launch_lem fuel cnt batch threshold h.world pos_batch l m few enough in
      let fresh =
        refresh_app_info_lem b app ip_of ips (tasks_of w') (record h { world = w' }) (gets_tasks w')
          there in
      ground (arith, r, d, fresh, there)

  shrink-count :
      (fuel batch threshold : ℕ) (w : W)
      → 0 < batch
      → batch ≤ limit
      → suc (length (tasks_of w)) < fuel
      → (w' : W) × (shrink b fuel app threshold batch (length (tasks_of w)) w ≡ (ok (some tt), w'))
        × (length (tasks_of w')
            ≡ (if ltb threshold (length (tasks_of w)) then 1 else length (tasks_of w)))
  unfolding shrink
  shrink-count fuel batch threshold w pos_batch l enough =
      elim (Bool-cases (ltb threshold (length (tasks_of w)))) [
        | inl more ↦
            let (w', r, d) =
              delete_batches_lem b app limit (λ w. length (tasks_of w)) counts scales fuel batch
                (length (tasks_of w)) w pos_batch l refl enough in
            (w', ground arith, ground arith)
        | inr few ↦ (w, ground arith, ground arith)
      ]

  delete_deployments_lem :
      ((d : String) (w : W) → b.delete_deployment d w ≡ (ok tt, w))
      → (ds : List String) (w : W) → delete_deployments b ds w ≡ (ok tt, w)
  unfolding delete_deployments
  delete_deployments_lem gone [] w = refl
  delete_deployments_lem gone (d ∷ ds) w =
      ground (arith, gone d w, delete_deployments_lem gone ds w)

  -- On a cluster that starts and stops at most `limit` tasks of an app at a time, with a batch above 0
  -- and within the limit, and fuel for a round per task: `delete_app` returns, whatever number of tasks the app has, and the app is in
  -- `self.apps` no more. Marathon is taken to report the number of tasks that run, to accept the
  -- deletes, and to remove the app.
  pub delete_app-returns :
      ((w : W)
        → (ds : List String) × (b.get_running app w ≡ (ok (some (length (tasks_of w), ds)), w)))
      → ((d : String) (w : W) → b.delete_deployment d w ≡ (ok tt, w))
      → ((timeout : ℕ) (w : W) → (w' : W) × (b.delete_app_ifexisting app timeout w ≡ (ok tt, w')))
      → ((w : W) → b.wait_app_removal app w ≡ (ok tt, w))
      → (fuel timeout : ℕ) (wait : Bool) (threshold batch : ℕ) (h : Hydra W) → 0 < batch
      → batch ≤ limit
      → suc (length (tasks_of h.world)) < fuel
      → HasKeysOnce h.apps
      → ((delete_app b fuel app timeout wait threshold batch h).0 ≡ ok (some tt))
        × (has_key (delete_app b fuel app timeout wait threshold batch h).1.apps app ≡ false)
  unfolding delete_app delete_running remove_app
  delete_app-returns running deployments ifexisting removal fuel timeout wait threshold batch h
        pos_batch l enough once =
      let (ds, r) = running h.world in
      let (w', e, n) = shrink-count fuel batch threshold h.world pos_batch l enough in
      let (w'', f) = ifexisting timeout w' in
      ground (
        arith,
        r,
        e,
        delete_deployments_lem deployments ds w',
        f,
        removal w'',
        string_eq.beq_iff app app,
        has_key-delete h.apps app app once,
      )
