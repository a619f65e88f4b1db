-- ===== src/Marathon/AsBackend.antt =====
-- What src/main/python/hydra/lib/hydrabase.py asks of marathon, by way of `MarathonIF`: the methods of
-- `HydraBase` that call `self.__mt`, and the `Backend` of Hydra that they make.
use m_scale.Common.{
  [], ◌∷◌, finished, string_eq, subst, sym, ◌∙◌, ℕ, some, String, length, List, Option, none, Exec,
  ◌>>=◌, pure, raise, attribute_error, type_error, ◌≡◌, ◌≤◌, suc, ok, arith, ◌+◌, ◌<◌, true,
}
use m_scale.Hydra.{Task, Backend, Hydra}
use m_scale.Hydra.Scaling as Scaling
use m_scale.Marathon.{
  Client, MarathonApp, get_app, scale_app, wait_app_ready, delete_app_ifexisting, wait_app_removal,
}
use m_scale.Marathon.Requests
use m_scale.Marathon.Waiting.{
  Converging, get_app-answers, scale_app-answers, wait_app_ready-reaches,
}
use m_scale.Hydra.Scaling.{scale_to}
use m_scale.Dict.{has_key}
use m_scale.Hydra.Scaling.Sizes.{scale_app-count}

module _ {W : Type 0} (fuel : ℕ) (mcli : Client W) where
  -- `self.__mt.get_app(app)`, with its default timeout
  unfoldable pub find_app : String → Exec W (Option MarathonApp)
  unfolding get_app
  find_app app = get_app mcli fuel app 300000 >>= finished

  -- `get_app_tasks`
  unfoldable pub get_app_tasks : String → Exec W (List Task)
  unfolding find_app
  get_app_tasks app = do
    a1 ← find_app app
    elim a1 [ none ↦ raise attribute_error | some a ↦ pure a.tasks ]

  -- What `delete_app` reads of an app that it may not find.
  unfoldable pub get_running : String → Exec W (Option (ℕ × List String))
  unfolding find_app
  get_running app = do
    a ← find_app app
    elim a [ none ↦ pure none | some a1 ↦ pure (some (a1.tasks_running, a1.deployments)) ]

  -- `__scale_app`
  unfoldable pub scale : String → ℕ → Exec W (Unit {0})
  unfolding scale_app
  scale name n = scale_app mcli fuel name n 300000 >>= finished

  -- `wait_app_ready` of HydraBase: between tries it sleeps a second.
  unfoldable pub wait_ready : String → ℕ → Exec W (Unit {0})
  unfolding wait_app_ready
  wait_ready name count = do a ← wait_app_ready mcli fuel name count 1000; b ← finished a; pure tt

  -- The second argument is the number of tries.
  unfoldable pub delete_ifexisting : String → ℕ → Exec W (Unit {0})
  unfolding delete_app_ifexisting
  delete_ifexisting app trys = delete_app_ifexisting mcli fuel app trys type_error >>= finished

  unfoldable pub wait_removal : String → Exec W (Unit {0})
  unfolding wait_app_removal
  wait_removal app = do a ← wait_app_removal mcli fuel app; b ← finished a; pure tt

  -- `find_ip_uniqueapp`: the address of the host of the first task.
  unfoldable pub find_ip_uniqueapp : Backend W → String → Exec W (Option String)
  unfolding wait_app_ready
  find_ip_uniqueapp others app = do
    ready ← wait_app_ready mcli fuel app 1 1000
    a1 ← finished ready
    elim a1.tasks [
      | [] ↦ pure none
      | task ∷ tasks ↦ (do ip ← others.get_ip task.host; pure (some ip))
    ]

  -- A `Backend` whose marathon is this one; the slaves, the tasks and `random` are those of `others`.
  unfoldable pub marathon_backend : Backend W → Backend W
  unfolding get_app_tasks get_running scale wait_ready delete_ifexisting wait_removal
  marathon_backend others = record others {
    get_tasks = get_app_tasks;
    kill_task = Requests.kill_task mcli;
    create_app = λ name attr. (do a ← Requests.create_app mcli name attr; pure tt);
    scale = scale;
    wait_ready = wait_ready;
    get_running = get_running;
    delete_deployment = Requests.delete_deployment mcli;
    delete_app_ifexisting = delete_ifexisting;
    wait_app_removal = wait_removal;
  }

-- A marathon that nears the number of tasks asked for, and lists as many tasks as run.
module _ {W : Type 0} (mcli : Client W) (others : Backend W) (app : String)
    (c : Converging mcli app)
    (lists : (w : W) → length (c.app_of w).tasks ≡ (c.app_of w).tasks_running) (fuel limit : ℕ)
    (enough : limit ≤ fuel) where
  gets_tasks :
      (w : W)
      → (marathon_backend (suc fuel) mcli others).get_tasks app w ≡ (ok (c.app_of w).tasks, w)
  unfolding marathon_backend get_app_tasks find_app
  gets_tasks w = ground (arith, get_app-answers mcli app c fuel 300000 w (omega arith))

  pub scale_to-reaches :
      (n : ℕ) (w : W)
      → n ≤ length (c.app_of w).tasks + limit
      → length (c.app_of w).tasks ≤ n + limit
      → (w' : W) × (scale_to (marathon_backend (suc fuel) mcli others) app n w ≡ (ok tt, w'))
        × (length (c.app_of w').tasks ≡ n)
  unfolding scale_to marathon_backend scale wait_ready
  scale_to-reaches n w up down =
      let (w1, s, t, a) = scale_app-answers mcli app c fuel n 300000 w (omega arith) in
      let (w', r, x, y) =
        wait_app_ready-reaches mcli app c (suc fuel) n 1000 w1 (omega arith) t
          (ground (arith, a, lists w)) in
      (w', ground (arith, s, r), ground (arith, x, lists w'))

  -- `scale_app` of HydraBase over MarathonIF, whose marathon brings the number of tasks nearer to the
  -- one asked for in each sleep, from above or below, lists as many tasks as run, and answers its
  -- calls: with a batch and a threshold of at most `limit`, a batch that is not 0, at most as many tasks
  -- as the threshold at the start, the app in `self.apps`, and slaves whose addresses are known, every
  -- wait for marathon ends, `scale_app` returns, and the app has as many tasks running as asked for.
  -- Fuel for more rounds of each wait than `limit`, and for more batches than tasks, is enough.
  pub scale_app-marathon :
      (ip_of : String → String)
      → ((host : String) (w : W) → others.get_ip host w ≡ (ok (ip_of host), w))
      → (rounds cnt batch threshold : ℕ) (h : Hydra W) → 0 < batch
      → batch ≤ limit
      → threshold ≤ limit
      → (c.app_of h.world).tasks_running ≤ threshold
      → cnt < rounds
      → has_key h.apps app ≡ true
      → ((Scaling.scale_app
            (marathon_backend (suc fuel) mcli others)
            rounds
            app
            cnt
            batch
            threshold
            h).0
          ≡ ok (some tt))
        × ((c.app_of
              (Scaling.scale_app
                (marathon_backend (suc fuel) mcli others)
                rounds
                app
                cnt
                batch
                threshold
                h).1.world).tasks_running
            ≡ cnt)
  unfolding marathon_backend
  scale_app-marathon ip_of ips rounds cnt batch threshold h pos_batch l m few more there =
      let (r, k) =
        scale_app-count (marathon_backend (suc fuel) mcli others) app limit
          (λ w. (c.app_of w).tasks) gets_tasks scale_to-reaches ip_of ips rounds cnt batch threshold
          h pos_batch l m (subst (λ n. n ≤ threshold) (sym (lists h.world)) few) more there in
      (r, sym (lists _) ∙ k)
