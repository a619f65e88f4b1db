-- ===== src/Mock/Rescaling.antt =====
-- `scale_app` of the mock.
use Prim.Native.String.{◌++◌ as ◌+++◌}
use m_scale.Common.{
  ℕ, zero, suc, ◌+◌, ◌≡◌, refl, arith, true, false, none, some, String, List, [], ◌∷◌, ok, nat_eq,
  string_eq, ◌==◌, length, Result-cases, Option-cases, inr, inl, ◌++◌, length-append, Bool-cases,
  if◌then◌else◌, ap, sym, ◌∙◌,
}
use m_scale.Dict.{lookup, insert, has_key, lookup_inserted, lookup_of_missing}
use m_scale.Hydra.{AppRequest}
use m_scale.Mock.Children.{Processes, add_child, launch_children}
use m_scale.Mock.{
  Mock, MockApp, take_ports, init_app, start_child, create_app, scale_app, wait_app_ready, set_elem,
  add_task, launch_children, fill_task, pid_and_ports, TaskInfo, str_of_ℕ, command, child_env,
  split_spaces,
}
use m_scale.Hydra.Apps.{str_of_ℕ}
use m_scale.Mock.Commands.{command, split_spaces}

module _ {W : Type 0} (p : Processes W) where
  -- As long as the app is not of the size asked for, `wait_app_ready` waits.
  pub wait_app_ready-waits :
      (fuel : ℕ) (app : String) (n : ℕ) (m : Mock W) (a : MockApp)
      → lookup m.list_apps app ≡ some a
      → (a.tasks_running == n) ≡ false
      → (wait_app_ready p fuel app n m).0 ≡ ok none
  unfolding wait_app_ready
  wait_app_ready-waits zero app n m a e h = refl
  wait_app_ready-waits (suc fuel) app n m a e h =
      ground
        (arith, e, h, wait_app_ready-waits fuel app n (record m { world = p.sleep m.world }) a e h)

  length-set_elem :
      {A : Type 0} (xs : List A) (i : ℕ) (v : A) (ys : List A)
      → set_elem xs i v ≡ some ys
      → length ys ≡ length xs
  length-set_elem [] i v ys e = absurd (cc)
  length-set_elem (x ∷ xs) zero v ys e = ground (arith, e)
  length-set_elem (x ∷ xs) (suc i) v ys e = elim (Option-cases (set_elem xs i v)) [
    | inl h ↦ ground (arith, h, e)
    | inr (zs, h) ↦ ground (arith, h, e, length-set_elem xs i v zs h)
  ]

  -- The app has so many tasks in its list.
  abbrev Has : Mock W → String → ℕ → Type 0
  Has m app n = (a : MockApp) × (lookup m.list_apps app ≡ some a) × (length a.tasks ≡ n)

  -- And reports them all as running.
  abbrev Runs : Mock W → String → ℕ → Type 0
  Runs m app n = (a : MockApp) × (lookup m.list_apps app ≡ some a) × (a.tasks_running ≡ n)

  take_ports-Has : (k : ℕ) (m : Mock W) → ((take_ports p k m).1.list_apps ≡ m.list_apps)
  unfolding take_ports
  take_ports-Has zero m = refl
  take_ports-Has (suc k) m =
      ground (arith, take_ports-Has k (record m { port_index = m.port_index + 1 }))

  start_child-Has :
      (app name : String) (cmd ports : List String) (n : ℕ) (m m' : Mock W)
      → Has m app n
      → start_child p app name cmd ports m ≡ (ok tt, m')
      → Has m' app n
  unfolding start_child
  start_child-Has app name cmd ports n m m' (a, e, l) h =
      elim (Result-cases (add_child a.jobs name cmd (some (child_env p ports)))) [
        | inr (x, r) ↦ absurd (ground (arith, e, r, h))
        | inl (jobs, r) ↦
            let (res, jobs', w) = launch_children p ports jobs m.world in
            (
              record a { jobs = jobs' },
              ground (arith, e, r, h, lookup_inserted m.list_apps app (record a { jobs = jobs' })),
              l,
            )
      ]

  abbrev new_task : TaskInfo
  new_task = record { id = none; ports = []; host = "" }

  fill_task-Runs :
      (app : String) (a : MockApp) (tasks : List TaskInfo) (at : AppRequest × ℕ) (t : TaskInfo)
      (m m' : Mock W)
      → fill_task p app a tasks at t m ≡ (ok tt, m')
      → Runs m' app (length tasks)
  unfolding fill_task
  fill_task-Runs app a tasks (attr, i) t m m' h = elim (Option-cases (set_elem tasks i t)) [
    | inl e ↦ absurd (ground (arith, e, h))
    | inr (ys, e) ↦
        let a' = record a { tasks = ys; tasks_running = length ys } in
        (
          a',
          ground (arith, e, h, lookup_inserted m.list_apps app a'),
          length-set_elem tasks i t ys e,
        )
  ]

  add_task-Runs :
      (app name : String) (n : ℕ) (m m' : Mock W)
      → Has m app n
      → add_task p app name m ≡ (ok tt, m')
      → Runs m' app (suc n)
  unfolding add_task
  add_task-Runs app name n m m' (a, e, l) h = elim (Option-cases (lookup m.app_attr app)) [
    | inl x ↦ absurd (ground (arith, e, x, h))
    | inr (at, x) ↦ elim (Result-cases (pid_and_ports p (lookup a.jobs name))) [
      | inr (q, y) ↦ absurd (ground (arith, e, x, y, h))
      | inl (found, y) ↦
          let tasks = a.tasks ++ new_task ∷ [] in
          let m1 = record m { list_apps = insert m.list_apps app (record a { tasks = tasks }) } in
          let t : TaskInfo = record {
            id = some (str_of_ℕ (suc found.0) found.0);
            ports = found.1;
            host = "localhost";
          } in
          let (a', e', l') = fill_task-Runs app a tasks at t m1 m' (ground (arith, e, x, y, h)) in
          (a', e', ground (arith, l', l, length-append a.tasks (new_task ∷ [])))
    ]
  ]

  init_app-Has :
      (app : String) (attr : AppRequest) (n : ℕ) (m : Mock W)
      → Has m app n
      → Has (init_app p app attr m) app n
  unfolding init_app
  init_app-Has app attr n m (a, e, l) = elim (Bool-cases (has_key m.list_apps app)) [
    | inl there ↦ (a, ground (arith, there, e), l)
    | inr missing ↦ absurd (ground (arith, e, lookup_of_missing m.list_apps app missing))
  ]

  create_app-Runs :
      (app : String) (attr : AppRequest) (name : String) (n : ℕ) (m m' : Mock W)
      → Has m app n
      → create_app p app attr name m ≡ (ok tt, m')
      → Runs m' app (suc n)
  unfolding create_app
  create_app-Runs app attr name n m m' (a, e, l) h =
      let (ports, m0) = take_ports p attr.ports m in
      let m1 = init_app p app attr m0 in
      let start =
        init_app-Has app attr n m0 (a, ground (arith, e, take_ports-Has attr.ports m), l) in
      let child = (if name == "" then app else name) in
      elim (Result-cases ports) [
        | inr (x, q) ↦ absurd (ground (arith, q, h))
        | inl (ps, q) ↦
            let (res, m2) = start_child p app child (split_spaces (command attr.cmd)) ps m1 in
            elim (Result-cases res) [
              | inr (x, r) ↦ absurd (ground (arith, q, r, h))
              | inl (u, r) ↦
                  add_task-Runs app child n m2 m'
                    (start_child-Has app child (split_spaces (command attr.cmd)) ps n m1 m2 start
                      (ap (λ x. (x, m2)) r))
                    (ground (arith, q, r, h))
            ]
      ]

  -- `scale_app` of the mock adds one task, whatever number it is asked for. So a call for any other
  -- number that returns leaves an app for which `wait_app_ready` waits for ever, with any fuel.
  pub scale_app-waits :
      (app : String) (a : MockApp) (scale : ℕ) (m m' : Mock W) (fuel : ℕ)
      → lookup m.list_apps app ≡ some a
      → (suc (length a.tasks) == scale) ≡ false
      → scale_app p app scale m ≡ (ok true, m')
      → (wait_app_ready p fuel app scale m').0 ≡ ok none
  unfolding scale_app
  scale_app-waits app a scale m m' fuel e other h = elim (Option-cases (lookup m.app_attr app)) [
    | inl x ↦ absurd (ground (arith, x, h))
    | inr (at, x) ↦
        let (res, m1) = create_app p app at.0 (app +++ "-scale") m in
        elim (Result-cases res) [
          | inr (q, r) ↦ absurd (ground (arith, x, r, h))
          | inl (u, r) ↦
              let (a', e', l') =
                create_app-Runs app at.0 (app +++ "-scale") (length a.tasks) m m1 (a, e, refl)
                  (ap (λ y. (y, m1)) r) in
              let same : m1 ≡ m' = ground (arith, x, r, h) in
              wait_app_ready-waits fuel app scale m' a'
                (ap (λ z. lookup z.list_apps app) (sym same) ∙ e') (ground (arith, l', other))
        ]
  ]
