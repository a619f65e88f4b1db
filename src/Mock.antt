-- ===== src/Mock.antt =====
-- The mock of marathon and mesos, src/main/python/hydra/lib/mock_backend.py, with the child
-- processes of src/main/python/hydra/lib/childmgr.py. Processes are started and killed by a
-- `Processes`.
pub mod Commands
pub mod Children
pub mod Startup
pub mod Ports
pub mod Rescaling
use Prim.Native.String.{◌++◌ as ◌+++◌}
use m_scale.Common.{
  ℕ, zero, suc, ◌+◌, Bool, true, false, not, ◌&&◌, Option, none, some, String, List, [], ◌∷◌, ◌++◌,
  Exec, Result, ok, err, Error, raised, key_error, index_error, attribute_error, pure, raise, check,
  gets, ◌>>=◌, ◌>>◌, string_eq, nat_eq, ◌==◌, length, get_elem?, ltb, if◌then◌else◌,
}
use m_scale.Dict.{Dict, lookup, insert, delete, has_key}
use m_scale.Hydra.{AppRequest, some_or_fail}
use m_scale.Hydra.Apps.{str_of_ℕ}
use m_scale.Mock.Commands.{command, split_spaces}
use m_scale.Mock.Children.{
  Job, Processes, add_child, launch_children, terminate_process_and_children,
}

-- `TaskInfo`; `id` is None at first.
pub record TaskInfo : Type 0 where
  pub id : Option String
  pub ports : List String
  pub host : String

pub record MockApp : Type 0 where
  pub jobs : Dict String Job
  pub tasks : List TaskInfo
  pub tasks_running : ℕ

-- `MockMarathonIF`; `app_attr` has the request and the index of the next task.
pub record Mock (W : Type 0) : Type 0 where
  pub env_ports : List String
  pub port_index : ℕ
  pub list_apps : Dict String MockApp
  pub app_attr : Dict String (AppRequest × ℕ)
  pub world : W

-- `l[i] = v`, where there is an entry.
abbrev pub set_elem : {A : Type 0} → List A → ℕ → A → Option (List A)
set_elem [] i v = none
set_elem (x ∷ xs) zero v = some (v ∷ xs)
set_elem (x ∷ xs) (suc i) v = elim (set_elem xs i v) [ none ↦ none | some ys ↦ some (x ∷ ys) ]

abbrev pub no_app : MockApp
no_app = record { jobs = []; tasks = []; tasks_running = 0 }

module _ {W : Type 0} (p : Processes W) where
  abbrev pub on_processes : {A : Type 0} → Exec W A → Exec (Mock W) A
  on_processes f m = let (r, w) = f m.world in (r, record m { world = w })

  abbrev pub put_app : String → MockApp → Exec (Mock W) (Unit {0})
  put_app app_id a m = (ok tt, record m { list_apps = insert m.list_apps app_id a })

  abbrev pub app_of : String → Exec (Mock W) MockApp
  app_of app_id m = (some_or_fail (lookup m.list_apps app_id), m)

  abbrev pub attr_of : String → Exec (Mock W) (AppRequest × ℕ)
  attr_of app_id m = (some_or_fail (lookup m.app_attr app_id), m)

  -- The ports of a child: so many of `env_ports`, from `port_index` on.
  unfoldable pub take_ports : ℕ → Exec (Mock W) (List String)
  take_ports zero m = (ok [], m)
  take_ports (suc n) m =
      let (rest, m') = take_ports n (record m { port_index = m.port_index + 1 }) in
      elim (get_elem? m.env_ports m.port_index) [
        | none ↦ (err index_error, m)
        | some port ↦ elim rest [ err e ↦ (err e, m') | ok ports ↦ (ok (port ∷ ports), m') ]
      ]

  -- `myenv["PORT%d" % x]` for the ports from the one at `x` on.
  unfoldable pub with_ports : ℕ → List String → Dict String String → Dict String String
  unfolding str_of_ℕ
  with_ports x [] env = env
  with_ports x (port ∷ ports) env =
      with_ports (x + 1) ports (insert env ("PORT" +++ str_of_ℕ (suc x) x) port)

  -- The environment of a child with these ports.
  unfoldable pub child_env : List String → Dict String String
  unfolding with_ports
  child_env ports = insert (with_ports 0 ports p.environ) "mock" "true"

  -- Makes the entries of an app that has none.
  unfoldable pub init_app : String → AppRequest → Mock W → Mock W
  init_app app_id attr m = record m {
    list_apps =
        (if has_key m.list_apps app_id then m.list_apps else insert m.list_apps app_id no_app);
    app_attr =
        (if has_key m.app_attr app_id then m.app_attr else insert m.app_attr app_id (attr, 0));
  }

  abbrev pub initialise : String → AppRequest → Exec (Mock W) (Unit {0})
  initialise app_id attr m = (ok tt, init_app app_id attr m)

  -- Adds a child and starts it; the jobs are the app's whatever happens.
  unfoldable pub start_child :
      String → String → List String → List String → Exec (Mock W) (Unit {0})
  unfolding add_child launch_children child_env
  start_child app_id name cmd ports = do
    a ← app_of app_id
    elim (add_child a.jobs name cmd (some (child_env ports))) [
      | err e ↦ raise e
      | ok jobs ↦ λ m.
          let (res, jobs', w) = launch_children p ports jobs m.world in
          (
            res,
            record m {
              list_apps = insert m.list_apps app_id (record a { jobs = jobs' });
              world = w;
            },
          )
    ]

  -- `tasks[task_count] = …`, and the counts.
  unfoldable pub fill_task :
      String → MockApp → List TaskInfo → AppRequest × ℕ → TaskInfo → Exec (Mock W) (Unit {0})
  fill_task app_id a tasks (attr, task_count) task m = elim (set_elem tasks task_count task) [
    | none ↦ (err index_error, m)
    | some tasks' ↦ (
      ok tt,
      record m {
        list_apps =
            insert m.list_apps app_id (record a { tasks = tasks'; tasks_running = length tasks' });
        app_attr = insert m.app_attr app_id (attr, task_count + 1);
      },
    )
  ]

  -- The pid and the ports of a job that runs.
  abbrev pub pid_and_ports : Option Job → Result (ℕ × List String)
  pid_and_ports none = err key_error
  pid_and_ports (some job) = elim job.pid [
    | none ↦ err key_error
    | some pid ↦ elim job.ports [ none ↦ err key_error | some ports ↦ ok (pid, ports) ]
  ]

  -- The task of the child.
  unfoldable pub add_task : String → String → Exec (Mock W) (Unit {0})
  unfolding str_of_ℕ fill_task
  add_task app_id name = do
    a ← app_of app_id
    let tasks = a.tasks ++ record { id = none; ports = []; host = "" } ∷ []
    put_app app_id (record a { tasks = tasks })
    at ← attr_of app_id
    found ← λ m. (pid_and_ports (lookup a.jobs name), m)
    fill_task app_id a tasks at
        (record { id = some (str_of_ℕ (suc found.0) found.0); ports = found.1; host = "localhost" })

  -- `create_app`
  unfoldable pub create_app : String → AppRequest → String → Exec (Mock W) (Unit {0})
  unfolding command take_ports init_app start_child add_task
  create_app app_id attr app_local_launch_name = do
    let name = (if app_local_launch_name == "" then app_id else app_local_launch_name)
    ports ← take_ports attr.ports
    initialise app_id attr
    start_child app_id name (split_spaces (command attr.cmd)) ports
    add_task app_id name

  -- `scale_app`: the number of tasks is not used.
  unfoldable pub scale_app : String → ℕ → Exec (Mock W) Bool
  unfolding create_app
  scale_app app scale = do at ← attr_of app; create_app app at.0 (app +++ "-scale"); pure true

  -- `delete_app`
  unfoldable pub delete_app : String → Exec (Mock W) (Unit {0})
  unfolding terminate_process_and_children
  delete_app app_id = do
    a ← λ m. (elim (lookup m.list_apps app_id) [ none ↦ err attribute_error | some a ↦ ok a ], m)
    on_processes (terminate_process_and_children p a.jobs app_id)
    at ← attr_of app_id
    if ltb 1 at.1
        then on_processes (terminate_process_and_children p a.jobs (app_id +++ "-scale"))
        else pure tt
    λ m. (
      ok tt,
      record m { list_apps = delete m.list_apps app_id; app_attr = delete m.app_attr app_id },
    )

  -- `delete_app_ifexisting`: the last exception is raised again.
  unfoldable pub delete_app_ifexisting : ℕ → Error → String → Exec (Mock W) (Unit {0})
  unfolding delete_app
  delete_app_ifexisting zero last app_id m = (err last, m)
  delete_app_ifexisting (suc trys) last app_id m =
      let (res, m') = delete_app app_id m in
      let again = λ (e : Error).
        delete_app_ifexisting trys e app_id (record m' { world = p.sleep m'.world }) in
      if has_key m.list_apps app_id
      then elim res [ ok u ↦ (ok u, m') | err e ↦ again e ]
      else (ok tt, m)

  -- `wait_app_ready`, on fuel.
  unfoldable pub wait_app_ready : ℕ → String → ℕ → Exec (Mock W) (Option MockApp)
  wait_app_ready zero app running_count m = (ok none, m)
  wait_app_ready (suc fuel) app running_count m =
      let rest = wait_app_ready fuel app running_count (record m { world = p.sleep m.world }) in
      elim (lookup m.list_apps app) [
        | none ↦ (err attribute_error, m)
        | some a ↦ if a.tasks_running == running_count then (ok (some a), m) else rest
      ]

  -- `wait_app_removal`, on fuel.
  unfoldable pub wait_app_removal : ℕ → String → Exec (Mock W) (Option Bool)
  wait_app_removal zero app m = (ok none, m)
  wait_app_removal (suc fuel) app m =
      let rest = wait_app_removal fuel app (record m { world = p.sleep m.world }) in
      if has_key m.list_apps app then rest else (ok (some true), m)
