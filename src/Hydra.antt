-- ===== src/Hydra.antt =====
-- The bookkeeping of `HydraBase` in src/main/python/hydra/lib/hydrabase.py: the apps, their tasks and
-- the groups of tasks. The children hold the operations. What is behind `self.__mt` and `self.__mesos`,
-- the sockets of the tasks and `random` is a `Backend` with a state `W`.
pub mod Startup
pub mod Apps
pub mod Groups
pub mod Pings
pub mod Deletion
pub mod Readings
pub mod Launch
pub mod Usage
pub mod Scaling
use m_scale.Common.{
  ℕ, zero, suc, ◌+◌, ◌-◌, Bool, true, false, ◌||◌, Option, none, some, String, List, [], ◌∷◌, ◌++◌,
  if◌then◌else◌, string_eq, ◌==◌, Exec, Result, ok, err, Error, key_error, assertion_error, pure,
  raise, check, ◌>>=◌, ◌>>◌, length,
}
use m_scale.Dict.{Dict, lookup, insert, delete, keys, values, has_key}
use m_scale.Integer.{ℤ}

-- What the code reads of a task of marathon.
pub record Task : Type 0 where
  pub id : String
  pub host : String
  pub ports : List ℕ

-- `[port, ip]`
pub record Endpoint : Type 0 where
  pub port : ℕ
  pub ip : String

pub data Kind : Type 0 where
  script binary : Kind

-- Two values that the source subtracts: `plus - minus`, which may be negative.
pub record Difference : Type 0 where
  pub plus : ℕ
  pub minus : ℕ

-- The statistics of a task, as `HAnalyser.get_stats` returns them: what the master reads of them.
-- Rates and times are numbers in fixed point. `cpu` and `net` (sent, received) are the readings at
-- the end and at the start of a test, where the task sends them.
pub record Stats : Type 0 where
  pub task_id : String
  pub msg_cnt : ℕ
  pub rate : ℕ
  pub reconnect_cnt : ℕ
  pub cpu : Option Difference
  pub net : Option (Difference × Difference)
  pub time : Difference

-- The keyword arguments of `HAnalyser.update_config`, for a publisher and for a subscriber.
pub data Config : Type 0 where
  pub_config : (test_duration msg_batch msg_requested_rate : ℕ) → Config
  sub_config : (recv_rate reconnect_rate : ℕ) → Config

-- `MarathonConstraint`
pub record Constraint : Type 0 where
  pub field : String
  pub operator : String
  pub value : Option String

-- The `MarathonApp` of a request: `cpus` in hundredths; the requested ports are all 0, so their number.
pub record AppRequest : Type 0 where
  pub cmd : String
  pub cpus : ℕ
  pub mem : ℕ
  pub ports : ℕ
  pub constraints : List Constraint
  pub uris : List String

-- A value of `self.apps`: as `create_hydra_app` sets it, or as `refresh_app_info` does.
pub record AppInfo : Type 0 where
  pub ip_port_map : Dict String Endpoint
  pub stats : Dict String Stats
  -- The properties that the tests set are sets of task ids.
  pub property : Dict String (List String)

pub data App : Type 0 where
  created : Kind → App
  known : AppInfo → App

-- `AppGroup`, without its handles.
pub record AppGroup : Type 0 where
  pub app_name : String
  pub num_tasks : ℤ
  pub tasks_list : List String

pub record Hydra (W : Type 0) : Type 0 where
  pub apps : Dict String App
  pub app_group : Dict String AppGroup
  pub all_task_ids : Dict String (List String)
  pub app_id_list : List String
  pub world : W

pub record Backend (W : Type 0) : Type 0 where
  -- `self.__mt.get_app(app).tasks`
  pub get_tasks : String → Exec W (List Task)
  -- `self.__mesos.get_slave_ip_from_hn(host)`
  pub get_ip : String → Exec W String
  -- `self.hydra.mt.kill_task(app, task_id)`
  pub kill_task : String → String → Exec W (Unit {0})
  -- `HAnalyser(ip, port, task_id).do_ping()`
  pub do_ping : Endpoint → String → Exec W Bool
  -- The other requests of `HAnalyser(ip, port, task_id)`.
  pub get_stats : Endpoint → String → Exec W Stats
  pub reset_stats : Endpoint → String → Exec W (Unit {0})
  pub update_config : Endpoint → String → Config → Exec W (Unit {0})
  pub start_test : Endpoint → String → Exec W (Unit {0})
  pub wait_for_testend : Endpoint → String → Exec W (Unit {0})
  -- `self.__mt.create_app(name, app)`
  pub create_app : String → AppRequest → Exec W (Unit {0})
  -- `random.choice` of a list of this length, which is not 0: an index.
  pub choice : ℕ → W → ℕ × W
  -- `self.__mt.scale_app(app, scale)` and `self.__mt.wait_app_ready(app, count)`
  pub scale : String → ℕ → Exec W (Unit {0})
  pub wait_ready : String → ℕ → Exec W (Unit {0})
  -- `self.__mt.get_app(app)`, where a caller may find no app: its `tasks_running` and its deployments
  pub get_running : String → Exec W (Option (ℕ × List String))
  -- `self.__mt.delete_deployment(deployment.id)`
  pub delete_deployment : String → Exec W (Unit {0})
  -- `self.__mt.delete_app_ifexisting(app, timeout)` and `self.__mt.wait_app_removal(app)`
  pub delete_app_ifexisting : String → ℕ → Exec W (Unit {0})
  pub wait_app_removal : String → Exec W (Unit {0})

abbrev pub known_or_fail : Option App → Result AppInfo
known_or_fail none = err key_error
known_or_fail (some (created kind)) = err key_error
known_or_fail (some (known info)) = ok info

abbrev pub some_or_fail : {A : Type 0} → Option A → Result A
some_or_fail none = err key_error
some_or_fail (some a) = ok a

module _ {W : Type 0} where
  -- An action of the backend, inside the object.
  abbrev pub on_world : {A : Type 0} → Exec W A → Exec (Hydra W) A
  on_world m h = let (r, w) = m h.world in (r, record h { world = w })

  -- `self.apps[name]['ip_port_map']`
  abbrev pub get_info : String → Exec (Hydra W) AppInfo
  get_info name h = (known_or_fail (lookup h.apps name), h)

  -- `self.app_group[group_name]`
  abbrev pub get_group : String → Exec (Hydra W) AppGroup
  get_group g h = (some_or_fail (lookup h.app_group g), h)

  -- `self.all_task_ids[name]`
  abbrev pub get_task_ids : String → Exec (Hydra W) (List String)
  get_task_ids name h = (some_or_fail (lookup h.all_task_ids name), h)

  abbrev pub put_app : String → App → Exec (Hydra W) (Unit {0})
  put_app name a h = (ok tt, record h { apps = insert h.apps name a })

  abbrev pub put_group : String → AppGroup → Exec (Hydra W) (Unit {0})
  put_group g grp h = (ok tt, record h { app_group = insert h.app_group g grp })

  -- `self.all_task_ids[name] = ids`
  abbrev pub put_task_ids : String → List String → Exec (Hydra W) (Unit {0})
  put_task_ids name ids h = (ok tt, record h { all_task_ids = insert h.all_task_ids name ids })

  -- `assert(name in self.apps)`
  abbrev pub check_app : String → Exec (Hydra W) (Unit {0})
  check_app name h = check (has_key h.apps name) h
