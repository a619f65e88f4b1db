-- ===== src/Hydra/Apps.antt =====
-- What `HydraBase` knows of the tasks of an app.
pub mod Refresh
use m_scale.Common.{
  ℕ, zero, suc, Option, none, some, String, List, [], ◌∷◌, Exec, pure, ◌>>=◌, ◌>>◌, length,
  string_eq, ◌/◌, ◌%◌, ltb, if◌then◌else◌, get_elem?,
}
use Prim.Native.String.{◌++◌ as ◌+++◌}
use m_scale.Dict.{Dict, lookup, insert, keys}
use m_scale.Hydra.{
  Task, Endpoint, Stats, AppInfo, known, Hydra, Backend, on_world, get_info, put_app, put_task_ids,
  check_app,
}

abbrev pub digit : ℕ → String
digit n =
    elim (get_elem? {A = String} ("0" ∷ "1" ∷ "2" ∷ "3" ∷ "4" ∷ "5" ∷ "6" ∷ "7" ∷ "8" ∷ "9" ∷ [])
      n) [ none ↦ "" | some d ↦ d ]

-- `str` of a number, on fuel: a number has fewer digits than its own value and one.
unfoldable pub str_of_ℕ : ℕ → ℕ → String
str_of_ℕ zero n = ""
str_of_ℕ (suc fuel) n = if ltb n 10 then digit n else str_of_ℕ fuel (n / 10) +++ digit (n % 10)

-- `task.id + '_PORT' + str(port)`
unfoldable pub port_key : String → ℕ → String
unfolding str_of_ℕ
port_key id port = id +++ "_PORT" +++ str_of_ℕ (suc port) port

abbrev pub no_info : AppInfo
no_info = record { ip_port_map = []; stats = []; property = [] }

-- The loop over `task.ports`.
unfoldable pub put_ports : Task → String → List ℕ → Dict String Endpoint → Dict String Endpoint
unfolding port_key
put_ports t ip [] m = m
put_ports t ip (p ∷ ports) m =
    put_ports t ip ports (insert m (port_key t.id p) (record { port = p; ip = ip }))

module _ {W : Type 0} where
  -- `self.apps[name]['ip_port_map']` is changed in place.
  abbrev pub change_map :
      String → (Dict String Endpoint → Dict String Endpoint) → Exec (Hydra W) (Unit {0})
  change_map name f = do
    info ← get_info name
    put_app name (known (record info { ip_port_map = f info.ip_port_map }))

  -- The loop over the tasks.
  unfoldable pub put_tasks : Backend W → String → List Task → Exec (Hydra W) (Unit {0})
  unfolding put_ports port_key
  put_tasks b name [] = pure tt
  put_tasks b name (t ∷ tasks) = do
    app_ip ← on_world (b.get_ip t.host)
    change_map name (put_ports t app_ip t.ports)
    put_tasks b name tasks

  -- `refresh_app_info`
  unfoldable pub refresh_app_info : Backend W → String → Exec (Hydra W) ℕ
  unfolding put_tasks
  refresh_app_info b name = do
    check_app name
    put_app name (known no_info)
    tasks ← on_world (b.get_tasks name)
    put_tasks b name tasks
    info ← get_info name
    put_task_ids name (keys info.ip_port_map)
    pure (length tasks)

  -- `get_app_ipport_map`
  unfoldable pub get_app_ipport_map : String → Exec (Hydra W) (Dict String Endpoint)
  get_app_ipport_map name = do check_app name; info ← get_info name; pure info.ip_port_map

  -- `get_app_stats`
  unfoldable pub get_app_stats : String → Exec (Hydra W) (Dict String Stats)
  get_app_stats name = do check_app name; info ← get_info name; pure info.stats

  -- `get_app_property`
  unfoldable pub get_app_property : String → String → Exec (Hydra W) (Option (List String))
  get_app_property name pname = do
    check_app name
    info ← get_info name
    pure (lookup info.property pname)

  -- `set_app_property`
  unfoldable pub set_app_property : String → String → List String → Exec (Hydra W) (Unit {0})
  set_app_property name key value = do
    check_app name
    info ← get_info name
    put_app name (known (record info { property = insert info.property key value }))

  -- `get_app_instcnt`
  unfoldable pub get_app_instcnt : String → Exec (Hydra W) ℕ
  get_app_instcnt name = do check_app name; info ← get_info name; pure (length info.ip_port_map)
