-- ===== src/Hydra/Readings.antt =====
-- The statistics of an app: `reset_all_app_stats` and `fetch_app_stats` of `HydraBase`, and
-- `AppGroup._execute`, which calls one method at each task of a group.
pub mod Settling
pub mod Gathering
use Prim.Native.String.{◌++◌ as ◌+++◌}
use m_scale.Common.{
  ℕ, zero, suc, ◌+◌, Bool, true, false, not, Option, none, some, String, List, [], ◌∷◌, ok, err,
  Exec, pure, check, raise, gets, ◌>>=◌, ◌>>◌, string_eq, nat_eq, ◌==◌, ltb, if◌then◌else◌,
  assertion_error,
}
use m_scale.Dict.{Dict, insert, has_key}
use m_scale.Hydra.{
  Endpoint, AppInfo, known, AppGroup, Stats, Hydra, Backend, on_world, get_info, put_app, check_app,
}
use m_scale.Hydra.Apps.{str_of_ℕ}
use m_scale.Hydra.Pings.{tasks_to_ping, get_endpoint}

-- The methods of `HAnalyser` that `_execute` is called with.
pub data Method : Type 0 where
  do_ping reset_stats : Method

-- `str(ip) + ':' + str(port)`
unfoldable pub stats_key : Endpoint → String
unfolding str_of_ℕ
stats_key e = e.ip +++ ":" +++ str_of_ℕ (suc e.port) e.port

module _ {W : Type 0} (b : Backend W) where
  unfoldable pub call_method : Method → Endpoint → String → Exec W (Unit {0})
  call_method do_ping e t = b.do_ping e t >> pure tt
  call_method reset_stats e t = b.reset_stats e t

  -- The loop over `task_list`, with one request for each task.
  unfoldable pub for_tasks : Method → String → List String → Exec (Hydra W) (Unit {0})
  unfolding get_endpoint call_method
  for_tasks method name [] = pure tt
  for_tasks method name (t ∷ tasks) = do
    e ← get_endpoint name t
    on_world (call_method method e t)
    for_tasks method name tasks

  -- `AppGroup._execute`
  unfoldable pub execute : String → AppGroup → Method → Exec (Hydra W) (Unit {0})
  unfolding for_tasks
  execute group_name g method = do
    groups ← gets (λ h. h.app_group)
    check (has_key groups group_name)
    for_tasks method g.app_name g.tasks_list

  -- `reset_all_app_stats`
  unfoldable pub reset_all_app_stats : String → String → Exec (Hydra W) (Unit {0})
  unfolding tasks_to_ping for_tasks
  reset_all_app_stats name group_name = do
    check_app name
    tasks ← tasks_to_ping name group_name
    for_tasks reset_stats name tasks

  -- The inner `while first_itr`, on fuel: `none` where that ran out. The second part says whether the
  -- first read was stable.
  unfoldable pub settle : ℕ → Endpoint → String → Stats → Bool → Exec W (Option (Stats × Bool))
  settle zero e t stats first = pure none
  settle (suc fuel) e t stats first = do
    stats2 ← b.get_stats e t
    if stats.msg_cnt == stats2.msg_cnt
        then pure (some (stats, first))
        else settle fuel e t stats2 false

  -- What one task gives: `stable` is `no_delay_needed_count`, and `first_itr` is whether it is at
  -- most 40.
  unfoldable pub read_stats : ℕ → Endpoint → String → ℕ → Exec W (Option (Stats × ℕ))
  unfolding settle
  read_stats fuel e t stable = do
    stats ← b.get_stats e t
    if ltb 40 stable then pure (some (stats, stable)) else do
      settled ← settle fuel e t stats true
      elim settled [
        | none ↦ pure none
        | some (stats', first) ↦ pure (some (stats', (if first then stable + 1 else 1)))
      ]

  -- `stats['task_id'] = task_id; self.apps[name]['stats'][...] = stats`
  unfoldable pub store_stats : String → Endpoint → String → Stats → Exec (Hydra W) (Unit {0})
  unfolding stats_key
  store_stats name e t stats = do
    info ← get_info name
    put_app name (
        known
          (record info { stats = insert info.stats (stats_key e) (record stats { task_id = t }) }))

  -- The loop over the tasks.
  unfoldable pub fetch_each : ℕ → String → ℕ → List String → Exec (Hydra W) (Option (Unit {0}))
  unfolding get_endpoint read_stats store_stats
  fetch_each fuel name stable [] = pure (some tt)
  fetch_each fuel name stable (t ∷ tasks) = do
    e ← get_endpoint name t
    read ← on_world (read_stats fuel e t stable)
    elim read [
      | none ↦ pure none
      | some (stats, stable') ↦ store_stats name e t stats >> fetch_each fuel name stable' tasks
    ]

  -- `fetch_app_stats`
  unfoldable pub fetch_app_stats : ℕ → String → String → Exec (Hydra W) (Option (Unit {0}))
  unfolding tasks_to_ping fetch_each
  fetch_app_stats fuel name group_name = do
    check_app name
    tasks ← tasks_to_ping name group_name
    info ← get_info name
    put_app name (known (record info { stats = [] }))
    fetch_each fuel name 0 tasks
