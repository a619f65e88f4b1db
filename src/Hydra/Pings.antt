-- ===== src/Hydra/Pings.antt =====
-- The methods of `HydraBase` that go through the tasks of an app or of one group: pinging them and
-- dropping those that do not answer.
pub mod Erasing
pub mod Dead
pub mod Removal
use m_scale.Common.{
  String, List, [], ◌∷◌, ok, err, Exec, pure, check, raise, gets, ◌>>=◌, ◌>>◌, string_eq, ◌==◌,
  contains, erase, if◌then◌else◌, value_error, Result,
}
use m_scale.Dict.{Dict, lookup, delete, has_key}
use m_scale.Hydra.{
  Endpoint, known, AppGroup, Hydra, Backend, on_world, get_info, get_group, get_task_ids, put_app,
  put_task_ids, check_app, some_or_fail,
}

module _ {W : Type 0} where
  -- `list.remove`
  abbrev pub remove_item : List String → String → Exec (Hydra W) (List String)
  remove_item xs t = if contains xs t then pure (erase xs t) else raise value_error

  -- The tasks of the app, or of the group where one is named.
  unfoldable pub tasks_to_ping : String → String → Exec (Hydra W) (List String)
  tasks_to_ping name group_name = do
    ids ← get_task_ids name
    if group_name == "" then pure ids else do
      groups ← gets (λ h. h.app_group)
      check (has_key groups group_name)
      g ← get_group group_name
      pure g.tasks_list

  -- `self.apps[name]['ip_port_map'][task_id]`
  unfoldable pub get_endpoint : String → String → Exec (Hydra W) Endpoint
  get_endpoint name task_id = do
    info ← get_info name
    λ h. (some_or_fail (lookup info.ip_port_map task_id), h)

  -- The loop of pings: `remove_list`.
  unfoldable pub ping_all : Backend W → String → List String → Exec (Hydra W) (List String)
  unfolding get_endpoint
  ping_all b name [] = pure []
  ping_all b name (t ∷ tasks) = do
    e ← get_endpoint name t
    res ← on_world (b.do_ping e t)
    rest ← ping_all b name tasks
    pure (if res then rest else t ∷ rest)

  -- `del self.apps[name]['ip_port_map'][item]` and `self.all_task_ids[name].remove(item)`
  unfoldable pub drop_task : String → String → Exec (Hydra W) (Unit {0})
  drop_task name item = do
    info ← get_info name
    λ h. (some_or_fail (lookup info.ip_port_map item), h)
    put_app name (known (record info { ip_port_map = delete info.ip_port_map item }))
    ids ← get_task_ids name
    left ← remove_item ids item
    put_task_ids name left

  unfoldable pub drop_tasks : String → List String → Exec (Hydra W) (Unit {0})
  unfolding drop_task
  drop_tasks name [] = pure tt
  drop_tasks name (item ∷ items) = drop_task name item >> drop_tasks name items

-- What `temp_dict` holds for a group: the tasks to be removed that are in its list.
unfoldable pub bad_list : List String → List String → List String
bad_list tasks [] = []
bad_list tasks (item ∷ items) =
    if contains tasks item then item ∷ bad_list tasks items else bad_list tasks items

-- The loop over `bad_list`: the tasks that are left, also where it raises.
unfoldable pub remove_all : List String → Exec (List String) (Unit {0})
remove_all [] tasks = (ok tt, tasks)
remove_all (bad ∷ bads) tasks =
    if contains tasks bad then remove_all bads (erase tasks bad) else (err value_error, tasks)

-- The loop over the groups of `temp_dict`: where the list of a group raises, the groups after it stay
-- as they are.
unfoldable pub clean_groups : List String → Exec (Dict String AppGroup) (Unit {0})
unfolding bad_list remove_all
clean_groups items [] = (ok tt, [])
clean_groups items ((n, g) ∷ groups) =
    let (r, groups') = clean_groups items groups in
    let (done, left) = remove_all (bad_list g.tasks_list items) g.tasks_list in
    let g' = record g { tasks_list = left } in
    elim done [ err e ↦ (err e, (n, g') ∷ groups) | ok u ↦ (r, (n, g') ∷ groups') ]

module _ {W : Type 0} where
  unfoldable pub remove_from_groups : List String → Exec (Hydra W) (Unit {0})
  unfolding clean_groups
  remove_from_groups items h =
      let (r, groups) = clean_groups items h.app_group in (r, record h { app_group = groups })

  -- `remove_unresponsive_tasks`
  unfoldable pub remove_unresponsive_tasks : Backend W → String → String → Exec (Hydra W) (Unit {0})
  unfolding tasks_to_ping ping_all drop_tasks remove_from_groups
  remove_unresponsive_tasks b name group_name = do
    check_app name
    tasks ← tasks_to_ping name group_name
    remove_list ← ping_all b name tasks
    info ← get_info name
    drop_tasks name remove_list
    remove_from_groups remove_list
