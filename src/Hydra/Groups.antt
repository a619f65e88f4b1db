-- ===== src/Hydra/Groups.antt =====
-- Groups of tasks: `AppGroup` and the methods of `HydraBase` that create and delete groups.
pub mod Picking
pub mod Partition
pub mod Creation
use m_scale.Common.{
  ℕ, zero, suc, ◌+◌, ◌-◌, Bool, true, false, not, ◌||◌, Option, none, some, String, List, [], ◌∷◌,
  ◌++◌, if◌then◌else◌, string_eq, ◌==◌, Exec, Result, ok, err, Error, key_error, index_error,
  assertion_error, pure, raise, check, ◌>>=◌, ◌>>◌, length, contains, get_elem?, ltb, gets,
}
use m_scale.Dict.{Dict, lookup, insert, delete, keys, values, has_key}
use m_scale.Integer.{ℤ, pos}
use m_scale.Hydra.{Hydra, Backend, AppGroup, get_group, get_task_ids, put_group, on_world}

-- `set(added) - set(present)`; which order the set has is the model's choice.
unfoldable pub missing_from : List String → List String → List String
missing_from present [] = []
missing_from present (t ∷ added) =
    if contains present t then missing_from present added else t ∷ missing_from (t ∷ present) added

-- `add_tasks_to_group`
unfoldable pub add_tasks_to_group : AppGroup → List String → AppGroup
unfolding missing_from
add_tasks_to_group g added = record g {
  tasks_list = g.tasks_list ++ missing_from g.tasks_list added;
}

-- `get_num_tasks`
unfoldable pub get_num_tasks : AppGroup → ℕ
get_num_tasks g = length g.tasks_list

-- The loop over `self.app_group.values()`: a task in a group, or picked before, is not taken again.
unfoldable pub is_taken : List AppGroup → List String → String → Bool
is_taken [] picked t = false
is_taken (g ∷ groups) picked t =
    contains g.tasks_list t || contains picked t || is_taken groups picked t

-- What becomes of the group that is registered, once tasks are picked for it.
unfoldable pub fill_group :
    {W : Type 0} → String → AppGroup → Option (List String) → Exec (Hydra W) (Option Bool)
fill_group group_name g none = pure none
fill_group group_name g (some tasks) = do
  put_group group_name (add_tasks_to_group g tasks)
  pure (some true)

module _ {W : Type 0} (b : Backend W) where
  abbrev pub choose : List String → W → Option String × W
  choose ids w = let (i, w') = b.choice (length ids) w in (get_elem? ids i, w')

  -- The inner `while True` on fuel: `none` says that the fuel ran out.
  unfoldable pub pick : ℕ → List AppGroup → List String → List String → Exec W (Option String)
  pick zero groups ids picked w = (ok none, w)
  pick (suc fuel) groups ids picked w =
      let (o, w') = choose ids w in
      let rest = pick fuel groups ids picked w' in
      elim o [
        | none ↦ (err index_error, w')
        | some t ↦ if is_taken groups picked t then rest else (ok (some t), w')
      ]

  -- The `for` loop: `n` more tasks.
  unfoldable pub pick_all :
      ℕ → List AppGroup → List String → ℕ → List String → Exec W (Option (List String))
  pick_all fuel groups ids zero picked w = (ok (some picked), w)
  pick_all fuel groups ids (suc n) picked w =
      let (r, w') = pick fuel groups ids picked w in
      elim r [
        | err e ↦ (err e, w')
        | ok none ↦ (ok none, w')
        | ok (some t) ↦ pick_all fuel groups ids n (picked ++ t ∷ []) w'
      ]

  -- As many tasks as wanted, or as the app has.
  unfoldable pub assign : ℕ → String → ℕ → AppGroup → List String → Exec (Hydra W) (Option Bool)
  unfolding fill_group
  assign fuel group_name num g ids = do
    groups ← gets (λ h. values h.app_group)
    let wanted = if ltb (length ids) num then length ids else num
    tasks ← on_world (pick_all fuel groups ids wanted [])
    fill_group group_name g tasks

  -- From the registration of the group on.
  unfoldable pub register : ℕ → String → ℕ → AppGroup → Exec (Hydra W) (Option Bool)
  unfolding assign
  register fuel group_name num g = do
    put_group group_name g
    ids ← get_task_ids g.app_name
    assign fuel group_name num g ids

  -- `create_app_instances_group`: `false` where the source returns 1; `none` where a pick ran out of
  -- fuel. The group is registered before its tasks are picked.
  unfoldable pub create_app_instances_group : ℕ → String → String → ℕ → Exec (Hydra W) (Option Bool)
  create_app_instances_group fuel app_name group_name num h =
      if not (has_key h.apps app_name)
      then (err assertion_error, h)
      else if has_key h.app_group group_name
      then (ok (some false), h)
      else register fuel group_name num
          (record { app_name = app_name; num_tasks = pos num; tasks_list = [] }) h

-- `delete_app_instances_group`
unfoldable pub delete_app_instances_group : {W : Type 0} → String → Exec (Hydra W) Bool
delete_app_instances_group group_name h =
    if not (has_key h.app_group group_name)
    then (ok false, h)
    else (ok true, record h { app_group = delete h.app_group group_name })

-- `get_num_tasks_in_group`
unfoldable pub get_num_tasks_in_group : {W : Type 0} → String → Exec (Hydra W) ℕ
unfolding get_num_tasks
get_num_tasks_in_group group_name = do g ← get_group group_name; pure (get_num_tasks g)

-- The loop of `delete_all_app_instances_groups` over the names that were there at its start.
unfoldable pub delete_groups : {W : Type 0} → List String → Exec (Hydra W) Bool
delete_groups [] = pure true
delete_groups (g ∷ names) = do
  done ← delete_app_instances_group g
  if done then delete_groups names else pure false

unfoldable pub delete_all_app_instances_groups : {W : Type 0} → Exec (Hydra W) Bool
unfolding delete_groups delete_app_instances_group
delete_all_app_instances_groups h = delete_groups (keys h.app_group) h
