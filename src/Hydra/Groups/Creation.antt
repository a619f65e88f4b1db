-- ===== src/Hydra/Groups/Creation.antt =====
-- When `create_app_instances_group` returns a group, and which.
use m_scale.Common.{
  ok, some, none, refl, ℕ, zero, suc, ◌≡◌, true, false, List, [], ◌∷◌, String, arith, contains,
  length, string_eq, ◌<◌, ap, if◌then◌else◌, ltb,
}
use m_scale.Dict.{lookup, insert, values, has_key}
use m_scale.Hydra.{Backend, AppGroup, Hydra}
use m_scale.Hydra.Groups.{
  pick, create_app_instances_group, register, assign, is_taken, pick_all, pos,
}
use m_scale.Hydra.Groups.Picking.{get_elem?-below, get_elem?-contains}
use m_scale.Hydra.Groups.Partition.{Groups}

module _ {W : Type 0} (b : Backend W) where
  -- A pick among tasks that are all taken does not end.
  pick_endless :
      (fuel : ℕ) (groups : List AppGroup) (ids picked : List String) (w : W)
      → ((n : ℕ) (w : W) → 0 < n → (b.choice n w).0 < n)
      → 0 < length ids
      → ((t : String) → contains ids t ≡ true → is_taken groups picked t ≡ true)
      → (pick b fuel groups ids picked w).0 ≡ ok none
  unfolding pick
  pick_endless zero groups ids picked w range some_ids taken = refl
  pick_endless (suc fuel) groups ids picked w range some_ids taken =
      let (i, w') = b.choice (length ids) w in
      let (t, e) = get_elem?-below ids i (range (length ids) w some_ids) in
      ground (
        arith,
        e,
        taken t (get_elem?-contains ids i t e),
        pick_endless fuel groups ids picked w' range some_ids taken,
      )

  pick_all_endless :
      (fuel : ℕ) (groups : List AppGroup) (ids : List String) (n : ℕ) (picked : List String) (w : W)
      → 0 < n
      → (pick b fuel groups ids picked w).0 ≡ ok none
      → (pick_all b fuel groups ids n picked w).0 ≡ ok none
  unfolding pick_all
  pick_all_endless fuel groups ids zero picked w h e = absurd (omega arith)
  pick_all_endless fuel groups ids (suc n) picked w h e = ground arith

  is_taken-insert :
      (d : Groups) (n : String) (g : AppGroup) (t : String)
      → has_key d n ≡ false
      → g.tasks_list ≡ []
      → is_taken (values (insert d n g)) [] t ≡ is_taken (values d) [] t
  unfolding is_taken
  is_taken-insert [] n g t h e = ground (arith, ap (λ l. contains l t) e)
  is_taken-insert ((i, v) ∷ d) n g t h e = ground (arith, is_taken-insert d n g t)

  created :
      (fuel : ℕ) (app_name group_name : String) (num : ℕ) (h : Hydra W) (ids : List String)
      → has_key h.apps app_name ≡ true
      → has_key h.app_group group_name ≡ false
      → lookup h.all_task_ids app_name ≡ some ids
      → (pick_all b fuel
          (values (
            insert h.app_group group_name
              (record { app_name = app_name; num_tasks = pos num; tasks_list = [] })))
          ids
          (if ltb (length ids) num then length ids else num)
          []
          h.world).0
        ≡ ok none
      → (create_app_instances_group b fuel app_name group_name num h).0 ≡ ok none
  unfolding create_app_instances_group register assign
  created fuel app_name group_name num h ids known new e stuck = ground arith

  -- A group of a new name is asked for, of at least one task of a known app that has tasks, where every
  -- task of the app is in a group already: the call does not return, whatever `random` chooses of the
  -- tasks and however many times it is asked.
  pub create_app_instances_group-endless :
      (fuel : ℕ) (app_name group_name : String) (num : ℕ) (h : Hydra W) (ids : List String)
      → ((n : ℕ) (w : W) → 0 < n → (b.choice n w).0 < n)
      → has_key h.apps app_name ≡ true
      → has_key h.app_group group_name ≡ false
      → lookup h.all_task_ids app_name ≡ some ids
      → 0 < length ids
      → ((t : String) → contains ids t ≡ true → is_taken (values h.app_group) [] t ≡ true)
      → 0 < num
      → (create_app_instances_group b fuel app_name group_name num h).0 ≡ ok none
  create_app_instances_group-endless fuel app_name group_name num h ids range known new e l taken
        more =
      let g : AppGroup = record { app_name = app_name; num_tasks = pos num; tasks_list = [] } in
      let d = insert h.app_group group_name g in
      let wanted = if ltb (length ids) num then length ids else num in
      let stuck = pick_all_endless fuel (values d) ids wanted [] h.world (ground arith) (
        pick_endless fuel (values d) ids [] h.world range l
          λ t m. rw (is_taken-insert h.app_group group_name g t new refl) (taken t m)) in
      created fuel app_name group_name num h ids known new e stuck
