-- ===== src/Hydra/Pings/Removal.antt =====
-- Which tasks are left after `remove_unresponsive_tasks` of a whole app.
use m_scale.Common.{
  erase_all, contains-erase_all, erase-IsDistinct, Bool, true, not, ◌&&◌, ◌≡◌, refl, arith, String,
  List, [], ◌∷◌, ok, some, string_eq, contains, erase, IsDistinct, All,
}
use m_scale.Dict.{
  lookup, insert, delete, has_key, keys, HasKeysOnce, delete-HasKeysOnce, lookup_inserted,
  lookup_of_key, contains-keys,
}
use m_scale.Hydra.{Endpoint, AppInfo, known, Hydra, Backend}
use m_scale.Hydra.Apps.Refresh.{insert_again, insert_same}
use m_scale.Hydra.Pings.{
  get_endpoint, ping_all, drop_task, drop_tasks, clean_groups, remove_from_groups, tasks_to_ping,
  remove_unresponsive_tasks,
}
use m_scale.Hydra.Pings.Erasing.{delete_all, has_key-delete_all, All-erase}
use m_scale.Hydra.Pings.Dead.{
  dead, contains-dead, dead-IsDistinct, All-dead, tasks_in, clean_groups_lem, All-delete, All-intro,
}

module _ {W : Type 0} (name : String) where
  ping_all_lem :
      (b : Backend W) (alive : String → Bool)
      → ((e : Endpoint) (t : String) (w : W) → b.do_ping e t w ≡ (ok (alive t), w))
      → (tasks : List String) (h : Hydra W) (info : AppInfo)
      → lookup h.apps name ≡ some (known info)
      → All (λ t. has_key info.ip_port_map t ≡ true) tasks
      → ping_all b name tasks h ≡ (ok (dead alive tasks), h)
  unfolding ping_all get_endpoint
  ping_all_lem b alive pings [] h info e k = refl
  ping_all_lem b alive pings (t ∷ tasks) h info e k =
      let (p, f) = lookup_of_key info.ip_port_map t k.0 in
      ground (arith, e, f, pings p t h.world, ping_all_lem b alive pings tasks h info e k.1)

  drop_tasks_lem :
      (items : List String) (h : Hydra W) (info : AppInfo) (ids : List String)
      → lookup h.apps name ≡ some (known info)
      → lookup h.all_task_ids name ≡ some ids
      → HasKeysOnce info.ip_port_map
      → IsDistinct ids
      → IsDistinct items
      → All (λ t. has_key info.ip_port_map t ≡ true) items
      → All (λ t. contains ids t ≡ true) items
      → drop_tasks name items h ≡ (
        ok tt,
        record h {
          apps =
              insert h.apps name
                (known (record info { ip_port_map = delete_all info.ip_port_map items }));
          all_task_ids = insert h.all_task_ids name (erase_all ids items);
        },
      )
  unfolding drop_tasks drop_task
  drop_tasks_lem [] h info ids e f once d own k m =
      ground (arith, insert_same h.apps name (known info) e, insert_same h.all_task_ids name ids f)
  drop_tasks_lem (t ∷ items) h info ids e f once d own k m =
      let (p, g) = lookup_of_key info.ip_port_map t k.0 in
      let info' = record info { ip_port_map = delete info.ip_port_map t } in
      let last = known (record info { ip_port_map = delete_all info.ip_port_map (t ∷ items) }) in
      let ids' = erase ids t in
      let h' = record h {
        apps = insert h.apps name (known info');
        all_task_ids = insert h.all_task_ids name ids';
      } in
      let rest =
        drop_tasks_lem items h' info' ids' (lookup_inserted h.apps name (known info'))
          (lookup_inserted h.all_task_ids name ids') (delete-HasKeysOnce info.ip_port_map t once)
          (erase-IsDistinct ids t d) own.1 (All-delete info.ip_port_map t items once own.0 k.1)
          (All-erase ids t items d own.0 m.1) in
      ground (
        arith,
        e,
        f,
        g,
        m.0,
        rest,
        insert_again h.apps name (known info') last,
        insert_again h.all_task_ids name ids' (erase_all ids (t ∷ items)),
      )

  dropped :
      (alive : String → Bool) (h : Hydra W) (info : AppInfo)
      → lookup h.apps name ≡ some (known info)
      → lookup h.all_task_ids name ≡ some (keys info.ip_port_map)
      → HasKeysOnce info.ip_port_map
      → drop_tasks name (dead alive (keys info.ip_port_map)) h ≡ (
        ok tt,
        record h {
          apps = insert h.apps name (
              known (record info {
                ip_port_map = delete_all info.ip_port_map (dead alive (keys info.ip_port_map));
              }));
          all_task_ids =
              insert h.all_task_ids name
                (erase_all (keys info.ip_port_map) (dead alive (keys info.ip_port_map)));
        },
      )
  dropped alive h info e f once =
      let ids = keys info.ip_port_map in
      let k =
        All-intro (has_key info.ip_port_map) ids
          λ t m. ground (arith, contains-keys info.ip_port_map t) in
      let m = All-intro (contains ids) ids λ t m. m in
      drop_tasks_lem (dead alive ids) h info ids e f once once (dead-IsDistinct alive ids once)
        (All-dead (λ t. has_key info.ip_port_map t ≡ true) alive ids k)
        (All-dead (λ t. contains ids t ≡ true) alive ids m)

  -- `remove_unresponsive_tasks` of an app, whose task list is the keys of its map, without a group
  -- named, where groups have no duplicates and the answers to pings are `alive`: it returns; in the
  -- task list, in the map and in every group the tasks of the app that do not answer are gone, and
  -- exactly these.
  pub remove_unresponsive_tasks-alive :
      (b : Backend W) (alive : String → Bool)
      → ((e : Endpoint) (t : String) (w : W) → b.do_ping e t w ≡ (ok (alive t), w))
      → (h : Hydra W) (info : AppInfo) → has_key h.apps name ≡ true
      → lookup h.apps name ≡ some (known info)
      → lookup h.all_task_ids name ≡ some (keys info.ip_port_map)
      → HasKeysOnce info.ip_port_map
      → All (λ p. IsDistinct p.1.tasks_list) h.app_group
      → (h' : Hydra W) × (ids' : List String) × (info' : AppInfo) × (remove_unresponsive_tasks b
            name "" h
          ≡ (ok tt, h'))
        × (lookup h'.all_task_ids name ≡ some ids')
        × (lookup h'.apps name ≡ some (known info'))
        × ((t : String) → contains ids' t ≡ (has_key info.ip_port_map t && alive t))
        × ((t : String) → has_key info'.ip_port_map t ≡ (has_key info.ip_port_map t && alive t))
        × ((n t : String)
            → contains (tasks_in h'.app_group n) t ≡ (
                contains (tasks_in h.app_group n) t
                && not (has_key info.ip_port_map t && not (alive t))))
  unfolding remove_unresponsive_tasks tasks_to_ping remove_from_groups
  remove_unresponsive_tasks-alive b alive pings h info there e f once apart =
      let ids = keys info.ip_port_map in
      let gone = dead alive ids in
      let ids' = erase_all ids gone in
      let info' = record info { ip_port_map = delete_all info.ip_port_map gone } in
      let k =
        All-intro (has_key info.ip_port_map) ids
          λ t m. ground (arith, contains-keys info.ip_port_map t) in
      let pinged = ping_all_lem b alive pings ids h info e k in
      let done = dropped alive h info e f once in
      let groups = λ (n : String) (t : String).
        clean_groups_lem gone h.app_group n t (dead-IsDistinct alive ids once) apart in
      let h' = record h {
        apps = insert h.apps name (known info');
        all_task_ids = insert h.all_task_ids name ids';
        app_group = (clean_groups gone h.app_group).1;
      } in
      (
        h',
        ids',
        info',
        ground (arith, there, e, f, pinged, done, (groups "" "").0),
        lookup_inserted h.all_task_ids name ids',
        lookup_inserted h.apps name (known info'),
        λ t. ground (
          arith,
          contains-erase_all ids gone t once,
          contains-dead alive ids t,
          contains-keys info.ip_port_map t,
        ),
        λ t. ground (
          arith,
          has_key-delete_all info.ip_port_map gone t once,
          contains-dead alive ids t,
          contains-keys info.ip_port_map t,
        ),
        λ n t.
            ground
              (arith, (groups n t).1, contains-dead alive ids t, contains-keys info.ip_port_map t),
      )
