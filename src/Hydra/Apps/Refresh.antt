-- ===== src/Hydra/Apps/Refresh.antt =====
-- `refresh_app_info` against the map it is meant to build.
use Prim.Native.String.{◌++◌ as ◌+++◌}
use m_scale.Common.{
  ℕ, suc, ◌≡◌, ◌∙◌, refl, ap, sym, ok, some, true, arith, String, List, [], ◌∷◌, ◌++◌, length,
  string_eq,
}
use m_scale.Dict.{Dict, lookup, insert, keys, has_key, lookup_inserted, HasKeysOnce}
use m_scale.Dict.Entries.{insert_all, insert_all-nil}
use m_scale.Hydra.{Task, Endpoint, AppInfo, known, Hydra, Backend}
use m_scale.Hydra.Apps.{str_of_ℕ, port_key, put_ports, put_tasks, refresh_app_info, no_info}

-- Each port of a task with the address of its host, under the text `id_PORTport`.
unfoldable pub ports_at : String → String → List ℕ → List (String × Endpoint)
unfolding str_of_ℕ
ports_at id ip [] = []
ports_at id ip (p ∷ ports) =
    (id +++ "_PORT" +++ str_of_ℕ (suc p) p, record { port = p; ip = ip }) ∷ ports_at id ip ports

-- All ports of all tasks, in order.
unfoldable pub listing : (String → String) → List Task → List (String × Endpoint)
unfolding ports_at
listing ip_of [] = []
listing ip_of (t ∷ tasks) = ports_at t.id (ip_of t.host) t.ports ++ listing ip_of tasks

-- Of two ports with one key, the later one counts.
abbrev pub endpoints : (String → String) → List Task → Dict String Endpoint → Dict String Endpoint
endpoints ip_of tasks m = insert_all (listing ip_of tasks) m

put_ports-ports_at :
    (t : Task) (ip : String) (ports : List ℕ) (m : Dict String Endpoint)
    → put_ports t ip ports m ≡ insert_all (ports_at t.id ip ports) m
unfolding put_ports port_key ports_at
put_ports-ports_at t ip [] m = refl
put_ports-ports_at t ip (p ∷ ports) m =
    put_ports-ports_at t ip ports (insert m (port_key t.id p) (record { port = p; ip = ip }))

insert_all_both :
    (l r : List (String × Endpoint)) (m : Dict String Endpoint)
    → insert_all (l ++ r) m ≡ insert_all r (insert_all l m)
insert_all_both [] r m = refl
insert_all_both ((k, v) ∷ l) r m = insert_all_both l r (insert m k v)

endpoints-cons :
    (ip_of : String → String) (t : Task) (tasks : List Task) (m : Dict String Endpoint)
    → endpoints ip_of (t ∷ tasks) m ≡ endpoints ip_of tasks (put_ports t (ip_of t.host) t.ports m)
unfolding listing
endpoints-cons ip_of t tasks m =
    insert_all_both (ports_at t.id (ip_of t.host) t.ports) (listing ip_of tasks) m
    ∙ ap (insert_all (listing ip_of tasks)) (sym (put_ports-ports_at t (ip_of t.host) t.ports m))

pub insert_again :
    {V : Type 0} (d : Dict String V) (k : String) (v w : V)
    → insert (insert d k v) k w ≡ insert d k w
insert_again [] k v w = ground (arith, string_eq.beq_iff k k)
insert_again ((i, u) ∷ d) k v w =
    ground (arith, string_eq.beq_iff i k, string_eq.beq_iff k k, insert_again d k v w)

pub insert_same :
    {V : Type 0} (d : Dict String V) (k : String) (v : V) → lookup d k ≡ some v → insert d k v ≡ d
insert_same [] k v h = ground arith
insert_same ((i, u) ∷ d) k v h = ground (arith, insert_same d k v)

module _ {W : Type 0} (b : Backend W) (name : String) (ip_of : String → String)
    (ips : (host : String) (w : W) → b.get_ip host w ≡ (ok (ip_of host), w)) where
  put_tasks_lem :
      (tasks : List Task) (h : Hydra W) (info : AppInfo)
      → lookup h.apps name ≡ some (known info)
      → put_tasks b name tasks h ≡ (
        ok tt,
        record h {
          apps =
              insert h.apps name
                (known (record info { ip_port_map = endpoints ip_of tasks info.ip_port_map }));
        },
      )
  unfolding put_tasks listing
  put_tasks_lem [] h info e = ground (arith, insert_same h.apps name (known info) e)
  put_tasks_lem (t ∷ tasks) h info e =
      let m = put_ports t (ip_of t.host) t.ports info.ip_port_map in
      let info' = record info { ip_port_map = m } in
      let d = insert h.apps name (known info') in
      let last = known (record info { ip_port_map = endpoints ip_of tasks m }) in
      ground (
        arith,
        ips t.host h.world,
        e,
        endpoints-cons ip_of t tasks info.ip_port_map,
        insert_again h.apps name (known info') last,
        put_tasks_lem tasks (record h { apps = d }) info'
            (lookup_inserted h.apps name (known info')),
      )

  -- Where marathon knows the tasks and mesos the addresses of their hosts, `refresh_app_info`
  -- returns the number of tasks; the app's map then is that of all ports of all tasks, its stats
  -- and properties are gone, `all_task_ids` are the keys of the map, and nothing else changes.
  pub refresh_app_info_lem :
      (tasks : List Task) (h : Hydra W)
      → b.get_tasks name h.world ≡ (ok tasks, h.world)
      → has_key h.apps name ≡ true
      → refresh_app_info b name h ≡ (
        ok (length tasks),
        record h {
          apps =
              insert h.apps name
                (known (record no_info { ip_port_map = endpoints ip_of tasks [] }));
          all_task_ids = insert h.all_task_ids name (keys (endpoints ip_of tasks []));
        },
      )
  unfolding refresh_app_info
  refresh_app_info_lem tasks h got there =
      let d = insert h.apps name (known no_info) in
      let full = record no_info { ip_port_map = endpoints ip_of tasks [] } in
      ground (
        arith,
        got,
        there,
        lookup_inserted h.apps name (known no_info),
        lookup_inserted h.apps name (known full),
        insert_again h.apps name (known no_info) (known full),
        put_tasks_lem tasks (record h { apps = d }) no_info
            (lookup_inserted h.apps name (known no_info)),
      )

  -- `refresh_app_info` where marathon knows the tasks of a known app and mesos the addresses of their
  -- hosts, and no two tasks share an id and a port: it returns the number of tasks; the map of the app
  -- is then the listing of all their ports, in order, each with the address of the host of its task
  -- under `id_PORTport`; `all_task_ids` are these keys, the stats and properties are gone, and nothing
  -- else changes.
  pub refresh_app_info-listing :
      (tasks : List Task) (h : Hydra W)
      → b.get_tasks name h.world ≡ (ok tasks, h.world)
      → has_key h.apps name ≡ true
      → HasKeysOnce (listing ip_of tasks)
      → refresh_app_info b name h ≡ (
        ok (length tasks),
        record h {
          apps =
              insert h.apps name
                (known (record { ip_port_map = listing ip_of tasks; stats = []; property = [] }));
          all_task_ids = insert h.all_task_ids name (keys (listing ip_of tasks));
        },
      )
  refresh_app_info-listing tasks h got there once =
      refresh_app_info_lem tasks h got there
      ∙ ap
          (λ m. (
            ok (length tasks),
            record h {
              apps = insert h.apps name (known (record no_info { ip_port_map = m }));
              all_task_ids = insert h.all_task_ids name (keys m);
            },
          ))
          (insert_all-nil (listing ip_of tasks) once)
