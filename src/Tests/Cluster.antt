-- ===== src/Tests/Cluster.antt =====
-- A cluster that runs as many tasks of an app as it was asked for; its state is that number.
use m_scale.Common.{
  if◌then◌else◌, ◌++◌, not, ◌&&◌, eq_iff, ℕ, zero, suc, ◌≡◌, refl, true, false, String, none, some,
  ok, List, [], ◌∷◌, length, arith, contains, string_eq, ◌==◌,
}
use m_scale.Integer.{pos}
use m_scale.Dict.{lookup, has_key, insert, keys, values}
use m_scale.Hydra.{Stats, Task, known, AppGroup, Hydra, Backend, AppInfo}
use m_scale.Hydra.Apps.{port_key, refresh_app_info, no_info}
use m_scale.Hydra.Apps.Refresh.{listing, refresh_app_info-listing}
use m_scale.Hydra.Scaling.{scale_to, scale_app, delete_app}
use m_scale.Hydra.Scaling.Sizes.{scale_app-count, delete_app-returns}
use m_scale.Hydra.Deletion.{delete_tasks_from_group}
use m_scale.Hydra.Deletion.Split.{back, delete_tasks_from_group-back}
use m_scale.Hydra.Pings.{remove_unresponsive_tasks}
use m_scale.Hydra.Pings.Dead.{tasks_in}
use m_scale.Hydra.Pings.Removal.{remove_unresponsive_tasks-alive}
use m_scale.Hydra.Groups.{create_app_instances_group, is_taken}
use m_scale.Hydra.Groups.Partition.{IsPartition, create_app_instances_group-IsPartition}
use m_scale.Hydra.Groups.Creation.{create_app_instances_group-endless}

abbrev some_task : Task
some_task = record { id = "t"; host = "h1"; ports = 80 ∷ 81 ∷ [] }

abbrev tasks_of : ℕ → List Task
tasks_of zero = []
tasks_of (suc n) = some_task ∷ tasks_of n

length-tasks_of : (n : ℕ) → length (tasks_of n) ≡ n
length-tasks_of zero = refl
length-tasks_of (suc n) = ground (arith, length-tasks_of n)

abbrev pub idle_stats : String → Stats
idle_stats t = record {
  task_id = t;
  msg_cnt = 10;
  rate = 100;
  reconnect_cnt = 0;
  cpu = none;
  net = none;
  time = record { plus = 9; minus = 4 };
}

abbrev pub cluster : Backend ℕ
cluster = record {
  get_tasks = λ app w. (ok (tasks_of w), w);
  get_ip = λ host w. (ok "10.0.0.1", w);
  kill_task = λ app t w. (ok tt, w);
  do_ping = λ e t w. (ok true, w);
  get_stats = λ e t w. (ok (idle_stats t), w);
  reset_stats = λ e t w. (ok tt, w);
  update_config = λ e t c w. (ok tt, w);
  start_test = λ e t w. (ok tt, w);
  wait_for_testend = λ e t w. (ok tt, w);
  create_app = λ name app w. (ok tt, 1);
  choice = λ n w. (0, w);
  scale = λ app n w. (ok tt, n);
  wait_ready = λ app n w. (ok tt, w);
  get_running = λ app w. (ok (some (length (tasks_of w), "d" ∷ [])), w);
  delete_deployment = λ d w. (ok tt, w);
  delete_app_ifexisting = λ app timeout w. (ok tt, 0);
  wait_app_removal = λ app w. (ok tt, w);
}

abbrev g1 : AppGroup
g1 = record { app_name = "pub"; num_tasks = pos 1; tasks_list = "a" ∷ "b" ∷ [] }

abbrev hydra : Hydra ℕ
hydra = record {
  apps = ("pub", known no_info) ∷ [];
  app_group = ("g1", g1) ∷ [];
  all_task_ids = ("pub", "a" ∷ "b" ∷ []) ∷ [];
  app_id_list = "pub" ∷ [];
  world = 2;
}

-- Two tasks on two hosts, each with a port or two of the same numbers.
abbrev two_hosts : List Task
two_hosts =
    record { id = "t"; host = "h1"; ports = 80 ∷ 81 ∷ [] }
    ∷ record { id = "u"; host = "h2"; ports = 80 ∷ [] }
    ∷ []

abbrev ip_of : String → String
ip_of host = if host == "h1" then "10.0.0.1" else "10.0.0.2"

abbrev spread : Backend ℕ
spread = record cluster {
  get_tasks = λ app w. (ok two_hosts, w);
  get_ip = λ host w. (ok (ip_of host), w);
}

refresh_app_info-listing_example : refresh_app_info spread "pub" hydra ≡ (
  ok 2,
  record hydra {
    apps =
        insert hydra.apps "pub"
          (known (record { ip_port_map = listing ip_of two_hosts; stats = []; property = [] }));
    all_task_ids = insert hydra.all_task_ids "pub" (keys (listing ip_of two_hosts));
  },
)
unfolding listing
refresh_app_info-listing_example =
    refresh_app_info-listing spread "pub" ip_of (λ host w. refl) two_hosts hydra refl refl
      (refl, (refl, (refl, tt)))

scale_app-count_example :
    ((scale_app cluster 9 "pub" 7 2 3 hydra).0 ≡ ok (some tt))
    × (length (tasks_of (scale_app cluster 9 "pub" 7 2 3 hydra).1.world) ≡ 7)
unfolding scale_to
scale_app-count_example =
    scale_app-count cluster "pub" 3 tasks_of (λ w. refl)
      (λ n w up down. (n, refl, length-tasks_of n)) (λ h. "10.0.0.1") (λ host w. refl) 9 7 2 3 hydra
      (ground arith) (ground arith) (ground arith) (ground arith) (ground arith) refl

delete_app-returns_example :
    ((delete_app cluster 9 "pub" 1 true 1 2 hydra).0 ≡ ok (some tt))
    × (has_key (delete_app cluster 9 "pub" 1 true 1 2 hydra).1.apps "pub" ≡ false)
unfolding scale_to
delete_app-returns_example =
    delete_app-returns cluster "pub" 3 tasks_of (λ w. refl)
      (λ n w up down. (n, refl, length-tasks_of n)) (λ w. ("d" ∷ [], refl)) (λ d w. refl)
      (λ timeout w. (0, refl)) (λ w. refl) 9 1 true 1 2 hydra (ground arith) (ground arith)
      (ground arith) (refl, tt)

one_group : IsPartition hydra.app_group
one_group = record {
  once = (refl, tt);
  distinct = λ g a h. ground arith;
  disjoint = λ g j a b t h k ne m. ground (arith, eq_iff "g1" g, eq_iff "g1" j, eq_iff g j);
}

create_app_instances_group-IsPartition_example :
    IsPartition (create_app_instances_group cluster 5 "pub" "g2" 1 hydra).1.app_group
create_app_instances_group-IsPartition_example =
    create_app_instances_group-IsPartition cluster 5 "pub" "g2" 1 hydra one_group

all_taken :
    (t : String)
    → contains ("a" ∷ "b" ∷ []) t ≡ true
    → is_taken (values hydra.app_group) [] t ≡ true
unfolding is_taken
all_taken t m = ground arith

create_app_instances_group-endless_example :
    (create_app_instances_group cluster 5 "pub" "g2" 1 hydra).0 ≡ ok none
create_app_instances_group-endless_example =
    create_app_instances_group-endless cluster 5 "pub" "g2" 1 hydra ("a" ∷ "b" ∷ []) (λ n w p. p)
      refl refl refl (ground arith) all_taken (ground arith)

-- Of the two tasks of the app only `a` answers.
abbrev half_alive : Backend ℕ
half_alive = record cluster { do_ping = λ e t w. (ok (t == "a"), w) }

abbrev pub two_ports : AppInfo
two_ports = record no_info {
  ip_port_map =
      ("a", record { port = 80; ip = "10.0.0.1" })
      ∷ ("b", record { port = 81; ip = "10.0.0.2" })
      ∷ [];
}

abbrev pub pinged : Hydra ℕ
pinged = record hydra { apps = ("pub", known two_ports) ∷ [] }

remove_unresponsive_tasks-alive_example :
    (h' : Hydra ℕ) × (ids' : List String) × (info' : AppInfo) × (remove_unresponsive_tasks
        half_alive "pub" "" pinged
      ≡ (ok tt, h'))
    × (lookup h'.all_task_ids "pub" ≡ some ids')
    × (lookup h'.apps "pub" ≡ some (known info'))
    × ((t : String) → contains ids' t ≡ (has_key two_ports.ip_port_map t && (t == "a")))
    × ((t : String) → has_key info'.ip_port_map t ≡ (has_key two_ports.ip_port_map t && (t == "a")))
    × ((n t : String)
        → contains (tasks_in h'.app_group n) t ≡ (
            contains (tasks_in pinged.app_group n) t
            && not (has_key two_ports.ip_port_map t && not (t == "a"))))
remove_unresponsive_tasks-alive_example =
    remove_unresponsive_tasks-alive "pub" half_alive (λ t. t == "a") (λ e t w. refl) pinged
      two_ports refl refl refl (refl, (refl, tt)) ((refl, (refl, tt)), tt)

delete_tasks_from_group-back_example :
    (del : List String) × (g' : AppGroup) × (h' : Hydra ℕ) × (delete_tasks_from_group cluster
        (pos 1)
        (g1, hydra)
      ≡ (ok (some del), (g', h')))
    × (g'.tasks_list ++ back del ≡ g1.tasks_list)
    × (length del ≡ 1)
delete_tasks_from_group-back_example =
    delete_tasks_from_group-back cluster (λ app t w. (w, refl)) (λ h. "10.0.0.1") tasks_of
      (λ host w. refl) (λ app w. refl) 1 g1 hydra refl

str_of_port : port_key "pub_1.a" 4711 ≡ "pub_1.a_PORT4711"
unfolding port_key
str_of_port = refl
