-- ===== src/Tests/Marathons.antt =====
-- A marathon that starts or stops a task in each sleep: its state is the number of tasks that run and
-- the number asked for.
use m_scale.Common.{
  ℕ, zero, suc, ◌+◌, ◌-◌, ◌≤◌, ◌≡◌, refl, arith, true, false, none, ◌==◌, some, String, List, [],
  ◌∷◌, ok, length, ltb, if◌then◌else◌, string_eq,
}
use m_scale.Hydra.{Task, Backend, Hydra, known}
use m_scale.Hydra.Apps.{no_info}
use m_scale.Hydra.Scaling
use m_scale.Marathon.{Client, MarathonApp}
use m_scale.Marathon.Waiting.{Converging, distance}
use m_scale.Marathon.AsBackend.{marathon_backend, scale_app-marathon}
use m_scale.Marathon.Mesos.{
  Slave, Rest, MesosIf, update_slaves, get_slave_ip_from_hn, get_slave_ip_from_id,
}
use m_scale.Marathon.Mesos.Addresses.{update_slaves-address}
use m_scale.Hydra.Startup.{Settings}
use m_scale.Cli.{Outer, Args, dispatch}
use m_scale.Cli.Commands.{dispatch-scales}
use m_scale.Tests.Cluster.{idle_stats}

abbrev a_task : Task
a_task = record { id = "t"; host = "h1"; ports = 80 ∷ [] }

abbrev running_tasks : ℕ → List Task
running_tasks zero = []
running_tasks (suc n) = a_task ∷ running_tasks n

length-running_tasks : (n : ℕ) → length (running_tasks n) ≡ n
length-running_tasks zero = refl
length-running_tasks (suc n) = ground (arith, length-running_tasks n)

abbrev app_at : ℕ × ℕ → MarathonApp
app_at (running, target) = record {
  tasks_running = running;
  tasks = running_tasks running;
  deployments = [];
}

abbrev one_nearer : ℕ × ℕ → ℕ × ℕ
one_nearer (running, target) = (
  if ltb running target then running + 1 else if ltb target running then running - 1 else running,
  target,
)

abbrev marathon : Client (ℕ × ℕ)
marathon = record {
  time = λ w. 0;
  sleep = λ d w. one_nearer w;
  get_app = λ app w. (ok (some (app_at w)), w);
  delete_app = λ app w. (ok tt, w);
  scale_app = λ app n w. (ok tt, (w.0, n));
  list_apps = λ w. (ok [], w);
  create_app = λ app attr w. (ok (app_at w), w);
  delete_deployment = λ d w. (ok tt, w);
  list_deployments = λ w. (ok [], w);
  ping = λ w. (ok "pong", w);
  kill_task = λ app t w. (ok tt, w);
}

one_nearer_lem : (r t : ℕ) → distance (one_nearer (r, t)).0 t ≤ distance r t - 1
one_nearer_lem r t = ground arith

abbrev converging : Converging marathon "pub"
converging = record {
  app_of = app_at;
  target = λ w. w.1;
  gets_app = λ w. refl;
  scales_app = λ n w. ((w.0, n), refl, refl, refl);
  keeps_target = λ d w. refl;
  nears = λ d w p. one_nearer_lem w.0 w.1;
}

-- The other parts of a cluster, which change nothing.
abbrev others : Backend (ℕ × ℕ)
others = record {
  get_tasks = λ app w. (ok [], w);
  get_ip = λ host w. (ok "10.0.0.1", w);
  kill_task = λ app t w. (ok tt, w);
  do_ping = λ e t w. (ok true, w);
  get_stats = λ e t w. (ok (idle_stats t), w);
  reset_stats = λ e t w. (ok tt, w);
  update_config = λ e t c w. (ok tt, w);
  start_test = λ e t w. (ok tt, w);
  wait_for_testend = λ e t w. (ok tt, w);
  create_app = λ name app w. (ok tt, w);
  choice = λ n w. (0, w);
  scale = λ app n w. (ok tt, w);
  wait_ready = λ app n w. (ok tt, w);
  get_running = λ app w. (ok none, w);
  delete_deployment = λ d w. (ok tt, w);
  delete_app_ifexisting = λ app timeout w. (ok tt, w);
  wait_app_removal = λ app w. (ok tt, w);
}

abbrev one_app : Hydra (ℕ × ℕ)
one_app = record {
  apps = ("pub", known no_info) ∷ [];
  app_group = [];
  all_task_ids = [];
  app_id_list = "pub" ∷ [];
  world = (1, 1);
}

scale_app-marathon_example :
    ((Scaling.scale_app (marathon_backend 4 marathon others) 9 "pub" 7 2 3 one_app).0
      ≡ ok (some tt))
    × ((app_at
          (Scaling.scale_app
            (marathon_backend 4 marathon others)
            9
            "pub"
            7
            2
            3
            one_app).1.world).tasks_running
        ≡ 7)
scale_app-marathon_example =
    scale_app-marathon marathon others "pub" converging (λ w. length-running_tasks w.0) 3 3
      (ground arith) (λ h. "10.0.0.1") (λ host w. refl) 9 7 2 3 one_app (ground arith)
      (ground arith) (ground arith) (ground arith) (ground arith) refl

abbrev slave : String → String → String → Slave
slave id hostname pid = record { id = id; hostname = hostname; pid = pid; attributes = [] }

abbrev s1 : Slave
s1 = slave "S1" "host-1" "slave(1)@10.0.0.1:5051"

abbrev s2 : Slave
s2 = slave "S2" "host-2" "slave(1)@10.0.0.2:5051"

abbrev two_slaves : List Slave
two_slaves = s1 ∷ s2 ∷ []

abbrev master : Rest ℕ (List Slave)
master = record {
  get = λ url w. (ok (200, "slaves"), suc w);
  loads = λ content. ok two_slaves;
  slaves = λ dt. ok dt;
}

abbrev no_slaves : MesosIf
no_slaves = record { myaddr = "http://m:5050"; no_of_slaves = 0; slaves_id = []; slaves_hn = [] }

update_slaves-address_example :
    (m' : MesosIf) × (update_slaves master (no_slaves, 0) ≡ (ok tt, (m', 1)))
    × (get_slave_ip_from_hn m' "host-1" ≡ ok "10.0.0.1")
    × (get_slave_ip_from_id m' "S1" ≡ ok "10.0.0.1")
unfolding m_scale.Marathon.Mesos.after
update_slaves-address_example =
    update_slaves-address master no_slaves 0 1 "slaves" two_slaves [] (s2 ∷ []) s1 "slave(1)"
      "10.0.0.1" "5051" refl refl refl refl refl refl refl refl refl

-- `hydra cli scale pub 7`; `int` knows this number only.
abbrev outer : Outer (ℕ × ℕ) (List Slave)
outer = record {
  read = λ file w. none;
  docopt = λ argv. none;
  int = λ text. if text == "7" then some 7 else none;
  mesos = record {
    get = λ url w. (ok (200, "slaves"), w);
    loads = λ content. ok two_slaves;
    slaves = λ dt. ok dt;
  };
  marathon = λ addr. marathon;
}

abbrev settings : Settings
settings = record {
  port = 9800;
  my_ip = "10.0.0.9";
  mesos_ip = "10.0.0.8";
  mesos_port = "5050";
  marathon_ip = "10.0.0.8";
  marathon_port = "8080";
  app_prefix = "";
  mesos_option = λ name. none;
}

abbrev scale_args : Args
scale_args = record {
  ls = false;
  slaves = false;
  apps = false;
  task = false;
  stop = false;
  scale = true;
  app = "pub";
  scale_arg = "7";
}

dispatch-scales_example :
    (w' : ℕ × ℕ) × (dispatch outer 9 settings scale_args (2, 2) ≡ (ok tt, w'))
    × ((app_at w').tasks_running ≡ 7)
dispatch-scales_example =
    dispatch-scales outer settings scale_args converging refl refl refl 7 refl 8 (2, 2)
      (ground arith)
