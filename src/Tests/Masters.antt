-- ===== src/Tests/Masters.antt =====
-- A ZeroMQ test of one publisher and one subscriber, at concrete values.
use m_scale.Common.{
  ◌++◌, ℕ, ◌≡◌, refl, true, false, String, none, some, Option, ok, err, List, [], ◌∷◌, Result,
  string_eq, nat_eq,
}
use m_scale.Hydra.{Hydra, Backend, Endpoint, AppInfo, known, Config, sub_config, pub_config}
use m_scale.Hydra.Apps.{no_info}
use m_scale.Runner.{fresh_run}
use m_scale.Zmq.Report.{Report}
use m_scale.Zmq.RunTest.{Options, Master, Object}
use m_scale.Zmq.Rerun.{zmq_test, configure_subs}
use m_scale.Zmq.Rerun.Forgetting.{fresh_run-forgets}
use m_scale.Tests.Cluster.{cluster, idle_stats, two_ports}

-- One task of each app; there is nothing to delete.
abbrev lab : Backend ℕ
lab = record cluster {
  get_tasks = λ app w. (ok (record { id = app; host = "h1"; ports = 80 ∷ [] } ∷ []), w);
  get_running = λ app w. (ok none, w);
}

abbrev options : Options
options = record {
  test_duration = 5;
  msg_batch = 10;
  total_sub_apps = 1;
  c_pub = false;
  c_sub = false;
  slow_clients_percent = 0;
  slow_clients_rate = 1000;
  rec_clients_percent = 50;
  rec_clients_rate = 1;
}

abbrev nothing : Hydra ℕ
nothing = record { apps = []; app_group = []; all_task_ids = []; app_id_list = []; world = 0 }

-- With the result of another rate in the cache.
abbrev start : Object ℕ
start = record {
  boundary_first_run = true;
  arg = 0;
  boundary_run_result = (7, none) ∷ [];
  world = record {
    hydra = nothing;
    options = record options { rec_clients_percent = 0 };
    zstpub = "pub";
    zstsub = "sub";
    mesos_cluster = [];
    app_uri = "http://10.0.0.9/zmqScale.tgz";
    pub_ip = none;
    ha_pub = none;
  };
}

abbrev or_else : Result (Option Report) → Option Report
or_else (ok o) = o
or_else (err e) = none

outcome :
    (v : Report) × (r' : Object ℕ) × (fresh_run (zmq_test lab 3) 100 start ≡ (ok (some v), r'))
unfolding fresh_run zmq_test m_scale.Runner.try_runs m_scale.Runner.attempt
    m_scale.Zmq.RunTest.delete_all_launched_apps m_scale.Hydra.Scaling.delete_app
    m_scale.Zmq.RunTest.launch_zmq_pub m_scale.Hydra.Launch.create_hydra_app
    m_scale.Hydra.Apps.refresh_app_info m_scale.Hydra.Apps.get_app_ipport_map
    m_scale.Zmq.RunTest.launch_zmq_sub m_scale.Hydra.Scaling.scale_app
    m_scale.Hydra.Pings.remove_unresponsive_tasks m_scale.Runner.boundary_setup
    m_scale.Hydra.Readings.reset_all_app_stats m_scale.Hydra.Apps.get_app_instcnt
    m_scale.Hydra.Readings.fetch_app_stats m_scale.Hydra.Apps.get_app_stats
    m_scale.Hydra.Apps.get_app_property m_scale.Hydra.Apps.port_key m_scale.Hydra.Apps.put_ports
    m_scale.Hydra.Apps.put_tasks m_scale.Hydra.Apps.str_of_ℕ m_scale.Hydra.Launch.create_with
    m_scale.Hydra.Launch.get_cmd m_scale.Hydra.Pings.bad_list m_scale.Hydra.Pings.clean_groups
    m_scale.Hydra.Pings.drop_tasks m_scale.Hydra.Pings.get_endpoint m_scale.Hydra.Pings.ping_all
    m_scale.Hydra.Pings.remove_all m_scale.Hydra.Pings.remove_from_groups
    m_scale.Hydra.Pings.tasks_to_ping m_scale.Hydra.Readings.call_method
    m_scale.Hydra.Readings.fetch_each m_scale.Hydra.Readings.for_tasks
    m_scale.Hydra.Readings.read_stats m_scale.Hydra.Readings.settle m_scale.Hydra.Readings.stats_key
    m_scale.Hydra.Readings.store_stats m_scale.Hydra.Scaling.count_tasks
    m_scale.Hydra.Scaling.delete_running m_scale.Hydra.Scaling.launch
    m_scale.Hydra.Scaling.remove_app m_scale.Hydra.Scaling.scale_at_once
    m_scale.Hydra.Scaling.scale_to m_scale.Hydra.Scaling.scaled m_scale.Runner.clean_up
    m_scale.Runner.remember m_scale.Zmq.Report.report m_scale.Zmq.Report.result_of
    m_scale.Zmq.Report.result_parser m_scale.Zmq.Report.tally m_scale.Zmq.Report.tally_client
    m_scale.Zmq.Report.tally_valid m_scale.Zmq.Rerun.choose_clients configure_subs
    m_scale.Zmq.Rerun.measure m_scale.Zmq.Rerun.parse_stats m_scale.Zmq.Rerun.rerun_test
    m_scale.Zmq.Rerun.run_test m_scale.Zmq.Rerun.send_messages m_scale.Zmq.RunTest.find_pub
    m_scale.Zmq.RunTest.in_cluster m_scale.Zmq.RunTest.pub_args m_scale.Zmq.RunTest.scale_sub_app
outcome = (_, _, refl)

fresh_run-forgets_example : outcome.1.boundary_run_result ≡ (100, some outcome.0) ∷ []
fresh_run-forgets_example = fresh_run-forgets lab 3 100 start outcome.0 outcome.1 outcome.2

-- The state is what the subscribers were sent.
abbrev sent_by : Config → String → List (String × ℕ × ℕ)
sent_by (pub_config d b r) t = []
sent_by (sub_config r c) t = (t, r, c) ∷ []

abbrev Log : Type 0
Log = List (String × ℕ × ℕ)

-- Nothing else happens there; `random` chooses the first.
abbrev logging : Backend Log
logging = record {
  get_tasks = λ app w. (ok [], w);
  get_ip = λ host w. (ok "10.0.0.1", w);
  kill_task = λ app t w. (ok tt, w);
  do_ping = λ e t w. (ok true, w);
  get_stats = λ e t w. (ok (idle_stats t), w);
  reset_stats = λ e t w. (ok tt, w);
  update_config = λ e t c w. (ok tt, w ++ sent_by c t);
  start_test = λ e t w. (ok tt, w);
  wait_for_testend = λ e t w. (ok tt, w);
  create_app = λ name app w. (ok tt, w);
  choice = λ n w. (0, w);
  scale = λ app n w. (ok tt, w);
  wait_ready = λ app n w. (ok tt, w);
  get_running = λ app w. (ok none, w);
  delete_deployment = λ d w. (ok tt, w);
  delete_app_ifexisting = λ app timeout w. (ok tt, w);
  wait_app_removal = λ app w. (ok tt, w);
}

-- `b` was slow in the last run.
abbrev slow_before : AppInfo
slow_before = record two_ports { property = ("slow_clients", "b" ∷ []) ∷ [] }

abbrev before : Hydra Log
before = record {
  apps = ("sub", known slow_before) ∷ [];
  app_group = [];
  all_task_ids = ("sub", "a" ∷ "b" ∷ []) ∷ [];
  app_id_list = [];
  world = [];
}
