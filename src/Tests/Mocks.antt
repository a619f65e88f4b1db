-- ===== src/Tests/Mocks.antt =====
-- The mock of marathon with processes that count up, and a subscriber.
use m_scale.Common.{
  string_eq, ◌+◌, ℕ, suc, ◌≡◌, refl, String, none, some, Option, ok, err, List, [], ◌∷◌, arith,
  index_error, nat_eq, false,
}
use m_scale.Hydra.{AppRequest}
use m_scale.Publisher.{Outside}
use m_scale.Mock.Children.{Processes}
use m_scale.Mock.{Mock, MockApp, create_app, scale_app, wait_app_ready}
use m_scale.Mock.Rescaling.{scale_app-waits}
use m_scale.Mock.Ports.{create_app-exhausted}
use m_scale.Subscriber.{Subscriber, new_subscriber, reset_stats, listen}
use m_scale.Dict.{Dict}

abbrev processes : Processes ℕ
processes = record {
  environ = ("HOME", "/") ∷ [];
  is_child_ended = λ w. false;
  popen = λ cmd env w. (ok w, suc w);
  kill = λ pid w. (ok tt, w);
  sleep = λ w. w;
}

abbrev request : AppRequest
request = record {
  cmd = "env && cd ./src/main/scripts && ./hydra hydra.zmqtest.zmq_sub.run10 10.0.0.1 15556";
  cpus = 1;
  mem = 32;
  ports = 2;
  constraints = [];
  uris = [];
}

abbrev one_app : MockApp
one_app = record {
  jobs = [];
  tasks = record { id = some "1"; ports = "10001" ∷ []; host = "localhost" } ∷ [];
  tasks_running = 1;
}

abbrev mock : Mock ℕ
mock = record {
  env_ports = "10001" ∷ "10002" ∷ "10003" ∷ "10004" ∷ [];
  port_index = 2;
  list_apps = ("sub", one_app) ∷ [];
  app_attr = ("sub", (request, 1)) ∷ [];
  world = 7;
}

abbrev scaled : Mock ℕ
scaled = (scale_app processes "sub" 5 mock).1

scale_app-waits_example : (wait_app_ready processes 9 "sub" 5 scaled).0 ≡ ok none
unfolding scale_app
scale_app-waits_example =
    scale_app-waits processes "sub" one_app 5 mock scaled 9 refl (ground arith) refl

-- One port is left.
abbrev nearly_out : Mock ℕ
nearly_out = record mock { port_index = 3 }

create_app-exhausted_example :
    ((create_app processes "pub" request "" nearly_out).0 ≡ err index_error)
    × ((create_app processes "pub" request "" nearly_out).1.list_apps ≡ nearly_out.list_apps)
create_app-exhausted_example =
    create_app-exhausted processes "pub" request "" nearly_out (ground arith) (ground arith)

-- A clock that ticks as it is read.
abbrev ticking : Outside ℕ
ticking = record {
  time = λ w. (w, suc w);
  sleep = λ d w. w + d;
  read = λ w. (record { net = "n"; cpu = "c"; mem = "m" }, w);
  send = λ m w. (ok tt, w);
}

abbrev reads_zero : String → Option ℕ
reads_zero s = some 0

abbrev heard : List String
heard = "0 msg0" ∷ "1 msg1" ∷ []

abbrev listened : Subscriber × ℕ
listened = (listen reads_zero ticking heard (reset_stats new_subscriber, 40)).1
