-- ===== src/Tests/Rabbits.antt =====
-- A second run of the RabbitMQ test, and its result, at concrete values.
use m_scale.Common.{ℕ, ◌≡◌, refl, String, none, [], ◌∷◌}
use m_scale.Integer.{pos}
use m_scale.Hydra.{AppGroup, Hydra, known}
use m_scale.Zmq.Report.{result_parser}
use m_scale.Rmq.{rmq_result_parser, without_valid_cnt}
use m_scale.Rmq.Results.{rmq_result_parser-result_parser}
use m_scale.Tests.Cluster.{two_ports, idle_stats}

abbrev of_sub : String → AppGroup
of_sub t = record { app_name = "sub"; num_tasks = pos 1; tasks_list = t ∷ [] }

abbrev after_run : Hydra ℕ
after_run = record {
  apps = ("sub", known two_ports) ∷ [];
  app_group =
      ("test-group", of_sub "a") ∷ ("test-group2", of_sub "b") ∷ ("test-group3", of_sub "c") ∷ [];
  all_task_ids = ("sub", "a" ∷ "b" ∷ []) ∷ [];
  app_id_list = "sub" ∷ [];
  world = 2;
}

rmq_result_parser-result_parser_example :
    rmq_result_parser
      (idle_stats "p")
      (idle_stats "a" ∷ record (idle_stats "b") { msg_cnt = 9 } ∷ [])
    ≡ without_valid_cnt (
        result_parser none none
          (idle_stats "p")
          (idle_stats "a" ∷ record (idle_stats "b") { msg_cnt = 9 } ∷ []))
rmq_result_parser-result_parser_example =
    rmq_result_parser-result_parser (idle_stats "p")
      (idle_stats "a" ∷ record (idle_stats "b") { msg_cnt = 9 } ∷ []) (refl, (refl, tt))
