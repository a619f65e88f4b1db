-- ===== src/Tests/Reports.antt =====
-- Statistics, chosen tasks and results, at concrete inputs.
use m_scale.Common.{
  ℕ, ◌≡◌, refl, String, none, some, ok, List, [], ◌∷◌, string_eq, nat_eq, Exec, ◌+◌, ltb,
  if◌then◌else◌, arith,
}
use m_scale.Dict.{insert}
use m_scale.Hydra.{Stats, known, Backend}
use m_scale.Hydra.Readings.{fetch_app_stats}
use m_scale.Hydra.Readings.Settling.{IsCounting}
use m_scale.Hydra.Readings.Gathering.{addresses, Gathered, fetch_app_stats_lem}
use m_scale.Hydra.Usage.{AppTask, get_app_mem_cpu_stats, TaskStats}
use m_scale.Hydra.Usage.Shared.{IsShared, get_app_mem_cpu_stats-IsShared}
use m_scale.Zmq.Report.{result_parser}
use m_scale.Zmq.Report.Tallies.{described, result_parser-described}
use m_scale.Tests.Cluster.{cluster, two_ports, pinged, idle_stats}

-- Tasks that count up to 3; the state is the number of readings.
abbrev counting : Backend ℕ
counting = record cluster {
  get_stats = λ e t w. (ok (record (idle_stats t) { msg_cnt = if ltb w 3 then w else 3 }), w + 1);
}

counting-IsCounting : IsCounting counting 3
counting-IsCounting = record {
  answers = λ e t w.
      (record (idle_stats t) { msg_cnt = if ltb w 3 then w else 3 }, w + 1, refl, ground arith);
  rises = λ e t w u v s s' q r. ground (arith, q, r);
}

fetch_app_stats_lem_example :
    (entries : List (String × Stats)) × (v : ℕ) × (fetch_app_stats counting 4 "pub" "" pinged ≡ (
      ok (some tt),
      record pinged {
        apps = insert pinged.apps "pub" (known (record two_ports { stats = entries }));
        world = v;
      },
    ))
    × Gathered counting two_ports.ip_port_map ("a" ∷ "b" ∷ []) 2 entries v
unfolding addresses
fetch_app_stats_lem_example =
    fetch_app_stats_lem counting 3 counting-IsCounting 4 (ground arith) "pub" ("a" ∷ "b" ∷ [])
      pinged two_ports refl refl refl (refl, (refl, tt)) (refl, (refl, tt)) (ground arith)

abbrev figures : ℕ → TaskStats
figures n = record {
  timestamp = n;
  mem_rss_bytes = n;
  cpu_system_time_secs = n;
  cpu_user_time_secs = n;
}

-- Two tasks of the app on one slave.
abbrev two_tasks : String → Exec ℕ (List AppTask)
two_tasks ip w = (
  ok (
      record { source = "pub.1"; statistics = figures 1 }
      ∷ record { source = "pub.2"; statistics = figures 2 }
      ∷ []),
  w,
)

get_app_mem_cpu_stats-IsShared_example :
    IsShared 0
      (get_app_mem_cpu_stats two_tasks
        ("pub" ∷ [])
        "pub"
        ("10.0.0.1" ∷ [])
        (record { heap = []; world = 0 })).0
get_app_mem_cpu_stats-IsShared_example =
    get_app_mem_cpu_stats-IsShared two_tasks ("pub" ∷ []) "pub" ("10.0.0.1" ∷ [])
      (record { heap = []; world = 0 })

abbrev fast : Stats
fast = idle_stats "a"

abbrev dropping : Stats
dropping = record (idle_stats "b") { msg_cnt = 9 }

abbrev silent : Stats
silent = record (idle_stats "c") { msg_cnt = 0 }

result_parser-described_example :
    result_parser none none fast (fast ∷ dropping ∷ silent ∷ [])
    ≡ ok (described fast 3 (fast ∷ dropping ∷ []))
result_parser-described_example =
    result_parser-described none none fast (fast ∷ dropping ∷ silent ∷ [])
