-- ===== src/Workers.antt =====
-- `run10` of zmqtest/zmq_sub.py, rmqtest/rmq_sub.py and kafkatest/kafka_sub.py under
-- src/main/python/hydra: a task of a subscriber app starts ten subscribers, each with one of its ports.
pub mod Spread
pub mod Ending
use Prim.Native.String.{◌++◌ as ◌+++◌}
use m_scale.Common.{
  ℕ, zero, suc, ◌+◌, Option, none, some, String, List, [], ◌∷◌, ◌++◌, Exec, Result, ok, err,
  key_error, string_eq, if◌then◌else◌, false, system_exit,
}
use m_scale.Dict.{Dict, lookup, insert, has_key}
use m_scale.Hydra.Apps.{str_of_ℕ}
use m_scale.Mock.Commands.{split_spaces}
use m_scale.Mock.Children.{Job, Processes, Manager, add_child, launch_children, wait}

-- `argv[1:]`
abbrev pub tail : List String → List String
tail [] = []
tail (a ∷ argv) = argv

-- The environment of the subscriber `idx`: `myenv["PORT0"] = myenv["PORT" + str(idx)]`.
unfoldable pub worker_env : Dict String String → ℕ → Result (Dict String String)
unfolding str_of_ℕ
worker_env environ idx = elim (lookup environ ("PORT" +++ str_of_ℕ (suc idx) idx)) [
  | none ↦ err key_error
  | some port ↦ ok (insert environ "PORT0" port)
]

-- The loop: `n` subscribers from `idx` on.
unfoldable pub add_workers :
    ℕ → ℕ → Dict String String → List String → Dict String Job → Result (Dict String Job)
unfolding worker_env str_of_ℕ add_child
add_workers zero idx environ cmd jobs = ok jobs
add_workers (suc n) idx environ cmd jobs = elim (worker_env environ idx) [
  | err e ↦ err e
  | ok myenv ↦ elim (add_child jobs ("p" +++ str_of_ℕ (suc idx) idx) cmd (some myenv)) [
    | err e ↦ err e
    | ok jobs' ↦ add_workers n (suc idx) environ cmd jobs'
  ]
]

module _ {W : Type 0} (p : Processes W) where
  -- `run10_inst`, up to `cmgr.wait()`.
  unfoldable pub launch_workers : List String → Exec W (Dict String Job)
  unfolding add_workers launch_children
  launch_workers cmd w = elim (add_workers 10 0 p.environ cmd []) [
    | err e ↦ (err e, w)
    | ok jobs ↦
        let (r, jobs', w') = launch_children p [] jobs w in
        (elim r [ err e ↦ err e | ok u ↦ ok jobs' ], w')
  ]

  -- `run10_inst`, on fuel.
  unfoldable pub run10_inst : ℕ → List String → Exec W (Option (Unit {0}))
  unfolding launch_workers wait
  run10_inst fuel cmd w =
      let (r, w') = launch_workers cmd w in
      elim r [
        | err e ↦ (err e, w')
        | ok jobs ↦
            let (r', (c, w'')) = wait p fuel (record { taskdone = false; jobs = jobs }, w') in
            (r', w'')
      ]

  -- `run10` of zmq_sub.py
  unfoldable pub zmq_run10 : ℕ → List String → Exec W (Option (Unit {0}))
  unfolding run10_inst split_spaces
  zmq_run10 fuel argv =
      run10_inst fuel (split_spaces "./hydra hydra.zmqtest.zmq_sub.run" ++ tail argv)

  -- `run10cpp` of zmq_sub.py
  unfoldable pub zmq_run10cpp : ℕ → List String → Exec W (Option (Unit {0}))
  unfolding run10_inst split_spaces
  zmq_run10cpp fuel argv = run10_inst fuel (split_spaces "./zmq_sub" ++ tail argv)

  -- The command of a subscriber, which a mock finds on the path.
  unfoldable pub sub_cmd : String → List String → List String
  unfolding split_spaces
  sub_cmd function argv =
      if has_key p.environ "mock"
      then split_spaces ("hydra " +++ function) ++ tail argv
      else split_spaces ("./hydra " +++ function) ++ tail argv

  -- `run10` of rmq_sub.py
  unfoldable pub rmq_run10 : ℕ → List String → Exec W (Option (Unit {0}))
  unfolding run10_inst sub_cmd
  rmq_run10 fuel argv = run10_inst fuel (sub_cmd "hydra.rmqtest.rmq_sub.run" argv)

  -- `run10` of kafka_sub.py, which deletes the topic with `call` and exits after the wait.
  unfoldable pub kafka_run10 : Exec W (Unit {0}) → ℕ → List String → Exec W (Option (Unit {0}))
  unfolding run10_inst sub_cmd
  kafka_run10 call fuel argv w =
      let (r, w') = run10_inst fuel (sub_cmd "hydra.kafkatest.kafka_sub.run" argv) w in
      elim r [
        | err e ↦ (err e, w')
        | ok none ↦ (ok none, w')
        | ok (some u) ↦
            let (r', w'') = call w' in (elim r' [ err e ↦ err e | ok v ↦ err system_exit ], w'')
      ]
