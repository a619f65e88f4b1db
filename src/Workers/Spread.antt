-- ===== src/Workers/Spread.antt =====
-- The ports of the ten subscribers of a task.
use m_scale.Common.{
  ℕ, ◌≡◌, true, Option, none, some, String, List, [], ◌∷◌, ok, string_eq, false, All,
}
use m_scale.Dict.{Dict, lookup, insert, values}
use m_scale.Mock.Children.{Job, Processes}
use m_scale.Mock.{child_env}

-- The port that the environment of a job tells a subscriber.
abbrev pub port_of : Job → Option String
port_of job = elim job.env [ none ↦ none | some env ↦ lookup env "PORT0" ]

module _ {W : Type 0} (p : Processes W)
    (starts : (cmd : List String) (env : Option (Dict String String)) (w : W)
      → (pid : ℕ) × (w' : W) × (p.popen cmd env w ≡ (ok pid, w'))) where
  abbrev AllRun : Dict String Job → Type 0
  AllRun jobs = All (λ job. job.running ≡ true) (values jobs)

abbrev worker : Dict String String → List String → String → Job
worker environ cmd port = record {
  cmd = cmd;
  env = some (insert environ "PORT0" port);
  running = false;
  pid = none;
  ports = none;
}

module _ (environ : Dict String String) (p0 p1 p2 p3 p4 p5 p6 p7 p8 p9 : String) where
  abbrev workers : List String → Dict String Job
  workers cmd =
      ("p0", worker environ cmd p0)
      ∷ ("p1", worker environ cmd p1)
      ∷ ("p2", worker environ cmd p2)
      ∷ ("p3", worker environ cmd p3)
      ∷ ("p4", worker environ cmd p4)
      ∷ ("p5", worker environ cmd p5)
      ∷ ("p6", worker environ cmd p6)
      ∷ ("p7", worker environ cmd p7)
      ∷ ("p8", worker environ cmd p8)
      ∷ ("p9", worker environ cmd p9)
      ∷ []

module _ {W : Type 0} (p : Processes W) (p0 p1 p2 p3 p4 p5 p6 p7 p8 p9 : String) where
  abbrev pub ten_ports : List String
  ten_ports = p0 ∷ p1 ∷ p2 ∷ p3 ∷ p4 ∷ p5 ∷ p6 ∷ p7 ∷ p8 ∷ p9 ∷ []

  -- The processes as a task of the mock sees them that was given the ten ports.
  abbrev pub in_task : Processes W
  in_task = record p { environ = child_env p ten_ports }
