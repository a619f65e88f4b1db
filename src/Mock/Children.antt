-- ===== src/Mock/Children.antt =====
-- `ChildManager` of src/main/python/hydra/lib/childmgr.py, as the mock uses it.
use m_scale.Common.{
  pure, ◌>>◌, zero, suc, system_exit, ℕ, Bool, true, false, Option, none, some, String, List, [],
  ◌∷◌, Exec, Result, ok, err, raised, key_error, raise, string_eq, if◌then◌else◌,
}
use m_scale.Dict.{Dict, lookup, insert, has_key}

-- An entry of `ChildManager.jobs`: `pid` and `ports` are missing until it runs. `cwd` is None at every
-- caller.
pub record Job : Type 0 where
  pub cmd : List String
  pub env : Option (Dict String String)
  pub running : Bool
  pub pid : Option ℕ
  pub ports : Option (List String)

-- `os.environ`; `subprocess.Popen` of a command in an environment, with its pid; killing a process and
-- its children; `time.sleep` of a second, and whether the signal that a child has ended came in it.
pub record Processes (W : Type 0) : Type 0 where
  pub environ : Dict String String
  pub popen : List String → Option (Dict String String) → Exec W ℕ
  pub kill : ℕ → Exec W (Unit {0})
  pub sleep : W → W
  pub is_child_ended : W → Bool

-- `ChildManager.add_child`
unfoldable pub add_child :
    Dict String Job → String → List String → Option (Dict String String) → Result (Dict String Job)
add_child jobs name cmd env =
    if has_key jobs name
    then err (raised "already scheduled to launch")
    else ok (
        insert jobs name
          (record { cmd = cmd; env = env; running = false; pid = none; ports = none }))

abbrev pub ports_or : List String → Option (List String) → Option (List String)
ports_or [] old = old
ports_or (p ∷ ports) old = some (p ∷ ports)

abbrev pub launched : Job → ℕ → List String → Job
launched job pid ports = record job {
  running = true;
  pid = some pid;
  ports = ports_or ports job.ports;
}

module _ {W : Type 0} (p : Processes W) where
  -- `ChildManager.launch_children`: what came before an exception stays.
  unfoldable pub launch_children :
      List String → Dict String Job → W → Result (Unit {0}) × Dict String Job × W
  launch_children ports [] w = (ok tt, [], w)
  launch_children ports ((name, job) ∷ jobs) w =
      let (started, w1) = p.popen job.cmd job.env w in
      let (res, rest, w2) = launch_children ports jobs w1 in
      let (res', rest', w2') = launch_children ports jobs w in
      if job.running then (res', (name, job) ∷ rest', w2') else elim started [
        | err e ↦ (err e, (name, job) ∷ jobs, w1)
        | ok pid ↦ (res, (name, launched job pid ports) ∷ rest, w2)
      ]

  -- `terminate_process_and_children`: a job without a process raises KeyError.
  unfoldable pub terminate_process_and_children : Dict String Job → String → Exec W (Unit {0})
  terminate_process_and_children jobs name = elim (lookup jobs name) [
    | none ↦ raise key_error
    | some job ↦ elim job.pid [ none ↦ raise key_error | some pid ↦ p.kill pid ]
  ]

-- `ChildManager`
pub record Manager : Type 0 where
  pub taskdone : Bool
  pub jobs : Dict String Job

-- `ChildManager.sigchild`: the end of a child ends the process.
unfoldable pub sigchild : {W : Type 0} → Exec (Manager × W) (Unit {0})
sigchild (c, w) = (err system_exit, (record c { taskdone = true }, w))

module _ {W : Type 0} (p : Processes W) where
  -- `ChildManager.wait`, on fuel; the signal comes in a sleep.
  unfoldable pub wait : ℕ → Exec (Manager × W) (Option (Unit {0}))
  unfolding sigchild
  wait zero s = (ok none, s)
  wait (suc fuel) (c, w) =
      let w' = p.sleep w in
      let rest = wait fuel (c, w') in
      if c.taskdone
      then (ok (some tt), (c, w))
      else if p.is_child_ended w'
      then (sigchild >> pure none) (c, w')
      else rest
