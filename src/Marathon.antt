-- ===== src/Marathon.antt =====
-- `MarathonIF` of src/main/python/hydra/lib/mmapi.py: calls of marathon that are tried again, and
-- waiting for an app. The marathon client and the clock are a `Client` with a state `W`; times are in
-- milliseconds.
pub mod Timeouts
pub mod Requests
pub mod Mesos
pub mod Waiting
pub mod AsBackend
use m_scale.Hydra.{Task, AppRequest}
use m_scale.Common.{
  List, ℕ, zero, suc, ◌-◌, Bool, true, false, Option, none, some, String, ok, err, Error, raised,
  type_error, Exec, Result, pure, raise, ◌>>=◌, ◌>>◌, ltb, nat_beq, if◌then◌else◌, attribute_error,
}

-- What the code reads of an app of marathon: its deployments are their ids.
pub record MarathonApp : Type 0 where
  pub tasks_running : ℕ
  pub tasks : List Task
  pub deployments : List String

pub record Client (W : Type 0) : Type 0 where
  -- `time.time()` and `time.sleep`
  pub time : W → ℕ
  pub sleep : ℕ → W → W
  -- The calls of `self.mcli`; `get_app` gives `none` for a NotFoundError.
  pub get_app : String → Exec W (Option MarathonApp)
  pub delete_app : String → Exec W (Unit {0})
  pub scale_app : String → ℕ → Exec W (Unit {0})
  pub list_apps : Exec W (List String)
  pub create_app : String → AppRequest → Exec W MarathonApp
  pub delete_deployment : String → Exec W (Unit {0})
  pub list_deployments : Exec W (List String)
  pub ping : Exec W String
  pub kill_task : String → String → Exec W (Unit {0})

abbrev pub timed_out : Error
timed_out = raised "timed out, possible zookeper/marathon/mesos malfunction"

module _ {W : Type 0} (mcli : Client W) where
  -- The `while` loop that `get_app`, `delete_app` and `scale_app` share, on fuel: `none` where that ran
  -- out. Between tries it sleeps ten seconds.
  unfoldable pub try_until : {A : Type 0} → ℕ → Exec W A → ℕ → ℕ → Exec W (Option A)
  try_until zero call st_time timeout w = (ok none, w)
  try_until (suc fuel) call st_time timeout w =
      let (r, w') = call w in
      let rest = try_until fuel call st_time timeout (mcli.sleep 10000 w') in
      if ltb (mcli.time w - st_time) timeout
      then elim r [ ok a ↦ (ok (some a), w') | err e ↦ rest ]
      else (err timed_out, w)

  abbrev pub try_for : {A : Type 0} → ℕ → Exec W A → ℕ → Exec W (Option A)
  try_for fuel call timeout w = try_until fuel call (mcli.time w) timeout w

  unfoldable pub get_app : ℕ → String → ℕ → Exec W (Option (Option MarathonApp))
  unfolding try_until
  get_app fuel app_id timeout = try_for fuel (mcli.get_app app_id) timeout

  unfoldable pub delete_app : ℕ → String → ℕ → Exec W (Option (Unit {0}))
  unfolding try_until
  delete_app fuel app_id timeout = try_for fuel (mcli.delete_app app_id) timeout

  unfoldable pub scale_app : ℕ → String → ℕ → ℕ → Exec W (Option (Unit {0}))
  unfolding try_until
  scale_app fuel app scale timeout = try_for fuel (mcli.scale_app app scale) timeout

  -- The body of the `try` of `delete_app_ifexisting`; the timeouts are the defaults of the two methods.
  unfoldable pub delete_found : ℕ → String → Exec W (Option (Unit {0}))
  unfolding get_app delete_app
  delete_found fuel app_id = do
    found ← get_app fuel app_id 300000
    elim found [
      | none ↦ pure none
      | some none ↦ pure (some tt)
      | some (some a) ↦ delete_app fuel app_id 200000
    ]

  -- `delete_app_ifexisting`: after the last try the last exception is raised again, and without a try
  -- there is none to raise.
  unfoldable pub delete_app_ifexisting : ℕ → String → ℕ → Error → Exec W (Option (Unit {0}))
  unfolding delete_found
  delete_app_ifexisting fuel app_id zero last w = (err last, w)
  delete_app_ifexisting fuel app_id (suc trys) last w =
      let (r, w') = delete_found fuel app_id w in
      elim r [
        | ok o ↦ (ok o, w')
        | err e ↦ delete_app_ifexisting fuel app_id trys e (mcli.sleep 10000 w')
      ]

  -- `wait_app_removal`, on fuel.
  unfoldable pub wait_app_removal : ℕ → String → Exec W (Option Bool)
  unfolding get_app
  wait_app_removal zero app w = (ok none, w)
  wait_app_removal (suc fuel) app w =
      let (r, w') = get_app (suc fuel) app 300000 w in
      let rest = wait_app_removal fuel app (mcli.sleep 200 w') in
      elim r [
        | err e ↦ (err e, w')
        | ok none ↦ (ok none, w')
        | ok (some none) ↦ (ok (some true), w')
        | ok (some (some a)) ↦ rest
      ]

  -- `wait_app_ready`, on fuel; `nap` is the time between tries.
  unfoldable pub wait_app_ready : ℕ → String → ℕ → ℕ → Exec W (Option MarathonApp)
  unfolding get_app scale_app
  wait_app_ready zero app running_count nap w = (ok none, w)
  wait_app_ready (suc fuel) app running_count nap w =
      let (r, w') = get_app (suc fuel) app 300000 w in
      let (s, w'') = scale_app (suc fuel) app running_count 300000 w' in
      let scaled = wait_app_ready fuel app running_count nap (mcli.sleep 1000 w'') in
      let rest = wait_app_ready fuel app running_count nap (mcli.sleep nap w') in
      elim r [
        | err e ↦ (err e, w')
        | ok none ↦ (ok none, w')
        | ok (some none) ↦ (err attribute_error, w')
        | ok (some (some a1)) ↦
            if ltb running_count a1.tasks_running
            then elim s [ err e ↦ (err e, w'') | ok none ↦ (ok none, w'') | ok (some u) ↦ scaled ]
            else if nat_beq a1.tasks_running running_count
            then (ok (some a1), w')
            else rest
      ]
