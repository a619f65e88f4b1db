-- ===== src/Marathon/Requests.antt =====
-- The calls of `MarathonIF` in src/main/python/hydra/lib/mmapi.py that do not wait: creating an app,
-- and those that are passed on to marathon.
use Prim.Native.Char.{code}
use m_scale.Common.{
  ℕ, zero, suc, ◌+◌, ◌*◌, ◌≤◌, ◌<◌, ◌≡◌, arith, Bool, true, false, ◌||◌, ◌&&◌, String, List, ok,
  err, Error, raised, http_error, type_error, Exec, leb, ltb, nat_beq, if◌then◌else◌, Bool-cases,
  inl, inr,
}
use m_scale.Hydra.{AppRequest}
use m_scale.Hydra.Usage.{startswith}
use m_scale.Marathon.{Client, MarathonApp}

-- `[A-Za-z0-9-/.]`
unfoldable pub is_id_character : ℕ → Bool
is_id_character n =
    leb 65 n && leb n 90
    || leb 97 n && leb n 122
    || leb 48 n && leb n 57
    || nat_beq n 45
    || nat_beq n 47
    || nat_beq n 46

-- `is_valid_app_id`: the `$` of the expression stands also before a last newline.
unfoldable pub is_valid_app_id : String → Bool
unfolding is_id_character
is_valid_app_id String.[] = true
is_valid_app_id (String.◌∷◌ c String.[]) = is_id_character (code c) || nat_beq (code c) 10
is_valid_app_id (String.◌∷◌ c (String.◌∷◌ d s)) =
    is_id_character (code c) && is_valid_app_id (String.◌∷◌ d s)

-- `s.find(needle) >= 0`
unfoldable pub finds : String → String → Bool
unfolding startswith
finds needle String.[] = startswith "" needle
finds needle (String.◌∷◌ c s) = startswith (String.◌∷◌ c s) needle || finds needle s

-- A MarathonHttpError that says that the app is locked.
unfoldable pub is_locked : Error → Bool
unfolding finds
is_locked (http_error s) =
    finds "App is locked by one or more deployments. Override with the option" s
is_locked e = false

module _ {W : Type 0} (mcli : Client W) where
  -- The loop of `create_app`; the last exception is raised again after it.
  unfoldable pub create_tries : ℕ → String → AppRequest → Error → Exec W MarathonApp
  unfolding is_locked
  create_tries zero app_id attr last w = (err last, w)
  create_tries (suc trys) app_id attr last w =
      let (r, w') = mcli.create_app app_id attr w in
      elim r [
        | ok a ↦ (ok a, w')
        | err e ↦
            let rest = create_tries trys app_id attr e (mcli.sleep 1000 w') in
            if is_locked e then rest else (err e, w')
      ]

  -- `create_app`
  unfoldable pub create_app : String → AppRequest → Exec W MarathonApp
  unfolding create_tries is_valid_app_id
  create_app app_id attr w =
      if is_valid_app_id app_id
      then create_tries 10 app_id attr type_error w
      else (err (raised "Invalid app_id"), w)

  unfoldable pub get_apps : Exec W (List String)
  get_apps = mcli.list_apps

  unfoldable pub delete_deployment : String → Exec W (Unit {0})
  delete_deployment dep_id = mcli.delete_deployment dep_id

  unfoldable pub get_deployments : Exec W (List String)
  get_deployments = mcli.list_deployments

  unfoldable pub ping : Exec W String
  ping = mcli.ping

  unfoldable pub kill_task : String → String → Exec W (Unit {0})
  kill_task app_id task_id = mcli.kill_task app_id task_id

-- A marathon that holds the app locked until the clock shows `free_at`.
module _ {W : Type 0} (mcli : Client W) (app_id : String) (attr : AppRequest) (free_at : ℕ)
    (sleeps : (d : ℕ) (w : W) → mcli.time w + d ≤ mcli.time (mcli.sleep d w))
    (locked : (w : W)
      → mcli.time w < free_at
      → (e : Error) × (mcli.create_app app_id attr w ≡ (err e, w)) × (is_locked e ≡ true))
    (free : (w : W)
      → free_at ≤ mcli.time w
      → (a : MarathonApp) × (w' : W) × (mcli.create_app app_id attr w ≡ (ok a, w'))) where
  create_tries_lem :
      (trys : ℕ) (last : Error) (w : W)
      → free_at ≤ mcli.time w + trys * 1000
      → (a : MarathonApp) × (w' : W) × (create_tries mcli (suc trys) app_id attr last w
          ≡ (ok a, w'))
  unfolding create_tries
  create_tries_lem zero last w l =
      let (a, w', r) = free w (omega arith) in (a, w', ground (arith, r))
  create_tries_lem (suc trys) last w l = elim (Bool-cases (ltb (mcli.time w) free_at)) [
    | inl early ↦
        let (e, r, k) = locked w (ground arith) in
        let slept = sleeps 1000 w in
        let (a, w', rest) = create_tries_lem trys e (mcli.sleep 1000 w) (omega arith) in
        (a, w', ground (arith, r, k, rest))
    | inr late ↦ let (a, w', r) = free w (ground arith) in (a, w', ground (arith, r))
  ]

  -- Where marathon holds the app locked by a deployment for at most nine seconds more, refusing with
  -- the message that says so, and accepts it from then on: `create_app` with a valid id returns the
  -- app.
  pub create_app-unlocked :
      is_valid_app_id app_id ≡ true
      → (w : W) → free_at ≤ mcli.time w + 9000
      → (a : MarathonApp) × (w' : W) × (create_app mcli app_id attr w ≡ (ok a, w'))
  unfolding create_app
  create_app-unlocked valid w l =
      let (a, w', r) = create_tries_lem 9 type_error w (omega arith) in (a, w', ground (arith, r))
