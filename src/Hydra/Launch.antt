-- ===== src/Hydra/Launch.antt =====
-- Launching apps, and choosing tasks of them.
pub mod Choosing
use Prim.Native.String.{◌++◌ as ◌+++◌}
use m_scale.Common.{
  ℕ, zero, suc, ◌-◌, ◌+◌, Bool, true, false, not, Option, none, some, String, List, [], ◌∷◌, ◌++◌,
  ok, err, Exec, Result, pure, check, raise, raised, gets, ◌>>=◌, ◌>>◌, string_eq, ltb,
  if◌then◌else◌, length, get_elem?, index_error,
}
use m_scale.Dict.{Dict, insert, has_key, keys}
use m_scale.Hydra.{
  Endpoint, App, created, script, binary, Kind, AppGroup, AppRequest, Constraint, Hydra, Backend,
  on_world, put_app, check_app,
}
use m_scale.Hydra.Apps.{refresh_app_info, get_app_ipport_map}
use m_scale.Hydra.Groups.{create_app_instances_group}

-- `get_cmd`
unfoldable pub get_cmd : String → String → String
get_cmd function_path arguments =
    "env && cd ./src/main/scripts && ./hydra " +++ function_path +++ " " +++ arguments

module _ {W : Type 0} (b : Backend W) where
  -- What the two methods share: `myuri` is `get_app_uri()`.
  unfoldable pub create_with :
      Kind → String → String → ℕ → ℕ → ℕ → List Constraint → String → Exec (Hydra W) (Unit {0})
  create_with kind name cmd cpus mem ports constraints app_uri = do
    apps ← gets (λ h. h.apps)
    check (not (has_key apps name))
    on_world (
        b.create_app name (record {
          cmd = cmd;
          cpus = cpus;
          mem = mem;
          ports = ports;
          constraints = constraints;
          uris = app_uri ∷ [];
        }))
    put_app name (created kind)
    on_world (b.wait_ready name 1)
    refresh_app_info b name
    pure tt

  -- `create_hydra_app`
  unfoldable pub create_hydra_app :
      String → String → String → ℕ → ℕ → ℕ → List Constraint → String → Exec (Hydra W) (Unit {0})
  unfolding create_with get_cmd
  create_hydra_app name app_path app_args = create_with script name (get_cmd app_path app_args)

  -- `create_binary_app`
  unfoldable pub create_binary_app :
      String → String → ℕ → ℕ → ℕ → List Constraint → String → Exec (Hydra W) (Unit {0})
  unfolding create_with
  create_binary_app name app_script = create_with binary name app_script

  -- `create_app_group`
  unfoldable pub create_app_group : ℕ → String → String → ℕ → Exec (Hydra W) (Option Bool)
  create_app_group fuel app_name group_name num =
      create_app_instances_group b fuel app_name group_name num

  -- The loop of `random_select_instances`: `randint(0, n - 1)` is `choice n`.
  unfoldable pub select : ℕ → List String → Exec W (List String)
  select zero ids w = (ok [], w)
  select (suc cnt) ids w =
      let (r, w') = b.choice (length ids) w in
      let (rest, w'') = select cnt ids w' in
      elim (get_elem? {A = String} ids r) [
        | none ↦ (err index_error, w')
        | some t ↦ elim rest [ err e ↦ (err e, w'') | ok cset ↦ (ok (t ∷ cset), w'') ]
      ]

  -- `random_select_instances`
  unfoldable pub random_select_instances : String → ℕ → Exec (Hydra W) (List String)
  unfolding select get_app_ipport_map
  random_select_instances app_name cnt = do
    ipm ← get_app_ipport_map app_name
    check (ltb cnt (length ipm))
    on_world (select cnt (keys ipm))

  -- `get_all_mesos_slave_iplist`: `clusters` are the values of `mesos_cluster`, and `slaves` is what
  -- `get_slave_ips_from_attribute` gives for an attribute and its value.
  unfoldable pub get_all_mesos_slave_iplist :
      (String → String → Exec W (List String)) → List (String × String) → Exec W (List String)
  get_all_mesos_slave_iplist slaves [] = pure []
  get_all_mesos_slave_iplist slaves ((cat, match) ∷ clusters) = do
    ips ← slaves cat match
    ip ← elim ips [ [] ↦ raise (raised "NO slave exists with attribtue") | ip ∷ others ↦ pure ip ]
    rest ← get_all_mesos_slave_iplist slaves clusters
    pure (ip ∷ rest)
