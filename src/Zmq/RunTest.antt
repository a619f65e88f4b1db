-- ===== src/Zmq/RunTest.antt =====
-- `RunTestZMQ` of zmqtest/runtest.py: launching publisher and subscribers, and a run of the test.
-- The object is the `Runner` of the boundary tests around the state of `HydraBase`. `none` stands
-- for a loop that ran out of fuel.
use Prim.Native.String.{◌++◌ as ◌+++◌}
use m_scale.Common.{
  ℕ, suc, Bool, true, false, Option, none, some, String, List, [], ◌∷◌, Exec, ok, pure, raise,
  check, gets, ◌>>=◌, ◌>>◌, nat_eq, string_eq, contains, if◌then◌else◌, attribute_error,
}
use m_scale.Dict.{Dict, lookup}
use m_scale.Hydra.{Constraint, Endpoint, Hydra, Backend}
use m_scale.Hydra.Apps.{str_of_ℕ, get_app_ipport_map}
use m_scale.Hydra.Launch.{create_hydra_app, create_binary_app}
use m_scale.Hydra.Scaling.{scale_app, delete_app}
use m_scale.Hydra.Pings.{remove_unresponsive_tasks}
use m_scale.Runner.{Runner}
use m_scale.Zmq.Report.{Report}

-- The options without `msg_rate`, which is the boundary argument; percentages are whole numbers.
pub record Options : Type 0 where
  pub test_duration : ℕ
  pub msg_batch : ℕ
  pub total_sub_apps : ℕ
  pub c_pub : Bool
  pub c_sub : Bool
  pub slow_clients_percent : ℕ
  pub slow_clients_rate : ℕ
  pub rec_clients_percent : ℕ
  pub rec_clients_rate : ℕ

-- The rest of the object: `ha_pub` is the address of the analyser and its task.
pub record Master (W : Type 0) : Type 0 where
  pub hydra : Hydra W
  pub options : Options
  pub zstpub : String
  pub zstsub : String
  pub mesos_cluster : Dict ℕ (String × String)
  pub app_uri : String
  pub pub_ip : Option String
  pub ha_pub : Option (Endpoint × String)

abbrev pub Object : Type 0 → Type 0
Object W = Runner (Option Report) (Master W)

-- `Set(xs)`
unfoldable pub set_of : List String → List String
set_of [] = []
set_of (x ∷ xs) = let rest = set_of xs in if contains rest x then rest else x ∷ rest

-- `'%s %s %s %s' % (a, b, c, d)`
unfoldable pub pub_args : ℕ → ℕ → ℕ → ℕ → String
unfolding str_of_ℕ
pub_args a b c d =
    str_of_ℕ (suc a) a
    +++ " "
    +++ str_of_ℕ (suc b) b
    +++ " "
    +++ str_of_ℕ (suc c) c
    +++ " "
    +++ str_of_ℕ (suc d) d

abbrev pub app_constraints : String → String → Option String → Constraint
app_constraints field operator value = record { field = field; operator = operator; value = value }

-- The constraint to a cluster, where there is one of that number.
unfoldable pub in_cluster : Dict ℕ (String × String) → ℕ → List Constraint
in_cluster clusters i = elim (lookup clusters i) [
  | none ↦ []
  | some (cat, match) ↦ app_constraints cat "CLUSTER" (some match) ∷ []
]

-- `recv_rate` and `reconnect_rate` of one subscriber.
abbrev pub rate_if : Option (List String) → String → ℕ → ℕ
rate_if none key rate = 0
rate_if (some clients) key rate = if contains clients key then rate else 0

module _ {W : Type 0} where
  abbrev pub on_hydra : {A : Type 0} → Exec (Hydra W) A → Exec (Object W) A
  on_hydra m r =
      let (res, h) = m r.world.hydra in (res, record r { world = record r.world { hydra = h } })

  abbrev pub unless_out :
      {A : Type 0} → Option (Unit {0}) → Exec (Object W) (Option A) → Exec (Object W) (Option A)
  unless_out none n = pure none
  unless_out (some u) n = n

  -- The next call, unless the one before ran out of fuel.
  infixl 5 ◌>>?◌
  abbrev pub ◌>>?◌ :
      {A : Type 0}
      → Exec (Object W) (Option (Unit {0}))
      → Exec (Object W) (Option A)
      → Exec (Object W) (Option A)
  m >>? n = m >>= λ o. unless_out o n

  abbrev pub master : Exec (Object W) (Master W)
  master r = (ok r.world, r)

  module _ (b : Backend W) (fuel : ℕ) where
    -- Its own `delete_all_launched_apps`, which `start_init` and `boundary_run` call.
    unfoldable pub delete_all_launched_apps : Exec (Object W) (Option (Unit {0}))
    delete_all_launched_apps = do
      m ← master
      on_hydra (delete_app b fuel m.zstpub 1 true 200 100)
          >>? on_hydra (delete_app b fuel m.zstsub 1 true 200 100)

    unfoldable pub scale_sub_app : Exec (Object W) (Option (Unit {0}))
    scale_sub_app = do
      m ← master
      on_hydra (scale_app b fuel m.zstsub m.options.total_sub_apps 300 500)
          >>? (on_hydra (remove_unresponsive_tasks b m.zstsub "") >> pure (some tt))

    -- Keeps the address of the publisher, which is to be the only task.
    unfoldable pub find_pub : Exec (Object W) (Unit {0})
    find_pub = do
      m ← master
      ipm ← on_hydra (get_app_ipport_map m.zstpub)
      elim ipm [
        | (key, e) ∷ [] ↦ λ r. (
          ok tt,
          record r { world = record r.world { pub_ip = some e.ip; ha_pub = some (e, key) } },
        )
        | _ ↦ check false
      ]

    unfoldable pub launch_zmq_pub : Exec (Object W) (Unit {0})
    unfolding pub_args in_cluster find_pub
    launch_zmq_pub = do
      m ← master
      msg_rate ← gets (λ r. r.arg)
      let constraints = app_constraints "hostname" "UNIQUE" none ∷ in_cluster m.mesos_cluster 0
      if m.options.c_pub
          then on_hydra (
              create_binary_app b m.zstpub "./src/main/scripts/zmq_pub" 1 32 1 constraints
                m.app_uri)
          else on_hydra (
              create_hydra_app b m.zstpub "hydra.zmqtest.zmq_pub.run"
                (pub_args m.options.test_duration m.options.msg_batch msg_rate
                  m.options.total_sub_apps)
                1 32 1 constraints m.app_uri)
      find_pub

    unfoldable pub launch_zmq_sub : Exec (Object W) (Option (Unit {0}))
    unfolding in_cluster scale_sub_app
    launch_zmq_sub = do
      m ← master
      ip ← elim m.pub_ip [ none ↦ raise attribute_error | some ip ↦ pure ip ]
      on_hydra (
          create_hydra_app b m.zstsub
            (if m.options.c_sub
              then "hydra.zmqtest.zmq_sub.run10cpp"
              else "hydra.zmqtest.zmq_sub.run10")
            (ip +++ " 15556") 1 32 10 (in_cluster m.mesos_cluster 1) m.app_uri)
      scale_sub_app
