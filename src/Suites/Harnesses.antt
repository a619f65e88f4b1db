-- ===== src/Suites/Harnesses.antt =====
-- The tests of runtest.py as the suites use them, on the object of Zmq.RunTest.
use m_scale.Common.{
  ℕ, zero, suc, ◌-◌, ◌*◌, ◌/◌, Option, none, some, String, [], ◌∷◌, Exec, ok, pure, ◌>>=◌, ◌>>◌,
  finished, nat_eq, ltb, if◌then◌else◌,
}
use m_scale.Integer.{ℤ, pos, negsuc}
use m_scale.Hydra.{Backend}
use m_scale.Hydra.Startup.{Settings, mesos_cluster, get_app_uri, format_appname, new_hydra}
use m_scale.Runner.{Test, init, boundary_run}
use m_scale.Scanner.{Measure}
use m_scale.Zmq.Report.{Fraction, Report, boundary_resultfn}
use m_scale.Zmq.RunTest.{Options, Master, Object, scale_sub_app, delete_all_launched_apps}
use m_scale.Zmq.Rerun.{zmq_test}
use m_scale.Kafka.{KafkaOptions, kafka_run_test, kafka_rerun_test}
use m_scale.Rmq
use m_scale.Suites.{Harness}

abbrev pub minus : ℕ → ℤ
minus zero = pos 0
minus (suc n) = negsuc n

-- A fraction in fixed point, rounded towards zero.
unfoldable pub to_fixed : ℕ → Fraction → ℤ
to_fixed unit f =
    let d = f.bottom.plus - f.bottom.minus in
    if ltb f.top.plus f.top.minus
    then minus ((f.top.minus - f.top.plus) * unit / d)
    else pos ((f.top.plus - f.top.minus) * unit / d)

-- `boundary_resultfn`, as the scanner reads it.
unfoldable pub measure_of : ℕ → ℕ → Option Report → Option Measure
unfolding boundary_resultfn to_fixed
measure_of unit msg_rate none = none
measure_of unit msg_rate (some res) =
    let (run_pass, rate, loss) = boundary_resultfn msg_rate res in
    some (record { status = run_pass; rate = rate; res = to_fixed unit loss })

-- The web server that the tasks load the code from.
pub record AppServer (W : Type 0) : Type 0 where
  pub start : Exec W (Unit {0})
  pub stop : Exec W (Unit {0})

module _ {W : Type 0} where
  -- An action of the world, inside the object.
  abbrev pub outside : {A : Type 0} → Exec W A → Exec (Object W) A
  outside m r =
      let (res, w) = m r.world.hydra.world in
      (res, record r { world = record r.world { hydra = record r.world.hydra { world = w } } })

  -- `HydraBase.__init__` and `boundary_setup`, without a run of the test: the object is new.
  unfoldable pub new_object : Settings → String → String → String → Options → Object W → Object W
  unfolding mesos_cluster get_app_uri new_hydra init
  new_object config test_name stpub stsub options r = init r.arg (record {
    hydra = new_hydra (stpub ∷ stsub ∷ []) r.world.hydra.world;
    options = options;
    zstpub = stpub;
    zstsub = stsub;
    mesos_cluster = mesos_cluster config;
    app_uri = get_app_uri config test_name;
    pub_ip = none;
    ha_pub = none;
  })

  abbrev pub set_options : Options → Object W → Object W
  set_options options r = record r { world = record r.world { options = options } }

  module _ (b : Backend W) (server : AppServer W) (fuel unit : ℕ) where
    -- `runner.run`
    unfoldable pub run : Test (Option Report) (Master W) → ℕ → Exec (Object W) Measure
    unfolding boundary_run measure_of
    run t rate = boundary_run t (measure_of unit) rate >>= finished

    unfoldable pub harness :
        (Options → Object W → Object W)
        → Exec (Object W) (Option (Unit {0}))
        → Test (Option Report) (Master W)
        → Harness Options (Object W)
    unfolding run delete_all_launched_apps
    harness create scale t = record {
      create = λ options r. (ok tt, create options r);
      start_appserver = outside server.start;
      stop_appserver = outside server.stop;
      set_options = λ options r. (ok tt, set_options options r);
      scale_sub_app = scale >>= finished;
      run = run t;
      run_test = (do res ← t.run_test; report ← finished res; pure tt);
      delete_all_launched_apps = delete_all_launched_apps b fuel >>= finished;
    }

    -- `RunTestZMQ`
    unfoldable pub zmq_harness : Settings → Harness Options (Object W)
    unfolding harness new_object zmq_test scale_sub_app format_appname
    zmq_harness config =
        harness
          (new_object config "zmqScale" (format_appname config "/zst-pub")
            (format_appname config "/zst-sub"))
          (scale_sub_app b fuel) (zmq_test b fuel)

    -- `RunTestKAFKA`
    unfoldable pub kafka_test : KafkaOptions → Test (Option Report) (Master W)
    unfolding kafka_run_test kafka_rerun_test delete_all_launched_apps
    kafka_test o = record {
      run_test = kafka_run_test b fuel o;
      rerun_test = kafka_rerun_test b fuel;
      delete_all_launched_apps = delete_all_launched_apps b fuel >> pure tt;
    }

    unfoldable pub kafka_harness : Settings → KafkaOptions → Harness Options (Object W)
    unfolding harness new_object kafka_test scale_sub_app format_appname
    kafka_harness config o =
        harness
          (new_object config "KAFKAScale" (format_appname config "/kafka-pub")
            (format_appname config "/kafka-sub"))
          (scale_sub_app b fuel) (kafka_test o)

    -- `RunTestRMQ`, whose apps have no prefix.
    unfoldable pub rmq_test : ℕ → Test (Option Report) (Master W)
    unfolding delete_all_launched_apps
    rmq_test apps_in_group = record {
      run_test = Rmq.run_test b fuel apps_in_group;
      rerun_test = Rmq.rerun_test b fuel;
      delete_all_launched_apps = delete_all_launched_apps b fuel >> pure tt;
    }

    unfoldable pub rmq_harness : Settings → ℕ → Harness Options (Object W)
    unfolding harness new_object rmq_test
    rmq_harness config apps_in_group =
        harness (new_object config "RMQScale" "/rmq-pub" "/rmq-sub") (Rmq.scale_sub_app b fuel)
          (rmq_test apps_in_group)
