-- ===== src/Rmq.antt =====
-- `RunTestRMQ` of src/main/python/hydra/rmqtest/runtest.py, on the object of Zmq.RunTest: `rmqpub`
-- and `rmqsub` are its `zstpub` and `zstsub`. Its tasks are signalled in groups.
pub mod Regrouping
pub mod Results
use Prim.Native.String.{◌++◌ as ◌+++◌}
use m_scale.Common.{
  string_eq, ℕ, suc, ◌+◌, ◌/◌, Bool, true, false, not, Option, none, some, String, List, [], ◌∷◌,
  Exec, Result, ok, err, Error, pure, raise, gets, ◌>>=◌, ◌>>◌, attribute_error, zero_division,
  length, if◌then◌else◌, nat_eq, ◌==◌,
}
use m_scale.Dict.{values}
use m_scale.Hydra.{Stats, Hydra, Backend, on_world, get_group, pub_config}
use m_scale.Hydra.Apps.{str_of_ℕ, get_app_stats}
use m_scale.Hydra.Launch.{create_app_group, create_hydra_app}
use m_scale.Hydra.Readings.{Method, do_ping, reset_stats, execute, fetch_app_stats}
use m_scale.Hydra.Pings.{remove_unresponsive_tasks}
use m_scale.Hydra.Scaling.{scale_app}
use m_scale.Runner.{boundary_setup}
use m_scale.Zmq.Report.{
  Fraction, boundary_resultfn, Report, Tally, no_clients, tally_valid, result_of,
}
use m_scale.Zmq.RunTest.{
  Master, Object, app_constraints, in_cluster, on_hydra, ◌>>?◌, master, find_pub,
  delete_all_launched_apps,
}
use m_scale.Zmq.Rerun.{ha_pub, only_stats}

-- All clients count.
unfoldable pub tally_all : ℕ → Tally → List Stats → Tally
unfolding tally_valid
tally_all tx k [] = k
tally_all tx k (s ∷ stats) = tally_all tx (tally_valid tx k s) stats

abbrev pub without_valid_cnt : Result Report → Result Report
without_valid_cnt (err e) = err e
without_valid_cnt (ok res) = ok (record res { valid_client_cnt = none })

-- `result_parser`, which divides by the number of all clients and does not report that of the valid
-- ones.
unfoldable pub rmq_result_parser : Stats → List Stats → Result Report
unfolding tally_all result_of
rmq_result_parser p stats = without_valid_cnt (
    result_of p (length stats)
      (record (tally_all p.msg_cnt no_clients stats) { valid_client_cnt = length stats }))

-- `boundary_resultfn`, as that of the ZeroMQ test.
unfoldable pub rmq_boundary_resultfn : ℕ → Report → Bool × ℕ × Fraction
unfolding boundary_resultfn
rmq_boundary_resultfn = boundary_resultfn

-- `'%s %s %s' % (a, b, c)`
unfoldable pub rmq_pub_args : ℕ → ℕ → ℕ → String
unfolding str_of_ℕ
rmq_pub_args a b c =
    str_of_ℕ (suc a) a +++ " " +++ str_of_ℕ (suc b) b +++ " " +++ str_of_ℕ (suc c) c

module _ {W : Type 0} (b : Backend W) (fuel : ℕ) where
  -- `g._execute(method)`, where `g` is a group, or the number 1 if it could not be made.
  unfoldable pub signal_group : Bool → String → Method → Exec (Hydra W) (Unit {0})
  signal_group false name method = raise attribute_error
  signal_group true name method = do g ← get_group name; execute b name g method

  unfoldable pub signal_all : Bool → Bool → Bool → Method → Exec (Hydra W) (Unit {0})
  unfolding signal_group
  signal_all g1 g2 g3 method = do
    signal_group g1 "test-group" method
    signal_group g2 "test-group2" method
    signal_group g3 "test-group3" method

  abbrev pub made :
      Option Bool → (Bool → Exec (Hydra W) (Option (Unit {0}))) → Exec (Hydra W) (Option (Unit {0}))
  made none f = pure none
  made (some g) f = f g

  -- The groups of a run.
  unfoldable pub regroup : String → Exec (Hydra W) (Option (Unit {0}))
  unfolding signal_all
  regroup app = do
    r1 ← create_app_group b fuel app "test-group" 10
    made r1 λ g1. (do
      r2 ← create_app_group b fuel app "test-group2" 5
      made r2 λ g2. (do
        r3 ← create_app_group b fuel app "test-group3" 5
        made r3 λ g3. (do
          remove_unresponsive_tasks b app ""
          signal_all g1 g2 g3 do_ping
          signal_all g1 g2 g3 reset_stats
          pure (some tt))))

  unfoldable pub parse_stats : Exec (Object W) (Option Report)
  unfolding rmq_result_parser
  parse_stats = do
    m ← master
    pubs ← on_hydra (get_app_stats m.zstpub)
    p ← only_stats (values pubs)
    on_hydra (fetch_app_stats b fuel m.zstsub "") >>? (do
      subs ← on_hydra (get_app_stats m.zstsub)
      λ r. elim (rmq_result_parser p (values subs)) [
        | err e ↦ (err e, r)
        | ok res ↦ (ok (some res), r)
      ])

  unfoldable pub send_messages : Exec (Object W) (Option (Unit {0}))
  unfolding regroup
  send_messages = do
    m ← master
    rate ← gets (λ r. r.arg)
    a ← ha_pub m
    on_hydra (
        on_world
          (b.update_config a.0 a.1 (pub_config m.options.test_duration m.options.msg_batch rate)))
    on_hydra (regroup m.zstsub) >>? (do
      on_hydra (on_world (b.start_test a.0 a.1))
      on_hydra (on_world (b.wait_for_testend a.0 a.1))
      on_hydra (fetch_app_stats b fuel m.zstpub ""))

  -- `rerun_test`
  unfoldable pub rerun_test : Exec (Object W) (Option Report)
  unfolding send_messages parse_stats
  rerun_test r = (send_messages >>? parse_stats) (boundary_setup r)

  unfoldable pub launch_rmq_pub : Exec (Object W) (Unit {0})
  unfolding rmq_pub_args
  launch_rmq_pub = do
    m ← master
    msg_rate ← gets (λ r. r.arg)
    on_hydra (
        create_hydra_app b m.zstpub "hydra.rmqtest.rmq_pub.run"
          (rmq_pub_args m.options.test_duration m.options.msg_batch msg_rate) 1 32 1
          (app_constraints "hostname" "UNIQUE" none ∷ in_cluster m.mesos_cluster 0) m.app_uri)
    find_pub b fuel

  unfoldable pub scale_sub_app : Exec (Object W) (Option (Unit {0}))
  scale_sub_app = do
    m ← master
    on_hydra (scale_app b fuel m.zstsub m.options.total_sub_apps 300 500)

  -- Divides `total_sub_apps` of the options by the size of a group, at each launch.
  unfoldable pub divide_apps : ℕ → Exec (Object W) (Unit {0})
  divide_apps apps_in_group r =
      let o = r.world.options in
      if apps_in_group == 0 then (err zero_division, r) else (
        ok tt,
        record r {
          world = record r.world {
            options = record o { total_sub_apps = o.total_sub_apps / apps_in_group };
          };
        },
      )

  unfoldable pub launch_rmq_sub : ℕ → Exec (Object W) (Option (Unit {0}))
  unfolding scale_sub_app divide_apps
  launch_rmq_sub apps_in_group = do
    divide_apps apps_in_group
    m ← master
    ip ← λ r. (elim m.pub_ip [ none ↦ err attribute_error | some ip ↦ ok ip ], r)
    on_hydra (
        create_hydra_app b m.zstsub "hydra.rmqtest.rmq_sub.run10" ip 1 32 10
          (in_cluster m.mesos_cluster 1) m.app_uri)
    scale_sub_app

  -- `run_test`
  unfoldable pub run_test : ℕ → Exec (Object W) (Option Report)
  unfolding launch_rmq_pub launch_rmq_sub rerun_test
  run_test apps_in_group = do
    delete_all_launched_apps b fuel
        >>? (do launch_rmq_pub; launch_rmq_sub apps_in_group >>? rerun_test)
