-- ===== src/Zmq/Rerun.antt =====
-- `rerun_test` and `run_test` of `RunTestZMQ` in zmqtest/runtest.py.
pub mod Forgetting
pub mod Sticking
use m_scale.Common.{
  ℕ, zero, suc, ◌+◌, ◌*◌, ◌/◌, Bool, true, false, not, ◌&&◌, ◌||◌, Option, none, some, String, List,
  [], ◌∷◌, Exec, Result, ok, err, Error, pure, raise, check, gets, ◌>>=◌, ◌>>◌, nat_eq, string_eq,
  ◌==◌, contains, length, if◌then◌else◌, attribute_error, get_elem?, index_error,
}
use m_scale.Dict.{Dict, lookup, keys, values}
use m_scale.Hydra.{Stats, pub_config, sub_config, Endpoint, Hydra, Backend, on_world}
use m_scale.Hydra.Apps.{
  get_app_ipport_map, get_app_stats, get_app_property, set_app_property, get_app_instcnt,
}
use m_scale.Hydra.Readings.{reset_all_app_stats, fetch_app_stats}
use m_scale.Hydra.Launch.{random_select_instances}
use m_scale.Runner.{Runner, Test, boundary_setup}
use m_scale.Zmq.Report.{Report, result_parser}
use m_scale.Zmq.RunTest.{
  Options, Master, Object, set_of, rate_if, on_hydra, ◌>>?◌, master, delete_all_launched_apps,
  launch_zmq_pub, launch_zmq_sub,
}

-- Whether there are not just so many clients set.
abbrev pub is_off : Option (List String) → ℕ → Bool
is_off none n = true
is_off (some clients) n = not (length clients == n) || (length clients == 0)

module _ {W : Type 0} where
  -- `self.ha_pub`, where it is set.
  abbrev pub ha_pub : Master W → Exec (Object W) (Endpoint × String)
  ha_pub m r = elim m.ha_pub [ none ↦ (err attribute_error, r) | some a ↦ (ok a, r) ]

  -- `self.apps[self.zstpub]['stats'].values()[0]`, with the assertion before.
  abbrev pub only_stats : List Stats → Exec (Object W) Stats
  only_stats (p ∷ []) = pure p
  only_stats _ = check false >> raise index_error

module _ {W : Type 0} (b : Backend W) where
  -- Chooses so many clients and keeps them as a property, unless there are as many, or none to
  -- choose. It returns whether it did.
  unfoldable pub choose_clients : String → String → ℕ → Exec (Hydra W) Bool
  unfolding set_of
  choose_clients app property num = do
    clients ← (if num == 0 then pure none else get_app_property app property)
    if not (num == 0) && is_off clients num
        then (do
          chosen ← random_select_instances b app num
          set_app_property app property (set_of chosen)
          pure true)
        else pure false

  -- The loop that sends the rates to the subscribers.
  unfoldable pub send_rates :
      Options
      → Option (List String)
      → Option (List String)
      → Dict String Endpoint
      → Exec W (Unit {0})
  send_rates options slow_set rec_set [] = pure tt
  send_rates options slow_set rec_set ((key, e) ∷ ipm) = do
    b.update_config e key (
        sub_config (rate_if slow_set key options.slow_clients_rate)
          (rate_if rec_set key options.rec_clients_rate))
    send_rates options slow_set rec_set ipm

  unfoldable pub update_subs : String → Options → Exec (Hydra W) (Unit {0})
  unfolding send_rates
  update_subs app options = do
    ipm ← get_app_ipport_map app
    slow_set ← get_app_property app "slow_clients"
    rec_set ← get_app_property app "reconnecting_clients"
    on_world (send_rates options slow_set rec_set ipm)

  -- The choice of the slow and of the reconnecting subscribers.
  unfoldable pub configure_subs : String → Options → Exec (Hydra W) (Unit {0})
  unfolding choose_clients update_subs
  configure_subs app options = do
    acnt ← get_app_instcnt app
    slow ← choose_clients app "slow_clients" (acnt * options.slow_clients_percent / 100)
    rec ← choose_clients app "reconnecting_clients" (acnt * options.rec_clients_percent / 100)
    if slow || rec then update_subs app options else pure tt

  module _ (fuel : ℕ) where
    -- From the statistics that were fetched to the result.
    unfoldable pub parse_stats : Exec (Object W) (Option Report)
    unfolding result_parser
    parse_stats = do
      m ← master
      pubs ← on_hydra (get_app_stats m.zstpub)
      p ← only_stats (values pubs)
      on_hydra (fetch_app_stats b fuel m.zstsub "") >>? (do
        subs ← on_hydra (get_app_stats m.zstsub)
        slow_clients ← on_hydra (get_app_property m.zstsub "slow_clients")
        rec_clients ← on_hydra (get_app_property m.zstsub "reconnecting_clients")
        λ r. elim (result_parser slow_clients rec_clients p (values subs)) [
          | err e ↦ (err e, r)
          | ok res ↦ (ok (some res), r)
        ])

    -- Up to the statistics of the publisher.
    unfoldable pub send_messages : Exec (Object W) (Option (Unit {0}))
    unfolding configure_subs
    send_messages = do
      m ← master
      rate ← gets (λ r. r.arg)
      a ← ha_pub m
      on_hydra (
          on_world
            (b.update_config a.0 a.1 (pub_config m.options.test_duration m.options.msg_batch rate)))
      on_hydra (reset_all_app_stats b m.zstsub "")
      on_hydra (configure_subs m.zstsub m.options)
      on_hydra (on_world (b.start_test a.0 a.1))
      on_hydra (on_world (b.wait_for_testend a.0 a.1))
      on_hydra (fetch_app_stats b fuel m.zstpub "")

    unfoldable pub measure : Exec (Object W) (Option Report)
    unfolding send_messages parse_stats
    measure = send_messages >>? parse_stats

    -- `rerun_test`: the options are the object's own.
    unfoldable pub rerun_test : Exec (Object W) (Option Report)
    unfolding measure
    rerun_test r = measure (boundary_setup r)

    -- `run_test`: the object never has a `sub_app_ip_rep_port_map`.
    unfoldable pub run_test : Exec (Object W) (Option Report)
    unfolding rerun_test
    run_test = do
      delete_all_launched_apps b fuel
          >>? (do launch_zmq_pub b fuel; launch_zmq_sub b fuel >>? rerun_test)

    -- The methods that the boundary tests call.
    unfoldable pub zmq_test : Test (Option Report) (Master W)
    unfolding run_test rerun_test
    zmq_test = record {
      run_test = run_test;
      rerun_test = rerun_test;
      delete_all_launched_apps = delete_all_launched_apps b fuel >> pure tt;
    }
