-- ===== src/Kafka.antt =====
-- `RunTestKAFKA` of src/main/python/hydra/kafkatest/runtest.py, on the object of Zmq.RunTest:
-- `kafkapub` and `kafkasub` are its `zstpub` and `zstsub`. Its result is computed as that of the
-- RabbitMQ test.
use Prim.Native.String.{◌++◌ as ◌+++◌}
use m_scale.Common.{
  ℕ, suc, Option, none, some, String, ◌∷◌, Exec, ok, err, gets, ◌>>=◌, ◌>>◌, attribute_error,
  string_eq, Bool, List, Result,
}
use m_scale.Dict.{values}
use m_scale.Hydra.{Backend, on_world, pub_config, Stats}
use m_scale.Hydra.Apps.{str_of_ℕ, get_app_stats}
use m_scale.Hydra.Launch.{create_hydra_app}
use m_scale.Hydra.Readings.{reset_all_app_stats, fetch_app_stats}
use m_scale.Runner.{boundary_setup}
use m_scale.Zmq.Report.{Report, Fraction, boundary_resultfn}
use m_scale.Zmq.RunTest.{
  Object, app_constraints, in_cluster, on_hydra, ◌>>?◌, master, find_pub, scale_sub_app,
  delete_all_launched_apps,
}
use m_scale.Zmq.Rerun.{ha_pub, only_stats}
use m_scale.Rmq.{rmq_result_parser}

-- The options that only this test has.
pub record KafkaOptions : Type 0 where
  pub acks : ℕ
  pub linger_ms : ℕ
  pub consumer_max_buffer_size : ℕ

abbrev pub str : ℕ → String
str n = str_of_ℕ (suc n) n

-- `get_topic_name`
unfoldable pub get_topic_name : ℕ → ℕ → ℕ → String
get_topic_name total_sub_apps msg_rate msg_batch =
    "topic_" +++ str total_sub_apps +++ "_" +++ str msg_rate +++ "_" +++ str msg_batch

-- `'%s %s %s %s %s %s' % …`
unfoldable pub kafka_pub_args : ℕ → ℕ → ℕ → String → KafkaOptions → String
kafka_pub_args a b c topic_name o =
    str a
    +++ " "
    +++ str b
    +++ " "
    +++ str c
    +++ " "
    +++ topic_name
    +++ " "
    +++ str o.acks
    +++ " "
    +++ str o.linger_ms

-- `result_parser`: the same text as that of the RabbitMQ test.
unfoldable pub kafka_result_parser : Stats → List Stats → Result Report
unfolding rmq_result_parser
kafka_result_parser = rmq_result_parser

-- `boundary_resultfn`, as that of the ZeroMQ test.
unfoldable pub kafka_boundary_resultfn : ℕ → Report → Bool × ℕ × Fraction
unfolding boundary_resultfn
kafka_boundary_resultfn = boundary_resultfn

module _ {W : Type 0} (b : Backend W) (fuel : ℕ) where
  unfoldable pub kafka_send_messages : Exec (Object W) (Option (Unit {0}))
  kafka_send_messages = do
    m ← master
    rate ← gets (λ r. r.arg)
    a ← ha_pub m
    on_hydra (
        on_world
          (b.update_config a.0 a.1 (pub_config m.options.test_duration m.options.msg_batch rate)))
    on_hydra (reset_all_app_stats b m.zstsub "")
    on_hydra (on_world (b.start_test a.0 a.1))
    on_hydra (on_world (b.wait_for_testend a.0 a.1))
    on_hydra (fetch_app_stats b fuel m.zstpub "")

  unfoldable pub kafka_parse_stats : Exec (Object W) (Option Report)
  unfolding kafka_result_parser
  kafka_parse_stats = do
    m ← master
    pubs ← on_hydra (get_app_stats m.zstpub)
    p ← only_stats (values pubs)
    on_hydra (fetch_app_stats b fuel m.zstsub "") >>? (do
      subs ← on_hydra (get_app_stats m.zstsub)
      λ r. elim (kafka_result_parser p (values subs)) [
        | err e ↦ (err e, r)
        | ok res ↦ (ok (some res), r)
      ])

  -- `rerun_test`
  unfoldable pub kafka_rerun_test : Exec (Object W) (Option Report)
  unfolding kafka_send_messages kafka_parse_stats
  kafka_rerun_test r = (kafka_send_messages >>? kafka_parse_stats) (boundary_setup r)

  unfoldable pub launch_kafka_pub : KafkaOptions → String → Exec (Object W) (Unit {0})
  unfolding kafka_pub_args
  launch_kafka_pub o topic_name = do
    m ← master
    msg_rate ← gets (λ r. r.arg)
    on_hydra (
        create_hydra_app b m.zstpub "hydra.kafkatest.kafka_pub.run"
          (kafka_pub_args m.options.test_duration m.options.msg_batch msg_rate topic_name o) 1 32 1
          (app_constraints "hostname" "UNIQUE" none ∷ in_cluster m.mesos_cluster 0) m.app_uri)
    find_pub b fuel

  unfoldable pub launch_kafka_sub : KafkaOptions → String → Exec (Object W) (Option (Unit {0}))
  launch_kafka_sub o topic_name = do
    m ← master
    ip ← λ r. (elim m.pub_ip [ none ↦ err attribute_error | some ip ↦ ok ip ], r)
    on_hydra (
        create_hydra_app b m.zstsub "hydra.kafkatest.kafka_sub.run10"
          (topic_name +++ " " +++ ip +++ " " +++ str o.consumer_max_buffer_size) 1 32 10
          (in_cluster m.mesos_cluster 1) m.app_uri)
    scale_sub_app b fuel

  -- `run_test`
  unfoldable pub kafka_run_test : KafkaOptions → Exec (Object W) (Option Report)
  unfolding get_topic_name launch_kafka_pub launch_kafka_sub kafka_rerun_test
  kafka_run_test o = delete_all_launched_apps b fuel >>? (do
    m ← master
    msg_rate ← gets (λ r. r.arg)
    let topic_name = get_topic_name m.options.total_sub_apps msg_rate m.options.msg_batch
    launch_kafka_pub o topic_name
    launch_kafka_sub o topic_name >>? kafka_rerun_test)
