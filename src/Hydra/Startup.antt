-- ===== src/Hydra/Startup.antt =====
-- `HydraBase.__init__` of hydrabase.py: what it takes from the configuration, and the object at first.
use Prim.Native.String.{◌++◌ as ◌+++◌}
use m_scale.Common.{ℕ, zero, suc, Option, none, some, String, List, [], nat_eq}
use m_scale.Dict.{Dict, insert}
use m_scale.Hydra.{Hydra}
use m_scale.Hydra.Apps.{str_of_ℕ}
use m_scale.Marathon.Mesos.{before, after}

-- The configuration file; `cluster` is an option of its section `mesos`. `my_ip` is the address of the
-- device that it names.
pub record Settings : Type 0 where
  pub port : ℕ
  pub my_ip : String
  pub mesos_ip : String
  pub mesos_port : String
  pub marathon_ip : String
  pub marathon_port : String
  pub app_prefix : String
  pub mesos_option : String → Option String

-- `{'cat': dt[0], 'match': '.'.join(dt[1:])}` where `dt` is the option split at its dots.
unfoldable pub cluster_of : String → String × String
unfolding before after
cluster_of dt = (before 46 dt, elim (after 46 dt) [ none ↦ "" | some rest ↦ rest ])

-- The loop over the clusters, for `n` of them from `idx` on.
unfoldable pub clusters_from :
    ℕ → ℕ → Settings → Dict ℕ (String × String) → Dict ℕ (String × String)
unfolding cluster_of str_of_ℕ
clusters_from zero idx config found = found
clusters_from (suc n) idx config found =
    elim (config.mesos_option ("cluster" +++ str_of_ℕ (suc idx) idx)) [
      | none ↦ clusters_from n (suc idx) config found
      | some dt ↦ clusters_from n (suc idx) config (insert found idx (cluster_of dt))
    ]

-- `self.mesos_cluster`
unfoldable pub mesos_cluster : Settings → Dict ℕ (String × String)
unfolding clusters_from
mesos_cluster config = clusters_from 10 0 config []

-- `self.myaddr`, which `get_appserver_addr` returns
unfoldable pub get_appserver_addr : Settings → String
unfolding str_of_ℕ
get_appserver_addr config =
    "http://" +++ config.my_ip +++ ":" +++ str_of_ℕ (suc config.port) config.port

unfoldable pub get_app_uri : Settings → String → String
unfolding get_appserver_addr
get_app_uri config test_name = get_appserver_addr config +++ "/" +++ test_name +++ ".tgz"

-- `self.mesos_addr` and `self.marathon_addr`
unfoldable pub mesos_addr : Settings → String
mesos_addr config = "http://" +++ config.mesos_ip +++ ":" +++ config.mesos_port

unfoldable pub marathon_addr : Settings → String
marathon_addr config = "http://" +++ config.marathon_ip +++ ":" +++ config.marathon_port

unfoldable pub format_appname : Settings → String → String
format_appname config name = config.app_prefix +++ name

-- The object without any app, with the ids that `add_appid` put in.
unfoldable pub new_hydra : {W : Type 0} → List String → W → Hydra W
new_hydra ids w = record {
  apps = [];
  app_group = [];
  all_task_ids = [];
  app_id_list = ids;
  world = w;
}
