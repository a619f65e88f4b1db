-- ===== src/Mock/Startup.antt =====
-- What mock_backend.py sets up: its ports, and `MockMesosIF`, which knows one host.
use m_scale.Common.{
  ℕ, zero, suc, ◌+◌, Option, String, List, [], ◌∷◌, Result, ok, err, key_error, string_eq, none,
  some,
}
use m_scale.Dict.{Dict, lookup, insert}
use m_scale.Hydra.Apps.{str_of_ℕ}
use m_scale.Mock.{Mock, MockApp}

-- The loop of `generate_env_ports`: `randrange n` is a number below `n`. Nothing keeps a port from being
-- drawn again.
unfoldable pub draw_ports : {W : Type 0} → (ℕ → W → ℕ × W) → ℕ → W → List String × W
unfolding str_of_ℕ
draw_ports randrange zero w = ([], w)
draw_ports randrange (suc n) w =
    let (k, w1) = randrange 10000 w in
    let (ports, w2) = draw_ports randrange n w1 in (str_of_ℕ (10001 + k) (10000 + k) ∷ ports, w2)

-- `MockMarathonIF.__init__`
unfoldable pub new_mock : {W : Type 0} → (ℕ → W → ℕ × W) → W → Mock W
unfolding draw_ports
new_mock randrange w =
    let (ports, w') = draw_ports randrange 100 w in
    record { env_ports = ports; port_index = 0; list_apps = []; app_attr = []; world = w' }

module _ {W : Type 0} (m : Mock W) where
  unfoldable pub get_apps : Dict String MockApp
  get_apps = m.list_apps

  unfoldable pub get_app : String → Option MockApp
  get_app app_id = lookup m.list_apps app_id

-- `MockMesosIF`
pub record MockMesos : Type 0 where
  pub total_slaves : ℕ
  pub slaves_hostname_info : Dict String String

unfoldable pub new_mock_mesos : MockMesos
new_mock_mesos = record {
  total_slaves = 1;
  slaves_hostname_info = insert [] "localhost" "127.0.0.1";
}

unfoldable pub get_slave_ip_from_hn : MockMesos → String → Result String
get_slave_ip_from_hn m slave_hn = elim (lookup m.slaves_hostname_info slave_hn) [
  | none ↦ err key_error
  | some ip ↦ ok ip
]
