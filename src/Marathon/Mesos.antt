-- ===== src/Marathon/Mesos.antt =====
-- `MesosIF` of src/main/python/hydra/lib/mmapi.py: the slaves of the cluster and their addresses. The
-- requests and json are a `Rest` with a state `W`.
pub mod Addresses
use Prim.Native.Char.{code}
use Prim.Native.String.{◌++◌ as ◌+++◌}
use m_scale.Common.{
  ℕ, zero, suc, Bool, true, false, Option, none, some, String, List, [], ◌∷◌, ok, err, Exec, Result,
  raise, pure, check, nat_beq, if◌then◌else◌, length, string_eq, ◌==◌, key_error, index_error,
  ◌>>=◌, ◌>>◌, raised,
}
use m_scale.Dict.{Dict, lookup, insert}
use m_scale.Hydra.Apps.{str_of_ℕ}

-- What the code reads of a slave.
pub record Slave : Type 0 where
  pub id : String
  pub hostname : String
  pub pid : String
  pub attributes : Dict String String

-- `requests.get(url)`: the status and the content, or an exception; what `json.loads` makes of the
-- content.
pub record Rest (W Json : Type 0) : Type 0 where
  pub get : String → Exec W (ℕ × String)
  pub loads : String → Result Json
  -- `dt['slaves']`
  pub slaves : Json → Result (List Slave)

pub record MesosIf : Type 0 where
  pub myaddr : String
  pub no_of_slaves : ℕ
  pub slaves_id : Dict String Slave
  pub slaves_hn : Dict String Slave

-- One round of the loop of `update_slaves`.
abbrev pub keep_slave : Slave → MesosIf → MesosIf
keep_slave itm m = record m {
  slaves_hn = insert m.slaves_hn itm.hostname itm;
  slaves_id = insert m.slaves_id itm.id itm;
}

unfoldable pub keep_slaves : List Slave → MesosIf → MesosIf
keep_slaves [] m = m
keep_slaves (itm ∷ itms) m = keep_slaves itms (keep_slave itm m)

-- What `update_slaves` keeps of the slaves that the master tells.
unfoldable pub with_slaves : List Slave → MesosIf → MesosIf
unfolding keep_slaves
with_slaves itms m =
    keep_slaves itms (record m { no_of_slaves = length itms; slaves_id = []; slaves_hn = [] })

-- `s.split(c)[0]`
unfoldable pub before : ℕ → String → String
before n String.[] = ""
before n (String.◌∷◌ c s) = if nat_beq (code c) n then "" else String.◌∷◌ c (before n s)

-- What follows the first `c`, where there is one.
unfoldable pub after : ℕ → String → Option String
after n String.[] = none
after n (String.◌∷◌ c s) = if nat_beq (code c) n then some s else after n s

-- `get_ip_from_pid`: `pid.split('@')[1].split(':')[0]`
unfoldable pub get_ip_from_pid : String → Result String
unfolding before after
get_ip_from_pid pid = elim (after 64 pid) [
  | none ↦ err index_error
  | some s ↦ ok (before 58 (before 64 s))
]

-- `get_id` and `get_hn`
unfoldable pub get_id : MesosIf → String → Result Slave
get_id m id = elim (lookup m.slaves_id id) [ none ↦ err key_error | some itm ↦ ok itm ]

unfoldable pub get_hn : MesosIf → String → Result Slave
get_hn m hn = elim (lookup m.slaves_hn hn) [ none ↦ err key_error | some itm ↦ ok itm ]

unfoldable pub get_slave_ip_from_id : MesosIf → String → Result String
unfolding get_id get_ip_from_pid
get_slave_ip_from_id m slave_id = elim (get_id m slave_id) [
  | err e ↦ err e
  | ok itm ↦ get_ip_from_pid itm.pid
]

unfoldable pub get_slave_ip_from_hn : MesosIf → String → Result String
unfolding get_hn get_ip_from_pid
get_slave_ip_from_hn m slave_hn = elim (get_hn m slave_hn) [
  | err e ↦ err e
  | ok itm ↦ get_ip_from_pid itm.pid
]

-- The loop of `get_slave_ips_from_attribute`: a slave without the attribute raises KeyError.
unfoldable pub hosts_with : Dict String Slave → String → String → Result (List String)
hosts_with [] attr_type attr_value = ok []
hosts_with ((host_ip, info) ∷ d) attr_type attr_value =
    let rest = hosts_with d attr_type attr_value in
    elim (lookup info.attributes attr_type) [
      | none ↦ err key_error
      | some v ↦ elim rest [
        | err e ↦ err e
        | ok ret ↦ ok (if v == attr_value then host_ip ∷ ret else ret)
      ]
    ]

unfoldable pub get_slave_ips_from_attribute : MesosIf → String → String → Result (List String)
unfolding hosts_with
get_slave_ips_from_attribute m attr_type attr_value = hosts_with m.slaves_hn attr_type attr_value

abbrev pub get_slave_cnt : MesosIf → ℕ
get_slave_cnt m = m.no_of_slaves

module _ {W Json : Type 0} (rest : Rest W Json) where
  -- `json.loads(r.content.decode("utf-8"))`
  abbrev pub loaded : String → Exec W Json
  loaded content w = (rest.loads content, w)

  abbrev pub on_rest : {A : Type 0} → Exec W A → Exec (MesosIf × W) A
  on_rest m (o, w) = let (r, w') = m w in (r, (o, w'))

  -- The answer with status 200, parsed.
  unfoldable pub fetch : String → Exec W Json
  fetch url = do r ← rest.get url; check (nat_beq r.0 200); loaded r.1

  unfoldable pub update_slaves : Exec (MesosIf × W) (Unit {0})
  unfolding fetch with_slaves
  update_slaves (m, w) =
      let (r, w') = fetch (m.myaddr +++ "/master/slaves") w in
      elim r [
        | err e ↦ (err e, (m, w'))
        | ok dt ↦ elim (rest.slaves dt) [
          | err e ↦ (err e, (m, w'))
          | ok itms ↦ (ok tt, (with_slaves itms m, w'))
        ]
      ]

  -- `MesosIF.__init__`
  unfoldable pub start : String → Exec W MesosIf
  unfolding update_slaves
  start addr w =
      let empty : MesosIf = record {
        myaddr = addr;
        no_of_slaves = 0;
        slaves_id = [];
        slaves_hn = [];
      } in
      let (r, (m, w')) = update_slaves (empty, w) in
      elim r [ err e ↦ (err e, w') | ok u ↦ (ok m, w') ]

  unfoldable pub get_health : MesosIf → Exec W Bool
  get_health m = do r ← rest.get (m.myaddr +++ "/master/state"); pure (nat_beq r.0 200)

  -- `get_slave_stats`; the port is 5051 unless it is given.
  unfoldable pub get_slave_stats : String → ℕ → Exec W Json
  unfolding fetch
  get_slave_stats ip port =
      fetch ("http://" +++ ip +++ ":" +++ str_of_ℕ (suc port) port +++ "/monitor/statistics.json")

  unfoldable pub get_version : MesosIf → Exec W Json
  get_version m = do
    r ← rest.get (m.myaddr +++ "/version")
    if nat_beq r.0 200
        then loaded r.1
        else raise (
            raised (
              "Unable to read version information from Mesos StatusCode:"
              +++ str_of_ℕ (suc r.0) r.0))

  unfoldable pub get_stats : MesosIf → Exec W (Option Json)
  get_stats m = do
    r ← rest.get (m.myaddr +++ "/system/stats.json")
    if nat_beq r.0 200 then (do dt ← loaded r.1; pure (some dt)) else pure none
