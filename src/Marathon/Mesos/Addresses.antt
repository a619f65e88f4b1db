-- ===== src/Marathon/Mesos/Addresses.antt =====
-- The addresses that `MesosIF` gives for the slaves that the master tells.
use Prim.Native.Char.{Char, code}
use Prim.Native.String.{◌++◌ as ◌+++◌}
use Prim.Native.String.append.{nil, cons}
use m_scale.Common.{
  ℕ, ◌≡◌, refl, arith, false, true, none, some, String, List, [], ◌∷◌, ◌++◌, ok, map, contains,
  length, string_eq, nat_beq,
}
use m_scale.Dict.{lookup, lookup-insert, lookup_inserted}
use m_scale.Marathon.Mesos.{
  Slave, Rest, MesosIf, keep_slaves, keep_slave, with_slaves, before, after, get_ip_from_pid,
  get_id, get_hn, get_slave_ip_from_id, get_slave_ip_from_hn, fetch, update_slaves,
}

before-found :
    (n : ℕ) (s : String) (c : Char) (t : String)
    → after n s ≡ none
    → nat_beq (code c) n ≡ true
    → before n (s +++ String.◌∷◌ c t) ≡ s
unfolding before after
before-found n String.[] c t h k = rw (nil (String.◌∷◌ c t)) (ground (arith, k))
before-found n (String.◌∷◌ d s) c t h k =
    rw (cons d s (String.◌∷◌ c t)) (ground (arith, before-found n s c t))

after-found :
    (n : ℕ) (s : String) (c : Char) (t : String)
    → after n s ≡ none
    → nat_beq (code c) n ≡ true
    → after n (s +++ String.◌∷◌ c t) ≡ some t
unfolding after
after-found n String.[] c t h k = rw (nil (String.◌∷◌ c t)) (ground (arith, k))
after-found n (String.◌∷◌ d s) c t h k =
    rw (cons d s (String.◌∷◌ c t)) (ground (arith, after-found n s c t))

before-missing : (n : ℕ) (s t : String) → after n s ≡ none → before n (s +++ t) ≡ (s +++ before n t)
unfolding before after
before-missing n String.[] t h = rw (nil t, nil (before n t)) refl
before-missing n (String.◌∷◌ d s) t h =
    rw (cons d s t, cons d s (before n t)) (ground (arith, before-missing n s t))

get_ip_from_pid_lem :
    (name ip port : String)
    → after 64 name ≡ none
    → after 64 ip ≡ none
    → after 58 ip ≡ none
    → get_ip_from_pid (name +++ String.◌∷◌ "@" (ip +++ String.◌∷◌ ":" port)) ≡ ok ip
unfolding get_ip_from_pid before
get_ip_from_pid_lem name ip port a b c = ground (
  arith,
  after-found 64 name "@" (ip +++ String.◌∷◌ ":" port) a refl,
  before-missing 64 ip (String.◌∷◌ ":" port) b,
  before-found 58 ip ":" (before 64 port) c refl,
)

keep_slaves-no_host :
    (itms : List Slave) (m : MesosIf) (k : String)
    → contains (map (λ s. s.hostname) itms) k ≡ false
    → lookup (keep_slaves itms m).slaves_hn k ≡ lookup m.slaves_hn k
unfolding keep_slaves
keep_slaves-no_host [] m k h = refl
keep_slaves-no_host (itm ∷ itms) m k h = ground (
  arith,
  keep_slaves-no_host itms (keep_slave itm m) k,
  lookup-insert m.slaves_hn itm.hostname k itm,
)

keep_slaves-no_id :
    (itms : List Slave) (m : MesosIf) (k : String)
    → contains (map (λ s. s.id) itms) k ≡ false
    → lookup (keep_slaves itms m).slaves_id k ≡ lookup m.slaves_id k
unfolding keep_slaves
keep_slaves-no_id [] m k h = refl
keep_slaves-no_id (itm ∷ itms) m k h =
    ground
      (arith, keep_slaves-no_id itms (keep_slave itm m) k, lookup-insert m.slaves_id itm.id k itm)

-- The last slave of a name and of an id is the one that the dicts keep.
keep_slaves-host :
    (pre post : List Slave) (itm : Slave) (m : MesosIf)
    → contains (map (λ s. s.hostname) post) itm.hostname ≡ false
    → lookup (keep_slaves (pre ++ itm ∷ post) m).slaves_hn itm.hostname ≡ some itm
unfolding keep_slaves
keep_slaves-host [] post itm m h = ground (
  arith,
  keep_slaves-no_host post (keep_slave itm m) itm.hostname,
  lookup_inserted m.slaves_hn itm.hostname itm,
)
keep_slaves-host (p ∷ pre) post itm m h = keep_slaves-host pre post itm (keep_slave p m) h

keep_slaves-id :
    (pre post : List Slave) (itm : Slave) (m : MesosIf)
    → contains (map (λ s. s.id) post) itm.id ≡ false
    → lookup (keep_slaves (pre ++ itm ∷ post) m).slaves_id itm.id ≡ some itm
unfolding keep_slaves
keep_slaves-id [] post itm m h = ground (
  arith,
  keep_slaves-no_id post (keep_slave itm m) itm.id,
  lookup_inserted m.slaves_id itm.id itm,
)
keep_slaves-id (p ∷ pre) post itm m h = keep_slaves-id pre post itm (keep_slave p m) h

module _ {W Json : Type 0} (rest : Rest W Json) where
  -- Where the master answers with a list of slaves, `update_slaves` returns, and the address in the
  -- pid `name@ip:port` of a slave is then found by its host name and by its id, where no later slave
  -- of the list has these. Neither the name nor the address have an `@` in them, nor the address a `:`.
  pub update_slaves-address :
      (m : MesosIf) (w w' : W) (content : String) (dt : Json) (pre post : List Slave) (itm : Slave)
      (name ip port : String)
      → rest.get (m.myaddr +++ "/master/slaves") w ≡ (ok (200, content), w')
      → rest.loads content ≡ ok dt
      → rest.slaves dt ≡ ok (pre ++ itm ∷ post)
      → contains (map (λ s. s.hostname) post) itm.hostname ≡ false
      → contains (map (λ s. s.id) post) itm.id ≡ false
      → itm.pid ≡ (name +++ String.◌∷◌ "@" (ip +++ String.◌∷◌ ":" port))
      → after 64 name ≡ none
      → after 64 ip ≡ none
      → after 58 ip ≡ none
      → (m' : MesosIf) × (update_slaves rest (m, w) ≡ (ok tt, (m', w')))
        × (get_slave_ip_from_hn m' itm.hostname ≡ ok ip)
        × (get_slave_ip_from_id m' itm.id ≡ ok ip)
  unfolding update_slaves with_slaves get_slave_ip_from_hn get_slave_ip_from_id get_hn get_id fetch
  update_slaves-address m w w' content dt pre post itm name ip port got loaded slaves host id pid a
        b c =
      let fresh : MesosIf = record m {
        no_of_slaves = length (pre ++ itm ∷ post);
        slaves_id = [];
        slaves_hn = [];
      } in
      let found = get_ip_from_pid_lem name ip port a b c in
      (
        with_slaves (pre ++ itm ∷ post) m,
        ground (arith, got, loaded, slaves),
        ground (arith, keep_slaves-host pre post itm fresh host, pid, found),
        ground (arith, keep_slaves-id pre post itm fresh id, pid, found),
      )
