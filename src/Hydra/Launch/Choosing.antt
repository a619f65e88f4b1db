-- ===== src/Hydra/Launch/Choosing.antt =====
-- What `random_select_instances` returns.
use m_scale.Common.{
  ℕ, zero, suc, ◌<◌, ◌≡◌, refl, arith, true, some, String, List, [], ◌∷◌, ok, string_eq, length,
  All, contains,
}
use m_scale.Dict.{Dict, lookup, has_key, keys, contains-keys}
use m_scale.Hydra.{Endpoint, AppInfo, known, Hydra, Backend}
use m_scale.Hydra.Apps.{get_app_ipport_map}
use m_scale.Hydra.Groups.Picking.{get_elem?-below, get_elem?-contains}
use m_scale.Hydra.Launch.{select, random_select_instances}

pub length-keys : (m : Dict String Endpoint) → length (keys m) ≡ length m
length-keys [] = refl
length-keys ((k, e) ∷ m) = ground (arith, length-keys m)

of_keys :
    (m : Dict String Endpoint) (ts : List String)
    → All (λ t. contains (keys m) t ≡ true) ts
    → All (λ t. has_key m t ≡ true) ts
of_keys m [] h = tt
of_keys m (t ∷ ts) h = (ground (arith, h.0, contains-keys m t), of_keys m ts h.1)

module _ {W : Type 0} (b : Backend W) (range : (n : ℕ) (w : W) → 0 < n → (b.choice n w).0 < n) where
  select_lem :
      (cnt : ℕ) (ids : List String) (w : W)
      → 0 < length ids
      → (cset : List String) × (w' : W) × (select b cnt ids w ≡ (ok cset, w'))
        × (length cset ≡ cnt)
        × All (λ t. contains ids t ≡ true) cset
  unfolding select
  select_lem zero ids w l = ([], w, refl, refl, tt)
  select_lem (suc cnt) ids w l =
      let (i, w1) = b.choice (length ids) w in
      let (t, e) = get_elem?-below ids i (range (length ids) w l) in
      let (cset, w', r, n, a) = select_lem cnt ids w1 l in
      (t ∷ cset, w', ground (arith, e, r), ground (arith, n), (get_elem?-contains ids i t e, a))

  -- `random_select_instances` of fewer tasks than the app has: it returns that many tasks of the
  -- app, whatever `random` chooses.
  pub random_select_instances-length :
      (name : String) (cnt : ℕ) (h : Hydra W) (info : AppInfo)
      → has_key h.apps name ≡ true
      → lookup h.apps name ≡ some (known info)
      → cnt < length info.ip_port_map
      → (cset : List String) × (h' : Hydra W) × (random_select_instances b name cnt h
          ≡ (ok cset, h'))
        × (length cset ≡ cnt)
        × All (λ t. has_key info.ip_port_map t ≡ true) cset
  unfolding random_select_instances get_app_ipport_map
  random_select_instances-length name cnt h info there e l =
      let (cset, w', r, n, a) =
        select_lem cnt (keys info.ip_port_map) h.world
          (ground (arith, length-keys info.ip_port_map)) in
      (
        cset,
        record h { world = w' },
        ground (arith, there, e, r),
        n,
        of_keys info.ip_port_map cset a,
      )
