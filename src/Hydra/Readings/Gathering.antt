-- ===== src/Hydra/Readings/Gathering.antt =====
-- What `fetch_app_stats` collects, while the tasks may still be counting.
use Prim.Native.String.{◌++◌ as ◌+++◌}
use m_scale.Common.{
  ℕ, suc, ◌+◌, ◌≤◌, ◌<◌, ◌≡◌, ◌∙◌, refl, sym, subst, ap, arith, true, none, some, String, List, [],
  ◌∷◌, length, ok, string_eq, All, IsDistinct,
}
use m_scale.Dict.{Dict, lookup, insert, keys, has_key, lookup_inserted, lookup_of_key}
use m_scale.Dict.Entries.{insert_all, insert_all-nil}
use m_scale.Hydra.{Endpoint, AppInfo, known, Stats, Hydra, Backend}
use m_scale.Hydra.Apps.{str_of_ℕ}
use m_scale.Hydra.Apps.Refresh.{insert_again, insert_same}
use m_scale.Hydra.Pings.{tasks_to_ping, get_endpoint}
use m_scale.Hydra.Readings.{stats_key, store_stats, fetch_each, fetch_app_stats}
use m_scale.Hydra.Readings.Settling.{Settled, IsCounting, read_stats_lem}

-- The text `ip:port`
unfoldable pub address : Endpoint → String
unfolding str_of_ℕ
address e = e.ip +++ ":" +++ str_of_ℕ (suc e.port) e.port

unfoldable pub addresses : Dict String Endpoint → List String → List String
unfolding address
addresses m [] = []
addresses m (t ∷ tasks) = elim (lookup m t) [
  | none ↦ addresses m tasks
  | some e ↦ address e ∷ addresses m tasks
]

module _ {W : Type 0} (b : Backend W) where
  -- One task after the other is read until it settles, and gives an entry under its address, with its
  -- id.
  pub data Gathered (m : Dict String Endpoint)
      : List String → W → List (String × Stats) → W → Type 0 where
    all_read : (w : W) → Gathered m [] w [] w
    task_read :
        (t : String) (tasks : List String) (e : Endpoint) (s : Stats)
        (entries : List (String × Stats)) (w u v : W)
        → lookup m t ≡ some e
        → Settled b e t w s u
        → Gathered m tasks u entries v
        → Gathered m (t ∷ tasks) w ((address e, record s { task_id = t }) ∷ entries) v

  keys-Gathered :
      (m : Dict String Endpoint) (tasks : List String) (w : W) (entries : List (String × Stats))
      (v : W)
      → Gathered m tasks w entries v
      → keys entries ≡ addresses m tasks
  unfolding addresses
  keys-Gathered m tasks w entries v (all_read u) = refl
  keys-Gathered m tasks w entries v (task_read t rest e s more x u y there settled g) =
      ground (arith, there, keys-Gathered m rest u more v g)

  module _ (most : ℕ) (k : IsCounting b most) (fuel : ℕ) (enough : most < fuel)
      (name : String) where
    abbrev Fetched : List String → ℕ → Hydra W → AppInfo → Type 0
    Fetched tasks stable h info =
        (entries : List (String × Stats)) × (v : W) × (fetch_each b fuel name stable tasks h ≡ (
          ok (some tt),
          record h {
            apps =
                insert h.apps name (known (record info { stats = insert_all entries info.stats }));
            world = v;
          },
        ))
        × Gathered info.ip_port_map tasks h.world entries v

    fetch_each-Fetched :
        (tasks : List String) (stable : ℕ) (h : Hydra W) (info : AppInfo)
        → lookup h.apps name ≡ some (known info)
        → All (λ t. has_key info.ip_port_map t ≡ true) tasks
        → stable + length tasks ≤ 41
        → Fetched tasks stable h info
    unfolding fetch_each get_endpoint store_stats stats_key address
    fetch_each-Fetched [] stable h info e l c =
        ([], h.world, ground (arith, insert_same h.apps name (known info) e), all_read h.world)
    fetch_each-Fetched (t ∷ tasks) stable h info e l c =
        let (p, f) = lookup_of_key info.ip_port_map t l.0 in
        let (s, n, u, run, more, settled) =
          read_stats_lem b most k fuel p t stable h.world enough (omega (arith, c)) in
        let info' = record info {
          stats = insert info.stats (address p) (record s { task_id = t });
        } in
        let h' = record h { apps = insert h.apps name (known info'); world = u } in
        let (entries, v, rest, g) =
          fetch_each-Fetched tasks n h' info' (lookup_inserted h.apps name (known info')) l.1
            (omega (arith, c, more)) in
        let last = known (record info { stats = insert_all entries info'.stats }) in
        (
          (address p, record s { task_id = t }) ∷ entries,
          v,
          ground (arith, e, f, run, rest, insert_again h.apps name (known info') last),
          task_read t tasks p s entries h.world u v f settled g,
        )

    -- `fetch_app_stats` of a whole app with at most 41 tasks, which all have an address, no two the
    -- same, and answer with counts that do not go down and stay below a bound: it returns, given fuel
    -- above that bound. The stats of the app are then one entry for each task, in order, under its
    -- address and with its id: a reading of the task whose count of messages was the same in the next
    -- reading of it. Nothing of before is left, and nothing else changes.
    pub fetch_app_stats_lem :
        (ids : List String) (h : Hydra W) (info : AppInfo)
        → has_key h.apps name ≡ true
        → lookup h.apps name ≡ some (known info)
        → lookup h.all_task_ids name ≡ some ids
        → All (λ t. has_key info.ip_port_map t ≡ true) ids
        → IsDistinct (addresses info.ip_port_map ids)
        → length ids ≤ 41
        → (entries : List (String × Stats)) × (v : W) × (fetch_app_stats b fuel name "" h ≡ (
          ok (some tt),
          record h {
            apps = insert h.apps name (known (record info { stats = entries }));
            world = v;
          },
        ))
          × Gathered info.ip_port_map ids h.world entries v
    unfolding fetch_app_stats tasks_to_ping
    fetch_app_stats_lem ids h info there e f l apart few =
        let info' = record info { stats = [] } in
        let (entries, v, run, g) =
          fetch_each-Fetched ids 0 (record h { apps = insert h.apps name (known info') }) info'
            (lookup_inserted h.apps name (known info')) l (omega (arith, few)) in
        let once =
          insert_all-nil entries (
            subst IsDistinct (sym (keys-Gathered info.ip_port_map ids h.world entries v g))
              apart) in
        let last = known (record info { stats = insert_all entries [] }) in
        (
          entries,
          v,
          ground (arith, there, e, f, run, insert_again h.apps name (known info') last)
              ∙ ap
                  (λ d. (
                    ok (some tt),
                    record h {
                      apps = insert h.apps name (known (record info { stats = d }));
                      world = v;
                    },
                  ))
                  once,
          g,
        )
