-- ===== src/Hydra/Usage.antt =====
-- `get_app_mem_cpu_stats` of `HydraBase`. The dicts that its result holds are objects that may be
-- shared: they stand on a heap, and the result holds their addresses.
pub mod Shared
use Prim.Native.Char.{code}
use m_scale.Common.{
  ℕ, zero, suc, Bool, true, false, not, Option, none, some, String, List, [], ◌∷◌, ◌++◌, ok, err,
  Exec, pure, check, ◌>>=◌, ◌>>◌, string_eq, contains, length, if◌then◌else◌, nat_beq, ◌&&◌,
}
use m_scale.Dict.{Dict, lookup, insert}

-- `task_stats`
pub record TaskStats : Type 0 where
  pub timestamp : ℕ
  pub mem_rss_bytes : ℕ
  pub cpu_system_time_secs : ℕ
  pub cpu_user_time_secs : ℕ

-- What the code reads of an entry of a slave's statistics.
pub record AppTask : Type 0 where
  pub source : String
  pub statistics : TaskStats

-- The objects by their addresses, which are their places, and the slaves' side.
pub record Memory (W : Type 0) : Type 0 where
  pub heap : List TaskStats
  pub world : W

-- `s.startswith(prefix)`
unfoldable pub startswith : String → String → Bool
startswith s String.[] = true
startswith String.[] (String.◌∷◌ d t) = false
startswith (String.◌∷◌ c s) (String.◌∷◌ d t) = nat_beq (code c) (code d) && startswith s t

-- A write to the object at an address.
abbrev pub write : List TaskStats → ℕ → TaskStats → List TaskStats
write [] a v = []
write (x ∷ xs) zero v = v ∷ xs
write (x ∷ xs) (suc a) v = x ∷ write xs a v

abbrev pub Found : Type 0
Found = Dict String (List ℕ)

-- `app_stats_list[slave_ip].append(task_stats)`, with the list made where it is missing.
unfoldable pub append_to : Found → String → ℕ → Found
append_to found ip a = elim (lookup found ip) [
  | none ↦ insert found ip (a ∷ [])
  | some as' ↦ insert found ip (as' ++ a ∷ [])
]

-- The loop over the entries of one slave; `a` is the address of `task_stats`.
unfoldable pub scan_tasks :
    String → String → ℕ → List AppTask → Found → List TaskStats → Found × List TaskStats
unfolding startswith append_to
scan_tasks name ip a [] found heap = (found, heap)
scan_tasks name ip a (t ∷ tasks) found heap =
    let ours = startswith t.source name in
    scan_tasks name ip a tasks (if ours then append_to found ip a else found)
      (if ours then write heap a t.statistics else heap)

module _ {W : Type 0} (get_slave_stats : String → Exec W (List AppTask)) where
  abbrev pub is_empty : List AppTask → Bool
  is_empty [] = true
  is_empty (t ∷ tasks) = false

  -- The loop over the slaves.
  unfoldable pub scan_slaves : String → ℕ → List String → Found → Exec (Memory W) Found
  unfolding scan_tasks
  scan_slaves name a [] found m = (ok found, m)
  scan_slaves name a (ip ∷ ips) found m =
      let (r, w) = get_slave_stats ip m.world in
      let m' = record m { world = w } in
      elim r [
        | err e ↦ (err e, m')
        | ok stats ↦
            let (found', heap) = scan_tasks name ip a stats found m.heap in
            (check (not (is_empty stats)) >> scan_slaves name a ips found')
              (record m' { heap = if is_empty stats then m.heap else heap })
      ]

  -- `get_app_mem_cpu_stats`: `app_id_list` is the object's.
  unfoldable pub get_app_mem_cpu_stats : List String → String → List String → Exec (Memory W) Found
  unfolding scan_slaves
  get_app_mem_cpu_stats app_id_list name ips = do
    check (contains app_id_list name)
    λ m. scan_slaves name (length m.heap) ips [] (record m {
      heap =
          m.heap
          ++ record {
            timestamp = 0;
            mem_rss_bytes = 0;
            cpu_system_time_secs = 0;
            cpu_user_time_secs = 0;
          }
            ∷ [];
    })
