-- ===== src/Hydra/Usage/Shared.antt =====
-- All entries of the result of `get_app_mem_cpu_stats` are one object.
use m_scale.Common.{
  Result-cases, Bool-cases, inl, inr, subst, ◌==◌, ℕ, ◌≡◌, refl, arith, Option, none, some, String,
  List, [], ◌∷◌, ◌++◌, ok, err, Exec, Result, string_eq, length, All, All-append, contains,
}
use m_scale.Dict.{lookup, insert}
use m_scale.Hydra.Usage.{
  Memory, Found, AppTask, append_to, scan_tasks, scan_slaves, get_app_mem_cpu_stats,
}

-- Every list of the table holds the address only.
abbrev pub OnlyAt : ℕ → Found → Type 0
OnlyAt a [] = Unit {0}
OnlyAt a ((ip, as') ∷ found) = All (λ x. x ≡ a) as' × OnlyAt a found

OnlyAt-insert :
    (a : ℕ) (found : Found) (ip : String) (as' : List ℕ)
    → OnlyAt a found
    → All (λ x. x ≡ a) as'
    → OnlyAt a (insert found ip as')
OnlyAt-insert a [] ip as' h k = (k, tt)
OnlyAt-insert a ((j, v) ∷ found) ip as' h k = ground (arith, OnlyAt-insert a found ip as' h.1 k)

OnlyAt-lookup :
    (a : ℕ) (found : Found) (ip : String) (as' : List ℕ)
    → OnlyAt a found
    → lookup found ip ≡ some as'
    → All (λ x. x ≡ a) as'
OnlyAt-lookup a [] ip as' h e = absurd (cc)
OnlyAt-lookup a ((j, v) ∷ found) ip as' h e = elim (Bool-cases (j == ip)) [
  | inl hit ↦ subst (All (λ x. x ≡ a)) (ground (arith, hit)) h.0
  | inr miss ↦ OnlyAt-lookup a found ip as' h.1 (ground (arith, miss))
]

append_to-OnlyAt :
    (a : ℕ) (found : Found) (ip : String) (o : Option (List ℕ))
    → lookup found ip ≡ o
    → OnlyAt a found
    → OnlyAt a (append_to found ip a)
unfolding append_to
append_to-OnlyAt a found ip none e h =
    ground (arith, e, OnlyAt-insert a found ip (a ∷ []) h (refl, tt))
append_to-OnlyAt a found ip (some as') e h = ground (
  arith,
  e,
  OnlyAt-insert a found ip (as' ++ a ∷ []) h
      (All-append (λ x. x ≡ a) as' (a ∷ []) (OnlyAt-lookup a found ip as' h e) (refl, tt)),
)

scan_tasks-OnlyAt :
    (name ip : String) (a : ℕ) (tasks : List AppTask) (found : Found) (heap : List _)
    → OnlyAt a found
    → OnlyAt a (scan_tasks name ip a tasks found heap).0
unfolding scan_tasks
scan_tasks-OnlyAt name ip a [] found heap h = h
scan_tasks-OnlyAt name ip a (t ∷ tasks) found heap h =
    let k = append_to-OnlyAt a found ip (lookup found ip) refl h in
    scan_tasks-OnlyAt name ip a tasks _ _ (ground (arith, k))

-- What a result holds, where there is one.
abbrev pub IsShared : ℕ → Result Found → Type 0
IsShared a (ok found) = OnlyAt a found
IsShared a (err e) = Unit {0}

module _ {W : Type 0} (get_slave_stats : String → Exec W (List AppTask)) where
  scan_slaves-IsShared :
      (name : String) (a : ℕ) (ips : List String) (found : Found) (m : Memory W)
      → OnlyAt a found
      → IsShared a (scan_slaves get_slave_stats name a ips found m).0
  unfolding scan_slaves
  scan_slaves-IsShared name a [] found m h = h
  scan_slaves-IsShared name a (ip ∷ ips) found m h =
      elim (Result-cases (get_slave_stats ip m.world).0) [
        | inr (e, q) ↦ ground (arith, q)
        | inl ([], q) ↦ ground (arith, q)
        | inl (t ∷ tasks, q) ↦
            let (found', heap) = scan_tasks name ip a (t ∷ tasks) found m.heap in
            let rest =
              scan_slaves-IsShared name a ips found'
                (record m { heap = heap; world = (get_slave_stats ip m.world).1 })
                (scan_tasks-OnlyAt name ip a (t ∷ tasks) found m.heap h) in
            subst (λ r. IsShared a r) (ground (arith, q)) rest
      ]

  -- `get_app_mem_cpu_stats` that returns: all entries of its result, for whatever slaves and tasks,
  -- are one and the same object, the dict that the call has made, so that all tasks are reported
  -- with the same figures.
  pub get_app_mem_cpu_stats-IsShared :
      (app_id_list : List String) (name : String) (ips : List String) (m : Memory W)
      → IsShared (length m.heap) (get_app_mem_cpu_stats get_slave_stats app_id_list name ips m).0
  unfolding get_app_mem_cpu_stats
  get_app_mem_cpu_stats-IsShared app_id_list name ips m =
      elim (Bool-cases (contains app_id_list name)) [
        | inl known ↦ rw known (scan_slaves-IsShared name (length m.heap) ips [] _ tt)
        | inr new ↦ rw new tt
      ]
