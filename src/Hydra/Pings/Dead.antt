-- ===== src/Hydra/Pings/Dead.antt =====
-- The tasks that do not answer, and what a list or a dict holds without them.
use m_scale.Common.{
  contains-erase_all, Bool, true, false, not, ◌&&◌, ◌≡◌, refl, arith, String, List, [], ◌∷◌, ok,
  none, some, string_eq, contains, IsDistinct, eq_iff, All, if◌then◌else◌,
}
use m_scale.Dict.{Dict, lookup, delete, has_key, HasKeysOnce, has_key-delete}
use m_scale.Hydra.{Endpoint, AppGroup}
use m_scale.Hydra.Pings.{bad_list, clean_groups}
use m_scale.Hydra.Pings.Erasing.{
  contains-bad_list, bad_list-IsDistinct, remove_all_lem, All-bad_list,
}

-- The tasks that do not answer.
abbrev pub dead : (String → Bool) → List String → List String
dead alive [] = []
dead alive (t ∷ tasks) = if alive t then dead alive tasks else t ∷ dead alive tasks

pub contains-dead :
    (alive : String → Bool) (tasks : List String) (t : String)
    → contains (dead alive tasks) t ≡ (contains tasks t && not (alive t))
contains-dead alive [] t = refl
contains-dead alive (x ∷ tasks) t = ground (arith, eq_iff x t, contains-dead alive tasks t)

pub dead-IsDistinct :
    (alive : String → Bool) (tasks : List String) → IsDistinct tasks → IsDistinct (dead alive tasks)
dead-IsDistinct alive [] d = tt
dead-IsDistinct alive (x ∷ tasks) d =
    ground (arith, contains-dead alive tasks x, dead-IsDistinct alive tasks)

pub All-dead :
    (P : String → Type 0) (alive : String → Bool) (tasks : List String)
    → All P tasks
    → All P (dead alive tasks)
All-dead P alive [] h = tt
All-dead P alive (x ∷ tasks) h = ground (arith, All-dead P alive tasks h.1)

-- The tasks of a group: none where there is no such group.
abbrev pub tasks_in : Dict String AppGroup → String → List String
tasks_in groups n = elim (lookup groups n) [ none ↦ [] | some g ↦ g.tasks_list ]

pub clean_groups_lem :
    (items : List String) (groups : Dict String AppGroup) (n : String) (t : String)
    → IsDistinct items
    → All (λ p. IsDistinct p.1.tasks_list) groups
    → ((clean_groups items groups).0 ≡ ok tt)
      × (contains (tasks_in (clean_groups items groups).1 n) t
          ≡ (contains (tasks_in groups n) t && not (contains items t)))
unfolding clean_groups
clean_groups_lem items [] n t d h = ground arith
clean_groups_lem items ((m, g) ∷ groups) n t d h = ground (
  arith,
  clean_groups_lem items groups n t d h.1,
  remove_all_lem (bad_list g.tasks_list items) g.tasks_list h.0
      (bad_list-IsDistinct g.tasks_list items d) (All-bad_list g.tasks_list items),
  contains-erase_all g.tasks_list (bad_list g.tasks_list items) t h.0,
  contains-bad_list g.tasks_list items t,
)

pub All-delete :
    (d : Dict String Endpoint) (k : String) (ts : List String)
    → HasKeysOnce d
    → contains ts k ≡ false
    → All (λ x. has_key d x ≡ true) ts
    → All (λ x. has_key (delete d k) x ≡ true) ts
All-delete d k [] once out h = tt
All-delete d k (t ∷ ts) once out h = (
  ground (arith, has_key-delete d k t once, eq_iff k t, eq_iff t k),
  All-delete d k ts once (ground arith) h.1,
)

pub All-intro :
    (f : String → Bool) (ys : List String)
    → ((t : String) → contains ys t ≡ true → f t ≡ true)
    → All (λ t. f t ≡ true) ys
All-intro f [] h = tt
All-intro f (y ∷ ys) h =
    (h y (ground (arith, eq_iff y y)), All-intro f ys λ t m. h t (ground arith))
