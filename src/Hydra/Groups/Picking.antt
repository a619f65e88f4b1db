-- ===== src/Hydra/Groups/Picking.antt =====
-- The tasks that are picked for a new group: distinct tasks of the app that are in no group.
use m_scale.Common.{
  ℕ, zero, suc, ◌+◌, ◌≡◌, refl, true, false, some, String, List, [], ◌∷◌, ◌++◌, arith, string_eq,
  ok, length, length-append, contains, contains-append, get_elem?, IsDistinct, eq_iff, subst, sym,
  ◌<◌,
}
use m_scale.Hydra.{Backend, AppGroup}
use m_scale.Hydra.Groups.{is_taken, pick, pick_all}

-- What the picked tasks are: distinct, tasks of the app, and in none of `groups`.
pub record IsChoice (groups : List AppGroup) (ids picked : List String) : Type 0 where
  pub distinct : IsDistinct picked
  pub of_app : (t : String) → contains picked t ≡ true → contains ids t ≡ true
  pub free : (t : String) → contains picked t ≡ true → is_taken groups [] t ≡ false

pub get_elem?-contains :
    (ids : List String) (i : ℕ) (t : String) → get_elem? ids i ≡ some t → contains ids t ≡ true
get_elem?-contains [] i t h = absurd (cc)
get_elem?-contains (x ∷ ids) zero t h = ground (arith, eq_iff x t)
get_elem?-contains (x ∷ ids) (suc i) t h = ground (arith, get_elem?-contains ids i t h)

is_taken-nil :
    (groups : List AppGroup) (picked : List String) (t : String)
    → is_taken groups picked t ≡ false
    → is_taken groups [] t ≡ false
unfolding is_taken
is_taken-nil [] picked t h = refl
is_taken-nil (g ∷ groups) picked t h = ground (arith, is_taken-nil groups picked t)

-- There is always a group, the new one, so a task that was picked before is refused.
not_picked :
    (g : AppGroup) (groups : List AppGroup) (picked : List String) (t : String)
    → is_taken (g ∷ groups) picked t ≡ false
    → contains picked t ≡ false
unfolding is_taken
not_picked g groups picked t h = ground arith

IsDistinct-snoc :
    (xs : List String) (t : String)
    → IsDistinct xs
    → contains xs t ≡ false
    → IsDistinct (xs ++ t ∷ [])
IsDistinct-snoc [] t d h = (refl, tt)
IsDistinct-snoc (x ∷ xs) t d h =
    ground (arith, contains-append xs (t ∷ []) x, eq_iff t x, eq_iff x t, IsDistinct-snoc xs t d.1)

module _ {W : Type 0} (b : Backend W) where
  pick_lem :
      (fuel : ℕ) (groups : List AppGroup) (ids picked : List String) (w : W) {t : String} {w' : W}
      → pick b fuel groups ids picked w ≡ (ok (some t), w')
      → (is_taken groups picked t ≡ false) × (contains ids t ≡ true)
  unfolding pick
  pick_lem zero groups ids picked w h = absurd (cc)
  pick_lem (suc fuel) groups ids picked w {t} {w'} h =
      let draw = b.choice (length ids) w in
      ground (
        arith,
        get_elem?-contains ids draw.0 t,
        pick_lem fuel groups ids picked draw.1 {t = t} {w' = w'},
      )

  IsChoice-snoc :
      (g : AppGroup) (groups : List AppGroup) (ids picked : List String) (t : String)
      → IsChoice (g ∷ groups) ids picked
      → is_taken (g ∷ groups) picked t ≡ false
      → contains ids t ≡ true
      → IsChoice (g ∷ groups) ids (picked ++ t ∷ [])
  IsChoice-snoc g groups ids picked t c fresh there = record {
    distinct = IsDistinct-snoc picked t c.distinct (not_picked g groups picked t fresh);
    of_app = λ u h. ground (arith, contains-append picked (t ∷ []) u, eq_iff t u, c.of_app u);
    free = λ u h. ground (
      arith,
      contains-append picked (t ∷ []) u,
      eq_iff t u,
      c.free u,
      is_taken-nil (g ∷ groups) picked t fresh,
    );
  }

  pick_all_step :
      (fuel : ℕ) (groups : List AppGroup) (ids : List String) (n : ℕ) (picked : List String) (w : W)
      {tasks : List String} {w' : W}
      → pick_all b fuel groups ids (suc n) picked w ≡ (ok (some tasks), w')
      → (t : String) × ((pick b fuel groups ids picked w).0 ≡ ok (some t))
        × (pick_all b fuel groups ids n (picked ++ t ∷ []) (pick b fuel groups ids picked w).1
            ≡ (ok (some tasks), w'))
  unfolding pick_all
  pick_all_step fuel groups ids n picked w h = ground arith

  pub pick_all-IsChoice :
      (fuel : ℕ) (g : AppGroup) (groups : List AppGroup) (ids : List String) (n : ℕ)
      (picked : List String) (w : W) {tasks : List String} {w' : W}
      → pick_all b fuel (g ∷ groups) ids n picked w ≡ (ok (some tasks), w')
      → IsChoice (g ∷ groups) ids picked
      → IsChoice (g ∷ groups) ids tasks × (length tasks ≡ length picked + n)
  unfolding pick_all
  pick_all-IsChoice fuel g groups ids zero picked w {tasks} h c =
      let e : picked ≡ tasks = cc in
      subst (λ x. IsChoice (g ∷ groups) ids x × (length x ≡ length picked + 0)) e (c, omega arith)
  pick_all-IsChoice fuel g groups ids (suc n) picked w {tasks} {w'} h c =
      let w1 = (pick b fuel (g ∷ groups) ids picked w).1 in
      let (t, e, next) = pick_all_step fuel (g ∷ groups) ids n picked w h in
      let taken = pick_lem fuel (g ∷ groups) ids picked w {t = t} {w' = w1} (ground arith) in
      let more = IsChoice-snoc g groups ids picked t c taken.0 taken.1 in
      let done = pick_all-IsChoice fuel g groups ids n (picked ++ t ∷ []) w1 next more in
      (done.0, omega (arith, done.1, length-append picked (t ∷ [])))

  -- All that were asked for are picked, distinct, of the app, and in no group.
  pub pick_all_nil-IsChoice :
      (fuel : ℕ) (groups : List AppGroup) (ids : List String) (n : ℕ) (w : W) {tasks : List String}
      → ((g : AppGroup) × (gs : List AppGroup) × (groups ≡ g ∷ gs))
      → (pick_all b fuel groups ids n [] w).0 ≡ ok (some tasks)
      → IsChoice groups ids tasks × (length tasks ≡ n)
  pick_all_nil-IsChoice fuel groups ids n w {tasks} (g, gs, e) =
      subst
        (λ x.
          (pick_all b fuel x ids n [] w).0 ≡ ok (some tasks)
          → IsChoice x ids tasks × (length tasks ≡ n))
        (sym e)
        λ h.
          let done =
            pick_all-IsChoice fuel g gs ids n [] w
              (λ i. (h i, (pick_all b fuel (g ∷ gs) ids n [] w).1)) none_picked in
          (done.0, omega (arith, done.1))
    where
      none_picked : IsChoice (g ∷ gs) ids []
      none_picked = record { distinct = tt; of_app = λ t h. absurd (cc); free = λ t h. absurd (cc) }

pub get_elem?-below :
    (ids : List String) (i : ℕ) → i < length ids → (t : String) × (get_elem? ids i ≡ some t)
get_elem?-below [] i h = absurd (omega arith)
get_elem?-below (x ∷ ids) zero h = (x, refl)
get_elem?-below (x ∷ ids) (suc i) h = get_elem?-below ids i (omega arith)
