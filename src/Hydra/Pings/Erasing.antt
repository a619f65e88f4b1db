-- ===== src/Hydra/Pings/Erasing.antt =====
-- Removing several entries, one after the other, of a list and of a dict without duplicates.
use m_scale.Common.{
  true, false, not, ◌&&◌, ◌≡◌, refl, arith, String, List, [], ◌∷◌, ok, string_eq, contains, erase,
  IsDistinct, eq_iff, All, contains-erase, erase_all, erase-IsDistinct,
}
use m_scale.Dict.{Dict, delete, has_key, HasKeysOnce, has_key-delete, delete-HasKeysOnce}
use m_scale.Hydra.Pings.{bad_list, remove_all}
use mathlib.Core.Bool.{not}

abbrev pub delete_all : {V : Type 0} → Dict String V → List String → Dict String V
delete_all d [] = d
delete_all d (k ∷ ks) = delete_all (delete d k) ks

pub has_key-delete_all :
    {V : Type 0} (d : Dict String V) (ks : List String) (t : String)
    → HasKeysOnce d
    → has_key (delete_all d ks) t ≡ (has_key d t && not (contains ks t))
has_key-delete_all d [] t h = ground arith
has_key-delete_all d (k ∷ ks) t h =
    ground (
      arith,
      has_key-delete d k t h,
      has_key-delete_all (delete d k) ks t (delete-HasKeysOnce d k h),
    )

pub contains-bad_list :
    (tasks items : List String) (t : String)
    → contains (bad_list tasks items) t ≡ (contains tasks t && contains items t)
unfolding bad_list
contains-bad_list tasks [] t = ground arith
contains-bad_list tasks (i ∷ items) t = ground (arith, eq_iff i t, contains-bad_list tasks items t)

pub bad_list-IsDistinct :
    (tasks items : List String) → IsDistinct items → IsDistinct (bad_list tasks items)
unfolding bad_list
bad_list-IsDistinct tasks [] d = tt
bad_list-IsDistinct tasks (i ∷ items) d =
    ground (arith, contains-bad_list tasks items i, bad_list-IsDistinct tasks items)

pub All-erase :
    (xs : List String) (a : String) (gone : List String)
    → IsDistinct xs
    → contains gone a ≡ false
    → All (λ x. contains xs x ≡ true) gone
    → All (λ x. contains (erase xs a) x ≡ true) gone
All-erase xs a [] d out h = tt
All-erase xs a (b ∷ gone) d out h = (
  ground (arith, contains-erase xs a b d, eq_iff a b, eq_iff b a),
  All-erase xs a gone d (ground arith) h.1,
)

pub remove_all_lem :
    (gone xs : List String)
    → IsDistinct xs
    → IsDistinct gone
    → All (λ a. contains xs a ≡ true) gone
    → remove_all gone xs ≡ (ok tt, erase_all xs gone)
unfolding remove_all
remove_all_lem [] xs d e h = refl
remove_all_lem (a ∷ gone) xs d e h = ground (
  arith,
  h.0,
  remove_all_lem gone (erase xs a) (erase-IsDistinct xs a d) e.1 (All-erase xs a gone d e.0 h.1),
)

pub All-bad_list :
    (tasks items : List String) → All (λ a. contains tasks a ≡ true) (bad_list tasks items)
unfolding bad_list
All-bad_list tasks [] = tt
All-bad_list tasks (i ∷ items) = ground (arith, All-bad_list tasks items)
