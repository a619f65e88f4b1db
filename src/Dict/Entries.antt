-- ===== src/Dict/Entries.antt =====
-- A dict built entry by entry: where the keys are distinct, it is the list of the entries.
use mathlib.Core.List.{append_assoc, append-nil}
use m_scale.Common.{
  ◌≡◌, refl, ◌∙◌, false, List, [], ◌∷◌, ◌++◌, arith, Eq, ◌==◌, contains, IsDistinct,
}
use m_scale.Dict.{Dict, insert, keys, has_key, contains-keys, HasKeysOnce}

module _ {ℓ} {K : Type ℓ} ⦃e : Eq K⦄ where
  contains_before :
      (xs : List K) (k j : K) (ys : List K) → contains (xs ++ k ∷ ys) j ≡ false → (k == j) ≡ false
  contains_before [] k j ys h = ground arith
  contains_before (x ∷ xs) k j ys h = contains_before xs k j ys (ground arith)

  distinct_middle :
      (xs : List K) (k : K) (ys : List K) → IsDistinct (xs ++ k ∷ ys) → contains xs k ≡ false
  distinct_middle [] k ys h = refl
  distinct_middle (x ∷ xs) k ys h = ground (
    arith,
    contains_before xs k x ys h.0,
    e.beq_iff x k,
    e.beq_iff k x,
    distinct_middle xs k ys h.1,
  )

module _ {ℓ κ} {K : Type ℓ} {V : Type κ} ⦃e : Eq K⦄ where
  abbrev pub insert_all : List (K × V) → Dict K V → Dict K V
  insert_all [] d = d
  insert_all ((k, v) ∷ l) d = insert_all l (insert d k v)

  pub insert_new :
      (d : Dict K V) (k : K) (v : V) → has_key d k ≡ false → insert d k v ≡ d ++ (k, v) ∷ []
  insert_new [] k v h = refl
  insert_new ((i, w) ∷ d) k v h = ground (arith, insert_new d k v)

  pub keys-append : (d b : Dict K V) → keys (d ++ b) ≡ keys d ++ keys b
  keys-append [] b = refl
  keys-append ((i, w) ∷ d) b = ground (arith, keys-append d b)

  insert_all-append : (l d : Dict K V) → IsDistinct (keys d ++ keys l) → insert_all l d ≡ d ++ l
  insert_all-append [] d h = rw append-nil
  insert_all-append ((k, v) ∷ l) d h =
      let fresh : has_key d k ≡ false =
        rw (← contains-keys d k) (distinct_middle (keys d) k (keys l) h) in
      rw (insert_new d k v fresh) (
        insert_all-append l (d ++ (k, v) ∷ [])
          (rw (keys-append d ((k, v) ∷ []), append_assoc (keys d) (k ∷ []) (keys l)) h)
        ∙ append_assoc d ((k, v) ∷ []) l)

  pub insert_all-nil : (l : Dict K V) → HasKeysOnce l → insert_all l [] ≡ l
  insert_all-nil l h = insert_all-append l [] h
