-- ===== src/Dict.antt =====
-- Python's `dict`, over any type of keys that the source compares. A `for` over a dict runs through
-- the entries in the order of this list.
pub mod Entries
use m_scale.Common.{
  ◌≡◌, refl, Bool, true, false, ◌||◌, false≢true, Option, none, some, List, [], ◌∷◌, arith, Eq,
  ◌==◌, if◌then◌else◌, contains, IsDistinct, Bool-cases, inl, inr,
}

abbrev pub Dict {ℓ κ} : Type ℓ → Type κ → Type (ℓ ⊔ κ)
Dict K V = List (K × V)

module _ {ℓ κ} {K : Type ℓ} {V : Type κ} ⦃e : Eq K⦄ where
  -- d.get(k)
  abbrev pub lookup : Dict K V → K → Option V
  lookup [] k = none
  lookup ((j, v) ∷ d) k = if j == k then some v else lookup d k

  -- k in d
  abbrev pub has_key : Dict K V → K → Bool
  has_key [] k = false
  has_key ((j, v) ∷ d) k = j == k || has_key d k

  -- d[k] = v
  abbrev pub insert : Dict K V → K → V → Dict K V
  insert [] k v = (k, v) ∷ []
  insert ((j, w) ∷ d) k v = if j == k then (j, v) ∷ d else (j, w) ∷ insert d k v

  -- del d[k], where k is a key
  abbrev pub delete : Dict K V → K → Dict K V
  delete [] k = []
  delete ((j, w) ∷ d) k = if j == k then d else (j, w) ∷ delete d k

  -- d.keys()
  abbrev pub keys : Dict K V → List K
  keys [] = []
  keys ((j, w) ∷ d) = j ∷ keys d

  -- d.values()
  abbrev pub values : Dict K V → List V
  values [] = []
  values ((j, w) ∷ d) = w ∷ values d

  pub lookup-insert :
      (d : Dict K V) (k j : K) (v : V)
      → lookup (insert d k v) j ≡ (if k == j then some v else lookup d j)
  lookup-insert [] k j v = refl
  lookup-insert ((i, w) ∷ d) k j v =
      ground (arith, e.beq_iff i k, e.beq_iff i j, e.beq_iff k j, lookup-insert d k j v)

  pub lookup_inserted : (d : Dict K V) (k : K) (v : V) → lookup (insert d k v) k ≡ some v
  lookup_inserted d k v = ground (arith, lookup-insert d k k v, e.beq_iff k k)

  pub has_key-insert :
      (d : Dict K V) (k j : K) (v : V) → has_key (insert d k v) j ≡ (k == j || has_key d j)
  has_key-insert [] k j v = refl
  has_key-insert ((i, w) ∷ d) k j v =
      ground (arith, e.beq_iff i k, e.beq_iff i j, e.beq_iff k j, has_key-insert d k j v)

  pub contains-keys : (d : Dict K V) (k : K) → contains (keys d) k ≡ has_key d k
  contains-keys [] k = refl
  contains-keys ((i, w) ∷ d) k = ground (arith, contains-keys d k)

  pub lookup_of_missing : (d : Dict K V) (k : K) → has_key d k ≡ false → lookup d k ≡ none
  lookup_of_missing [] k h = refl
  lookup_of_missing ((i, w) ∷ d) k h = ground (arith, lookup_of_missing d k)

  pub lookup_of_key : (d : Dict K V) (k : K) → has_key d k ≡ true → (v : V) × (lookup d k ≡ some v)
  lookup_of_key [] k h = absurd (false≢true h)
  lookup_of_key ((i, w) ∷ d) k h = elim (Bool-cases (i == k)) [
    | inl hit ↦ (w, rw hit)
    | inr miss ↦ rw miss (lookup_of_key d k (rw miss at h))
  ]

  -- Every key stands once: what `insert` and `delete` keep.
  abbrev pub HasKeysOnce : Dict K V → Type 0
  HasKeysOnce d = IsDistinct (keys d)

  contains-keys-insert :
      (d : Dict K V) (k j : K) (v : V)
      → contains (keys (insert d k v)) j ≡ (k == j || contains (keys d) j)
  contains-keys-insert [] k j v = refl
  contains-keys-insert ((i, w) ∷ d) k j v =
      ground (arith, e.beq_iff i k, e.beq_iff i j, e.beq_iff k j, contains-keys-insert d k j v)

  pub insert-HasKeysOnce :
      (d : Dict K V) (k : K) (v : V) → HasKeysOnce d → HasKeysOnce (insert d k v)
  insert-HasKeysOnce [] k v h = (refl, tt)
  insert-HasKeysOnce ((i, w) ∷ d) k v h =
      ground (
        arith,
        e.beq_iff i k,
        e.beq_iff k i,
        contains-keys-insert d k i v,
        insert-HasKeysOnce d k v,
      )

  pub contains-keys-delete :
      (d : Dict K V) (k j : K)
      → HasKeysOnce d
      → contains (keys (delete d k)) j ≡ (if k == j then false else contains (keys d) j)
  contains-keys-delete [] k j h = ground arith
  contains-keys-delete ((i, w) ∷ d) k j h =
      ground (arith, e.beq_iff i k, e.beq_iff i j, e.beq_iff k j, contains-keys-delete d k j)

  pub delete-HasKeysOnce : (d : Dict K V) (k : K) → HasKeysOnce d → HasKeysOnce (delete d k)
  delete-HasKeysOnce [] k h = tt
  delete-HasKeysOnce ((i, w) ∷ d) k h =
      ground (arith, contains-keys-delete d k i, delete-HasKeysOnce d k)

  pub lookup-delete :
      (d : Dict K V) (k j : K)
      → HasKeysOnce d
      → lookup (delete d k) j ≡ (if k == j then none else lookup d j)
  lookup-delete [] k j h = ground arith
  lookup-delete ((i, w) ∷ d) k j h = ground (
    arith,
    e.beq_iff i k,
    e.beq_iff i j,
    e.beq_iff k j,
    contains-keys d k,
    lookup_of_missing d k,
    lookup-delete d k j,
  )

  pub has_key-delete :
      (d : Dict K V) (k j : K)
      → HasKeysOnce d
      → has_key (delete d k) j ≡ (if k == j then false else has_key d j)
  has_key-delete d k j h =
      rw (← contains-keys (delete d k) j, ← contains-keys d j) (contains-keys-delete d k j h)
