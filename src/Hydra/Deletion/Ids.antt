-- ===== src/Hydra/Deletion/Ids.antt =====
-- The id of a task, from the name that it has in the task list: `rsplit` against `refresh_app_info`.
use Prim.Native.Char.{Char}
use Prim.Native.String.append.{nil, cons}
use Prim.Native.String.{◌++◌ as ◌+++◌}
use m_scale.Common.{
  ℕ, zero, suc, ◌≡◌, refl, arith, none, some, String, Bool-cases, inl, inr, ltb, ◌/◌, ◌%◌,
}
use m_scale.Hydra.Apps.{digit, str_of_ℕ, port_key}
use m_scale.Hydra.Deletion.{before_last, rsplit_first}

nil-append : (t : String) → ("" +++ t) ≡ t
nil-append t = λ i. nil t i

cons-append : (c : Char) (s t : String) → (String.◌∷◌ c s +++ t) ≡ String.◌∷◌ c (s +++ t)
cons-append c s t = λ i. cons c s t i

before_last-append :
    (s t : String) → before_last s ≡ none → before_last t ≡ none → before_last (s +++ t) ≡ none
unfolding before_last
before_last-append String.[] t h k = rw (nil-append t) k
before_last-append (String.◌∷◌ c s) t h k =
    rw (cons-append c s t) (ground (arith, before_last-append s t))

before_last-digit : (n : ℕ) → before_last (digit n) ≡ none
unfolding before_last
before_last-digit zero = refl
before_last-digit (suc zero) = refl
before_last-digit (suc (suc zero)) = refl
before_last-digit (suc (suc (suc zero))) = refl
before_last-digit (suc (suc (suc (suc zero)))) = refl
before_last-digit (suc (suc (suc (suc (suc zero))))) = refl
before_last-digit (suc (suc (suc (suc (suc (suc zero)))))) = refl
before_last-digit (suc (suc (suc (suc (suc (suc (suc zero))))))) = refl
before_last-digit (suc (suc (suc (suc (suc (suc (suc (suc zero)))))))) = refl
before_last-digit (suc (suc (suc (suc (suc (suc (suc (suc (suc zero))))))))) = refl
before_last-digit (suc (suc (suc (suc (suc (suc (suc (suc (suc (suc n)))))))))) = refl

before_last-str_of_ℕ : (fuel n : ℕ) → before_last (str_of_ℕ fuel n) ≡ none
unfolding str_of_ℕ before_last
before_last-str_of_ℕ zero n = refl
before_last-str_of_ℕ (suc fuel) n = elim (Bool-cases (ltb n 10)) [
  | inl small ↦ rw small (before_last-digit n)
  | inr large ↦ rw large (
      before_last-append (str_of_ℕ fuel (n / 10)) (digit (n % 10))
        (before_last-str_of_ℕ fuel (n / 10)) (before_last-digit (n % 10)))
]

before_last-port : (t : String) → before_last t ≡ none → before_last ("PORT" +++ t) ≡ none
unfolding before_last
before_last-port t h = before_last-append "PORT" t refl h

split_port : (t : String) → ("_PORT" +++ t) ≡ String.◌∷◌ "_" ("PORT" +++ t)
split_port t = cons-append "_" "PORT" t

before_last-found :
    (s t : String) → before_last t ≡ none → before_last (s +++ String.◌∷◌ "_" t) ≡ some s
unfolding before_last
before_last-found String.[] t h = rw (nil-append (String.◌∷◌ "_" t)) (ground (arith, h))
before_last-found (String.◌∷◌ c s) t h =
    rw (cons-append c s (String.◌∷◌ "_" t)) (ground (arith, before_last-found s t h))

rsplit_first-found : (s t : String) → before_last s ≡ some t → rsplit_first s ≡ t
unfolding rsplit_first
rsplit_first-found s t h = ground (arith, h)

-- The id that `delete_tasks_from_group` gives to marathon for a task of the list is the one that
-- marathon gave to `refresh_app_info` for it, whatever text it is and whatever the port.
pub rsplit_first-port_key : (id : String) (port : ℕ) → rsplit_first (port_key id port) ≡ id
unfolding port_key
rsplit_first-port_key id port =
    let t = str_of_ℕ (suc port) port in
    let e =
      before_last-found id ("PORT" +++ t)
        (before_last-port t (before_last-str_of_ℕ (suc port) port)) in
    rw (split_port t) (rsplit_first-found _ id e)
