-- ===== src/Publisher/Budget.antt =====
-- The arithmetic of a test of a publisher: how many rounds it takes at most.
use native.Mathlib.Nat.{mul-le-mul_left, mul-suc, le-div_iff_mul-le}
use m_scale.Common.{
  ℕ, zero, suc, ◌+◌, ◌-◌, ◌*◌, ◌/◌, ◌≤◌, ◌<◌, ◌≡◌, refl, arith, String, List, [], ◌∷◌, ◌++◌,
}
use m_scale.Publisher.{second, message}

-- The messages from number `n` on, so many.
abbrev pub numbered : ℕ → ℕ → List String
numbered n zero = []
numbered n (suc k) = message n ∷ numbered (suc n) k

-- How many rounds are left at most: the messages until the rate asked for would take the whole
-- time, and the rest of the time, each by the batch.
abbrev pub budget : (b due cnt time : ℕ) → ℕ
budget b due cnt time = b * due + (b - cnt) + b * time

pub mul_drop : (b x y : ℕ) → y < x → b * y + b ≤ b * x
mul_drop b x y l = omega (arith, mul-le-mul_left {m = suc y} {n = x} b l, mul-suc b y)

pub drops_in_batch :
    (b x cnt t x' t' : ℕ)
    → suc cnt < b
    → x' ≤ x
    → t' ≤ t
    → budget b x' (suc cnt) t' < budget b x cnt t
drops_in_batch b x cnt t x' t' c l m =
    omega (arith, c, mul-le-mul_left {m = x'} {n = x} b l, mul-le-mul_left {m = t'} {n = t} b m)

pub drops_by_time :
    (b x cnt t x' t' : ℕ) → cnt < b → x' ≤ x → t' < t → budget b x' 0 t' < budget b x cnt t
drops_by_time b x cnt t x' t' c l m =
    omega (arith, c, mul-le-mul_left {m = x'} {n = x} b l, mul_drop b t t' m)

pub drops_by_message :
    (b x cnt t x' t' : ℕ) → cnt < b → x' < x → t' ≤ t → budget b x' 0 t' < budget b x cnt t
drops_by_message b x cnt t x' t' c l m =
    omega (arith, c, mul_drop b x x' l, mul-le-mul_left {m = t'} {n = t} b m)

-- A message that is not due yet while the test lasts is one of those that the rate allows.
pub not_due : (n r d e : ℕ) → 0 < r → n * second / r ≤ e → e < d → n < d * r
not_due n r d e r0 h l =
    ground (arith, (le-div_iff_mul-le {k = r} {x = d} {y = n * second} r0).1, h, l)

pub one_later : (n j : ℕ) → n + 1 + j ≡ n + suc j
one_later n j = omega arith

pub suc_plus : (n k : ℕ) → suc n + k ≡ suc (n + k)
suc_plus n k = omega arith

pub seven_on : (n : ℕ) → n + 7 ≡ suc (n + 6)
seven_on n = omega arith

pub zero_plus : (n : ℕ) → 0 + n ≡ n
zero_plus n = omega arith

pub budget_start : (b x d s c : ℕ) → s ≡ c → budget b (x - 0) 0 (s + d - c) < budget b x 0 d + 1
budget_start b x d s c e =
    let a : x - 0 ≡ x = omega arith in
    let t : s + d - c ≡ d = omega (arith, e) in rw a (rw t (omega arith))

pub append_one :
    (xs : List String) (m : String) (ys : List String) → (xs ++ m ∷ []) ++ ys ≡ xs ++ m ∷ ys
append_one [] m ys = refl
append_one (x ∷ xs) m ys = ground (arith, append_one xs m ys)

pub continued :
    (s : List String) (m : String) (s' s'' : List String) (i n j : ℕ)
    → s' ≡ s ++ m ∷ []
    → s'' ≡ s' ++ numbered i j
    → i ≡ n
    → s'' ≡ s ++ m ∷ numbered n j
continued s m s' s'' i n j a b c = ground (arith, append_one s m (numbered n j))
