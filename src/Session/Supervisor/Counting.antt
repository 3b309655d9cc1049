-- ===== src/Session/Supervisor/Counting.antt =====
-- Sums over the workers of a session, and what one write to the slice does to them.
use vk_turn_proxy_go.Base.{
  ℕ, zero, suc, ◌+◌, ◌*◌, ◌≤◌, ◌<◌, ◌≡◌, refl, Bool, true, false, List, [], ◌∷◌, ◌++◌, some, arith,
  ◌==◌, length, get_elem?, set, replicate, Bool-cases, inl, inr,
}
use vk_turn_proxy_go.Session.Supervisor.{WorkerState, take_one}

abbrev pub bit : Bool → ℕ
bit true = 1
bit false = 0

module _ (f : WorkerState → ℕ) where
  pub total : List WorkerState → ℕ
  total [] = 0
  total (st ∷ sts) = f st + total sts

  pub total-set :
      (sts : List WorkerState) (i : ℕ) (old new : WorkerState)
      → get_elem? sts i ≡ some old
      → total (set sts i new) + f old ≡ total sts + f new
  unfolding total
  total-set [] i old new h = cc
  total-set (st ∷ sts) zero old new h = let e : st ≡ old = cc in rw e (omega arith)
  total-set (st ∷ sts) (suc i) old new h = omega (arith, total-set sts i old new h)

  pub le-total :
      (sts : List WorkerState) (i : ℕ) (st : WorkerState)
      → get_elem? sts i ≡ some st
      → f st ≤ total sts
  unfolding total
  le-total [] i st h = cc
  le-total (x ∷ sts) zero st h = let e : x ≡ st = cc in rw e (omega arith)
  le-total (x ∷ sts) (suc i) st h = omega (arith, le-total sts i st h)

  pub total-replicate_zero : (n : ℕ) (st : WorkerState) → f st ≡ 0 → total (replicate n st) ≡ 0
  unfolding total
  total-replicate_zero zero st h = refl
  total-replicate_zero (suc n) st h = omega (arith, total-replicate_zero n st h)

  -- A bound on each worker bounds the sum.
  pub total-le :
      (bound : ℕ) (sts : List WorkerState)
      → ((i : ℕ) (st : WorkerState) → get_elem? sts i ≡ some st → f st ≤ bound)
      → total sts ≤ length sts * bound
  unfolding total
  total-le bound [] h = omega arith
  total-le bound (st ∷ sts) h =
      omega (arith, h zero st refl, total-le bound sts (λ i x e. h (suc i) x e))

-- How many workers are ready.
abbrev pub count_ready : List WorkerState → ℕ
count_ready = total (λ st. bit st.ready)

-- How many workers were launched, by their generations.
abbrev pub count_launches : List WorkerState → ℕ
count_launches = total (λ st. st.generation)

pub count : ℕ → List ℕ → ℕ
count a [] = 0
count a (x ∷ xs) = bit (x == a) + count a xs

pub count-append : (a : ℕ) (xs ys : List ℕ) → count a (xs ++ ys) ≡ count a xs + count a ys
unfolding count
count-append a [] ys = omega arith
count-append a (x ∷ xs) ys = omega (arith, count-append a xs ys)

pub count_none : (a : ℕ) → count a [] ≡ 0
unfolding count
count_none a = refl

pub count_singleton : (a i : ℕ) → count a (i ∷ []) ≡ bit (i == a)
unfolding count
count_singleton a i = omega arith

pub count-take_one_le : (a i : ℕ) (xs : List ℕ) → count a (take_one i xs) ≤ count a xs
unfolding count take_one
count-take_one_le a i [] = omega arith
count-take_one_le a i (x ∷ xs) = elim (Bool-cases (x == i)) [
  | inl e ↦ rw e (omega arith)
  | inr e ↦ rw e (omega (arith, count-take_one_le a i xs))
]

pub count-take_one_self :
    (i : ℕ) (xs : List ℕ) → 0 < count i xs → count i (take_one i xs) + 1 ≡ count i xs
unfolding count take_one
count-take_one_self i [] h = absurd (omega arith)
count-take_one_self i (x ∷ xs) h = elim (Bool-cases (x == i)) [
  | inl e ↦ rw e (omega arith)
  | inr e ↦
      let p : 0 < count i xs = ground arith in rw (e, e) (omega (arith, count-take_one_self i xs p))
]
