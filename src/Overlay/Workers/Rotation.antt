-- ===== src/Overlay/Workers/Rotation.antt =====
-- `Next` serves the ready workers in turn.
use mathlib.Core.List.{map-append}
use native.Mathlib.Nat.{mod-eq_of_lt, mod_self, zero-add, suc-add}
use vk_turn_proxy_go.Base.{
  ℕ, zero, suc, ◌+◌, ◌-◌, ◌%◌, ◌≤◌, ◌<◌, ◌≡◌, inl, inr, refl, ap, ◌∙◌, false, List, [], ◌∷◌, ◌++◌,
  Option, some, arith, map, ◌==◌, if◌then◌else◌, length, get_elem?, take, drop, take-all,
  length-drop, Bool-cases, lt-length_of_get_elem?, get_elem?_total,
}
use vk_turn_proxy_go.Overlay.Workers.{WorkerRoute, WorkerSet, next_worker}

-- The answers of `k` calls of `Next`, and the set that they leave.
unfoldable pub serve : ℕ → WorkerSet → WorkerSet × List (Option WorkerRoute)
serve zero s = (s, [])
serve (suc k) s = let (t, w) = next_worker s in let (u, ws) = serve k t in (u, w ∷ ws)

drop_of_get_elem? {ℓ} :
    {A : Type ℓ} (xs : List A) (i : ℕ) (x : A)
    → get_elem? xs i ≡ some x
    → drop i xs ≡ x ∷ drop (suc i) xs
drop_of_get_elem? [] i x h = cc
drop_of_get_elem? (y ∷ xs) zero x h = cc
drop_of_get_elem? (y ∷ xs) (suc i) x h = drop_of_get_elem? xs i x h

-- The cursor after one step over `len` workers.
abbrev wrap : ℕ → ℕ → ℕ
wrap len n = if n == len then 0 else n

wrap_lem : (len n : ℕ) → n < len → (n + 1) % len ≡ wrap len (n + 1)
wrap_lem len n h = elim (Bool-cases (n + 1 == len)) [
  | inl e ↦ let q : len ≡ n + 1 = ground arith in rw (e, q) (mod_self (n + 1))
  | inr e ↦ rw e (mod-eq_of_lt (ground arith))
]

next_worker_lem :
    (ws : List WorkerRoute) (n : ℕ) (w : WorkerRoute)
    → get_elem? ws n ≡ some w
    → next_worker (record { workers = ws; next = n })
      ≡ (record { workers = ws; next = wrap (length ws) (n + 1) }, some w)
unfolding next_worker
next_worker_lem ws n w h =
    let l : n < length ws = lt-length_of_get_elem? ws n w h in
    let e : (length ws == 0) ≡ false = ground arith in
    let m : n % length ws ≡ n = grind arith in
    let q : (n + 1) % length ws ≡ wrap (length ws) (n + 1) = wrap_lem (length ws) n l in
    rw (e, m, q, h)

serve-zero : (s : WorkerSet) → serve zero s ≡ (s, [])
unfolding serve
serve-zero s = refl

serve-suc :
    (k : ℕ) (s t : WorkerSet) (w : Option WorkerRoute)
    → next_worker s ≡ (t, w)
    → serve (suc k) s ≡ ((serve k t).0, w ∷ (serve k t).1)
unfolding serve
serve-suc k s t w h = rw h

-- As long as the cursor does not pass the end, the calls answer the workers from it on.
serve_run :
    (k : ℕ) (ws : List WorkerRoute) (n : ℕ)
    → n < length ws
    → n + k ≤ length ws
    → serve k (record { workers = ws; next = n })
      ≡ (record { workers = ws; next = wrap (length ws) (n + k) }, map some (take k (drop n ws)))
serve_run zero ws n h l = let e : wrap (length ws) (n + 0) ≡ n = ground arith in rw (serve-zero, e)
serve_run (suc zero) ws n h l =
    let (w, g) = get_elem?_total ws n h in
    rw (serve-suc zero _ _ _ (next_worker_lem ws n w g), serve-zero, drop_of_get_elem? ws n w g)
serve_run (suc (suc k)) ws n h l =
    let (w, g) = get_elem?_total ws n h in
    let e : wrap (length ws) (n + 1) ≡ suc n = ground arith in
    let q : n + suc (suc k) ≡ suc n + suc k = omega arith in
    rw (serve-suc (suc k) _ _ _ (next_worker_lem ws n w g), e)
      (rw (serve_run (suc k) ws (suc n) (omega arith) (omega arith))
        (rw (q, drop_of_get_elem? ws n w g)))

serve_add :
    (a b : ℕ) (s : WorkerSet)
    → serve (a + b) s ≡ ((serve b (serve a s).0).0, (serve a s).1 ++ (serve b (serve a s).0).1)
unfolding serve
serve_add zero b s = rw zero-add
serve_add (suc a) b s = rw suc-add (rw (serve_add a b (next_worker s).0))

-- From a cursor on a worker, as many calls of `Next` as there are ready workers answer each of them
-- once, beginning at the cursor, and leave the set as it was.
pub serve_all :
    (ws : List WorkerRoute) (n : ℕ)
    → n < length ws
    → serve (length ws) (record { workers = ws; next = n })
      ≡ (record { workers = ws; next = n }, map some (drop n ws ++ take n ws))
serve_all ws n h =
    let split : length ws ≡ (length ws - n) + n = omega arith in
    let e : wrap (length ws) (n + (length ws - n)) ≡ 0 = ground arith in
    let f : wrap (length ws) (0 + n) ≡ n = ground arith in
    let t : take (length ws - n) (drop n ws) ≡ drop n ws = take-all _ _ (length-drop n ws) in
    let s : WorkerSet = record { workers = ws; next = n } in
    ap (λ k. serve k s) split
    ∙ serve_add (length ws - n) n s
    ∙ rw (serve_run (length ws - n) ws n h (omega arith), e, t)
        (rw (serve_run n ws 0 (omega arith) (omega arith), f, map-append))
