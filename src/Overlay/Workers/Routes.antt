-- ===== src/Overlay/Workers/Routes.antt =====
-- The set as a map from worker indices to channels, and its invariant.
use vk_turn_proxy_go.Base.{
  ℕ, ◌<◌, ◌≡◌, ◌≢◌, ◌⊎◌, inl, inr, refl, sym, subst, ◌∙◌, false, List, [], ◌∷◌, ◌++◌, Option, none,
  some, arith, ◌==◌, if◌then◌else◌, length, length-append, All, All-append, Bool-cases,
}
use vk_turn_proxy_go.Overlay.Workers.{
  WorkerRoute, WorkerSet, holds, erase, remove_locked, set_ready, remove, next_worker, empty_set,
}

-- The channel of a worker.
pub find : ℕ → List WorkerRoute → Option ℕ
find index [] = none
find index (w ∷ ws) = if w.index == index then some w.outbound else find index ws

unfoldable pub route_of : ℕ → WorkerSet → Option ℕ
unfolding find
route_of index s = find index s.workers

abbrev pub Lacks : ℕ → List WorkerRoute → Type 0
Lacks index = All (λ (w : WorkerRoute). w.index ≢ index)

abbrev pub AreDistinct : List WorkerRoute → Type 0
AreDistinct [] = Unit
AreDistinct (w ∷ ws) = Lacks w.index ws × AreDistinct ws

-- No index twice, and the cursor on a worker, or at 0.
pub record IsValid (s : WorkerSet) : Type 0 where
  pub distinct : AreDistinct s.workers
  pub cursor : (s.next ≡ 0) ⊎ (s.next < length s.workers)

Lacks-erase : (i j : ℕ) (ws : List WorkerRoute) → Lacks i ws → Lacks i (erase j ws)
unfolding erase
Lacks-erase i j [] h = tt
Lacks-erase i j (w ∷ ws) h = elim (Bool-cases (w.index == j)) [
  | inl e ↦ rw e h.1
  | inr e ↦ rw e (h.0, Lacks-erase i j ws h.1)
]

AreDistinct-erase : (j : ℕ) (ws : List WorkerRoute) → AreDistinct ws → AreDistinct (erase j ws)
unfolding erase
AreDistinct-erase j [] h = tt
AreDistinct-erase j (w ∷ ws) h = elim (Bool-cases (w.index == j)) [
  | inl e ↦ rw e h.1
  | inr e ↦ rw e (Lacks-erase w.index j ws h.0, AreDistinct-erase j ws h.1)
]

find_of_Lacks : (i : ℕ) (ws : List WorkerRoute) → Lacks i ws → find i ws ≡ none
unfolding find
find_of_Lacks i [] h = refl
find_of_Lacks i (w ∷ ws) h = ground (arith, find_of_Lacks i ws h.1)

Lacks-of_holds : (i : ℕ) (ws : List WorkerRoute) → holds i ws ≡ false → Lacks i ws
unfolding holds
Lacks-of_holds i [] h = tt
Lacks-of_holds i (w ∷ ws) h = (ground arith, Lacks-of_holds i ws (ground arith))

Lacks-erase_self : (i : ℕ) (ws : List WorkerRoute) → AreDistinct ws → Lacks i (erase i ws)
unfolding erase
Lacks-erase_self i [] h = tt
Lacks-erase_self i (w ∷ ws) h = elim (Bool-cases (w.index == i)) [
  | inl e ↦ let q : w.index ≡ i = ground arith in rw e (rw q at h.0)
  | inr e ↦ rw e (ground arith, Lacks-erase_self i ws h.1)
]

find-erase_ne : (i j : ℕ) (ws : List WorkerRoute) → i ≢ j → find j (erase i ws) ≡ find j ws
unfolding find erase
find-erase_ne i j [] h = refl
find-erase_ne i j (w ∷ ws) h = ground (arith, find-erase_ne i j ws h)

find-append :
    (i : ℕ) (ws : List WorkerRoute) (w : WorkerRoute)
    → Lacks i ws
    → find i (ws ++ w ∷ []) ≡ (if w.index == i then some w.outbound else none)
unfolding find
find-append i [] w h = refl
find-append i (v ∷ ws) w h = ground (arith, find-append i ws w h.1)

find-append_ne :
    (i : ℕ) (ws : List WorkerRoute) (w : WorkerRoute)
    → w.index ≢ i
    → find i (ws ++ w ∷ []) ≡ find i ws
unfolding find
find-append_ne i [] w h = ground arith
find-append_ne i (v ∷ ws) w h = ground (arith, find-append_ne i ws w h)

AreDistinct-append :
    (ws : List WorkerRoute) (w : WorkerRoute)
    → AreDistinct ws
    → Lacks w.index ws
    → AreDistinct (ws ++ w ∷ [])
AreDistinct-append [] w d l = (tt, tt)
AreDistinct-append (v ∷ ws) w d l = (
  All-append (λ (u : WorkerRoute). u.index ≢ v.index) ws (w ∷ []) d.0 (λ e. l.0 (sym e), tt),
  AreDistinct-append ws w d.1 l.1,
)

-- What `removeLocked` leaves, in one statement for both of its callers.
Lacks-remove_locked : (i : ℕ) (s : WorkerSet) → IsValid s → Lacks i (remove_locked i s).workers
unfolding remove_locked
Lacks-remove_locked i s v = elim (Bool-cases (holds i s.workers)) [
  | inl e ↦ rw e (Lacks-erase_self i s.workers v.distinct)
  | inr e ↦ rw e (Lacks-of_holds i s.workers e)
]

remove_locked-IsValid : (i : ℕ) (s : WorkerSet) → IsValid s → IsValid (remove_locked i s)
unfolding remove_locked
remove_locked-IsValid i s v = elim (Bool-cases (holds i s.workers)) [
  | inl e ↦
      rw e (record { distinct = AreDistinct-erase i s.workers v.distinct; cursor = ground arith })
  | inr e ↦ rw e v
]

find-remove_locked_ne :
    (i j : ℕ) (s : WorkerSet) → i ≢ j → find j (remove_locked i s).workers ≡ find j s.workers
unfolding remove_locked
find-remove_locked_ne i j s h = elim (Bool-cases (holds i s.workers)) [
  | inl e ↦ rw e (find-erase_ne i j s.workers h)
  | inr e ↦ rw e
]

pub empty_set-IsValid : IsValid empty_set
empty_set-IsValid = record { distinct = tt; cursor = inl refl }

pub set_ready-IsValid : (i c : ℕ) (s : WorkerSet) → IsValid s → IsValid (set_ready i c s)
unfolding set_ready
set_ready-IsValid i c s v =
    let t = remove_locked i s in
    let w : WorkerRoute = record { index = i; outbound = c } in
    let tv : IsValid t = remove_locked-IsValid i s v in
    record {
      distinct = AreDistinct-append t.workers w tv.distinct (Lacks-remove_locked i s v);
      cursor = ground (arith, length-append t.workers (w ∷ []));
    }

pub remove-IsValid : (i : ℕ) (s : WorkerSet) → IsValid s → IsValid (remove i s)
unfolding remove
remove-IsValid i s v = remove_locked-IsValid i s v

pub next_worker-IsValid : (s : WorkerSet) → IsValid s → IsValid (next_worker s).0
unfolding next_worker
next_worker-IsValid s v = elim (Bool-cases (length s.workers == 0)) [
  | inl e ↦ rw e v
  | inr e ↦ rw e (record { distinct = v.distinct; cursor = inr (ground arith) })
]

-- After `SetReady` the worker's datagrams go to the new channel, and those of every other worker
-- where they went before.
pub route_of-set_ready :
    (i c j : ℕ) (s : WorkerSet)
    → IsValid s
    → route_of j (set_ready i c s) ≡ (if i == j then some c else route_of j s)
unfolding route_of set_ready
route_of-set_ready i c j s v =
    let t = remove_locked i s in
    let w : WorkerRoute = record { index = i; outbound = c } in
    elim (Bool-cases (i == j)) [
      | inl e ↦
          let q : i ≡ j = ground arith in
          rw e (
            find-append j t.workers w
              (subst (λ k. Lacks k (remove_locked i s).workers) q (Lacks-remove_locked i s v))
            ∙ rw e)
      | inr e ↦
          let q : i ≢ j = ground arith in
          rw e (find-append_ne j t.workers w q ∙ find-remove_locked_ne i j s q)
    ]

-- After `Remove` the worker has no channel, and every other worker the one that it had.
pub route_of-remove :
    (i j : ℕ) (s : WorkerSet)
    → IsValid s
    → route_of j (remove i s) ≡ (if i == j then none else route_of j s)
unfolding route_of remove
route_of-remove i j s v = elim (Bool-cases (i == j)) [
  | inl e ↦
      let q : i ≡ j = ground arith in
      rw e (
        find_of_Lacks j (remove_locked i s).workers
          (subst (λ k. Lacks k (remove_locked i s).workers) q (Lacks-remove_locked i s v)))
  | inr e ↦ let q : i ≢ j = ground arith in rw e (find-remove_locked_ne i j s q)
]

pub route_of-next_worker : (j : ℕ) (s : WorkerSet) → route_of j (next_worker s).0 ≡ route_of j s
unfolding route_of next_worker
route_of-next_worker j s = ground arith
