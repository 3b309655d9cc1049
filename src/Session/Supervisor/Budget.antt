-- ===== src/Session/Supervisor/Budget.antt =====
-- The restart budget: how often the workers of a session are launched.
use vk_turn_proxy_go.Base.{
  ℕ, ◌+◌, ◌*◌, ◌≤◌, ◌<◌, ◌≡◌, List, [], ◌∷◌, ◌++◌, some, arith, ◌==◌, length, get_elem?, set, All,
  All-append, length-append, length-set, get_elem?-set_inv, lt-length_of_get_elem?, Bool-cases, inl,
  inr,
}
use vk_turn_proxy_go.Session.Supervisor.{
  WorkerState, Launch, Settings, Supervisor, Outcome, running, stopped, panicked, take_one,
}
use vk_turn_proxy_go.Session.Supervisor.Counting.{
  total-set, total-le, count_launches, count, count-append, count_singleton, count_none,
  count-take_one_le, count-take_one_self,
}

-- What an outcome's state satisfies; nothing is asked of a panic.
abbrev pub Ensures : {S : Type 0} → (Supervisor S → Type 0) → Outcome S → Type 0
Ensures P (running s) = P s
Ensures P (stopped s e) = P s
Ensures P panicked = Unit

module _ (cfg : Settings) where
  pub record InBudget (states : List WorkerState) (scheduled : List ℕ) (launched : List Launch)
      : Type 0 where
    pub size : length states ≡ cfg.connections
    -- Every launch of a worker is its first or uses one of its restarts.
    pub spent :
        (i : ℕ) (st : WorkerState)
        → get_elem? states i ≡ some st
        → (st.restarts ≤ cfg.max_worker_restarts)
          × (st.generation + count i scheduled ≤ 1 + st.restarts)
    pub planned : (i : ℕ) → 0 < count i scheduled → i < cfg.connections
    pub known : All (λ (l : Launch). l.index < cfg.connections) launched
    pub tally : length launched ≡ count_launches states

  -- A worker whose launches and restarts stay as they were.
  pub set-InBudget :
      (states : List WorkerState) (scheduled : List ℕ) (launched : List Launch) (i : ℕ)
      (old new : WorkerState)
      → get_elem? states i ≡ some old
      → new.generation ≡ old.generation
      → new.restarts ≡ old.restarts
      → InBudget states scheduled launched
      → InBudget (set states i new) scheduled launched
  set-InBudget states scheduled launched i old new h g r b = record {
    size = omega (arith, length-set states i new, b.size);
    spent = λ j st e. elim (get_elem?-set_inv states i j old new st h e) [
      | inl (p, q) ↦ ground (arith, b.spent i old h)
      | inr (p, q) ↦ b.spent j st q
    ];
    planned = b.planned;
    known = b.known;
    tally =
        omega
          (arith, total-set (λ (st : WorkerState). st.generation) states i old new h, b.tally, g);
  }

  pub schedule-InBudget :
      (states : List WorkerState) (scheduled : List ℕ) (launched : List Launch) (i : ℕ)
      (old new : WorkerState)
      → get_elem? states i ≡ some old
      → new.generation ≡ old.generation
      → new.restarts ≡ old.restarts + 1
      → old.restarts < cfg.max_worker_restarts
      → InBudget states scheduled launched
      → InBudget (set states i new) (scheduled ++ i ∷ []) launched
  schedule-InBudget states scheduled launched i old new h g r l b = record {
    size = omega (arith, length-set states i new, b.size);
    spent = λ j st e. elim (get_elem?-set_inv states i j old new st h e) [
      | inl (p, q) ↦
          ground (arith, b.spent i old h, count-append j scheduled (i ∷ []), count_singleton j i)
      | inr (p, q) ↦
          ground (arith, b.spent j st q, count-append j scheduled (i ∷ []), count_singleton j i)
    ];
    planned = λ j p. elim (Bool-cases (i == j)) [
      | inl q ↦ ground (arith, lt-length_of_get_elem? states i old h, b.size)
      | inr q ↦ b.planned j (ground (arith, count-append j scheduled (i ∷ []), count_singleton j i))
    ];
    known = b.known;
    tally =
        omega
          (arith, total-set (λ (st : WorkerState). st.generation) states i old new h, b.tally, g);
  }

  pub take-InBudget :
      (states : List WorkerState) (scheduled : List ℕ) (launched : List Launch) (i : ℕ)
      → InBudget states scheduled launched
      → InBudget states (take_one i scheduled) launched
  take-InBudget states scheduled launched i b = record {
    size = b.size;
    spent = λ j st e. ground (arith, b.spent j st e, count-take_one_le j i scheduled);
    planned = λ j p. b.planned j (omega (arith, count-take_one_le j i scheduled));
    known = b.known;
    tally = b.tally;
  }

  pub launch-InBudget :
      (states : List WorkerState) (scheduled : List ℕ) (launched : List Launch) (i c : ℕ)
      (old : WorkerState)
      → get_elem? states i ≡ some old
      → 0 < count i scheduled
      → InBudget states scheduled launched
      → InBudget
          (set states i (record old { generation = old.generation + 1 }))
          (take_one i scheduled)
          (launched ++ record { index = i; generation = old.generation + 1; outbound = c } ∷ [])
  launch-InBudget states scheduled launched i c old h p b =
      let new : WorkerState = record old { generation = old.generation + 1 } in
      let l : Launch = record { index = i; generation = old.generation + 1; outbound = c } in
      record {
        size = omega (arith, length-set states i new, b.size);
        spent = λ j st e. elim (get_elem?-set_inv states i j old new st h e) [
          | inl (q, r) ↦ ground (arith, b.spent i old h, count-take_one_self i scheduled p)
          | inr (q, r) ↦ ground (arith, b.spent j st r, count-take_one_le j i scheduled)
        ];
        planned = λ j q. b.planned j (omega (arith, count-take_one_le j i scheduled));
        known =
            All-append (λ (k : Launch). k.index < cfg.connections) launched (l ∷ []) b.known
              (b.planned i p, tt);
        tally = omega (
          arith,
          length-append launched (l ∷ []),
          b.tally,
          total-set (λ (st : WorkerState). st.generation) states i old new h,
        );
      }

  -- The first launch of a worker, before any restart is planned.
  pub first-InBudget :
      (states : List WorkerState) (launched : List Launch) (i c : ℕ) (old : WorkerState)
      → get_elem? states i ≡ some old
      → old.generation ≡ 0
      → InBudget states [] launched
      → InBudget
          (set states i (record old { generation = old.generation + 1 }))
          []
          (launched ++ record { index = i; generation = old.generation + 1; outbound = c } ∷ [])
  first-InBudget states launched i c old h z b =
      let new : WorkerState = record old { generation = old.generation + 1 } in
      let l : Launch = record { index = i; generation = old.generation + 1; outbound = c } in
      record {
        size = omega (arith, length-set states i new, b.size);
        spent = λ j st e. elim (get_elem?-set_inv states i j old new st h e) [
          | inl (q, r) ↦ ground (arith, b.spent i old h, count_none j)
          | inr (q, r) ↦ b.spent j st r
        ];
        planned = b.planned;
        known =
            All-append (λ (k : Launch). k.index < cfg.connections) launched (l ∷ []) b.known
              (omega (arith, lt-length_of_get_elem? states i old h, b.size), tt);
        tally = omega (
          arith,
          length-append launched (l ∷ []),
          b.tally,
          total-set (λ (st : WorkerState). st.generation) states i old new h,
        );
      }

  -- A session in budget has launched each worker at most once more than the budget of restarts.
  pub launches-bound :
      (states : List WorkerState) (scheduled : List ℕ) (launched : List Launch)
      → InBudget states scheduled launched
      → length launched ≤ cfg.connections * (1 + cfg.max_worker_restarts)
  launches-bound states scheduled launched b =
      rw (b.tally, ← b.size)
        (total-le (λ (st : WorkerState). st.generation) (1 + cfg.max_worker_restarts) states
          (λ i st e. ground (arith, b.spent i st e)))
