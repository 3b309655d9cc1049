-- ===== src/Session/Supervisor/Restart.antt =====
-- A worker that is launched again, and the launches that a session begins with.
use vk_turn_proxy_go.Base.{
  ℕ, zero, suc, ◌+◌, ◌≤◌, ◌<◌, ◌≡◌, refl, sym, ap, ◌∙◌, subst, Bool, false, List, [], ◌∷◌, ◌++◌,
  none, some, arith, get_elem?, set, replicate, length-replicate, get_elem?-set_inv,
  get_elem?_total, get_elem?-replicate, Option-cases, inl, inr, if_intro,
}
use vk_turn_proxy_go.Session.Supervisor.{
  Ingress, WorkerState, Settings, Supervisor, Outcome, running, stopped, panicked, take_one,
  start_worker, start_workers, boot, on_restart,
}
use vk_turn_proxy_go.Session.Supervisor.Counting.{
  bit, total-set, total-replicate_zero, count, count_none,
}
use vk_turn_proxy_go.Session.Supervisor.Budget.{
  Ensures, InBudget, take-InBudget, launch-InBudget, first-InBudget,
}
use vk_turn_proxy_go.Session.Supervisor.Invariant.{
  IngressLaws, ready_at-same, ready_at-replicate, Inv,
}

module _ {S : Type 0} (cfg : Settings) (io : Ingress S) (laws : IngressLaws io) where
  module _ (i : ℕ) (st : WorkerState) (s : Supervisor S) (at : get_elem? s.states i ≡ some st)
      (later : List ℕ) where
    abbrev again : WorkerState
    again = record st { generation = st.generation + 1 }

    abbrev started : Supervisor S
    started = record s {
      states = set s.states i again;
      scheduled = later;
      launched =
          s.launched
          ++ record { index = i; generation = st.generation + 1; outbound = s.next_channel } ∷ [];
      next_channel = s.next_channel + 1;
    }

    started-Inv :
        InBudget cfg started.states later started.launched → Inv cfg laws s → Inv cfg laws started
    started-Inv b v = record {
      core = record {
        budget = b;
        counted = ground (
          arith,
          v.core.counted,
          total-set (λ (w : WorkerState). bit w.ready) s.states i st again at,
        );
        served = λ j. v.core.served j ∙ sym (ready_at-same s.states i j st again at refl);
        sound = v.core.sound;
      };
      told = record { started = v.told.started; gauged = v.told.gauged };
    }

  pub on_restart-Inv :
      (cancelled : Bool) (i : ℕ) (s : Supervisor S)
      → 0 < count i s.scheduled
      → Inv cfg laws s
      → Ensures (Inv cfg laws) (on_restart cfg io cancelled i s)
  unfolding on_restart
  on_restart-Inv cancelled i s p v =
      if_intro (Ensures (Inv cfg laws)) cancelled _ _
        (λ c. record {
          core = record {
            budget = take-InBudget cfg s.states s.scheduled s.launched i v.core.budget;
            counted = v.core.counted;
            served = v.core.served;
            sound = v.core.sound;
          };
          told = record { started = v.told.started; gauged = v.told.gauged };
        })
        (λ c. elim (Option-cases (get_elem? s.states i)) [
          | inl q ↦ rw (q, start_worker) tt
          | inr (st, q) ↦
              rw (q, start_worker)
                (started-Inv i st s q (take_one i s.scheduled)
                  (launch-InBudget cfg s.states s.scheduled s.launched i s.next_channel st q p
                    v.core.budget)
                  v)
        ])

  start_worker_lem :
      (i : ℕ) (st : WorkerState) (s : Supervisor S) (at : get_elem? s.states i ≡ some st)
      → start_worker cfg i s ≡ running (started i st s at s.scheduled)
  unfolding start_worker
  start_worker_lem i st s at = rw (at, start_worker)

  -- The workers from `index` on were not launched yet.
  abbrev IsFresh : ℕ → Supervisor S → Type 0
  IsFresh index s =
      (j : ℕ) (st : WorkerState) → get_elem? s.states j ≡ some st → index ≤ j → st.generation ≡ 0

  IsFresh-after :
      (index : ℕ) (st : WorkerState) (s : Supervisor S) (at : get_elem? s.states index ≡ some st)
      → IsFresh index s
      → IsFresh (index + 1) (started index st s at s.scheduled)
  IsFresh-after index st s at f j w e l =
      elim (get_elem?-set_inv s.states index j st (record st { generation = st.generation + 1 }) w
        at e) [ inl (q, r) ↦ absurd (omega arith) | inr (q, r) ↦ f j w r (omega arith) ]

  -- What `start_workers` ends in: no panic, and the invariant.
  abbrev pub Starts : Outcome S → Type 0
  Starts (running s) = Inv cfg laws s × (s.scheduled ≡ [])
  Starts (stopped s e) = ⊥
  Starts panicked = ⊥

  start_workers-Starts :
      (left index : ℕ) (s : Supervisor S)
      → index + left ≡ cfg.connections
      → s.scheduled ≡ []
      → IsFresh index s
      → Inv cfg laws s
      → Starts (start_workers cfg left index s)
  unfolding start_workers
  start_workers-Starts zero index s h n f v = (v, n)
  start_workers-Starts (suc left) index s h n f v =
      let (st, q) = get_elem?_total s.states index (omega (arith, v.core.budget.size)) in
      let b : InBudget cfg s.states [] s.launched =
        subst (λ l. InBudget cfg s.states l s.launched) n v.core.budget in
      let t : Supervisor S = started index st s q s.scheduled in
      let c : InBudget cfg t.states s.scheduled t.launched =
        subst (λ l. InBudget cfg t.states l t.launched) (sym n)
          (first-InBudget cfg s.states s.launched index s.next_channel st q
            (f index st q (omega arith)) b) in
      rw (start_worker_lem index st s q, start_workers)
        (start_workers-Starts left (index + 1) t (omega arith) n (IsFresh-after index st s q f)
          (started-Inv index st s q s.scheduled c v))

  -- The invariant of the state that `boot` makes before the first launch.
  blank-Inv :
      (a : S)
      → laws.IsSound a
      → ((i : ℕ) → laws.route i a ≡ none)
      → Inv cfg laws (record {
        states = replicate cfg.connections (record { generation = 0; restarts = 0; ready = false });
        ready_workers = 0;
        session_ready = false;
        ingress = a;
        launched = [];
        scheduled = [];
        next_channel = 0;
        reports = [];
      })
  blank-Inv a sound idle =
      let st : WorkerState = record { generation = 0; restarts = 0; ready = false } in
      record {
        core = record {
          budget = record {
            size = length-replicate cfg.connections st;
            spent =
                λ i w e. ground (arith, get_elem?-replicate cfg.connections i st w e, count_none i);
            planned = λ i p. absurd (omega (arith, count_none i));
            known = tt;
            tally =
                sym (
                  total-replicate_zero (λ (w : WorkerState). w.generation) cfg.connections st refl);
          };
          counted =
              sym (total-replicate_zero (λ (w : WorkerState). bit w.ready) cfg.connections st refl);
          served = λ i. rw (idle i) (sym (ready_at-replicate cfg.connections i st refl));
          sound = sound;
        };
        told = record { started = ground arith; gauged = λ o. refl };
      }

  pub boot-Starts :
      (a : S) → laws.IsSound a → ((i : ℕ) → laws.route i a ≡ none) → Starts (boot cfg a)
  unfolding boot
  boot-Starts a sound idle =
      start_workers-Starts cfg.connections 0 _ (omega arith) refl
        (λ j st e l.
          ap (λ (w : WorkerState). w.generation) (get_elem?-replicate cfg.connections j _ st e))
        (blank-Inv a sound idle)
