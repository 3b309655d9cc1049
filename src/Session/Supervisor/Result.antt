-- ===== src/Session/Supervisor/Result.antt =====
-- A worker whose runner has ended.
use vk_turn_proxy_go.Base.{
  ℕ, ◌+◌, ◌-◌, ◌<◌, ◌≡◌, refl, sym, ◌∙◌, Bool, true, false, not, [], ◌∷◌, ◌++◌, Option, none, some,
  arith, ◌==◌, ltb, get_elem?, set, Option-cases, inl, inr, if_intro, get_elem?-set_self,
  lt-length_of_get_elem?,
}
use Prim.Native.String.{String}
use vk_turn_proxy_go.RunStage.{GoError}
use vk_turn_proxy_go.Session.Supervisor.{
  Ingress, WorkerState, active_workers, Settings, Supervisor, report, report_failure, mark_lost,
  schedule_restart, after_loss, on_result, stage_string, supervision,
}
use vk_turn_proxy_go.Session.Supervisor.Counting.{bit, total-set, le-total}
use vk_turn_proxy_go.Session.Supervisor.Budget.{Ensures, set-InBudget, schedule-InBudget}
use vk_turn_proxy_go.Session.Supervisor.Invariant.{
  IngressLaws, ready_at-set, ready_at-same, Core, report-Core, report-Told, Inv,
}

module _ {S : Type 0} (cfg : Settings) (io : Ingress S) (laws : IngressLaws io) where
  open laws use {route, route-remove, remove-IsSound}

  -- Reports of a failure change nothing that the invariant speaks of.
  pub report_failure-Inv :
      (stage : String) (startup : Bool) (s : Supervisor S)
      → Inv cfg laws s
      → Inv cfg laws (report_failure cfg stage startup s)
  unfolding report_failure
  report_failure-Inv stage startup s v = record {
    core = report-Core cfg laws _ s v.core;
    told = report-Told cfg _ s v.told.started refl v.told.gauged;
  }

  module _ (i : ℕ) (st : WorkerState) (s : Supervisor S) (at : get_elem? s.states i ≡ some st) where
    abbrev gone : WorkerState
    gone = record st { ready = false }

    abbrev left : Supervisor S
    left = record s {
      states = set s.states i gone;
      ready_workers = s.ready_workers - 1;
      ingress = io.remove i s.ingress;
    }

    left-Core : st.ready ≡ true → Core cfg laws s → Core cfg laws left
    left-Core live k = record {
      budget = set-InBudget cfg s.states s.scheduled s.launched i st gone at refl refl k.budget;
      counted = ground (
        arith,
        k.counted,
        total-set (λ (w : WorkerState). bit w.ready) s.states i st gone at,
        le-total (λ (w : WorkerState). bit w.ready) s.states i st at,
      );
      served = λ j. ground (
        arith,
        k.served j,
        route-remove i j s.ingress k.sound,
        ready_at-set s.states i j st gone at,
      );
      sound = remove-IsSound i s.ingress k.sound;
    }

    mark_lost-Inv : Inv cfg laws s → Inv cfg laws (mark_lost cfg io i st s)
    unfolding mark_lost
    mark_lost-Inv v =
        if_intro (Inv cfg laws) st.ready
          (report cfg (active_workers (s.ready_workers - 1) ∷ []) left) s
          (λ live. record {
            core = report-Core cfg laws _ left (left-Core live v.core);
            told = report-Told cfg _ left v.told.started refl (λ o. refl);
          })
          (λ idle. v)

    states-mark_lost : st.ready ≡ true → (mark_lost cfg io i st s).states ≡ set s.states i gone
    unfolding mark_lost
    states-mark_lost live = ground arith

  module _ (i : ℕ) (st : WorkerState) (e : GoError) (s : Supervisor S)
      (at : get_elem? s.states i ≡ some (record st { ready = false }))
      (room : st.restarts < cfg.max_worker_restarts) where
    abbrev due : WorkerState
    due = record st { ready = false; restarts = st.restarts + 1 }

    abbrev planned : Supervisor S
    planned = record s { states = set s.states i due; scheduled = s.scheduled ++ i ∷ [] }

    planned-Core : Core cfg laws s → Core cfg laws planned
    planned-Core k = record {
      budget =
          schedule-InBudget cfg s.states s.scheduled s.launched i (record st { ready = false }) due
            at refl refl room k.budget;
      counted = ground (
        arith,
        k.counted,
        total-set (λ (w : WorkerState). bit w.ready) s.states i (record st { ready = false }) due
            at,
      );
      served = λ j.
          k.served j ∙ sym (ready_at-same s.states i j (record st { ready = false }) due at refl);
      sound = k.sound;
    }

    schedule_restart-Inv : Inv cfg laws s → Inv cfg laws (schedule_restart cfg io i st e s)
    unfolding schedule_restart
    schedule_restart-Inv v = record {
      core = report-Core cfg laws _ planned (planned-Core v.core);
      told = report-Told cfg _ planned v.told.started refl v.told.gauged;
    }

  after_loss-Inv :
      (i : ℕ) (st : WorkerState) (e : Option GoError) (s : Supervisor S)
      → (st.ready ≡ true → get_elem? s.states i ≡ some (record st { ready = false }))
      → Inv cfg laws s
      → Ensures (Inv cfg laws) (after_loss cfg io i st e s)
  unfolding after_loss
  after_loss-Inv i st none s at v = report_failure-Inv supervision (not s.session_ready) s v
  after_loss-Inv i st (some e) s at v =
      if_intro (Ensures (Inv cfg laws)) (not st.ready) _ _
        (λ idle. report_failure-Inv (stage_string e) true s v)
        (λ live.
          if_intro (Ensures (Inv cfg laws)) (ltb st.restarts cfg.max_worker_restarts) _ _
            (λ room. schedule_restart-Inv i st e s (at (ground arith)) (ground arith) v)
            (λ full. report_failure-Inv supervision false s v))

  pub on_result-Inv :
      (cancelled : Bool) (i g : ℕ) (e : Option GoError) (s : Supervisor S)
      → Inv cfg laws s
      → Ensures (Inv cfg laws) (on_result cfg io cancelled i g e s)
  unfolding on_result
  on_result-Inv cancelled i g e s v = elim (Option-cases (get_elem? s.states i)) [
    | inl q ↦ rw (q, on_result) tt
    | inr (st, q) ↦
        let t = mark_lost cfg io i st s in
        let w : Inv cfg laws t = mark_lost-Inv i st s q v in
        rw (q, on_result)
          (if_intro (Ensures (Inv cfg laws)) (not (st.generation == g)) _ _ (λ stale. v)
            (λ current.
              if_intro (Ensures (Inv cfg laws)) cancelled _ _ (λ c. w)
                (λ c.
                  after_loss-Inv i st e t
                    (λ live.
                      rw (states-mark_lost i st s q live)
                        (get_elem?-set_self s.states i _ (lt-length_of_get_elem? s.states i st q)))
                    w)))
  ]
