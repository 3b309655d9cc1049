-- ===== src/Session/Supervisor/Ready.antt =====
-- A worker that reports ready.
use vk_turn_proxy_go.Base.{
  ℕ, ◌+◌, ◌≡◌, refl, sym, ◌∙◌, true, false, not, ◌&&◌, ◌||◌, List, [], ◌∷◌, some, arith, ◌==◌,
  get_elem?, set, Option-cases, inl, inr, if_intro,
}
use vk_turn_proxy_go.Session.Supervisor.{
  Ingress, WorkerState, Report, session_start, emit, Settings, Supervisor, running, report,
  mark_ready, mark_session_ready, on_ready, supervision,
}
use vk_turn_proxy_go.Session.Supervisor.Counting.{bit, total-set}
use vk_turn_proxy_go.Session.Supervisor.Budget.{Ensures, set-InBudget}
use vk_turn_proxy_go.Session.Supervisor.Invariant.{
  IngressLaws, ready_at-set, Core, report-Core, report-Told, starts-report, gauge-report,
  session_ready-report, ready_workers-report, Inv,
}

module _ {S : Type 0} (cfg : Settings) (io : Ingress S) (laws : IngressLaws io) where
  open laws use {route, route-set_ready, set_ready-IsSound}

  module _ (i c : ℕ) (st : WorkerState) (s : Supervisor S) (at : get_elem? s.states i ≡ some st)
      (idle : st.ready ≡ false) where
    abbrev entered : Supervisor S
    entered = record s {
      states = set s.states i (record st { ready = true });
      ready_workers = s.ready_workers + 1;
      ingress = io.set_ready i c s.ingress;
    }

    entered-Core : Core cfg laws s → Core cfg laws entered
    entered-Core k = record {
      budget = set-InBudget cfg s.states s.scheduled s.launched i st _ at refl refl k.budget;
      counted = ground (
        arith,
        k.counted,
        total-set (λ (w : WorkerState). bit w.ready) s.states i st (record st { ready = true }) at,
      );
      served = λ j. ground (
        arith,
        k.served j,
        route-set_ready i c j s.ingress k.sound,
        ready_at-set s.states i j st (record st { ready = true }) at,
      );
      sound = set_ready-IsSound i c s.ingress k.sound;
    }

    mark_ready-Inv : Inv cfg laws s → Inv cfg laws (mark_ready cfg io i c st s)
    unfolding mark_ready
    mark_ready-Inv v = record {
      core = report-Core cfg laws _ entered (entered-Core v.core);
      told = report-Told cfg _ entered v.told.started refl (λ o. refl);
    }

  abbrev start_reports : List Report
  start_reports = session_start ∷ emit "runtime_ready" supervision "succeeded" ∷ []

  started-Inv :
      (s : Supervisor S)
      → s.session_ready ≡ false
      → Inv cfg laws s
      → Inv cfg laws (report cfg start_reports (record s { session_ready = true }))
  started-Inv s n v =
      let t : Supervisor S = record s { session_ready = true } in
      record {
        core = report-Core cfg laws start_reports t (record {
          budget = v.core.budget;
          counted = v.core.counted;
          served = v.core.served;
          sound = v.core.sound;
        });
        told = record {
          started = ground (
            arith,
            v.told.started,
            starts-report cfg start_reports t,
            session_ready-report cfg start_reports t,
          );
          gauged = λ o.
              gauge-report cfg start_reports t o
              ∙ v.told.gauged o
              ∙ sym (ready_workers-report cfg start_reports t);
        };
      }

  mark_session_ready-Inv :
      (s : Supervisor S) → Inv cfg laws s → Inv cfg laws (mark_session_ready cfg io s)
  unfolding mark_session_ready
  mark_session_ready-Inv s v =
      if_intro (Inv cfg laws) (not s.session_ready && s.ready_workers == cfg.connections)
        (report cfg start_reports (record s { session_ready = true })) s
        (λ e. started-Inv s (ground arith) v) (λ e. v)

  pub on_ready-Inv :
      (i g c : ℕ) (s : Supervisor S)
      → Inv cfg laws s
      → Ensures (Inv cfg laws) (on_ready cfg io i g c s)
  unfolding on_ready
  on_ready-Inv i g c s v = elim (Option-cases (get_elem? s.states i)) [
    | inl e ↦ rw (e, on_ready) tt
    | inr (st, e) ↦
        rw (e, on_ready)
          (if_intro (Ensures (Inv cfg laws)) (not (st.generation == g) || st.ready) (running s)
            (running (mark_session_ready cfg io (mark_ready cfg io i c st s))) (λ skip. v)
            (λ take.
              mark_session_ready-Inv (mark_ready cfg io i c st s)
                (mark_ready-Inv i c st s e (ground arith) v)))
  ]
