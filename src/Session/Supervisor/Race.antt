-- ===== src/Session/Supervisor/Race.antt =====
-- What one failure of a worker leads to, and the order of its two messages.
use mathlib.Core.Path.{ap₂}
use vk_turn_proxy_go.Base.{
  ℕ, ◌+◌, ◌<◌, ◌≡◌, refl, ap, ◌∙◌, true, false, not, ◌||◌, [], ◌∷◌, ◌++◌, Option, some, arith, ◌==◌,
  get_elem?, set, length-set, get_elem?-set_self, lt-length_of_get_elem?,
}
use vk_turn_proxy_go.RunStage.{GoError}
use vk_turn_proxy_go.Session.Supervisor.{
  Ingress, WorkerState, Settings, Supervisor, ready, result, running, stopped, report_failure,
  mark_ready, mark_session_ready, mark_lost, schedule_restart, after_loss, on_ready, on_result,
  on_restart, restart, Launch, start_worker, take_one, run, stage_string,
}

module _ {S : Type 0} (cfg : Settings) (io : Ingress S) (i : ℕ) (st : WorkerState)
    (s : Supervisor S) (at : get_elem? s.states i ≡ some st) where
  scheduled-mark_lost : (mark_lost cfg io i st s).scheduled ≡ s.scheduled
  unfolding mark_lost
  scheduled-mark_lost = ground arith

  scheduled-schedule_restart :
      (e : GoError) (t : Supervisor S)
      → (schedule_restart cfg io i st e t).scheduled ≡ t.scheduled ++ i ∷ []
  unfolding schedule_restart
  scheduled-schedule_restart e t = ground arith

  on_result_lem :
      (e : Option GoError)
      → on_result cfg io false i st.generation e s
        ≡ after_loss cfg io i st e (mark_lost cfg io i st s)
  unfolding on_result
  on_result_lem e =
      let g : (st.generation == st.generation) ≡ true = ground arith in rw (at, on_result) (rw g)

  states-mark_lost :
      st.ready ≡ true
      → (mark_lost cfg io i st s).states ≡ set s.states i (record st { ready = false })
  unfolding mark_lost
  states-mark_lost live = ground arith

  states-schedule_restart :
      (e : GoError) (t : Supervisor S)
      → (schedule_restart cfg io i st e t).states
        ≡ set t.states i (record st { ready = false; restarts = st.restarts + 1 })
  unfolding schedule_restart
  states-schedule_restart e t = ground arith

  -- Neither function launches a worker.
  launches-failure :
      (e : GoError)
      → let t = schedule_restart cfg io i st e (mark_lost cfg io i st s) in
        (t.launched ≡ s.launched) × (t.next_channel ≡ s.next_channel)
  unfolding schedule_restart mark_lost
  launches-failure e = (ground arith, ground arith)

  after_loss_room :
      (e : GoError) (t : Supervisor S)
      → st.ready ≡ true
      → st.restarts < cfg.max_worker_restarts
      → after_loss cfg io i st (some e) t ≡ running (schedule_restart cfg io i st e t)
  unfolding after_loss
  after_loss_room e t live room = ground arith

  after_loss_idle :
      (e : GoError) (t : Supervisor S)
      → st.ready ≡ false
      → after_loss cfg io i st (some e) t
        ≡ stopped (report_failure cfg (stage_string e) true t) (some e)
  unfolding after_loss
  after_loss_idle e t idle = ground arith

  mark_lost_idle : st.ready ≡ false → mark_lost cfg io i st s ≡ s
  unfolding mark_lost
  mark_lost_idle idle = ground arith

  result_idle :
      (e : GoError)
      → st.ready ≡ false
      → on_result cfg io false i st.generation (some e) s
        ≡ stopped (report_failure cfg (stage_string e) true s) (some e)
  result_idle e idle =
      on_result_lem (some e)
      ∙ after_loss_idle e _ idle
      ∙ ap (λ t. stopped (report_failure cfg (stage_string e) true t) (some e))
          (mark_lost_idle idle)

  result_live :
      (e : GoError)
      → st.ready ≡ true
      → st.restarts < cfg.max_worker_restarts
      → on_result cfg io false i st.generation (some e) s
        ≡ running (schedule_restart cfg io i st e (mark_lost cfg io i st s))
  result_live e live room = on_result_lem (some e) ∙ after_loss_room e _ live room

  on_restart_lem :
      on_restart cfg io false i s
      ≡ running (record s {
        states = set s.states i (record st { generation = st.generation + 1 });
        scheduled = take_one i s.scheduled;
        launched =
            s.launched
            ++ record { index = i; generation = st.generation + 1; outbound = s.next_channel } ∷ [];
        next_channel = s.next_channel + 1;
      })
  unfolding on_restart
  on_restart_lem = rw (at, start_worker)

  ready_lem :
      (c : ℕ)
      → st.ready ≡ false
      → on_ready cfg io i st.generation c s
        ≡ running (mark_session_ready cfg io (mark_ready cfg io i c st s))
  unfolding on_ready
  ready_lem c idle =
      let g : (not (st.generation == st.generation) || st.ready) ≡ false = ground arith in
      rw (at, on_ready) (rw g)

  states-mark_ready :
      (c : ℕ)
      → (mark_session_ready cfg io (mark_ready cfg io i c st s)).states
        ≡ set s.states i (record st { ready = true })
  unfolding mark_session_ready mark_ready
  states-mark_ready c = ground arith

  scheduled-mark_ready :
      (c : ℕ) → (mark_session_ready cfg io (mark_ready cfg io i c st s)).scheduled ≡ s.scheduled
  unfolding mark_session_ready mark_ready
  scheduled-mark_ready c = ground arith

-- The launch of a worker again, by the number of its generation.
abbrev pub relaunch : ℕ → WorkerState → ℕ → Launch
relaunch i st c = record { index = i; generation = st.generation + 1; outbound = c }

module _ {S : Type 0} (cfg : Settings) (io : Ingress S) (i : ℕ) (st : WorkerState)
    (s : Supervisor S) (at : get_elem? s.states i ≡ some st) (e : GoError) where
  abbrev after_failure : Supervisor S
  after_failure = schedule_restart cfg io i st e (mark_lost cfg io i st s)

  abbrev due : WorkerState
  due = record st { ready = false; restarts = st.restarts + 1 }

  states-after_failure : st.ready ≡ true → get_elem? after_failure.states i ≡ some due
  states-after_failure live =
      let gone : WorkerState = record st { ready = false } in
      let n = lt-length_of_get_elem? s.states i st at in
      rw
        (
          states-schedule_restart cfg io i st s at e (mark_lost cfg io i st s),
          states-mark_lost cfg io i st s at live,
        )
        (get_elem?-set_self (set s.states i gone) i due
          (omega (arith, n, length-set s.states i gone)))

  -- A ready worker that fails with restarts left, in a session that goes on, is launched again when
  -- its restart is due: in the next generation, not ready, with one restart more used, and with a
  -- channel of its own.
  pub run-result-restart :
      st.ready ≡ true
      → st.restarts < cfg.max_worker_restarts
      → (u : Supervisor S) × (run cfg io
            ((false, result i st.generation (some e)) ∷ (false, restart i) ∷ [])
            s
          ≡ running u)
        × (get_elem? u.states i
            ≡ some (record {
              generation = st.generation + 1;
              restarts = st.restarts + 1;
              ready = false;
            }))
        × (u.launched ≡ s.launched ++ relaunch i st s.next_channel ∷ [])
  unfolding run
  run-result-restart live room =
      let t = after_failure in
      let q = states-after_failure live in
      let (l, n) = launches-failure cfg io i st s at e in
      let new : WorkerState = record due { generation = st.generation + 1 } in
      (
        record t {
          states = set t.states i new;
          scheduled = take_one i t.scheduled;
          launched = t.launched ++ relaunch i st t.next_channel ∷ [];
          next_channel = t.next_channel + 1;
        },
        rw (result_live cfg io i st s at e live room, run)
            (rw (on_restart_lem cfg io i due t q, run)),
        get_elem?-set_self t.states i new (lt-length_of_get_elem? t.states i due q),
        ap₂ (λ ls c. ls ++ relaunch i st c ∷ []) l n,
      )

  -- A worker sends its readiness and its failure over two channels, and the loop may take either
  -- first. If it takes the readiness first, the failure is within the budget and a restart is
  -- scheduled; if it takes the failure first, the whole session ends with the worker's error, as
  -- one that failed at startup, whatever is left of the budget.
  pub run-race :
      (c : ℕ)
      → st.ready ≡ false
      → st.restarts < cfg.max_worker_restarts
      → ((u : Supervisor S) × (run cfg io
              ((false, ready i st.generation c) ∷ (false, result i st.generation (some e)) ∷ [])
              s
            ≡ running u)
          × (u.scheduled ≡ s.scheduled ++ i ∷ []))
        × (run cfg io
              ((false, result i st.generation (some e)) ∷ (false, ready i st.generation c) ∷ [])
              s
            ≡ stopped (report_failure cfg (stage_string e) true s) (some e))
  unfolding run
  run-race c idle room =
      let t = mark_session_ready cfg io (mark_ready cfg io i c st s) in
      let live : WorkerState = record st { ready = true } in
      let at' : get_elem? t.states i ≡ some live =
        rw (states-mark_ready cfg io i st s at c)
          (get_elem?-set_self s.states i live (lt-length_of_get_elem? s.states i st at)) in
      (
        (
          schedule_restart cfg io i live e (mark_lost cfg io i live t),
          rw (ready_lem cfg io i st s at c idle, run)
              (rw (result_live cfg io i live t at' e refl room, run)),
          scheduled-schedule_restart cfg io i live t at' e (mark_lost cfg io i live t)
              ∙ ap (λ l. l ++ i ∷ [])
                  (scheduled-mark_lost cfg io i live t at'
                    ∙ scheduled-mark_ready cfg io i st s at c),
        ),
        rw (result_idle cfg io i st s at e idle, run),
      )
