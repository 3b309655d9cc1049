-- ===== src/Session/Supervisor.antt =====
-- internal/session/supervisor.go: the loop that supervises the workers of a session. Each round of
-- its `select` is one event; which events are ready, and in which order they are taken, is the
-- environment's choice. A goroutine that the loop starts is recorded in the state, and the events
-- that it may send are those of `Sent` in Reach.
pub mod Counting
pub mod Budget
pub mod Invariant
pub mod Ready
pub mod Result
pub mod Restart
pub mod Reach
pub mod Race
use Prim.Native.String.{String}
use vk_turn_proxy_go.Base.{
  ℕ, zero, suc, ◌+◌, ◌-◌, Bool, true, false, not, ◌&&◌, ◌||◌, List, [], ◌∷◌, ◌++◌, Option, none,
  some, ◌==◌, ltb, if◌then◌else◌, get_elem?, set, replicate,
}
use vk_turn_proxy_go.RunStage.{
  GoError, plain, wrapped, staged, session_supervise, forwarding_loop, worker_stopped,
  budget_exhausted, stage_text, from_error, wrap,
}

-- The part of `overlay.Ingress` that the loop calls on a state `S` of the adapter.
pub record Ingress (S : Type 0) : Type 0 where
  pub set_ready : ℕ → ℕ → S → S
  pub remove : ℕ → S → S

pub record WorkerState : Type 0 where
  pub generation : ℕ
  pub restarts : ℕ
  pub ready : Bool

-- A goroutine that runs a worker, with the channel made for it.
pub record Launch : Type 0 where
  pub index : ℕ
  pub generation : ℕ
  pub outbound : ℕ

-- The calls of the observer. Of an emitted event the name, the stage and the result are kept.
pub data Report : Type 0 where
  session_start : Report
  session_failure : (stage : String) (startup : Bool) → Report
  transport_failure : (stage : String) → Report
  active_workers : ℕ → Report
  emit : (event stage result : String) → Report

pub record Settings : Type 0 where
  pub connections : ℕ
  pub max_worker_restarts : ℕ
  pub observing : Bool  -- `observer != nil`

pub record Supervisor (S : Type 0) : Type 0 where
  pub states : List WorkerState
  pub ready_workers : ℕ
  pub session_ready : Bool
  pub ingress : S
  pub launched : List Launch
  pub scheduled : List ℕ  -- the restarts that wait for their backoff, or in `restartCh`
  pub next_channel : ℕ
  pub reports : List Report

pub data Event : Type 0 where
  ready : (index generation outbound : ℕ) → Event
  result : (index generation : ℕ) → Option GoError → Event
  restart : (index : ℕ) → Event
  ingress_done : Option GoError → Event
  ctx_done : Event

-- After a round: the loop goes on, it breaks with a value of `sessionErr`, or an index is out of
-- range.
pub data Outcome (S : Type 0) : Type 0 where
  running : Supervisor S → Outcome S
  stopped : Supervisor S → Option GoError → Outcome S
  panicked : Outcome S

unfoldable pub stage_string : GoError → String
stage_string e = elim (from_error e) [ none ↦ "runtime" | some s ↦ stage_text s ]

abbrev supervision : String
supervision = stage_text session_supervise

-- Drops one occurrence: what a receive from `restartCh` takes.
pub take_one : ℕ → List ℕ → List ℕ
take_one index [] = []
take_one index (i ∷ is) = let rest = take_one index is in if i == index then is else i ∷ rest

module _ {S : Type 0} (cfg : Settings) where
  pub report : List Report → Supervisor S → Supervisor S
  report rs s = if cfg.observing then record s { reports = s.reports ++ rs } else s

  -- `runtime_failure`, with the two counters before it.
  pub report_failure : String → Bool → Supervisor S → Supervisor S
  unfolding report
  report_failure stage startup = report (
      transport_failure stage
      ∷ session_failure stage startup
      ∷ emit "runtime_failure" stage "failed"
      ∷ [])

  -- `startWorker`, but for the goroutine's own work.
  pub start_worker : ℕ → Supervisor S → Outcome S
  start_worker index s = elim (get_elem? s.states index) [
    | none ↦ panicked
    | some st ↦ running (record s {
      states = set s.states index (record st { generation = st.generation + 1 });
      launched =
          s.launched
          ++ record { index = index; generation = st.generation + 1; outbound = s.next_channel }
            ∷ [];
      next_channel = s.next_channel + 1;
    })
  ]

  -- `for index := 0; index < plan.Connections; index++`, with the rounds left.
  pub start_workers : ℕ → ℕ → Supervisor S → Outcome S
  unfolding start_worker
  start_workers zero index s = running s
  start_workers (suc left) index s = elim (start_worker index s) [
    | running t ↦ start_workers left (index + 1) t
    | stopped t e ↦ stopped t e
    | panicked ↦ panicked
  ]

  -- The state that the loop begins with, over the ingress as it is.
  unfoldable pub boot : S → Outcome S
  unfolding start_workers
  boot ingress = start_workers cfg.connections 0 (record {
    states = replicate cfg.connections (record { generation = 0; restarts = 0; ready = false });
    ready_workers = 0;
    session_ready = false;
    ingress = ingress;
    launched = [];
    scheduled = [];
    next_channel = 0;
    reports = [];
  })

  module _ (io : Ingress S) where
    -- The state after a worker is entered as ready.
    pub mark_ready : ℕ → ℕ → WorkerState → Supervisor S → Supervisor S
    unfolding report
    mark_ready index outbound st s =
        report (active_workers (s.ready_workers + 1) ∷ emit "worker_ready" supervision "ready" ∷ [])
          (record s {
            states = set s.states index (record st { ready = true });
            ready_workers = s.ready_workers + 1;
            ingress = io.set_ready index outbound s.ingress;
          })

    pub mark_session_ready : Supervisor S → Supervisor S
    unfolding report
    mark_session_ready s =
        if not s.session_ready && s.ready_workers == cfg.connections
        then report (session_start ∷ emit "runtime_ready" supervision "succeeded" ∷ [])
            (record s { session_ready = true })
        else s

    -- `case ready := <-readyCh`.
    pub on_ready : ℕ → ℕ → ℕ → Supervisor S → Outcome S
    unfolding mark_ready mark_session_ready
    on_ready index generation outbound s = elim (get_elem? s.states index) [
      | none ↦ panicked
      | some st ↦
          if not (st.generation == generation) || st.ready
          then running s
          else running (mark_session_ready (mark_ready index outbound st s))
    ]

    -- `if wasReady { … }`.
    pub mark_lost : ℕ → WorkerState → Supervisor S → Supervisor S
    unfolding report
    mark_lost index st s =
        if st.ready
        then report (active_workers (s.ready_workers - 1) ∷ []) (record s {
          states = set s.states index (record st { ready = false });
          ready_workers = s.ready_workers - 1;
          ingress = io.remove index s.ingress;
        })
        else s

    pub schedule_restart : ℕ → WorkerState → GoError → Supervisor S → Supervisor S
    unfolding report
    schedule_restart index st e s =
        report
          (transport_failure (stage_string e)
            ∷ emit "worker_restart_scheduled" (stage_string e) "retrying"
            ∷ [])
          (record s {
            states = set s.states index (record st { ready = false; restarts = st.restarts + 1 });
            scheduled = s.scheduled ++ index ∷ [];
          })

    -- The rest of the round, once the lost worker is taken out; `st` is its state before.
    pub after_loss : ℕ → WorkerState → Option GoError → Supervisor S → Outcome S
    unfolding report_failure schedule_restart
    after_loss index st none s =
        stopped (report_failure supervision (not s.session_ready) s)
          (some (staged session_supervise (plain (worker_stopped index))))
    after_loss index st (some e) s =
        if not st.ready
        then stopped (report_failure (stage_string e) true s) (some e)
        else if ltb st.restarts cfg.max_worker_restarts
        then running (schedule_restart index st e s)
        else stopped (report_failure supervision false s)
            (some (staged session_supervise (wrapped (budget_exhausted index st.restarts) e)))

    -- `case result := <-resultCh`; `cancelled` says whether `supervisorCtx.Err() != nil` by then.
    pub on_result : Bool → ℕ → ℕ → Option GoError → Supervisor S → Outcome S
    unfolding mark_lost after_loss
    on_result cancelled index generation e s = elim (get_elem? s.states index) [
      | none ↦ panicked
      | some st ↦
          if not (st.generation == generation)
          then running s
          else if cancelled
          then running (mark_lost index st s)
          else after_loss index st e (mark_lost index st s)
    ]

    -- `case index := <-restartCh`.
    pub on_restart : Bool → ℕ → Supervisor S → Outcome S
    unfolding start_worker take_one
    on_restart cancelled index s =
        let t = record s { scheduled = take_one index s.scheduled } in
        if cancelled then running t else start_worker index t

    -- `case err := <-ingressErrCh`.
    pub on_ingress_done : Bool → Option GoError → Supervisor S → Outcome S
    unfolding report_failure
    on_ingress_done cancelled none s = stopped s none
    on_ingress_done cancelled (some e) s =
        if cancelled
        then stopped s none
        else stopped (report_failure (stage_text forwarding_loop) (not s.session_ready) s)
            (wrap forwarding_loop (some e))

    unfoldable pub handle : Bool → Event → Supervisor S → Outcome S
    unfolding on_ready on_result on_restart on_ingress_done
    handle cancelled (ready index generation outbound) s = on_ready index generation outbound s
    handle cancelled (result index generation e) s = on_result cancelled index generation e s
    handle cancelled (restart index) s = on_restart cancelled index s
    handle cancelled (ingress_done e) s = on_ingress_done cancelled e s
    handle cancelled ctx_done s = stopped s none

    -- The loop, over the rounds that the environment gives it.
    unfoldable pub run : List (Bool × Event) → Supervisor S → Outcome S
    unfolding handle
    run [] s = running s
    run ((cancelled, e) ∷ rounds) s = elim (handle cancelled e s) [
      | running t ↦ run rounds t
      | stopped t err ↦ stopped t err
      | panicked ↦ panicked
    ]

  -- What follows the loop. All goroutines have ended; `leftover` is what `ingressErrCh` still holds,
  -- if the loop did not take it.
  unfoldable pub finish :
      Bool → Option GoError → Option GoError → Supervisor S → Supervisor S × Option GoError
  unfolding report
  finish cancelled leftover session_err s = (
    report (active_workers 0 ∷ []) s,
    elim session_err [
      | some e ↦ some e
      | none ↦ if cancelled then none else wrap forwarding_loop leftover
    ],
  )
