-- ===== src/Session/Supervisor/Reach.antt =====
-- The states that a session reaches under events that its own goroutines may send.
use vk_turn_proxy_go.Base.{
  ℕ, ◌+◌, ◌*◌, ◌≤◌, ◌<◌, ◌≡◌, ◌≢◌, ◌⊎◌, inl, inr, Bool, List, [], ◌∷◌, Option, none, some, arith,
  All, get_elem?_total, if_intro, length, not, ◌==◌, ◌||◌, ltb,
}
use vk_turn_proxy_go.RunStage.{GoError}
use vk_turn_proxy_go.Session.Supervisor.{
  Ingress, Launch, Settings, Supervisor, Event, ready, result, restart, ingress_done, ctx_done,
  running, panicked, boot, handle, start_worker, on_ready, on_result, on_ingress_done, after_loss,
  mark_lost, WorkerState, stage_text,
}
use vk_turn_proxy_go.RunStage.{forwarding_loop}
use vk_turn_proxy_go.Session.Supervisor.Counting.{count}
use vk_turn_proxy_go.Session.Supervisor.Budget.{Ensures, launches-bound}
use vk_turn_proxy_go.Session.Supervisor.Invariant.{IngressLaws, Inv}
use vk_turn_proxy_go.Session.Supervisor.Ready.{on_ready-Inv}
use vk_turn_proxy_go.Session.Supervisor.Result.{on_result-Inv, report_failure-Inv}
use vk_turn_proxy_go.Session.Supervisor.Restart.{on_restart-Inv, boot-Starts}

-- A goroutine was started with this index, generation and channel.
abbrev pub WasLaunched : Launch → List Launch → Type 0
WasLaunched l [] = ⊥
WasLaunched l (x ∷ xs) = (x ≡ l) ⊎ WasLaunched l xs

-- Who may send an event: the hook or the end of a launched worker, a restart that is due, the
-- goroutine of the ingress, or the context.
abbrev pub Sent : {S : Type 0} → Supervisor S → Event → Type 0
Sent s (ready i g c) = WasLaunched (record { index = i; generation = g; outbound = c }) s.launched
Sent s (result i g e) =
    (c : ℕ) × WasLaunched (record { index = i; generation = g; outbound = c }) s.launched
Sent s (restart i) = 0 < count i s.scheduled
Sent s (ingress_done e) = Unit
Sent s ctx_done = Unit

pub data Reach {S : Type 0} (cfg : Settings) (io : Ingress S) (a : S) : Supervisor S → Type 0 where
  begin : {s : Supervisor S} → boot cfg a ≡ running s → Reach cfg io a s
  next :
      {s t : Supervisor S} (cancelled : Bool) (e : Event)
      → Reach cfg io a t
      → Sent t e
      → handle cfg io cancelled e t ≡ running s
      → Reach cfg io a s

All-WasLaunched :
    (n : ℕ) (l : Launch) (ls : List Launch)
    → All (λ (x : Launch). x.index < n) ls
    → WasLaunched l ls
    → l.index < n
All-WasLaunched n l [] h w = absurd w
All-WasLaunched n l (x ∷ xs) h (inl e) = rw (← e) h.0
All-WasLaunched n l (x ∷ xs) h (inr w) = All-WasLaunched n l xs h.1 w

module _ {S : Type 0} (cfg : Settings) (io : Ingress S) (laws : IngressLaws io) where
  on_ingress_done-Inv :
      (cancelled : Bool) (e : Option GoError) (s : Supervisor S)
      → Inv cfg laws s
      → Ensures (Inv cfg laws) (on_ingress_done cfg io cancelled e s)
  unfolding on_ingress_done
  on_ingress_done-Inv cancelled none s v = v
  on_ingress_done-Inv cancelled (some e) s v =
      if_intro (Ensures (Inv cfg laws)) cancelled _ _ (λ c. v)
        (λ c. report_failure-Inv cfg io laws (stage_text forwarding_loop) (not s.session_ready) s v)

  -- Every round keeps the invariant, also a round that ends the loop.
  handle-Inv :
      (cancelled : Bool) (e : Event) (s : Supervisor S)
      → Sent s e
      → Inv cfg laws s
      → Ensures (Inv cfg laws) (handle cfg io cancelled e s)
  unfolding handle
  handle-Inv cancelled (ready i g c) s w v = on_ready-Inv cfg io laws i g c s v
  handle-Inv cancelled (result i g e) s w v = on_result-Inv cfg io laws cancelled i g e s v
  handle-Inv cancelled (restart i) s w v = on_restart-Inv cfg io laws cancelled i s w v
  handle-Inv cancelled (ingress_done e) s w v = on_ingress_done-Inv cancelled e s v
  handle-Inv cancelled ctx_done s w v = v

  in_range :
      (s : Supervisor S) (l : Launch)
      → Inv cfg laws s
      → WasLaunched l s.launched
      → l.index < length s.states
  in_range s l v w =
      let known = All-WasLaunched cfg.connections l s.launched v.core.budget.known w in
      omega (arith, known, v.core.budget.size)

  after_loss-ne-panicked :
      (i : ℕ) (st : WorkerState) (e : Option GoError) (s : Supervisor S)
      → after_loss cfg io i st e s ≢ panicked
  unfolding after_loss
  after_loss-ne-panicked i st none s = λ h. cc
  after_loss-ne-panicked i st (some e) s =
      if_intro (λ o. o ≢ panicked) (not st.ready) _ _ (λ c h. cc)
        (λ c.
          if_intro (λ o. o ≢ panicked) (ltb st.restarts cfg.max_worker_restarts) _ _ (λ d h. cc)
            (λ d h. cc))

  handle-ne-panicked :
      (cancelled : Bool) (e : Event) (s : Supervisor S)
      → Inv cfg laws s
      → Sent s e
      → handle cfg io cancelled e s ≢ panicked
  unfolding handle
  handle-ne-panicked cancelled (ready i g c) s v w =
      let (st, q) = get_elem?_total s.states i (in_range s _ v w) in
      rw (q, on_ready)
        (if_intro (λ o. o ≢ panicked) (not (st.generation == g) || st.ready) _ _ (λ d h. cc)
          (λ d h. cc))
  handle-ne-panicked cancelled (result i g e) s v w =
      let (st, q) = get_elem?_total s.states i (in_range s _ v w.1) in
      rw (q, on_result)
        (if_intro (λ o. o ≢ panicked) (not (st.generation == g)) _ _ (λ d h. cc)
          (λ d.
            if_intro (λ o. o ≢ panicked) cancelled _ _ (λ c h. cc)
              (λ c. after_loss-ne-panicked i st e (mark_lost cfg io i st s))))
  handle-ne-panicked cancelled (restart i) s v w =
      let l = v.core.budget.planned i w in
      let (st, q) = get_elem?_total s.states i (omega (arith, l, v.core.budget.size)) in
      if_intro (λ o. o ≢ panicked) cancelled _ _ (λ c h. cc) (λ c. rw (q, start_worker) (λ h. cc))
  handle-ne-panicked cancelled (ingress_done none) s v w = λ h. cc
  handle-ne-panicked cancelled (ingress_done (some e)) s v w =
      if_intro (λ o. o ≢ panicked) cancelled _ _ (λ c h. cc) (λ c h. cc)
  handle-ne-panicked cancelled ctx_done s v w = λ h. cc

  module _ (a : S) (sound : laws.IsSound a) (idle : (i : ℕ) → laws.route i a ≡ none) where
    -- In every state that the loop reaches from an ingress that serves nobody yet: the counter of
    -- ready workers is their number, the ingress serves exactly the ready workers, no worker has
    -- used more restarts than allowed or been launched more often than once and once for each
    -- restart, the start of the session was reported once if it was ready and observed, and never
    -- otherwise, and an observed gauge shows the ready workers.
    pub Reach-Inv : (s : Supervisor S) → Reach cfg io a s → Inv cfg laws s
    Reach-Inv _ (begin e) = let b = boot-Starts cfg io laws a sound idle in (rw e at b).0
    Reach-Inv _ (next {t} cancelled e r w h) = rw h at (handle-Inv cancelled e t w (Reach-Inv t r))

    -- Over any run, a session launches no more runners than one for each worker and one more for
    -- each restart that a worker is allowed.
    pub Reach-launches_bound :
        (s : Supervisor S)
        → Reach cfg io a s
        → length s.launched ≤ cfg.connections * (1 + cfg.max_worker_restarts)
    Reach-launches_bound s r =
        launches-bound cfg s.states s.scheduled s.launched (Reach-Inv s r).core.budget

    -- No event of a goroutine that the session started makes the loop read a worker out of range.
    pub Reach-ne-panicked :
        (s : Supervisor S) (cancelled : Bool) (e : Event)
        → Reach cfg io a s
        → Sent s e
        → handle cfg io cancelled e s ≢ panicked
    Reach-ne-panicked s cancelled e r w = handle-ne-panicked cancelled e s (Reach-Inv s r) w
