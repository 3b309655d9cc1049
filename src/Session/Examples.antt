-- ===== src/Session/Examples.antt =====
-- A session of two workers over a UDP ingress, run on a few events.
use vk_turn_proxy_go.Base.{
  ℕ, ◌+◌, ◌*◌, ◌≤◌, ◌≡◌, ◌≢◌, refl, inl, inr, true, false, [], ◌∷◌, ◌++◌, some, none, arith,
  get_elem?,
}
use vk_turn_proxy_go.RunStage.{GoError, plain, text, staged, turn_dial}
use vk_turn_proxy_go.Overlay.UdpIngress
use vk_turn_proxy_go.Overlay.UdpIngress.{UdpIngress}
use vk_turn_proxy_go.Overlay.Workers
use vk_turn_proxy_go.Overlay.Workers.Routes.{route_of, empty_set-IsValid}
use vk_turn_proxy_go.Session.Supervisor.{
  Supervisor, Settings, WorkerState, ready, result, restart, active_workers, emit, running, stopped,
  panicked, boot, handle, run, report_failure, stage_string,
}
use vk_turn_proxy_go.Session.Supervisor.Invariant.{Inv}
use vk_turn_proxy_go.Session.Supervisor.Reach.{
  Reach, begin, next, Reach-Inv, Reach-launches_bound, Reach-ne-panicked,
}
use vk_turn_proxy_go.Session.Supervisor.Race.{relaunch, run-result-restart, run-race}
use vk_turn_proxy_go.Session.Ingresses.{udp_ingress, udp_laws}

abbrev cfg : Settings
cfg = record { connections = 2; max_worker_restarts = 1; observing = true }

abbrev local : UdpIngress ℕ
local = record {
  workers = Workers.empty_set;
  routes = [];
  queues = λ n. record { buffer = []; capacity = 64 };
  written = [];
}

abbrev launched_once : WorkerState
launched_once = record { generation = 1; restarts = 0; ready = false }

abbrev booted : Supervisor (UdpIngress ℕ)
booted = record {
  states = launched_once ∷ launched_once ∷ [];
  ready_workers = 0;
  session_ready = false;
  ingress = local;
  launched =
      record { index = 0; generation = 1; outbound = 0 }
      ∷ record { index = 1; generation = 1; outbound = 1 }
      ∷ [];
  scheduled = [];
  next_channel = 2;
  reports = [];
}

abbrev one_ready : Supervisor (UdpIngress ℕ)
one_ready = record booted {
  states = record { generation = 1; restarts = 0; ready = true } ∷ launched_once ∷ [];
  ready_workers = 1;
  ingress = record local {
    workers = record { workers = record { index = 0; outbound = 0 } ∷ []; next = 0 };
  };
  reports = active_workers 1 ∷ emit "worker_ready" "session_supervision" "ready" ∷ [];
}

boots : boot cfg local ≡ running booted
unfolding boot
boots = refl

becomes_ready : handle cfg udp_ingress false (ready 0 1 0) booted ≡ running one_ready
unfolding handle UdpIngress.set_ready Workers.set_ready
becomes_ready = refl

Reach-one_ready : Reach cfg udp_ingress local one_ready
Reach-one_ready = next false (ready 0 1 0) (begin boots) (inl refl) becomes_ready

serves_nobody : (i : ℕ) → route_of i Workers.empty_set ≡ none
unfolding route_of
serves_nobody i = refl

Reach-Inv_example : Inv cfg udp_laws one_ready
Reach-Inv_example =
    Reach-Inv cfg udp_ingress udp_laws local empty_set-IsValid serves_nobody one_ready
      Reach-one_ready

Reach-launches_bound_example : 2 ≤ 2 * (1 + 1)
Reach-launches_bound_example =
    Reach-launches_bound cfg udp_ingress udp_laws local empty_set-IsValid serves_nobody one_ready
      Reach-one_ready

abbrev dial_failed : GoError
dial_failed = staged turn_dial (plain (text "dial timeout"))

Reach-ne-panicked_example :
    handle cfg udp_ingress false (result 1 1 (some dial_failed)) one_ready ≢ panicked
Reach-ne-panicked_example =
    Reach-ne-panicked cfg udp_ingress udp_laws local empty_set-IsValid serves_nobody one_ready false
      (result 1 1 (some dial_failed)) Reach-one_ready (1, inr (inl refl))

abbrev ready_once : WorkerState
ready_once = record { generation = 1; restarts = 0; ready = true }

run-result-restart_example :
    (u : Supervisor (UdpIngress ℕ)) × (run cfg udp_ingress
        ((false, result 0 1 (some dial_failed)) ∷ (false, restart 0) ∷ [])
        one_ready
      ≡ running u)
    × (get_elem? u.states 0 ≡ some (record { generation = 2; restarts = 1; ready = false }))
    × (u.launched ≡ one_ready.launched ++ relaunch 0 ready_once 2 ∷ [])
run-result-restart_example =
    run-result-restart cfg udp_ingress 0 ready_once one_ready refl dial_failed refl (omega arith)

run-race_example :
    ((u : Supervisor (UdpIngress ℕ)) × (run cfg udp_ingress
          ((false, ready 1 1 1) ∷ (false, result 1 1 (some dial_failed)) ∷ [])
          one_ready
        ≡ running u)
      × (u.scheduled ≡ 1 ∷ []))
    × (run cfg udp_ingress
          ((false, result 1 1 (some dial_failed)) ∷ (false, ready 1 1 1) ∷ [])
          one_ready
        ≡ stopped (report_failure cfg (stage_string dial_failed) true one_ready) (some dial_failed))
run-race_example =
    run-race cfg udp_ingress 1 launched_once one_ready refl dial_failed 1 refl (omega arith)
