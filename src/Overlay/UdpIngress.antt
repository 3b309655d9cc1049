-- ===== src/Overlay/UdpIngress.antt =====
-- internal/overlay/udp_ingress.go: the local UDP socket of a client session. Addresses are an
-- abstract type; `cloneAddr` copies one, so it changes no value. What the socket reads, and whether
-- a write to it fails, is the environment's; what is written to it is recorded.
pub mod Replies
use vk_turn_proxy_go.Base.{
  ℕ, Bool, true, false, List, [], ◌∷◌, ◌++◌, Option, none, some, if◌then◌else◌,
}
use vk_turn_proxy_go.Base.Dict.{lookup, insert, delete}
use vk_turn_proxy_go.Overlay.Frame.{
  FrameKind, hello, hello_ack, hello_reject, datagram, stream_open, stream_data, stream_close,
  unknown, Frame, blank,
}
use vk_turn_proxy_go.Overlay.Channel.{Channels, send_to}
use vk_turn_proxy_go.Overlay.Workers.{
  WorkerRoute, WorkerSet, empty_set, next_worker, route_id_for_worker,
}
use vk_turn_proxy_go.Overlay.Workers

pub record UdpIngress (Addr : Type 0) : Type 0 where
  pub workers : WorkerSet
  pub routes : List (ℕ × Addr)
  pub queues : Channels
  pub written : List (List ℕ × Addr)

pub data IngressError : Type 0 where
  cannot_deliver : FrameKind → IngressError
  write_failed read_failed : IngressError

-- What `ReadFrom` returns in a round of `Run`.
pub data Read (Addr : Type 0) : Type 0 where
  received : List ℕ → Addr → Read Addr
  failed : Read Addr

-- Whether `Run` goes on, or what it returns.
pub data Loop : Type 0 where
  going : Loop
  returned : Option IngressError → Loop

abbrev pub is_datagram : FrameKind → Bool
is_datagram datagram = true
is_datagram _ = false

abbrev pub datagram_frame : ℕ → List ℕ → Frame
datagram_frame id payload = record (blank datagram) { route_id = id; payload = payload }

module _ {Addr : Type 0} where
  -- `NewUDPIngress` on a socket that was bound.
  unfoldable pub new_udp_ingress : Channels → UdpIngress Addr
  new_udp_ingress cs = record { workers = empty_set; routes = []; queues = cs; written = [] }

  unfoldable pub set_ready : ℕ → ℕ → UdpIngress Addr → UdpIngress Addr
  set_ready index outbound u = record u { workers = Workers.set_ready index outbound u.workers }

  unfoldable pub remove : ℕ → UdpIngress Addr → UdpIngress Addr
  remove index u = record u {
    workers = Workers.remove index u.workers;
    routes = delete (route_id_for_worker index) u.routes;
  }

  -- `storeRoute` and the send to the worker that was chosen.
  forward : WorkerRoute → List ℕ → Addr → UdpIngress Addr → UdpIngress Addr
  forward w payload addr u = record u {
    routes = insert (route_id_for_worker w.index) addr u.routes;
    queues = (send_to w.outbound (datagram_frame (route_id_for_worker w.index) payload) u.queues).0;
  }

  -- A round of `Run` for a datagram.
  unfoldable pub receive : List ℕ → Addr → UdpIngress Addr → UdpIngress Addr
  unfolding forward
  receive payload addr u =
      let (ws, w) = next_worker u.workers in
      let t : UdpIngress Addr = record u { workers = ws } in
      elim w [ none ↦ t | some r ↦ forward r payload addr t ]

  -- `Run` over what the socket reads; with a failed read comes whether the context was cancelled.
  unfoldable pub run : List (Bool × Read Addr) → UdpIngress Addr → UdpIngress Addr × Loop
  unfolding receive
  run [] u = (u, going)
  run ((cancelled, received payload addr) ∷ rounds) u = run rounds (receive payload addr u)
  run ((cancelled, failed) ∷ rounds) u =
      (u, returned (if cancelled then none else some read_failed))

  unfoldable pub deliver : Bool → Frame → UdpIngress Addr → UdpIngress Addr × Option IngressError
  deliver write_fails f u =
      if is_datagram f.kind
      then elim (lookup f.route_id u.routes) [
        | none ↦ (u, none)
        | some addr ↦
            if write_fails
            then (u, some write_failed)
            else (record u { written = u.written ++ (f.payload, addr) ∷ [] }, none)
      ]
      else (u, some (cannot_deliver f.kind))
