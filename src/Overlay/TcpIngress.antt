-- ===== src/Overlay/TcpIngress.antt =====
-- internal/overlay/tcp_ingress.go: the local TCP listener of a client session. A stream is known by
-- its identifier, which the ingress gives once in 2^64 streams. All streams that were ever stored
-- are kept, and `registered` says which are in the map; `closeStream` takes a stream out of the map
-- and closes `done` and its connection, as one step. What a connection reads, whether a write to it
-- fails and how a `select` ends are the environment's. A send that may wait is recorded in `queued`
-- when it ends by sending.
pub mod Loops
pub mod Order
pub mod Streams
mod Examples
use vk_turn_proxy_go.Base.{
  ℕ, ◌+◌, ◌%◌, ◌^◌, Bool, true, false, not, ◌&&◌, ◌||◌, List, [], ◌∷◌, ◌++◌, Option, none, some,
  ◌==◌, if◌then◌else◌,
}
use vk_turn_proxy_go.Base.Dict.{lookup, insert}
use vk_turn_proxy_go.Overlay.Frame.{
  FrameKind, hello, hello_ack, hello_reject, datagram, stream_open, stream_data, stream_close,
  unknown, Frame, blank,
}
use vk_turn_proxy_go.Overlay.Channel.{Channel, try_send}
use vk_turn_proxy_go.Overlay.Workers.{WorkerRoute, WorkerSet, empty_set, next_worker}
use vk_turn_proxy_go.Overlay.Workers

abbrev pub default_tcp_ingress_inbound_queue_size : ℕ
default_tcp_ingress_inbound_queue_size = 8

pub record Stream : Type 0 where
  pub id : ℕ
  pub worker_index : ℕ
  pub outbound : ℕ
  pub inbound : Channel
  pub send_sequence : ℕ
  pub recv_sequence : ℕ
  pub registered : Bool
  pub notified : Bool  -- `notifyClose` was used
  pub written : List (List ℕ)  -- what was written to the connection

pub record TcpIngress : Type 0 where
  pub workers : WorkerSet
  pub next_stream_id : ℕ
  pub streams : List (ℕ × Stream)
  pub queued : List (ℕ × Frame)

pub data TcpError : Type 0 where
  cannot_deliver : FrameKind → TcpError
  accept_failed : TcpError

-- How a `select` that may wait for a send ends.
pub data Wait : Type 0 where
  sent timed_out stopped : Wait

-- The calls on a local connection that fail when a frame is written.
pub record Failures : Type 0 where
  pub deadline : Bool
  pub write : Bool

-- `NewTCPIngress` on a listener that was bound.
unfoldable pub new_tcp_ingress : TcpIngress
new_tcp_ingress = record { workers = empty_set; next_stream_id = 0; streams = []; queued = [] }

pub store_stream : Stream → TcpIngress → TcpIngress
store_stream s u = record u { streams = insert s.id s u.streams }

-- A stream that the map holds.
pub if_registered : Option Stream → Option Stream
if_registered none = none
if_registered (some s) = if s.registered then some s else none

unfoldable pub lookup_stream : ℕ → TcpIngress → Option Stream
unfolding if_registered
lookup_stream id u = if_registered (lookup id u.streams)

unfoldable pub close_stream : ℕ → TcpIngress → TcpIngress
unfolding lookup_stream
close_stream id u = elim (lookup_stream id u) [
  | none ↦ u
  | some s ↦ record u { streams = insert id (record s { registered = false }) u.streams }
]

pub close_streams : List ℕ → TcpIngress → TcpIngress
close_streams [] u = u
close_streams (id ∷ ids) u = close_streams ids (close_stream id u)

-- The identifiers that the loop of `closeWorkerStreams` collects.
pub worker_streams : ℕ → List (ℕ × Stream) → List ℕ
worker_streams index [] = []
worker_streams index ((id, s) ∷ rest) =
    let ids = worker_streams index rest in
    if s.registered && s.worker_index == index then id ∷ ids else ids

unfoldable pub close_worker_streams : ℕ → TcpIngress → TcpIngress
unfolding close_streams worker_streams
close_worker_streams index u = close_streams (worker_streams index u.streams) u

-- Those of `closeAllStreams`.
pub open_streams : List (ℕ × Stream) → List ℕ
open_streams [] = []
open_streams ((id, s) ∷ rest) =
    let ids = open_streams rest in if s.registered then id ∷ ids else ids

unfoldable pub close_all_streams : TcpIngress → TcpIngress
unfolding close_streams open_streams
close_all_streams u = close_streams (open_streams u.streams) u

unfoldable pub set_ready : ℕ → ℕ → TcpIngress → TcpIngress
set_ready index outbound u = record u { workers = Workers.set_ready index outbound u.workers }

unfoldable pub remove : ℕ → TcpIngress → TcpIngress
unfolding close_worker_streams
remove index u = close_worker_streams index (record u { workers = Workers.remove index u.workers })

pub queue : ℕ → Frame → TcpIngress → TcpIngress
queue outbound f u = record u { queued = u.queued ++ (outbound, f) ∷ [] }

-- `sendStreamFrame`, and whether it returned no error.
pub send_stream_frame : Wait → ℕ → Frame → TcpIngress → TcpIngress × Bool
unfolding queue
send_stream_frame sent outbound f u = (queue outbound f u, true)
send_stream_frame timed_out outbound f u = (u, false)
send_stream_frame stopped outbound f u = (u, false)

abbrev pub close_frame : ℕ → Frame
close_frame id = record (blank stream_close) { stream_id = id }

-- `notifyRemoteClose`; `stopped` is its `done`.
unfoldable pub notify_remote_close : Wait → Stream → TcpIngress → TcpIngress
unfolding store_stream queue
notify_remote_close w s u =
    if s.notified
    then u
    else let t = store_stream (record s { notified = true }) u in
      elim w [ sent ↦ queue s.outbound (close_frame s.id) t | timed_out ↦ t | stopped ↦ t ]

-- What follows every failure of a stream.
pub abandon : Wait → Stream → TcpIngress → TcpIngress
unfolding notify_remote_close close_stream
abandon w s u = close_stream s.id (notify_remote_close w s u)

-- `queueInboundFrame` for a stream that the map holds, whose `done` is open.
unfoldable pub queue_inbound_frame : Wait → Stream → Frame → TcpIngress → TcpIngress
unfolding store_stream abandon
queue_inbound_frame w s f u =
    let (c, taken) = try_send f s.inbound in
    if taken then store_stream (record s { inbound = c }) u else abandon w s u

unfoldable pub deliver : Wait → Frame → TcpIngress → TcpIngress × Option TcpError
unfolding queue_inbound_frame close_stream lookup_stream
deliver w f u = elim f.kind [
  | stream_data ↦ elim (lookup_stream f.stream_id u) [
    | none ↦ (u, none)
    | some s ↦ (queue_inbound_frame w s f u, none)
  ]
  | stream_close ↦ (close_stream f.stream_id u, none)
  | hello ↦ (u, some (cannot_deliver hello))
  | hello_ack ↦ (u, some (cannot_deliver hello_ack))
  | hello_reject ↦ (u, some (cannot_deliver hello_reject))
  | datagram ↦ (u, some (cannot_deliver datagram))
  | stream_open ↦ (u, some (cannot_deliver stream_open))
  | unknown c ↦ (u, some (cannot_deliver (unknown c)))
]

-- A new stream for a connection, on the worker that serves it.
abbrev pub fresh_stream : ℕ → WorkerRoute → Stream
fresh_stream id w = record {
  id = id;
  worker_index = w.index;
  outbound = w.outbound;
  inbound = record { buffer = []; capacity = default_tcp_ingress_inbound_queue_size };
  send_sequence = 0;
  recv_sequence = 0;
  registered = true;
  notified = false;
  written = [];
}

open_stream : Wait → WorkerRoute → TcpIngress → TcpIngress
unfolding store_stream send_stream_frame close_stream
open_stream w r u =
    let id = (u.next_stream_id + 1) % 2 ^ 64 in
    let t = store_stream (fresh_stream id r) (record u { next_stream_id = id }) in
    let (v, ok) =
      send_stream_frame w r.outbound (record (blank stream_open) { stream_id = id }) t in
    if ok then v else close_stream id v

-- A round of `Run` for a connection that was accepted.
unfoldable pub accept : Wait → TcpIngress → TcpIngress
unfolding open_stream
accept w u =
    let (ws, r) = next_worker u.workers in
    let t = record u { workers = ws } in elim r [ none ↦ t | some route ↦ open_stream w route t ]
