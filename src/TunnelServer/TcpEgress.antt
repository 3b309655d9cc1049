-- ===== src/TunnelServer/TcpEgress.antt =====
-- internal/tunnelserver/overlay_session.go: the TCP egress of a connection. A stream is known by its
-- place among the streams that were ever opened, as goroutines know it by a pointer; the map gives
-- the place of an identifier. `closing` holds the identifiers for which a `go closeStream` is due. What the
-- upstream connections read or refuse is the environment's, and whether the dial succeeds; the
-- deadlines, the counters of traffic and the logger are left out.
pub mod Streams
pub mod Reach
pub mod Order
mod Examples
use vk_turn_proxy_go.Base.{
  ℕ, ◌+◌, ◌%◌, ◌^◌, Bool, true, false, not, ◌&&◌, ◌||◌, List, [], ◌∷◌, ◌++◌, Option, none, some,
  ◌==◌, ltb, if◌then◌else◌, length, get_elem?, set,
}
use vk_turn_proxy_go.Base.Dict.{lookup, insert, delete}
use vk_turn_proxy_go.Base.Result.{Result, ok, err}
use vk_turn_proxy_go.Overlay.Frame.{
  FrameKind, hello, hello_ack, hello_reject, datagram, stream_open, stream_data, stream_close,
  unknown, Frame, FrameError, blank, Conn, write_frame,
}
use vk_turn_proxy_go.Overlay.TcpIngress.{Failures}
use vk_turn_proxy_go.Overlay.TcpIngress.Loops.{is_data}

abbrev pub default_tcp_egress_inbound_queue_size : ℕ
default_tcp_egress_inbound_queue_size = 8

-- `connected` says whether `conn` is set.
pub record UpstreamStream : Type 0 where
  pub id : ℕ
  pub cancelled : Bool
  pub connected : Bool
  pub inbound : List Frame
  pub send_sequence : ℕ
  pub recv_sequence : ℕ
  pub done : Bool
  pub notified : Bool
  pub written : List (List ℕ)

pub record TcpEgress : Type 0 where
  pub streams : List (ℕ × ℕ)
  pub opened : List UpstreamStream
  pub closing : List ℕ
  pub endpoint : Conn

pub data TcpEgressError : Type 0 where
  already_open : (stream_id : ℕ) → TcpEgressError
  cannot_handle : FrameKind → TcpEgressError

-- `newTCPEgressAdapter`.
unfoldable pub new_tcp_egress : Conn → TcpEgress
new_tcp_egress c = record { streams = []; opened = []; closing = []; endpoint = c }

abbrev pub fresh_stream : ℕ → UpstreamStream
fresh_stream id = record {
  id = id;
  cancelled = false;
  connected = false;
  inbound = [];
  send_sequence = 0;
  recv_sequence = 0;
  done = false;
  notified = false;
  written = [];
}

abbrev pub store_found : Option ℕ → ℕ → TcpEgress → TcpEgress × Bool
store_found (some place) id e = (e, false)
store_found none id e = (
  record e {
    streams = insert id (length e.opened) e.streams;
    opened = e.opened ++ fresh_stream id ∷ [];
  },
  true,
)

-- `storeStream` of a stream that `openStream` makes.
unfoldable pub store_stream : ℕ → TcpEgress → TcpEgress × Bool
unfolding lookup insert
store_stream id e = store_found (lookup id e.streams) id e

unfoldable pub open_stream : ℕ → TcpEgress → TcpEgress × Option TcpEgressError
unfolding store_stream
open_stream id e =
    let (t, stored) = store_stream id e in if stored then (t, none) else (e, some (already_open id))

-- The frame of `notifyRemoteClose`, which is sent once; an error of the send is only logged.
unfoldable pub notify_remote_close : UpstreamStream → Conn → Conn
notify_remote_close s c =
    if s.notified
    then c
    else (write_frame true (record (blank stream_close) { stream_id = s.id }) c).0

-- What `closeOnce` does to the stream.
abbrev pub closed : Bool → UpstreamStream → UpstreamStream
closed notify s = record s {
  cancelled = true;
  done = true;
  connected = false;
  notified = s.notified || notify;
}

abbrev pub close_at : Option UpstreamStream → (place id : ℕ) → Bool → TcpEgress → TcpEgress
close_at none place id notify e = record e { streams = delete id e.streams }
close_at (some s) place id notify e = record e {
  streams = delete id e.streams;
  opened = set e.opened place (if s.done then s else closed notify s);
  endpoint = if not s.done && notify then notify_remote_close s e.endpoint else e.endpoint;
}

abbrev pub close_found : Option ℕ → ℕ → Bool → TcpEgress → TcpEgress
close_found none id notify e = e
close_found (some place) id notify e = close_at (get_elem? e.opened place) place id notify e

unfoldable pub close_stream : ℕ → Bool → TcpEgress → TcpEgress
unfolding lookup delete notify_remote_close
close_stream id notify e = close_found (lookup id e.streams) id notify e

-- `queueInboundFrame`. Where a stream is done and its queue has room, `select` may take either case;
-- the frame is then read by nobody.
abbrev pub queue_inbound_frame : Option UpstreamStream → ℕ → Frame → TcpEgress → TcpEgress
queue_inbound_frame none place f e = e
queue_inbound_frame (some s) place f e =
    if s.done
    then e
    else if ltb (length s.inbound) default_tcp_egress_inbound_queue_size
    then record e { opened = set e.opened place (record s { inbound = s.inbound ++ f ∷ [] }) }
    else record e { closing = e.closing ++ s.id ∷ [] }

abbrev pub write_found : Option ℕ → Frame → TcpEgress → TcpEgress
write_found none f e = e
write_found (some place) f e = queue_inbound_frame (get_elem? e.opened place) place f e

unfoldable pub write_stream : Frame → TcpEgress → TcpEgress
unfolding lookup
write_stream f e = write_found (lookup f.stream_id e.streams) f e

abbrev pub handle_kind : FrameKind → Frame → TcpEgress → TcpEgress × Option TcpEgressError
handle_kind stream_open f e = open_stream f.stream_id e
handle_kind stream_data f e = (write_stream f e, none)
handle_kind stream_close f e = (close_stream f.stream_id false e, none)
handle_kind kind f e = (e, some (cannot_handle kind))

unfoldable pub handle_frame : Frame → TcpEgress → TcpEgress × Option TcpEgressError
unfolding open_stream write_stream close_stream
handle_frame f e = handle_kind f.kind f e

abbrev pub close_each : List (ℕ × ℕ) → TcpEgress → TcpEgress
close_each [] e = e
close_each ((id, place) ∷ rest) e = close_each rest (close_stream id false e)

unfoldable pub close : TcpEgress → TcpEgress
unfolding close_stream
close e = close_each e.streams e
