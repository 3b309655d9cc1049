-- ===== src/TunnelServer/UdpEgress.antt =====
-- internal/tunnelserver/overlay_session.go: the UDP egress of a connection. Each method on the route
-- holds the mutex for its whole body. What the upstream socket reads, and whether a write to it
-- fails, are arguments; what is written to it is recorded. The traffic counters are left out.
use vk_turn_proxy_go.Base.{
  ℕ, ◌<◌, ◌≡◌, ap, Bool, false, List, [], ◌∷◌, ◌++◌, Option, none, some, arith, if◌then◌else◌,
  length,
}
use vk_turn_proxy_go.Base.Bytes.{IsU64}
use vk_turn_proxy_go.Base.Result.{ok, err}
use vk_turn_proxy_go.Overlay.Frame.{
  FrameKind, datagram, Frame, FrameError, Conn, read_frame, write_frame,
}
use vk_turn_proxy_go.Overlay.Frame.RoundTrip.{HasWords}
use vk_turn_proxy_go.Overlay.Frame.Sizes.{IsUp, read_frame-write_frame}
use vk_turn_proxy_go.Overlay.UdpIngress.{is_datagram, datagram_frame}

pub record UdpEgress : Type 0 where
  pub route : Option ℕ  -- `routeID`, if `routeReady`
  pub upstream : List (List ℕ)

pub data EgressError : Type 0 where
  cannot_handle : FrameKind → EgressError
  upstream_write_failed upstream_read_failed : EgressError
  frame_unwritten : FrameError → EgressError

-- `newUDPEgressAdapter` on an address that was dialled.
abbrev pub new_udp_egress : UdpEgress
new_udp_egress = record { route = none; upstream = [] }

unfoldable pub handle_frame : Bool → Frame → UdpEgress → UdpEgress × Option EgressError
handle_frame write_fails f u =
    if is_datagram f.kind
    then (let t = record u { route = some f.route_id } in
        if write_fails
        then (t, some upstream_write_failed)
        else (record t { upstream = t.upstream ++ f.payload ∷ [] }, none))
    else (u, some (cannot_handle f.kind))

-- What `Read` returns in a round of `Run`.
pub data Read : Type 0 where
  received : List ℕ → Read
  timed_out failed : Read

-- Whether `Run` goes on, or what it returns.
pub data Loop : Type 0 where
  going : Loop
  returned : Option EgressError → Loop

forward : List ℕ → UdpEgress → Conn → Conn × Loop
forward payload u c = elim u.route [
  | none ↦ (c, going)
  | some id ↦
      let (d, r) = write_frame false (datagram_frame id payload) c in
      elim r [ ok t ↦ (d, going) | err x ↦ (d, returned (some (frame_unwritten x))) ]
]

-- A round of `Run`; `cancelled` says whether the context was.
unfoldable pub upstream_round : Bool → Read → UdpEgress → Conn → Conn × Loop
unfolding forward
upstream_round cancelled (received payload) u c = forward payload u c
upstream_round cancelled timed_out u c = (c, if cancelled then returned none else going)
upstream_round cancelled failed u c =
    (c, returned (if cancelled then none else some upstream_read_failed))

forward_lem :
    (id : ℕ) (payload : List ℕ) (u : UdpEgress) (c d : Conn)
    → u.route ≡ some id
    → write_frame false (datagram_frame id payload) c ≡ (d, ok tt)
    → forward payload u c ≡ (d, going)
unfolding forward
forward_lem id payload u c d h e = rw (h, forward) (rw (ap (λ w. w.1) e) (ap (λ w. (w.0, going)) e))

-- What a client's datagram carries goes to the upstream address, and what comes back from there next
-- goes to the client under the same route, in one message that reads as that datagram, as long as
-- the route is a 64-bit word, the datagram is shorter than 65,519 bytes, and the connection works.
pub upstream_round-handle_frame :
    (f : Frame) (reply : List ℕ) (u : UdpEgress) (c : Conn)
    → f.kind ≡ datagram
    → IsU64 f.route_id
    → length reply < 65519
    → IsUp c
    → (bytes : List ℕ) × ((handle_frame false f u).0.upstream ≡ u.upstream ++ f.payload ∷ [])
      × (upstream_round false (received reply) (handle_frame false f u).0 c
          ≡ (record c { sent = c.sent ++ bytes ∷ [] }, going))
      × (read_frame (some bytes) ≡ ok (datagram_frame f.route_id reply))
unfolding handle_frame upstream_round forward
upstream_round-handle_frame f reply u c k w l up =
    let words : HasWords (datagram_frame f.route_id reply) = record {
      route_range = w;
      stream_range = omega arith;
      sequence_range = omega arith;
    } in
    let (bytes, e, r) =
      read_frame-write_frame false (datagram_frame f.route_id reply) c words tt (omega arith) up in
    let t = (handle_frame false f u).0 in
    let routed : t.route ≡ some f.route_id = rw k in
    (bytes, rw k, forward_lem f.route_id reply t c _ routed e, r)
