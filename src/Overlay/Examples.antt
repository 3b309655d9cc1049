-- ===== src/Overlay/Examples.antt =====
-- Frames, a set of two workers, and an ingress with both of them, on concrete values.
use vk_turn_proxy_go.Base.{
  ℕ, ◌≡◌, refl, inr, true, false, List, [], ◌∷◌, some, none, arith, ◌==◌, if◌then◌else◌,
}
use vk_turn_proxy_go.Base.Bytes.{put_u64, get_u64}
use vk_turn_proxy_go.Base.Dict.{lookup}
use vk_turn_proxy_go.Base.Result.{ok}
use vk_turn_proxy_go.Overlay.Frame.{
  Frame, blank, stream_data, marshal, unmarshal, read_frame, write_frame, Conn,
}
use vk_turn_proxy_go.Overlay.Frame.RoundTrip.{wire_view, HasWords, unmarshal-marshal}
use vk_turn_proxy_go.Overlay.Frame.Canonical.{marshal-unmarshal}
use vk_turn_proxy_go.Overlay.Frame.Sizes.{read_frame-write_frame}
use vk_turn_proxy_go.Overlay.Channel.{send_to}
use vk_turn_proxy_go.Overlay.Workers.{
  WorkerRoute, WorkerSet, remove, next_worker, route_id_for_worker,
}
use vk_turn_proxy_go.Overlay.Workers.Routes.{IsValid, route_of, route_of-remove}
use vk_turn_proxy_go.Overlay.Workers.Rotation.{serve, serve_all}
use vk_turn_proxy_go.Overlay.UdpIngress.{UdpIngress, receive, deliver, datagram_frame}
use vk_turn_proxy_go.Overlay.UdpIngress.Replies.{deliver-receive}

abbrev chunk : Frame
chunk = record (blank stream_data) { stream_id = 7; sequence = 300; payload = 104 ∷ 105 ∷ [] }

abbrev chunk_bytes : List ℕ
chunk_bytes = 6 ∷ 0 ∷ 0 ∷ 0 ∷ 0 ∷ 0 ∷ 0 ∷ 0 ∷ 7 ∷ 0 ∷ 0 ∷ 0 ∷ 0 ∷ 0 ∷ 0 ∷ 1 ∷ 44 ∷ 104 ∷ 105 ∷ []

chunk_marshals : marshal chunk ≡ ok chunk_bytes
unfolding marshal put_u64
chunk_marshals = refl

chunk-HasWords : HasWords chunk
chunk-HasWords = record {
  route_range = omega arith;
  stream_range = omega arith;
  sequence_range = omega arith;
}

unmarshal-marshal_example :
    (bytes : List ℕ) × (marshal chunk ≡ ok bytes)
    × (unmarshal bytes ≡ ok (wire_view chunk.kind chunk))
unmarshal-marshal_example = unmarshal-marshal chunk chunk-HasWords tt

abbrev hi_bytes : List ℕ
hi_bytes = 4 ∷ 0 ∷ 0 ∷ 0 ∷ 0 ∷ 0 ∷ 0 ∷ 0 ∷ 9 ∷ 104 ∷ []

hi_unmarshals : unmarshal hi_bytes ≡ ok (datagram_frame 9 (104 ∷ []))
unfolding unmarshal get_u64
hi_unmarshals = refl

marshal-unmarshal_example : marshal (datagram_frame 9 (104 ∷ [])) ≡ ok hi_bytes
marshal-unmarshal_example =
    marshal-unmarshal hi_bytes (datagram_frame 9 (104 ∷ []))
      (
        omega arith,
        (
          omega arith,
          (
            omega arith,
            (
              omega arith,
              (
                omega arith,
                (omega arith, (omega arith, (omega arith, (omega arith, (omega arith, tt))))),
              ),
            ),
          ),
        ),
      )
      hi_unmarshals

abbrev line : Conn
line = record { sent = []; deadline_fails = false; write_fails = false }

read_frame-write_frame_example :
    (bytes : List ℕ) × (write_frame true chunk line ≡ (record line { sent = bytes ∷ [] }, ok tt))
    × (read_frame (some bytes) ≡ ok (wire_view chunk.kind chunk))
read_frame-write_frame_example =
    read_frame-write_frame true chunk line chunk-HasWords tt (omega arith) (refl, refl)

abbrev first : WorkerRoute
first = record { index = 0; outbound = 10 }

abbrev second : WorkerRoute
second = record { index = 1; outbound = 11 }

abbrev two : WorkerSet
two = record { workers = first ∷ second ∷ []; next = 1 }

two-IsValid : IsValid two
two-IsValid = record { distinct = ((ground arith, tt), (tt, tt)); cursor = inr (omega arith) }

serve_all_example : serve 2 two ≡ (two, some second ∷ some first ∷ [])
serve_all_example = serve_all (first ∷ second ∷ []) 1 (omega arith)

route_of-remove_example : route_of 1 (remove 1 two) ≡ none
route_of-remove_example = route_of-remove 1 1 two two-IsValid

abbrev socket : UdpIngress ℕ
socket = record {
  workers = two;
  routes = [];
  queues = λ n. record { buffer = []; capacity = 1 };
  written = [];
}

deliver-receive_example :
    (r : WorkerRoute) × ((next_worker two).1 ≡ some r)
    × ((receive (104 ∷ []) 5000 socket).queues
        ≡ (send_to r.outbound
            (datagram_frame (route_id_for_worker r.index) (104 ∷ []))
            socket.queues).0)
    × ((deliver false
          (datagram_frame (route_id_for_worker r.index) (105 ∷ []))
          (receive (104 ∷ []) 5000 socket)).0.written
        ≡ (105 ∷ [], 5000) ∷ [])
    × (lookup 1 (receive (104 ∷ []) 5000 socket).routes
        ≡ (if route_id_for_worker r.index == 1 then some 5000 else lookup 1 socket.routes))
deliver-receive_example = deliver-receive (104 ∷ []) (105 ∷ []) 5000 socket 1 (omega arith)

abbrev routed : UdpIngress ℕ
routed = record socket { routes = (2, 5000) ∷ (1, 5001) ∷ [] }
