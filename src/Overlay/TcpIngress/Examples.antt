-- ===== src/Overlay/TcpIngress/Examples.antt =====
-- A stream of three chunks, one of which comes too early, and an ingress with a stream on each of
-- two workers.
use vk_turn_proxy_go.Base.{ℕ, ◌≡◌, refl, List, [], ◌∷◌, some, arith, map, take}
use vk_turn_proxy_go.Base.Dict.{lookup, insert}
use vk_turn_proxy_go.Overlay.Frame.{Frame}
use vk_turn_proxy_go.Overlay.Workers.{empty_set}
use vk_turn_proxy_go.Overlay.TcpIngress.{
  Stream, TcpIngress, Failures, fresh_stream, lookup_stream, if_registered, remove,
  close_worker_streams, close_stream,
}
use vk_turn_proxy_go.Overlay.TcpIngress.Loops.{data_frames, write_all, data_frame}
use vk_turn_proxy_go.Overlay.TcpIngress.Order.{
  works, write_all-data_frames, write_all-data_frames_prefix,
}

abbrev chunks : List (List ℕ)
chunks = (1 ∷ []) ∷ (2 ∷ 3 ∷ []) ∷ (4 ∷ []) ∷ []

abbrev near : Stream
near = fresh_stream 1 (record { index = 0; outbound = 10 })

abbrev far : Stream
far = fresh_stream 2 (record { index = 1; outbound = 11 })

write_all-data_frames_example :
    (write_all (map (λ f. (works, f)) (data_frames chunks near)) far).written ≡ chunks
write_all-data_frames_example = write_all-data_frames chunks near far refl

abbrev first_frame : Frame
first_frame = data_frame (1 ∷ []) near

abbrev third_frame : Frame
third_frame = data_frame (4 ∷ []) (record near { send_sequence = 2 })

abbrev arrived : List (Failures × Frame)
arrived = (works, first_frame) ∷ (works, third_frame) ∷ (works, first_frame) ∷ []

write_all-data_frames_prefix_example : (n : ℕ) × ((write_all arrived far).written ≡ take n chunks)
unfolding data_frames
write_all-data_frames_prefix_example =
    write_all-data_frames_prefix chunks near far arrived (omega arith) refl refl refl
      ((0, refl), ((2, refl), ((0, refl), tt)))

abbrev local : TcpIngress
local = record {
  workers = empty_set;
  next_stream_id = 2;
  streams = (1, near) ∷ (2, far) ∷ [];
  queued = [];
}

finds_near : lookup 1 local.streams ≡ some near
unfolding lookup
finds_near = refl

finds_far : lookup_stream 2 (remove 0 local) ≡ some far
unfolding lookup_stream if_registered lookup remove close_worker_streams close_stream insert
finds_far = refl
