-- ===== src/TunnelServer/TcpEgress/Examples.antt =====
-- Streams of an egress.
use vk_turn_proxy_go.Base.{
  ℕ, ◌≡◌, refl, true, false, List, [], ◌∷◌, none, some, arith, get_elem?, take,
}
use vk_turn_proxy_go.Base.Dict.{lookup}
use vk_turn_proxy_go.Overlay.Frame.{stream_open, stream_data, stream_close, Frame, blank, Conn}
use vk_turn_proxy_go.Overlay.TcpIngress.{Stream, Failures}
use vk_turn_proxy_go.Overlay.TcpIngress.Loops.{data_frames}
use vk_turn_proxy_go.Overlay.TcpIngress.Order.{works}
use vk_turn_proxy_go.TunnelServer.TcpEgress.{new_tcp_egress, fresh_stream}
use vk_turn_proxy_go.TunnelServer.TcpEgress.Streams.{
  Step, handles, dials, writes, returns, run_steps, write_frames,
}
use vk_turn_proxy_go.TunnelServer.TcpEgress.Reach.{IsLive, run_steps-IsLive}
use vk_turn_proxy_go.TunnelServer.TcpEgress.Order.{write_frames-data_frames}

abbrev line : Conn
line = record { sent = []; deadline_fails = false; write_fails = false }

abbrev opening : Frame
opening = record (blank stream_open) { stream_id = 7 }

abbrev closing : Frame
closing = record (blank stream_close) { stream_id = 7 }

abbrev first_data : Frame
first_data = record (blank stream_data) { stream_id = 7; payload = 1 ∷ 2 ∷ [] }

abbrev steps : List Step
steps = handles opening ∷ dials 0 ∷ handles first_data ∷ writes works 0 ∷ []

is_open : lookup 7 (run_steps steps (new_tcp_egress line)).streams ≡ some 0
unfolding lookup run_steps new_tcp_egress
is_open = refl

run_steps-IsLive_example : IsLive (run_steps steps (new_tcp_egress line)) 7 0
run_steps-IsLive_example = run_steps-IsLive line steps 7 0 is_open

-- A dial that succeeds after the client closed the stream leaves a connection that nobody closes.
abbrev leak : List Step
leak = handles opening ∷ handles closing ∷ dials 0 ∷ returns 0 ∷ []

leaks :
    get_elem? (run_steps leak (new_tcp_egress line)).opened 0
    ≡ some (record (fresh_stream 7) { cancelled = true; done = true; connected = true })
unfolding lookup run_steps new_tcp_egress
leaks = refl

-- A goroutine that returns late closes the stream that was opened after its own.
abbrev late : List Step
late = handles opening ∷ handles closing ∷ handles opening ∷ returns 0 ∷ []

closes_another : lookup 7 (run_steps late (new_tcp_egress line)).streams ≡ none
unfolding lookup run_steps new_tcp_egress
closes_another = refl

abbrev local : Stream
local = record {
  id = 7;
  worker_index = 0;
  outbound = 0;
  inbound = record { buffer = []; capacity = 8 };
  send_sequence = 0;
  recv_sequence = 0;
  registered = true;
  notified = false;
  written = [];
}

-- The first frame comes twice, so the second is a gap.
abbrev repeated : List (Failures × Frame)
repeated = (works, first_data) ∷ (works, first_data) ∷ []

is_first : get_elem? (data_frames ((1 ∷ 2 ∷ []) ∷ (3 ∷ []) ∷ []) local) 0 ≡ some first_data
unfolding data_frames
is_first = refl

write_frames-data_frames_example :
    (n : ℕ) × ((write_frames repeated (fresh_stream 7)).written
      ≡ take n ((1 ∷ 2 ∷ []) ∷ (3 ∷ []) ∷ []))
write_frames-data_frames_example =
    write_frames-data_frames ((1 ∷ 2 ∷ []) ∷ (3 ∷ []) ∷ []) local (fresh_stream 7) repeated
      (omega arith) refl refl refl ((0, is_first), ((0, is_first), tt))
