-- ===== src/TunnelServer/Examples.antt =====
-- A client and a server on concrete frames.
use vk_turn_proxy_go.Base.{
  ℕ, ◌≡◌, refl, inr, true, false, List, [], ◌∷◌, some, arith, ◌+◌, none, Option,
}
use vk_turn_proxy_go.Base.Bytes.{put_u64}
use vk_turn_proxy_go.Base.Text.{trim_space}
use vk_turn_proxy_go.Base.Result.{ok}
use vk_turn_proxy_go.Overlay.Adapter.{
  normalize_adapter, supported_pair, adapter_code, adapter_from_code,
}
use vk_turn_proxy_go.Overlay.Adapter.Laws.{IsSupported}
use vk_turn_proxy_go.Overlay.Frame.{
  Frame, blank, hello, Conn, read_frame, write_frame, marshal, unmarshal,
}
use vk_turn_proxy_go.Overlay.UdpIngress.{datagram_frame}
use vk_turn_proxy_go.TunnelServer.Handshake.{
  Setup, Egress, tcp_egress, InitError, ack_frame, is_hello, new_server_overlay_session,
  new_server_overlay_session-ok, new_server_overlay_session_of,
}
use vk_turn_proxy_go.TunnelServer.ClientFrames.{Round, run_client_frames}
use vk_turn_proxy_go.TunnelServer.ClientFrames.Laws.{
  take_all, carried, heard, run_client_frames-take_all,
}
use vk_turn_proxy_go.TunnelServer.UdpEgress.{
  new_udp_egress, handle_frame, upstream_round, received, going, upstream_round-handle_frame,
}

abbrev line : Conn
line = record { sent = []; deadline_fails = false; write_fails = false }

abbrev greeting : Setup
greeting = record { deadline_fails = false; read = some (1 ∷ 2 ∷ []); dial_fails = false }

abbrev tcp_hello : Frame
tcp_hello = record (blank hello) { adapter = "tcp" }

abbrev no_text : InitError → List ℕ
no_text e = []

greets : read_frame greeting.read ≡ ok tcp_hello
unfolding read_frame unmarshal adapter_from_code
greets = refl

tcp-IsSupported : IsSupported " tcp"
unfolding normalize_adapter trim_space
tcp-IsSupported = inr refl

same : normalize_adapter "tcp" ≡ normalize_adapter " tcp"
unfolding normalize_adapter trim_space
same = refl

begins :
    new_server_overlay_session no_text greeting " tcp" line
    ≡ (record line { sent = (2 ∷ 2 ∷ []) ∷ [] }, ok tcp_egress)
unfolding new_server_overlay_session read_frame unmarshal adapter_from_code normalize_adapter
    trim_space supported_pair write_frame marshal adapter_code
begins = refl

new_server_overlay_session-ok_example :
    (f : Frame) × (read_frame greeting.read ≡ ok f)
    × (is_hello f.kind ≡ true)
    × IsSupported f.adapter
    × (normalize_adapter f.adapter ≡ normalize_adapter " tcp")
    × (write_frame false (ack_frame (normalize_adapter " tcp")) line
        ≡ (record line { sent = (2 ∷ 2 ∷ []) ∷ [] }, ok tt))
new_server_overlay_session-ok_example =
    new_server_overlay_session-ok no_text greeting " tcp" line
      (record line { sent = (2 ∷ 2 ∷ []) ∷ [] }) tcp_egress begins

new_server_overlay_session_of_example :
    (a : Egress) × (bytes : List ℕ) × (new_server_overlay_session no_text greeting " tcp" line
      ≡ (record line { sent = bytes ∷ [] }, ok a))
    × (read_frame (some bytes) ≡ ok (ack_frame (normalize_adapter " tcp")))
new_server_overlay_session_of_example =
    new_server_overlay_session_of no_text greeting " tcp" line tcp_hello refl refl greets refl
      tcp-IsSupported same (refl, refl)

upstream_round-handle_frame_example :
    (bytes : List ℕ) × ((handle_frame false (datagram_frame 3 (1 ∷ [])) new_udp_egress).0.upstream
      ≡ (1 ∷ []) ∷ [])
    × (upstream_round false
          (received (2 ∷ []))
          (handle_frame false (datagram_frame 3 (1 ∷ [])) new_udp_egress).0
          line
        ≡ (record line { sent = bytes ∷ [] }, going))
    × (read_frame (some bytes) ≡ ok (datagram_frame 3 (2 ∷ [])))
upstream_round-handle_frame_example =
    upstream_round-handle_frame (datagram_frame 3 (1 ∷ [])) (2 ∷ []) new_udp_egress line refl
      (omega arith) (omega arith) (refl, refl)

-- An egress that counts its frames.
abbrev counting : Frame → ℕ → ℕ × Option ℕ
counting f n = (n + 1, none)

abbrev rounds : List Round
rounds =
    record { cancelled = false; deadline_fails = false; read = some (1 ∷ 2 ∷ []) }
    ∷ record { cancelled = false; deadline_fails = false; read = some (4 ∷ put_u64 3) }
    ∷ record { cancelled = true; deadline_fails = false; read = none }
    ∷ []

run_client_frames-take_all_example :
    run_client_frames counting rounds 5
    ≡ take_all counting (carried (heard {E = ℕ} rounds).0) (heard rounds).1 5
run_client_frames-take_all_example = run_client_frames-take_all counting rounds 5
