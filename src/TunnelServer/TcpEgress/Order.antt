-- ===== src/TunnelServer/TcpEgress/Order.antt =====
-- The bytes of a stream on their way from the client's local connection to the upstream one.
use vk_turn_proxy_go.Base.{
  ℕ, zero, suc, ◌^◌, ◌<◌, ◌≡◌, refl, ap, ◌∙◌, true, false, ◌||◌, List, [], ◌∷◌, some, length, take,
  get_elem?, All, ◌==◌, Bool-cases, inl, inr,
}
use vk_turn_proxy_go.Overlay.Frame.{stream_data, Frame}
use vk_turn_proxy_go.Overlay.TcpIngress.{Stream, Failures}
use vk_turn_proxy_go.Overlay.TcpIngress.Loops.{
  write_inbound, write_all, data_frames, count_sent, is_data,
}
use vk_turn_proxy_go.Overlay.TcpIngress.Order.{IsFrom, write_all-data_frames_prefix}
use vk_turn_proxy_go.TunnelServer.TcpEgress.{UpstreamStream}
use vk_turn_proxy_go.TunnelServer.TcpEgress.Streams.{write_frames}

data_frames-kind :
    (cs : List (List ℕ)) (s : Stream) (k : ℕ) (f : Frame)
    → get_elem? (data_frames cs s) k ≡ some f
    → f.kind ≡ stream_data
unfolding data_frames
data_frames-kind [] s k f h = cc
data_frames-kind (c ∷ cs) s zero f h = cc
data_frames-kind (c ∷ cs) s (suc k) f h = data_frames-kind cs (count_sent s) k f h

-- A stream of the client that expects and has written the same.
abbrev as_stream : UpstreamStream → Stream
as_stream u = record {
  id = u.id;
  worker_index = 0;
  outbound = 0;
  inbound = record { buffer = []; capacity = 0 };
  send_sequence = 0;
  recv_sequence = u.recv_sequence;
  registered = true;
  notified = false;
  written = u.written;
}

-- The two writers write the same data frames.
write_frames-write_all :
    (fs : List (Failures × Frame)) (u : UpstreamStream)
    → All (λ (x : Failures × Frame). x.1.kind ≡ stream_data) fs
    → (write_frames fs u).written ≡ (write_all fs (as_stream u)).written
unfolding write_frames write_all write_inbound
write_frames-write_all [] u a = refl
write_frames-write_all ((x, f) ∷ fs) u a =
    let d : is_data f.kind ≡ true = ap is_data a.0 in
    elim (Bool-cases (f.sequence == u.recv_sequence)) [
      | inr h ↦ rw (d, h) refl
      | inl h ↦ elim (Bool-cases (x.deadline || x.write)) [
        | inl g ↦ rw (d, h, g) refl
        | inr g ↦ rw (d, h, g) (write_frames-write_all fs _ a.1)
      ]
    ]

kinds_of_frames :
    (cs : List (List ℕ)) (s : Stream) (fs : List (Failures × Frame))
    → All (λ (x : Failures × Frame). IsFrom (data_frames cs s) x.1) fs
    → All (λ (x : Failures × Frame). x.1.kind ≡ stream_data) fs
kinds_of_frames cs s [] a = tt
kinds_of_frames cs s ((x, f) ∷ fs) a =
    (data_frames-kind cs s a.0.0 f a.0.1, kinds_of_frames cs s fs a.1)

-- Whatever happens on their way to the frames that the client's reader made of a local connection, lost,
-- repeated or out of order, and whatever upstream writes fail, the server's writer of a new stream writes a
-- prefix of what was read, piece by piece, as long as the stream has fewer than 2^64 pieces.
pub write_frames-data_frames :
    (cs : List (List ℕ)) (s : Stream) (u : UpstreamStream) (fs : List (Failures × Frame))
    → length cs < 2 ^ 64
    → s.send_sequence ≡ 0
    → u.recv_sequence ≡ 0
    → u.written ≡ []
    → All (λ (x : Failures × Frame). IsFrom (data_frames cs s) x.1) fs
    → (n : ℕ) × ((write_frames fs u).written ≡ take n cs)
write_frames-data_frames cs s u fs l z r w a =
    let (n, e) = write_all-data_frames_prefix cs s (as_stream u) fs l z r w a in
    (n, write_frames-write_all fs u (kinds_of_frames cs s fs a) ∙ e)
