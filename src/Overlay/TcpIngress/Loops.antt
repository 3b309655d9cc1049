-- ===== src/Overlay/TcpIngress/Loops.antt =====
-- internal/overlay/tcp_ingress.go: the two goroutines of a stream. `runStreamWriter` writes what
-- comes from the peer to the local connection, and `runStreamReader` sends what it reads there. A
-- goroutine has a pointer to its stream, so it goes on with one that left the map. A write that
-- fails may have written a part of its bytes, which is not recorded.
pub mod Reader
use vk_turn_proxy_go.Base.{
  ℕ, ◌+◌, ◌%◌, ◌^◌, Bool, true, false, not, ◌||◌, List, [], ◌∷◌, ◌++◌, none, some, ◌==◌,
  if◌then◌else◌, length,
}
use vk_turn_proxy_go.Base.Dict.{lookup}
use vk_turn_proxy_go.Overlay.Frame.{FrameKind, stream_data, Frame, blank}
use vk_turn_proxy_go.Overlay.TcpIngress.{
  Stream, TcpIngress, Wait, Failures, store_stream, close_stream, send_stream_frame,
  notify_remote_close, abandon,
}

abbrev pub is_data : FrameKind → Bool
is_data stream_data = true
is_data _ = false

-- What `runStreamWriter` does with a data frame, and whether it goes on.
unfoldable pub write_inbound : Failures → Frame → Stream → Stream × Bool
write_inbound fails f s =
    if not (f.sequence == s.recv_sequence)
    then (s, false)
    else let t = record s { recv_sequence = (s.recv_sequence + 1) % 2 ^ 64 } in
      if fails.deadline || fails.write
      then (t, false)
      else (record t { written = s.written ++ f.payload ∷ [] }, true)

-- The writer over the data frames that it takes from the queue.
unfoldable pub write_all : List (Failures × Frame) → Stream → Stream
unfolding write_inbound
write_all [] s = s
write_all ((fails, f) ∷ rest) s =
    let (t, on) = write_inbound fails f s in if on then write_all rest t else t

take_frame : Wait → Failures → Stream → List Frame → TcpIngress → TcpIngress × Bool
unfolding store_stream write_inbound abandon
take_frame w fails s [] u = (u, true)
take_frame w fails s (f ∷ rest) u =
    let t = record s { inbound = record s.inbound { buffer = rest } } in
    if not (is_data f.kind)
    then (store_stream t u, true)
    else let (v, on) = write_inbound fails f t in
      let stored = store_stream v u in if on then (stored, true) else (abandon w v stored, false)

-- A round of `runStreamWriter` that takes a frame from the queue, if there is one.
unfoldable pub writer_round : Wait → Failures → ℕ → TcpIngress → TcpIngress × Bool
unfolding take_frame
writer_round w fails id u = elim (lookup id u.streams) [
  | none ↦ (u, false)
  | some s ↦ take_frame w fails s s.inbound.buffer u
]

abbrev pub data_frame : List ℕ → Stream → Frame
data_frame payload s = record (blank stream_data) {
  stream_id = s.id;
  sequence = s.send_sequence;
  payload = payload;
}

-- `stream.sendSequence++`.
abbrev pub count_sent : Stream → Stream
count_sent s = record s { send_sequence = (s.send_sequence + 1) % 2 ^ 64 }

-- The frames that `runStreamReader` makes of what it reads.
unfoldable pub data_frames : List (List ℕ) → Stream → List Frame
data_frames [] s = []
data_frames (c ∷ cs) s = data_frame c s ∷ data_frames cs (count_sent s)

-- How the two calls that may wait end in a round of the reader, and whether the context was
-- cancelled.
pub record Round : Type 0 where
  pub send : Wait
  pub notify : Wait
  pub cancelled : Bool

-- The part of a round for an error of `Read`, then the deferred `closeStream`.
end_reader : Round → Stream → TcpIngress → TcpIngress
unfolding notify_remote_close close_stream
end_reader r s u = close_stream s.id (if s.registered then notify_remote_close r.notify s u else u)

-- The part for bytes that were read, and whether the round goes on.
pub send_chunk : Round → List ℕ → Stream → TcpIngress → TcpIngress × Bool
unfolding send_stream_frame store_stream notify_remote_close close_stream
send_chunk r payload s u =
    if not s.registered
    then (close_stream s.id u, false)
    else let t = count_sent s in
      let (v, ok) = send_stream_frame r.send s.outbound (data_frame payload s) (store_stream t u) in
      if ok
      then (v, true)
      else (close_stream s.id (if r.cancelled then v else notify_remote_close r.notify t v), false)

-- The rest of a round: it ends the reader if `Read` failed.
pub after_chunk : Round → Bool → ℕ → TcpIngress → TcpIngress × Bool
unfolding end_reader
after_chunk r ended id u =
    if ended
    then elim (lookup id u.streams) [ none ↦ (u, false) | some s ↦ (end_reader r s u, false) ]
    else (u, true)

-- A round of `runStreamReader`: the bytes that `Read` returned, and whether it failed.
unfoldable pub reader_round : Round → List ℕ → Bool → ℕ → TcpIngress → TcpIngress × Bool
unfolding send_chunk after_chunk
reader_round r payload ended id u = elim (lookup id u.streams) [
  | none ↦ (u, false)
  | some s ↦
      if length payload == 0
      then after_chunk r ended id u
      else let (v, on) = send_chunk r payload s u in
        if on then after_chunk r ended id v else (v, false)
]
