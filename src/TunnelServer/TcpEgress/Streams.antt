-- ===== src/TunnelServer/TcpEgress/Streams.antt =====
-- internal/tunnelserver/overlay_session.go: the goroutines of a stream, `runStream` with its reader and its
-- writer. Each has a pointer to its stream, whether the map still has it or not.
use vk_turn_proxy_go.Base.{
  ℕ, ◌+◌, ◌%◌, ◌^◌, Bool, true, false, not, ◌||◌, List, [], ◌∷◌, ◌++◌, Option, none, some, ◌==◌,
  if◌then◌else◌, get_elem?, set,
}
use vk_turn_proxy_go.Base.Result.{Result, ok, err}
use vk_turn_proxy_go.Overlay.Frame.{stream_data, Frame, FrameError, blank, write_frame}
use vk_turn_proxy_go.Overlay.TcpIngress.{Failures}
use vk_turn_proxy_go.Overlay.TcpIngress.Loops.{is_data}
use vk_turn_proxy_go.TunnelServer.TcpEgress.{
  UpstreamStream, TcpEgress, close_stream, handle_frame, close,
}

-- A change through the pointer.
abbrev pub update_found :
    Option UpstreamStream → ℕ → (UpstreamStream → UpstreamStream) → TcpEgress → TcpEgress
update_found none place f e = e
update_found (some s) place f e = record e { opened = set e.opened place (f s) }

unfoldable pub update : ℕ → (UpstreamStream → UpstreamStream) → TcpEgress → TcpEgress
update place f e = update_found (get_elem? e.opened place) place f e

-- `setConn`, of a dial that succeeded.
unfoldable pub set_conn : ℕ → TcpEgress → TcpEgress
unfolding update
set_conn place e = update place (λ s. record s { connected = true }) e

abbrev pub return_found : Option UpstreamStream → TcpEgress → TcpEgress
return_found none e = e
return_found (some s) e = close_stream s.id true e

-- `runStream` returns: its deferred call, by the identifier.
unfoldable pub return_stream : ℕ → TcpEgress → TcpEgress
unfolding close_stream
return_stream place e = return_found (get_elem? e.opened place) e

-- The first `go closeStream` that is due.
abbrev pub close_first : List ℕ → TcpEgress → TcpEgress
close_first [] e = e
close_first (id ∷ rest) e = close_stream id true (record e { closing = rest })

unfoldable pub run_closing : TcpEgress → TcpEgress
unfolding close_stream
run_closing e = close_first e.closing e

abbrev pub upstream_frame : List ℕ → UpstreamStream → Frame
upstream_frame payload s = record (blank stream_data) {
  stream_id = s.id;
  sequence = s.send_sequence;
  payload = payload;
}

abbrev pub is_sent : Result FrameError (Unit {0}) → Bool
is_sent (ok t) = true
is_sent (err x) = false

abbrev pub read_found : Option UpstreamStream → ℕ → List ℕ → TcpEgress → TcpEgress × Bool
read_found none place payload e = (e, false)
read_found (some s) place payload e =
    let (c, r) = write_frame false (upstream_frame payload s) e.endpoint in
    (
      record e {
        opened = set e.opened place (record s { send_sequence = (s.send_sequence + 1) % 2 ^ 64 });
        endpoint = c;
      },
      is_sent r,
    )

-- A round of `runStreamReader` in which `Read` returned some bytes, and whether the frame was sent.
unfoldable pub read_upstream : ℕ → List ℕ → TcpEgress → TcpEgress × Bool
read_upstream place payload e = read_found (get_elem? e.opened place) place payload e

-- A frame that `runStreamWriter` took from the queue, and whether it goes on.
unfoldable pub write_upstream : Failures → Frame → UpstreamStream → UpstreamStream × Bool
write_upstream fails f s =
    if not (is_data f.kind)
    then (s, true)
    else if not (f.sequence == s.recv_sequence)
    then (s, false)
    else let t = record s { recv_sequence = (s.recv_sequence + 1) % 2 ^ 64 } in
      if fails.deadline || fails.write
      then (t, false)
      else (record t { written = s.written ++ f.payload ∷ [] }, true)

abbrev pub write_next : Failures → List Frame → UpstreamStream → UpstreamStream × Bool
write_next fails [] s = (s, true)
write_next fails (f ∷ rest) s = write_upstream fails f (record s { inbound = rest })

-- A round of `runStreamWriter`, of a stream that it points to.
unfoldable pub writer_round : Failures → ℕ → TcpEgress → TcpEgress
unfolding update write_upstream
writer_round fails place e = update place (λ s. (write_next fails s.inbound s).0) e

-- What may happen to the egress next.
pub data Step : Type 0 where
  handles : Frame → Step
  dials : (place : ℕ) → Step
  reads : (place : ℕ) → List ℕ → Step
  writes : Failures → (place : ℕ) → Step
  returns : (place : ℕ) → Step
  closes_first closes_all : Step

unfoldable pub run_step : Step → TcpEgress → TcpEgress
unfolding handle_frame set_conn read_upstream writer_round return_stream run_closing close
run_step (handles f) e = (handle_frame f e).0
run_step (dials place) e = set_conn place e
run_step (reads place payload) e = (read_upstream place payload e).0
run_step (writes fails place) e = writer_round fails place e
run_step (returns place) e = return_stream place e
run_step closes_first e = run_closing e
run_step closes_all e = close e

unfoldable pub run_steps : List Step → TcpEgress → TcpEgress
unfolding run_step
run_steps [] e = e
run_steps (x ∷ xs) e = run_steps xs (run_step x e)

-- `runStreamWriter` over the frames that it takes from the queue.
unfoldable pub write_frames : List (Failures × Frame) → UpstreamStream → UpstreamStream
unfolding write_upstream
write_frames [] s = s
write_frames ((fails, f) ∷ rest) s =
    let (t, on) = write_upstream fails f s in if on then write_frames rest t else t
