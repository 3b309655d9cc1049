-- ===== src/Overlay/TcpIngress/Loops/Reader.antt =====
-- What the reader of a stream queues.
use mathlib.Core.List.{append-nil, append_assoc}
use vk_turn_proxy_go.Base.{
  ℕ, ◌<◌, ◌≡◌, refl, sym, ap, ◌∙◌, true, false, List, [], ◌∷◌, ◌++◌, some, arith, ◌==◌, length, All,
  map,
}
use vk_turn_proxy_go.Base.Dict.{lookup, lookup-insert}
use vk_turn_proxy_go.Overlay.TcpIngress.{
  Stream, TcpIngress, sent, store_stream, queue, send_stream_frame,
}
use vk_turn_proxy_go.Overlay.TcpIngress.Loops.{
  Round, data_frame, count_sent, data_frames, send_chunk, after_chunk, reader_round,
}

-- The rounds of a reader whose reads and sends all succeed.
abbrev pub sends : Round
sends = record { send = sent; notify = sent; cancelled = false }

unfoldable pub read_all : List (List ℕ) → ℕ → TcpIngress → TcpIngress
read_all [] id u = u
read_all (c ∷ cs) id u = read_all cs id (reader_round sends c false id u).0

-- One such round.
reader_round_lem :
    (c : List ℕ) (id : ℕ) (s : Stream) (u : TcpIngress)
    → lookup id u.streams ≡ some s
    → s.registered ≡ true
    → 0 < length c
    → (reader_round sends c false id u).0
      ≡ queue s.outbound (data_frame c s) (store_stream (count_sent s) u)
unfolding reader_round send_chunk after_chunk send_stream_frame
reader_round_lem c id s u e r l =
    let g : (length c == 0) ≡ false = ground arith in rw (e, reader_round) (rw (g, r))

stored :
    (id : ℕ) (s : Stream) (c : List ℕ) (u : TcpIngress)
    → s.id ≡ id
    → lookup id (queue s.outbound (data_frame c s) (store_stream (count_sent s) u)).streams
      ≡ some (count_sent s)
unfolding queue store_stream
stored id s c u k = ground (arith, lookup-insert s.id id (count_sent s) u.streams)

queued_one :
    (s : Stream) (c : List ℕ) (u : TcpIngress)
    → (queue s.outbound (data_frame c s) (store_stream (count_sent s) u)).queued
      ≡ u.queued ++ (s.outbound, data_frame c s) ∷ []
unfolding queue store_stream
queued_one s c u = refl

-- What a stream's reader reads, chunk by chunk, it queues for the stream's worker as data frames
-- numbered from the stream's count on, in order, as long as the stream is open and every send
-- succeeds.
pub queued-read_all :
    (cs : List (List ℕ)) (id : ℕ) (s : Stream) (u : TcpIngress)
    → lookup id u.streams ≡ some s
    → s.id ≡ id
    → s.registered ≡ true
    → All (λ (c : List ℕ). 0 < length c) cs
    → (read_all cs id u).queued ≡ u.queued ++ map (λ f. (s.outbound, f)) (data_frames cs s)
unfolding read_all data_frames
queued-read_all [] id s u e k r a = sym (append-nil u.queued)
queued-read_all (c ∷ cs) id s u e k r a =
    let v : TcpIngress = queue s.outbound (data_frame c s) (store_stream (count_sent s) u) in
    let q : lookup id v.streams ≡ some (count_sent s) = stored id s c u k in
    ap (λ w. (read_all cs id w).queued) (reader_round_lem c id s u e r a.0)
    ∙ queued-read_all cs id (count_sent s) v q k r a.1
    ∙ ap (λ l. l ++ map (λ f. (s.outbound, f)) (data_frames cs (count_sent s))) (queued_one s c u)
    ∙ append_assoc u.queued _ _
