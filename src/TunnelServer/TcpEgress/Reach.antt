-- ===== src/TunnelServer/TcpEgress/Reach.antt =====
-- What the egress keeps through every step.
use vk_turn_proxy_go.Base.{
  ℕ, ◌+◌, ◌%◌, ◌^◌, ◌≡◌, ◌≢◌, refl, sym, ap, subst, ◌∙◌, Bool, true, false, not, ◌||◌, List, [],
  ◌∷◌, ◌++◌, Option, none, some, ◌==◌, ltb, arith, if_intro, length, get_elem?, set, Bool-cases,
  inl, inr, get_elem?-set_self, get_elem?-set_ne, get_elem?-append_left, get_elem?-append_end,
  lt-length_of_get_elem?,
}
use vk_turn_proxy_go.Base.Dict.{lookup, lookup-insert, lookup-delete}
use vk_turn_proxy_go.Overlay.Frame.{FrameKind, stream_open, stream_data, stream_close, Frame, Conn}
use vk_turn_proxy_go.Overlay.TcpIngress.{Failures}
use vk_turn_proxy_go.Overlay.TcpIngress.Loops.{is_data}
use vk_turn_proxy_go.TunnelServer.TcpEgress.{
  UpstreamStream, TcpEgress, TcpEgressError, default_tcp_egress_inbound_queue_size, new_tcp_egress,
  close_stream, close_found, close_at, fresh_stream, store_stream, store_found, open_stream,
  write_stream, write_found, queue_inbound_frame, handle_frame, handle_kind, close, close_each,
}
use vk_turn_proxy_go.TunnelServer.TcpEgress.Streams.{
  update, update_found, set_conn, return_stream, return_found, run_closing, close_first,
  read_upstream, read_found, write_upstream, write_next, writer_round, Step, handles, dials, reads,
  writes, returns, closes_first, closes_all, run_step, run_steps,
}

-- The stream at the place has the identifier and is not done.
abbrev pub IsLive : TcpEgress → (id place : ℕ) → Type 0
IsLive e id place =
    (s : UpstreamStream) × (get_elem? e.opened place ≡ some s) × (s.id ≡ id) × (s.done ≡ false)

abbrev Inv : TcpEgress → Type 0
Inv e = (id place : ℕ) → lookup id e.streams ≡ some place → IsLive e id place

-- A stream that keeps its identifier and is not ended.
set-Inv :
    (e t : TcpEgress) (place : ℕ) (s u : UpstreamStream)
    → get_elem? e.opened place ≡ some s
    → u.id ≡ s.id
    → u.done ≡ s.done
    → t.streams ≡ e.streams
    → t.opened ≡ set e.opened place u
    → Inv e
    → Inv t
set-Inv e t place s u g i d m o v id p l =
    let (x, gx, ix, dx) = v id p (sym (ap (lookup id) m) ∙ l) in
    elim (Bool-cases (place == p)) [
      | inl h ↦
          let q : place ≡ p = ground arith in
          let same : s ≡ x = cc in
          (
            u,
            rw (o, sym q)
                (get_elem?-set_self e.opened place u (lt-length_of_get_elem? e.opened place s g)),
            i ∙ (ap (λ (y : UpstreamStream). y.id) same ∙ ix),
            d ∙ (ap (λ (y : UpstreamStream). y.done) same ∙ dx),
          )
      | inr h ↦
          let q : place ≢ p = ground arith in
          (x, rw o (get_elem?-set_ne e.opened place p u q ∙ gx), ix, dx)
    ]

close_at-Inv :
    (o : Option UpstreamStream) (place id : ℕ) (notify : Bool) (e : TcpEgress)
    → lookup id e.streams ≡ some place
    → get_elem? e.opened place ≡ o
    → Inv e
    → Inv (close_at o place id notify e)
close_at-Inv none place id notify e l g v j p k = let (x, gx, ix, dx) = v id place l in cc
close_at-Inv (some s) place id notify e l g v j p k =
    let (x, gx, ix, dx) = v id place l in
    elim (Bool-cases (id == j)) [
      | inl h ↦ let q = sym (lookup-delete id j e.streams) ∙ k in let z = rw h at q in cc
      | inr h ↦
          let q : lookup j e.streams ≡ some p = rw h at (sym (lookup-delete id j e.streams) ∙ k) in
          let (y, gy, iy, dy) = v j p q in
          let apart : place ≢ p = λ w.
            let same : x ≡ y = cc (sym gx ∙ ap (get_elem? e.opened) w ∙ gy) in
            let ids : id ≡ j = sym ix ∙ (ap (λ (t : UpstreamStream). t.id) same ∙ iy) in
            ground arith in
          (y, get_elem?-set_ne e.opened place p _ apart ∙ gy, iy, dy)
    ]

close_found-Inv :
    (o : Option ℕ) (id : ℕ) (notify : Bool) (e : TcpEgress)
    → lookup id e.streams ≡ o
    → Inv e
    → Inv (close_found o id notify e)
close_found-Inv none id notify e l v = v
close_found-Inv (some place) id notify e l v =
    close_at-Inv (get_elem? e.opened place) place id notify e l refl v

close_stream-Inv : (id : ℕ) (notify : Bool) (e : TcpEgress) → Inv e → Inv (close_stream id notify e)
unfolding close_stream
close_stream-Inv id notify e v = close_found-Inv (lookup id e.streams) id notify e refl v

store_fresh-Inv : (id : ℕ) (e : TcpEgress) → Inv e → Inv (store_found none id e).0
store_fresh-Inv id e v j p k =
    let s = fresh_stream id in
    let q = sym (lookup-insert id j (length e.opened) e.streams) ∙ k in
    elim (Bool-cases (id == j)) [
      | inl h ↦
          let z = rw h at q in
          let w : length e.opened ≡ p = cc z in
          (
            s,
            subst (λ n. get_elem? (e.opened ++ s ∷ []) n ≡ some s) w
                (get_elem?-append_end e.opened s),
            ground arith,
            refl,
          )
      | inr h ↦
          let (y, gy, iy, dy) = v j p (rw h at q) in
          (y, get_elem?-append_left e.opened (s ∷ []) p y gy, iy, dy)
    ]

store_found-Inv : (o : Option ℕ) (id : ℕ) (e : TcpEgress) → Inv e → Inv (store_found o id e).0
store_found-Inv (some place) id e v = v
store_found-Inv none id e v = store_fresh-Inv id e v

open_stream-Inv : (id : ℕ) (e : TcpEgress) → Inv e → Inv (open_stream id e).0
unfolding open_stream store_stream
open_stream-Inv id e v =
    let t = store_found (lookup id e.streams) id e in
    if_intro (λ (x : TcpEgress × Option TcpEgressError). Inv x.0) t.1 _ _
      (λ b. store_found-Inv (lookup id e.streams) id e v) (λ b. v)

queue-Inv :
    (o : Option UpstreamStream) (place : ℕ) (f : Frame) (e : TcpEgress)
    → get_elem? e.opened place ≡ o
    → Inv e
    → Inv (queue_inbound_frame o place f e)
queue-Inv none place f e g v = v
queue-Inv (some s) place f e g v =
    let u : UpstreamStream = record s { inbound = s.inbound ++ f ∷ [] } in
    if_intro Inv s.done _ _ (λ b. v)
      (λ b.
        if_intro Inv (ltb (length s.inbound) default_tcp_egress_inbound_queue_size) _ _
          (λ c.
            set-Inv e (record e { opened = set e.opened place u }) place s u g refl refl refl refl
              v)
          (λ c. v))

write_found-Inv : (o : Option ℕ) (f : Frame) (e : TcpEgress) → Inv e → Inv (write_found o f e)
write_found-Inv none f e v = v
write_found-Inv (some place) f e v = queue-Inv (get_elem? e.opened place) place f e refl v

handle_kind-Inv : (k : FrameKind) (f : Frame) (e : TcpEgress) → Inv e → Inv (handle_kind k f e).0
unfolding write_stream
handle_kind-Inv stream_open f e v = open_stream-Inv f.stream_id e v
handle_kind-Inv stream_data f e v = write_found-Inv (lookup f.stream_id e.streams) f e v
handle_kind-Inv stream_close f e v = close_stream-Inv f.stream_id false e v
handle_kind-Inv k f e v = v

close_each-Inv : (ids : List (ℕ × ℕ)) (e : TcpEgress) → Inv e → Inv (close_each ids e)
close_each-Inv [] e v = v
close_each-Inv ((id, place) ∷ rest) e v =
    close_each-Inv rest (close_stream id false e) (close_stream-Inv id false e v)

-- A change through a pointer that keeps the identifier and does not end the stream.
update_found-Inv :
    (o : Option UpstreamStream) (place : ℕ) (f : UpstreamStream → UpstreamStream) (e : TcpEgress)
    → ((s : UpstreamStream) → ((f s).id ≡ s.id) × ((f s).done ≡ s.done))
    → get_elem? e.opened place ≡ o
    → Inv e
    → Inv (update_found o place f e)
update_found-Inv none place f e k g v = v
update_found-Inv (some s) place f e k g v =
    set-Inv e (record e { opened = set e.opened place (f s) }) place s (f s) g (k s).0 (k s).1 refl
      refl v

return_found-Inv : (o : Option UpstreamStream) (e : TcpEgress) → Inv e → Inv (return_found o e)
return_found-Inv none e v = v
return_found-Inv (some s) e v = close_stream-Inv s.id true e v

close_first-Inv : (ids : List ℕ) (e : TcpEgress) → Inv e → Inv (close_first ids e)
close_first-Inv [] e v = v
close_first-Inv (id ∷ rest) e v = close_stream-Inv id true (record e { closing = rest }) v

read_found-Inv :
    (o : Option UpstreamStream) (place : ℕ) (payload : List ℕ) (e : TcpEgress)
    → get_elem? e.opened place ≡ o
    → Inv e
    → Inv (read_found o place payload e).0
read_found-Inv none place payload e g v = v
read_found-Inv (some s) place payload e g v =
    let u : UpstreamStream = record s { send_sequence = (s.send_sequence + 1) % 2 ^ 64 } in
    set-Inv e (read_found (some s) place payload e).0 place s u g refl refl refl refl v

-- Taking a frame keeps who the stream is, and whether it is done.
abbrev Keeps : UpstreamStream → UpstreamStream × Bool → Type 0
Keeps s x = (x.0.id ≡ s.id) × (x.0.done ≡ s.done)

write_upstream-Keeps :
    (fails : Failures) (f : Frame) (s : UpstreamStream) → Keeps s (write_upstream fails f s)
unfolding write_upstream
write_upstream-Keeps fails f s =
    if_intro (Keeps s) (not (is_data f.kind)) _ _ (λ b. (refl, refl))
      (λ b.
        if_intro (Keeps s) (not (f.sequence == s.recv_sequence)) _ _ (λ c. (refl, refl))
          (λ c.
            if_intro (Keeps s) (fails.deadline || fails.write) _ _ (λ d. (refl, refl))
              (λ d. (refl, refl))))

write_next-Keeps :
    (fails : Failures) (fs : List Frame) (s : UpstreamStream) → Keeps s (write_next fails fs s)
write_next-Keeps fails [] s = (refl, refl)
write_next-Keeps fails (f ∷ rest) s = write_upstream-Keeps fails f (record s { inbound = rest })

run_step-Inv : (x : Step) (e : TcpEgress) → Inv e → Inv (run_step x e)
unfolding run_step handle_frame set_conn update read_upstream writer_round return_stream run_closing
    close
run_step-Inv (handles f) e v = handle_kind-Inv f.kind f e v
run_step-Inv (dials place) e v =
    update_found-Inv (get_elem? e.opened place) place (λ s. record s { connected = true }) e
      (λ s. (refl, refl)) refl v
run_step-Inv (reads place payload) e v =
    read_found-Inv (get_elem? e.opened place) place payload e refl v
run_step-Inv (writes fails place) e v =
    update_found-Inv (get_elem? e.opened place) place (λ s. (write_next fails s.inbound s).0) e
      (λ s. write_next-Keeps fails s.inbound s) refl v
run_step-Inv (returns place) e v = return_found-Inv (get_elem? e.opened place) e v
run_step-Inv closes_first e v = close_first-Inv e.closing e v
run_step-Inv closes_all e v = close_each-Inv e.streams e v

run_steps-Inv : (xs : List Step) (e : TcpEgress) → Inv e → Inv (run_steps xs e)
unfolding run_steps
run_steps-Inv [] e v = v
run_steps-Inv (x ∷ xs) e v = run_steps-Inv xs (run_step x e) (run_step-Inv x e v)

new_tcp_egress-Inv : (c : Conn) → Inv (new_tcp_egress c)
unfolding new_tcp_egress lookup
new_tcp_egress-Inv c id place l = cc

-- In whatever order the frames of the client, the upstream connections and the goroutines of the streams
-- act on a new egress, a stream that the map has under an identifier was opened under it and is
-- not done.
pub run_steps-IsLive :
    (c : Conn) (xs : List Step) (id place : ℕ)
    → lookup id (run_steps xs (new_tcp_egress c)).streams ≡ some place
    → IsLive (run_steps xs (new_tcp_egress c)) id place
run_steps-IsLive c xs id place l =
    run_steps-Inv xs (new_tcp_egress c) (new_tcp_egress-Inv c) id place l
