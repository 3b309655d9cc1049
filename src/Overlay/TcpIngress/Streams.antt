-- ===== src/Overlay/TcpIngress/Streams.antt =====
-- The streams that the map holds, and what the goroutines of a stream do to them.
use vk_turn_proxy_go.Base.{
  ℕ, ◌≡◌, refl, sym, ap, ◌∙◌, Bool, true, false, ◌||◌, ◌&&◌, List, [], ◌∷◌, none, some, arith, ◌==◌,
  if◌then◌else◌, Bool-cases, Option-cases, inl, inr,
}
use vk_turn_proxy_go.Base.Dict.{lookup, lookup-insert}
use vk_turn_proxy_go.Overlay.Workers
use vk_turn_proxy_go.Overlay.TcpIngress.{
  Stream, TcpIngress, store_stream, if_registered, lookup_stream, close_stream, close_streams,
  close_worker_streams, worker_streams, set_ready, remove,
}

workers-close_stream : (id : ℕ) (u : TcpIngress) → (close_stream id u).workers ≡ u.workers
unfolding close_stream store_stream
workers-close_stream id u = elim (Option-cases (lookup_stream id u)) [
  | inl e ↦ rw (e, close_stream)
  | inr (s, e) ↦ rw (e, close_stream)
]

workers-close_streams : (ids : List ℕ) (u : TcpIngress) → (close_streams ids u).workers ≡ u.workers
unfolding close_streams
workers-close_streams [] u = refl
workers-close_streams (id ∷ ids) u =
    workers-close_streams ids (close_stream id u) ∙ workers-close_stream id u

pub workers-remove : (i : ℕ) (u : TcpIngress) → (remove i u).workers ≡ Workers.remove i u.workers
unfolding remove close_worker_streams lookup_stream
workers-remove i u = workers-close_streams (worker_streams i u.streams) _

pub workers-set_ready :
    (i c : ℕ) (u : TcpIngress) → (set_ready i c u).workers ≡ Workers.set_ready i c u.workers
unfolding set_ready
workers-set_ready i c u = refl

is_in : ℕ → List ℕ → Bool
is_in j [] = false
is_in j (id ∷ ids) = id == j || is_in j ids

lookup_stream_of :
    (j k : ℕ) (u : TcpIngress) → (j == k) ≡ true → lookup_stream j u ≡ lookup_stream k u
lookup_stream_of j k u e = let q : j ≡ k = ground arith in ap (λ i. lookup_stream i u) q

-- A stream that is closed is out of the map, and every other stream is as it was.
pub lookup_stream-close_stream :
    (id j : ℕ) (u : TcpIngress)
    → lookup_stream j (close_stream id u) ≡ (if id == j then none else lookup_stream j u)
unfolding close_stream lookup_stream if_registered
lookup_stream-close_stream id j u = elim (Option-cases (lookup_stream id u)) [
  | inl e ↦
      rw (e, close_stream)
        (elim (Bool-cases (id == j)) [
          | inl q ↦ rw q (sym (lookup_stream_of id j u q) ∙ e)
          | inr q ↦ rw q
        ])
  | inr (s, e) ↦
      rw (e, close_stream)
        (rw (lookup-insert id j (record s { registered = false }) u.streams)
          (elim (Bool-cases (id == j)) [ inl q ↦ rw q | inr q ↦ rw q ]))
]

-- After `closeWorkerStreams` or `closeAllStreams` of these identifiers.
lookup_stream-close_streams :
    (ids : List ℕ) (j : ℕ) (u : TcpIngress)
    → lookup_stream j (close_streams ids u) ≡ (if is_in j ids then none else lookup_stream j u)
unfolding close_streams is_in
lookup_stream-close_streams [] j u = refl
lookup_stream-close_streams (id ∷ ids) j u =
    lookup_stream-close_streams ids j (close_stream id u)
    ∙ ground (arith, lookup_stream-close_stream id j u)

spared :
    (i j : ℕ) (s : Stream) (m : List (ℕ × Stream))
    → is_in j (worker_streams i m) ≡ false
    → if_registered (lookup j m) ≡ some s
    → (s.worker_index == i) ≡ false
unfolding worker_streams is_in if_registered lookup
spared i j s [] n e = cc
spared i j s ((id, t) ∷ m) n e = elim (Bool-cases (id == j)) [
  | inl q ↦ elim (Bool-cases (t.registered && t.worker_index == i)) [
    | inl p ↦ ground arith
    | inr p ↦ ground arith
  ]
  | inr q ↦ spared i j s m (ground arith) (rw q at e)
]

-- After `Remove` of a worker, the map holds no stream of that worker, and only streams that it held
-- before.
pub lookup_stream-remove :
    (i j : ℕ) (s : Stream) (u : TcpIngress)
    → lookup_stream j (remove i u) ≡ some s
    → ((s.worker_index == i) ≡ false) × (lookup_stream j u ≡ some s)
unfolding remove close_worker_streams lookup_stream
lookup_stream-remove i j s u h =
    let ids = worker_streams i u.streams in
    let v : TcpIngress = record u { workers = Workers.remove i u.workers } in
    let q = lookup_stream-close_streams ids j v in
    elim (Bool-cases (is_in j ids)) [
      | inl e ↦ cc (rw e at (sym h ∙ q))
      | inr e ↦
          let g : lookup_stream j u ≡ some s = sym (rw e at q) ∙ h in
          (spared i j s u.streams e g, g)
    ]
