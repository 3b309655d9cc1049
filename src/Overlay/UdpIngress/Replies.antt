-- ===== src/Overlay/UdpIngress/Replies.antt =====
-- Where a datagram goes, and where its reply goes.
use vk_turn_proxy_go.Base.{
  ℕ, ◌%◌, ◌^◌, ◌<◌, ◌≡◌, sym, ◌∙◌, Bool, false, List, [], ◌∷◌, ◌++◌, none, some, arith, ◌==◌,
  ==_refl, if◌then◌else◌, length, get_elem?_total, Bool-cases, Option-cases, inl, inr,
}
use vk_turn_proxy_go.Base.Dict.{lookup, lookup-insert, lookup-delete}
use vk_turn_proxy_go.Overlay.Channel.{HaveRoom, send_to, send_to-HaveRoom}
use vk_turn_proxy_go.Overlay.Workers.{WorkerRoute, WorkerSet, next_worker, route_id_for_worker}
use vk_turn_proxy_go.Overlay.UdpIngress.{
  UdpIngress, Read, received, failed, datagram_frame, forward, receive, remove, deliver, run,
}

-- Indices below 2^64 have route identifiers of their own.
pub route_id_for_worker-injective :
    (i j : ℕ) → i < 2 ^ 64 → j < 2 ^ 64 → route_id_for_worker i ≡ route_id_for_worker j → i ≡ j
unfolding route_id_for_worker
route_id_for_worker-injective i j h k e = omega arith

next_worker-some :
    (s : WorkerSet) → 0 < length s.workers → (r : WorkerRoute) × ((next_worker s).1 ≡ some r)
unfolding next_worker
next_worker-some s h =
    let e : (length s.workers == 0) ≡ false = ground arith in
    let (r, g) = get_elem?_total s.workers (s.next % length s.workers) (omega arith) in (r, rw e g)

module _ {Addr : Type 0} where
  receive-some :
      (payload : List ℕ) (addr : Addr) (u : UdpIngress Addr) (r : WorkerRoute)
      → (next_worker u.workers).1 ≡ some r
      → receive payload addr u
        ≡ forward r payload addr (record u { workers = (next_worker u.workers).0 })
  unfolding receive
  receive-some payload addr u r h = rw (h, receive)

  routes-receive :
      (payload : List ℕ) (addr : Addr) (u : UdpIngress Addr) (r : WorkerRoute) (id : ℕ)
      → (next_worker u.workers).1 ≡ some r
      → lookup id (receive payload addr u).routes
        ≡ (if route_id_for_worker r.index == id then some addr else lookup id u.routes)
  unfolding forward
  routes-receive payload addr u r id h =
      rw (receive-some payload addr u r h)
        (lookup-insert (route_id_for_worker r.index) id addr u.routes)

  queues-receive :
      (payload : List ℕ) (addr : Addr) (u : UdpIngress Addr) (r : WorkerRoute)
      → (next_worker u.workers).1 ≡ some r
      → (receive payload addr u).queues
        ≡ (send_to r.outbound (datagram_frame (route_id_for_worker r.index) payload) u.queues).0
  unfolding forward
  queues-receive payload addr u r h = rw (receive-some payload addr u r h)

  written-receive :
      (payload : List ℕ) (addr : Addr) (u : UdpIngress Addr)
      → (receive payload addr u).written ≡ u.written
  unfolding receive
  written-receive payload addr u = ground arith

  written-deliver :
      (id : ℕ) (payload : List ℕ) (u : UdpIngress Addr)
      → (deliver false (datagram_frame id payload) u).0.written ≡ elim (lookup id u.routes) [
        | none ↦ u.written
        | some addr ↦ u.written ++ (payload, addr) ∷ []
      ]
  unfolding deliver
  written-deliver id payload u = elim (Option-cases (lookup id u.routes)) [
    | inl e ↦ rw e
    | inr (a, e) ↦ rw e
  ]

  -- With a ready worker, a datagram read from the local socket is offered to the queue of the worker
  -- whose turn it is, under that worker's route. A datagram that then comes back by this route is
  -- written to the address that the first came from, and every other route stays as it was.
  pub deliver-receive :
      (payload reply : List ℕ) (addr : Addr) (u : UdpIngress Addr) (id : ℕ)
      → 0 < length u.workers.workers
      → (r : WorkerRoute) × ((next_worker u.workers).1 ≡ some r)
        × ((receive payload addr u).queues
            ≡ (send_to r.outbound
                (datagram_frame (route_id_for_worker r.index) payload)
                u.queues).0)
        × ((deliver false
              (datagram_frame (route_id_for_worker r.index) reply)
              (receive payload addr u)).0.written
            ≡ u.written ++ (reply, addr) ∷ [])
        × (lookup id (receive payload addr u).routes
            ≡ (if route_id_for_worker r.index == id then some addr else lookup id u.routes))
  deliver-receive payload reply addr u id h =
      let (r, e) = next_worker-some u.workers h in
      let own : lookup (route_id_for_worker r.index) (receive payload addr u).routes ≡ some addr =
        routes-receive payload addr u r (route_id_for_worker r.index) e
        ∙ rw (==_refl (route_id_for_worker r.index)) in
      (
        r,
        e,
        queues-receive payload addr u r e,
        written-deliver (route_id_for_worker r.index) reply (receive payload addr u)
            ∙ rw (own, written-receive payload addr u),
        routes-receive payload addr u r id e,
      )

  -- Once worker `i` is removed, what comes back by its route is dropped, and what comes back by the
  -- route of another worker is still written where it was.
  pub deliver-remove :
      (i j : ℕ) (reply : List ℕ) (u : UdpIngress Addr)
      → i < 2 ^ 64
      → j < 2 ^ 64
      → (deliver false (datagram_frame (route_id_for_worker j) reply) (remove i u)).0.written ≡ (
          if i == j
          then u.written
          else (deliver false (datagram_frame (route_id_for_worker j) reply) u).0.written)
  unfolding remove
  deliver-remove i j reply u h k =
      let a = route_id_for_worker i in
      let b = route_id_for_worker j in
      let same : (a == b) ≡ (i == j) = ground (arith, route_id_for_worker-injective i j h k) in
      written-deliver b reply (remove i u)
      ∙ rw (lookup-delete a b u.routes, same)
          (elim (Bool-cases (i == j)) [
            | inl e ↦ rw e
            | inr e ↦ rw e (sym (written-deliver b reply u))
          ])

  receive-HaveRoom :
      (payload : List ℕ) (addr : Addr) (u : UdpIngress Addr)
      → HaveRoom u.queues
      → HaveRoom (receive payload addr u).queues
  unfolding receive forward
  receive-HaveRoom payload addr u h = elim (Option-cases (next_worker u.workers).1) [
    | inl e ↦ rw (e, receive) h
    | inr (r, e) ↦ rw (e, receive) (send_to-HaveRoom r.outbound _ u.queues h)
  ]

  -- Whatever the socket reads, `Run` puts no more into a worker's queue than it has room for.
  pub run-HaveRoom :
      (rounds : List (Bool × Read Addr)) (u : UdpIngress Addr)
      → HaveRoom u.queues
      → HaveRoom (run rounds u).0.queues
  unfolding run
  run-HaveRoom [] u h = h
  run-HaveRoom ((cancelled, received payload addr) ∷ rounds) u h =
      run-HaveRoom rounds (receive payload addr u) (receive-HaveRoom payload addr u h)
  run-HaveRoom ((cancelled, failed) ∷ rounds) u h = h
