-- ===== src/Session/Ingresses.antt =====
-- The adapters of internal/overlay as the ingress that internal/session/supervisor.go relies on.
use vk_turn_proxy_go.Base.{ℕ, ◌≡◌, ap, ◌∙◌, subst, sym, ◌==◌, if◌then◌else◌, some, none}
use vk_turn_proxy_go.Overlay.Workers.Routes.{
  route_of, IsValid, set_ready-IsValid, remove-IsValid, route_of-set_ready, route_of-remove,
}
use vk_turn_proxy_go.Overlay.UdpIngress
use vk_turn_proxy_go.Overlay.UdpIngress.{UdpIngress}
use vk_turn_proxy_go.Overlay.TcpIngress
use vk_turn_proxy_go.Overlay.TcpIngress.{TcpIngress}
use vk_turn_proxy_go.Overlay.TcpIngress.Streams.{workers-set_ready, workers-remove}
use vk_turn_proxy_go.Session.Supervisor.{Ingress}
use vk_turn_proxy_go.Session.Supervisor.Invariant.{IngressLaws}

abbrev pub udp_ingress : {Addr : Type 0} → Ingress (UdpIngress Addr)
udp_ingress = record { set_ready = UdpIngress.set_ready; remove = UdpIngress.remove }

module _ {Addr : Type 0} where
  pub udp-set_ready-IsValid :
      (i c : ℕ) (u : UdpIngress Addr)
      → IsValid u.workers
      → IsValid (UdpIngress.set_ready i c u).workers
  unfolding UdpIngress.set_ready
  udp-set_ready-IsValid i c u = set_ready-IsValid i c u.workers

  pub udp-remove-IsValid :
      (i : ℕ) (u : UdpIngress Addr) → IsValid u.workers → IsValid (UdpIngress.remove i u).workers
  unfolding UdpIngress.remove
  udp-remove-IsValid i u = remove-IsValid i u.workers

  pub udp-route-set_ready :
      (i c j : ℕ) (u : UdpIngress Addr)
      → IsValid u.workers
      → route_of j (UdpIngress.set_ready i c u).workers
        ≡ (if i == j then some c else route_of j u.workers)
  unfolding UdpIngress.set_ready
  udp-route-set_ready i c j u = route_of-set_ready i c j u.workers

  pub udp-route-remove :
      (i j : ℕ) (u : UdpIngress Addr)
      → IsValid u.workers
      → route_of j (UdpIngress.remove i u).workers ≡ (if i == j then none else route_of j u.workers)
  unfolding UdpIngress.remove
  udp-route-remove i j u = route_of-remove i j u.workers

  abbrev pub udp_laws : IngressLaws (udp_ingress {Addr = Addr})
  udp_laws = record {
    route = λ i u. route_of i u.workers;
    IsSound = λ u. IsValid u.workers;
    set_ready-IsSound = udp-set_ready-IsValid;
    remove-IsSound = udp-remove-IsValid;
    route-set_ready = udp-route-set_ready;
    route-remove = udp-route-remove;
  }

abbrev pub tcp_ingress : Ingress TcpIngress
tcp_ingress = record { set_ready = TcpIngress.set_ready; remove = TcpIngress.remove }

pub tcp-set_ready-IsValid :
    (i c : ℕ) (u : TcpIngress) → IsValid u.workers → IsValid (TcpIngress.set_ready i c u).workers
tcp-set_ready-IsValid i c u v =
    subst IsValid (sym (workers-set_ready i c u)) (set_ready-IsValid i c u.workers v)

pub tcp-remove-IsValid :
    (i : ℕ) (u : TcpIngress) → IsValid u.workers → IsValid (TcpIngress.remove i u).workers
tcp-remove-IsValid i u v = subst IsValid (sym (workers-remove i u)) (remove-IsValid i u.workers v)

pub tcp-route-set_ready :
    (i c j : ℕ) (u : TcpIngress)
    → IsValid u.workers
    → route_of j (TcpIngress.set_ready i c u).workers
      ≡ (if i == j then some c else route_of j u.workers)
tcp-route-set_ready i c j u v =
    ap (route_of j) (workers-set_ready i c u) ∙ route_of-set_ready i c j u.workers v

pub tcp-route-remove :
    (i j : ℕ) (u : TcpIngress)
    → IsValid u.workers
    → route_of j (TcpIngress.remove i u).workers ≡ (if i == j then none else route_of j u.workers)
tcp-route-remove i j u v = ap (route_of j) (workers-remove i u) ∙ route_of-remove i j u.workers v

abbrev pub tcp_laws : IngressLaws tcp_ingress
tcp_laws = record {
  route = λ i u. route_of i u.workers;
  IsSound = λ u. IsValid u.workers;
  set_ready-IsSound = tcp-set_ready-IsValid;
  remove-IsSound = tcp-remove-IsValid;
  route-set_ready = tcp-route-set_ready;
  route-remove = tcp-route-remove;
}
