-- ===== src/TunnelServer/Handshake.antt =====
-- internal/tunnelserver/overlay_session.go: newServerOverlaySession. `reason` gives the text of an
-- error, and whether a call on the socket or the dial of the upstream address fails is an argument.
use Prim.Native.String.{String}
use vk_turn_proxy_go.Base.{
  ℕ, ◌≡◌, ◌∙◌, sym, ap, inl, inr, Bool, true, false, not, List, [], ◌∷◌, ◌++◌, Option, some, arith,
  if◌then◌else◌, if_intro,
}
use vk_turn_proxy_go.Base.Result.{Result, ok, err, Result-cases}
use vk_turn_proxy_go.Overlay.Adapter.{
  AdapterKind, is_udp, is_tcp, normalize_adapter, supported_pair,
}
use vk_turn_proxy_go.Overlay.Adapter.Laws.{IsSupported, supported_pair_iff, normalize_adapter_idem}
use vk_turn_proxy_go.Overlay.Frame.RoundTrip.{HasWords}
use vk_turn_proxy_go.Overlay.Frame.Sizes.{IsUp, read_frame-write_frame}
use vk_turn_proxy_go.Overlay.Frame.{
  FrameKind, hello, hello_ack, hello_reject, Frame, blank, FrameError, Conn, read_frame,
  write_frame,
}

pub data InitError : Type 0 where
  deadline_failed : InitError
  hello_unread : FrameError → InitError
  hello_expected : FrameKind → InitError
  unsupported_adapter_pair : AdapterKind → AdapterKind → InitError
  unsupported_egress : AdapterKind → InitError
  upstream_dial_failed : InitError
  ack_failed : FrameError → InitError

-- `initErrorStage`.
abbrev pub init_error_stage : InitError → String
init_error_stage upstream_dial_failed = "upstream_dial"
init_error_stage _ = "peer_setup"

pub data Egress : Type 0 where
  udp_egress tcp_egress : Egress

-- What the socket and the dial of the upstream address do.
pub record Setup : Type 0 where
  pub deadline_fails : Bool
  pub read : Option (List ℕ)
  pub dial_fails : Bool

abbrev pub is_hello : FrameKind → Bool
is_hello hello = true
is_hello _ = false

abbrev pub ack_frame : AdapterKind → Frame
ack_frame egress = record (blank hello_ack) { adapter = egress }

pub new_egress_adapter : Bool → AdapterKind → Result InitError Egress
unfolding is_udp is_tcp
new_egress_adapter dial_fails egress =
    if is_udp (normalize_adapter egress)
    then (if dial_fails then err upstream_dial_failed else ok udp_egress)
    else if is_tcp (normalize_adapter egress)
    then ok tcp_egress
    else err (unsupported_egress egress)

new_egress_adapter_of :
    (egress : AdapterKind)
    → IsSupported egress
    → (a : Egress) × (new_egress_adapter false egress ≡ ok a)
unfolding new_egress_adapter
new_egress_adapter_of egress (inl u) = (udp_egress, rw u)
new_egress_adapter_of egress (inr t) = (tcp_egress, rw t)

module _ (reason : InitError → List ℕ) where
  -- The hello is answered by a rejection, whose own failure is ignored.
  pub reject : InitError → Conn → Conn × Result InitError Egress
  reject e c = ((write_frame false (record (blank hello_reject) { reason = reason e }) c).0, err e)

  pub acknowledge : AdapterKind → Egress → Conn → Conn × Result InitError Egress
  acknowledge egress a c =
      let (d, r) = write_frame false (ack_frame (normalize_adapter egress)) c in
      elim r [ ok u ↦ (d, ok a) | err x ↦ (d, err (ack_failed x)) ]

  pub on_hello : Bool → AdapterKind → Frame → Conn → Conn × Result InitError Egress
  unfolding new_egress_adapter reject acknowledge
  on_hello dial_fails egress f c =
      if not (is_hello f.kind)
      then (c, err (hello_expected f.kind))
      else if not (supported_pair (normalize_adapter f.adapter) (normalize_adapter egress))
      then reject
          (unsupported_adapter_pair (normalize_adapter f.adapter) (normalize_adapter egress)) c
      else elim (new_egress_adapter dial_fails egress) [
        | err e ↦ reject e c
        | ok a ↦ acknowledge egress a c
      ]

  unfoldable pub new_server_overlay_session :
      Setup → AdapterKind → Conn → Conn × Result InitError Egress
  unfolding on_hello
  new_server_overlay_session s egress c =
      if s.deadline_fails then (c, err deadline_failed) else elim (read_frame s.read) [
        | err x ↦ (c, err (hello_unread x))
        | ok f ↦ on_hello s.dial_fails egress f c
      ]

  -- What a result that is a session says of the hello and of the answer.
  abbrev Accepts : Setup → AdapterKind → Conn → Conn × Result InitError Egress → Type 0
  Accepts s egress c (d, err e) = Unit
  Accepts s egress c (d, ok a) =
      (f : Frame) × (read_frame s.read ≡ ok f)
      × (is_hello f.kind ≡ true)
      × IsSupported f.adapter
      × (normalize_adapter f.adapter ≡ normalize_adapter egress)
      × (write_frame false (ack_frame (normalize_adapter egress)) c ≡ (d, ok tt))

  same_adapter :
      (k egress : AdapterKind)
      → supported_pair (normalize_adapter k) (normalize_adapter egress) ≡ true
      → IsSupported k × (normalize_adapter k ≡ normalize_adapter egress)
  same_adapter k egress h =
      let (t, e) = (supported_pair_iff (normalize_adapter k) (normalize_adapter egress)).0 h in
      let p = normalize_adapter_idem k in
      let q = normalize_adapter_idem egress in (rw p at t, sym p ∙ e ∙ q)

  acknowledge-Accepts :
      (s : Setup) (egress : AdapterKind) (a : Egress) (c : Conn) (f : Frame)
      → read_frame s.read ≡ ok f
      → is_hello f.kind ≡ true
      → IsSupported f.adapter × (normalize_adapter f.adapter ≡ normalize_adapter egress)
      → Accepts s egress c (acknowledge egress a c)
  unfolding acknowledge
  acknowledge-Accepts s egress a c f e h t =
      let w = write_frame false (ack_frame (normalize_adapter egress)) c in
      elim (Result-cases w.1) [
        | inl (tt, g) ↦ rw (g, acknowledge) (f, e, h, t.0, t.1, ap (λ r. (w.0, r)) g)
        | inr (x, g) ↦ rw (g, acknowledge) tt
      ]

  new_server_overlay_session-Accepts :
      (s : Setup) (egress : AdapterKind) (c : Conn)
      → Accepts s egress c (new_server_overlay_session s egress c)
  unfolding new_server_overlay_session on_hello reject
  new_server_overlay_session-Accepts s egress c =
      let P : Conn × Result InitError Egress → Type 0 = Accepts s egress c in
      if_intro P s.deadline_fails _ _ (λ d. tt)
        (λ d. elim (Result-cases (read_frame s.read)) [
          | inr (x, e) ↦ rw e tt
          | inl (f, e) ↦ rw e (
              if_intro P (not (is_hello f.kind)) _ _ (λ h. tt)
                (λ h.
                  if_intro P
                    (not (supported_pair (normalize_adapter f.adapter) (normalize_adapter egress)))
                    _ _ (λ q. tt)
                    (λ q. elim (Result-cases (new_egress_adapter s.dial_fails egress)) [
                      | inr (x, g) ↦ rw g tt
                      | inl (a, g) ↦ rw g (
                          acknowledge-Accepts s egress a c f e (ground arith)
                            (same_adapter f.adapter egress (ground arith)))
                    ])))
        ])

  -- The server begins a session only after a hello of a supported adapter that is its own, and
  -- once it has written the acknowledgement, which names that adapter.
  pub new_server_overlay_session-ok :
      (s : Setup) (egress : AdapterKind) (c d : Conn) (a : Egress)
      → new_server_overlay_session s egress c ≡ (d, ok a)
      → (f : Frame) × (read_frame s.read ≡ ok f)
        × (is_hello f.kind ≡ true)
        × IsSupported f.adapter
        × (normalize_adapter f.adapter ≡ normalize_adapter egress)
        × (write_frame false (ack_frame (normalize_adapter egress)) c ≡ (d, ok tt))
  new_server_overlay_session-ok s egress c d a h =
      rw h at (new_server_overlay_session-Accepts s egress c)

  acknowledge_lem :
      (egress : AdapterKind) (a : Egress) (c d : Conn)
      → write_frame false (ack_frame (normalize_adapter egress)) c ≡ (d, ok tt)
      → acknowledge egress a c ≡ (d, ok a)
  unfolding acknowledge
  acknowledge_lem egress a c d e = rw (ap (λ w. w.1) e, acknowledge) (ap (λ w. (w.0, ok a)) e)

  -- A hello with the server's own supported adapter, on a connection that works, begins a session
  -- once the upstream address is dialled; the client gets one message, which reads as the
  -- acknowledgement of that adapter.
  pub new_server_overlay_session_of :
      (s : Setup) (egress : AdapterKind) (c : Conn) (f : Frame)
      → s.deadline_fails ≡ false
      → s.dial_fails ≡ false
      → read_frame s.read ≡ ok f
      → is_hello f.kind ≡ true
      → IsSupported egress
      → normalize_adapter f.adapter ≡ normalize_adapter egress
      → IsUp c
      → (a : Egress) × (bytes : List ℕ) × (new_server_overlay_session s egress c
          ≡ (record c { sent = c.sent ++ bytes ∷ [] }, ok a))
        × (read_frame (some bytes) ≡ ok (ack_frame (normalize_adapter egress)))
  unfolding new_server_overlay_session on_hello
  new_server_overlay_session_of s egress c f d l e h t q up =
      let n = normalize_adapter egress in
      let idem = normalize_adapter_idem egress in
      let words : HasWords (ack_frame n) = record {
        route_range = omega arith;
        stream_range = omega arith;
        sequence_range = omega arith;
      } in
      let own : IsSupported n = rw idem t in
      let (bytes, g, r) = read_frame-write_frame false (ack_frame n) c words own (omega arith) up in
      let paired : supported_pair (normalize_adapter f.adapter) n ≡ true =
        (supported_pair_iff (normalize_adapter f.adapter) n).1 (rw (q, idem) t, rw q) in
      let (a, p) = new_egress_adapter_of egress t in
      (
        a,
        bytes,
        rw (d, e) (rw h (rw (paired, l) (rw p (acknowledge_lem egress a c _ g)))),
        rw idem at r,
      )
