-- ===== src/Session/Plan/Laws.antt =====
-- What a plan promises, and which configurations have one.
use Prim.Native.String.{String}
use text.Mathlib.Text.{◌==◌ as str_eq}
use text.Mathlib.TextEquality.{eq_iff}
use vk_turn_proxy_go.Base.{
  ◌≡◌, refl, sym, ◌∙◌, ◌⊎◌, inl, inr, ◌↔◌, true, not, ◌&&◌, Option, none, some, arith,
  if◌then◌else◌, Bool-cases, Option-cases, if_intro,
}
use vk_turn_proxy_go.Base.Int.{ℤ, is_pos}
use vk_turn_proxy_go.Base.Text.{trim_space}
use vk_turn_proxy_go.Base.Result.{ok, Result-cases, bind_ok, ok-injective}
use vk_turn_proxy_go.Overlay.Adapter.{
  AdapterKind, adapter_udp, adapter_tcp, normalize_adapter, validate_adapter,
}
use vk_turn_proxy_go.Overlay.Adapter.Laws.{
  IsSupported, validate_adapter_iff, normalize_adapter_idem,
}
use vk_turn_proxy_go.Config.{
  ClientConfig, transport_mode_auto, transport_mode_tcp, transport_mode_udp, validate_client,
}
use vk_turn_proxy_go.Base.Result.{guard_iff}
use vk_turn_proxy_go.Config.Laws.{IsAcceptedClient, validate_client_iff}
use vk_turn_proxy_go.Session.Plan.{
  TurnMode, turn_mode_udp, turn_mode_tcp, peer_mode_dtls, peer_mode_plain, TransportPlan,
  SessionPlan, Dependencies, lift_adapter, resolve_mode, turn_mode_of, bind_ip_of,
  build_transport_plan, build_session_plan, validate_policy,
}

lift_adapter_iff :
    (kind : AdapterKind) (role : String)
    → (lift_adapter (validate_adapter (normalize_adapter kind) role) ≡ ok tt) ↔ IsSupported kind
lift_adapter_iff kind role =
    let v = validate_adapter_iff (normalize_adapter kind) role in
    let q = normalize_adapter_idem kind in
    elim (Result-cases (validate_adapter (normalize_adapter kind) role)) [
      | inl (u, e) ↦ rw e (λ h. rw q at (v.1 e), λ h. refl)
      | inr (x, e) ↦ rw e (λ h. cc, λ h. cc (sym e ∙ v.0 (rw q h)))
    ]

-- The mode of TURN that a transport mode means.
abbrev pub turn_of : String → TurnMode
turn_of mode = if str_eq mode transport_mode_tcp then turn_mode_tcp else turn_mode_udp

abbrev pub IsMode : String → Type 0
IsMode mode =
    (mode ≡ transport_mode_auto) ⊎ ((mode ≡ transport_mode_tcp) ⊎ (mode ≡ transport_mode_udp))

turn_mode_of-resolve_mode :
    (mode : String) → IsMode mode → turn_mode_of (resolve_mode mode) ≡ ok (turn_of mode)
unfolding turn_mode_of resolve_mode
turn_mode_of-resolve_mode mode (inl e) = rw e
turn_mode_of-resolve_mode mode (inr (inl e)) = rw e
turn_mode_of-resolve_mode mode (inr (inr e)) = rw e

IsMode-of_turn_mode_of :
    (mode : String) (t : TurnMode) → turn_mode_of (resolve_mode mode) ≡ ok t → IsMode mode
unfolding turn_mode_of resolve_mode
IsMode-of_turn_mode_of mode t h =
    ground (arith, eq_iff mode "auto", eq_iff mode "tcp", eq_iff mode "udp")

-- TCP streams have DTLS below them.
abbrev pub IsCarried : ClientConfig → Type 0
IsCarried c = (normalize_adapter c.ingress ≡ adapter_udp) ⊎ (c.use_dtls ≡ true)

IsCarried-iff :
    (c : ClientConfig)
    → IsSupported c.ingress
    → (not (str_eq (normalize_adapter c.ingress) adapter_tcp && not c.use_dtls) ≡ true)
      ↔ IsCarried c
IsCarried-iff c s = ground (
  arith,
  eq_iff (normalize_adapter c.ingress) "udp",
  eq_iff (normalize_adapter c.ingress) "tcp",
  eq_iff "udp" "tcp",
)

is_pos_or_default : (z d : ℤ) → is_pos d ≡ true → is_pos (if is_pos z then z else d) ≡ true
is_pos_or_default z d h = if_intro (λ w. is_pos w ≡ true) (is_pos z) z d (λ e. e) (λ e. h)

module _ {Ip : Type 0} (parse_ip : String → Option Ip) where
  -- No address to bind to, or a literal one.
  abbrev pub IsBindable : String → Type 0
  IsBindable t = (trim_space t ≡ "") ⊎ ((ip : Ip) × (parse_ip (trim_space t) ≡ some ip))

  bind_ip_of_iff : (t : String) → ((b : Option Ip) × (bind_ip_of parse_ip t ≡ ok b)) ↔ IsBindable t
  unfolding bind_ip_of
  bind_ip_of_iff t = elim (Bool-cases (str_eq (trim_space t) "")) [
    | inl e ↦
        rw (e, bind_ip_of) (λ h. inl (ground (arith, eq_iff (trim_space t) "")), λ h. (none, refl))
    | inr e ↦ elim (Option-cases (parse_ip (trim_space t))) [
      | inl q ↦ rw (e, q, bind_ip_of) (λ h. cc, λ h. ground (arith, eq_iff (trim_space t) ""))
      | inr (ip, q) ↦ rw (e, q, bind_ip_of) (λ h. inr (ip, refl), λ h. (some ip, refl))
    ]
  ]

  abbrev pub IsBuildable : ClientConfig → Type 0
  IsBuildable c = IsSupported c.ingress × IsMode c.mode × IsCarried c × IsBindable c.bind_interface

  abbrev planned : ClientConfig → Option Ip → TransportPlan Ip
  planned c b = record {
    ingress = normalize_adapter c.ingress;
    mode = resolve_mode c.mode;
    turn_mode = turn_of c.mode;
    peer_mode = if c.use_dtls then peer_mode_dtls else peer_mode_plain;
    bind_ip = b;
  }

  planned_of :
      (c : ClientConfig)
      → IsBuildable c
      → (b : Option Ip) × (build_transport_plan parse_ip c ≡ ok (planned c b))
  unfolding build_transport_plan
  planned_of c h =
      let (b, k) = (bind_ip_of_iff c.bind_interface).1 h.3 in
      let carried = (IsCarried-iff c h.0).1 h.2 in
      (
        b,
        rw ((lift_adapter_iff c.ingress "client ingress").1 h.0)
            (rw (turn_mode_of-resolve_mode c.mode h.1) (rw carried (rw k))),
      )

  build_transport_plan_iff :
      (c : ClientConfig)
      → ((t : TransportPlan Ip) × (build_transport_plan parse_ip c ≡ ok t)) ↔ IsBuildable c
  unfolding build_transport_plan
  build_transport_plan_iff c = (
    λ h.
        let (u, e, r) = bind_ok _ _ h.0 h.1 in
        let (m, f, s) = bind_ok _ _ h.0 r in
        let (v, g, q) = bind_ok _ _ h.0 s in
        let (b, k, p) = bind_ok _ _ h.0 q in
        let supported = (lift_adapter_iff c.ingress "client ingress").0 e in
        (
          supported,
          IsMode-of_turn_mode_of c.mode m f,
          (IsCarried-iff c supported).0 ((guard_iff _ _).0 g),
          (bind_ip_of_iff c.bind_interface).0 (b, k),
        ),
    λ h. let (b, g) = planned_of c h in (planned c b, g),
  )

  transport_of :
      (c : ClientConfig) (t : TransportPlan Ip)
      → build_transport_plan parse_ip c ≡ ok t
      → (b : Option Ip) × (t ≡ planned c b)
  transport_of c t h =
      let (b, g) = planned_of c ((build_transport_plan_iff c).0 (t, h)) in
      (b, ok-injective (sym h ∙ g))

  -- A configuration that the policy accepts: it passes the client's checks, has DTLS below a TCP
  -- ingress, and its bind interface is blank or a literal address. The policy accepts no other.
  pub validate_policy_iff :
      (c : ClientConfig)
      → (validate_policy parse_ip c ≡ ok tt)
        ↔ (IsAcceptedClient c × (IsCarried c × IsBindable c.bind_interface))
  unfolding validate_policy build_session_plan
  validate_policy_iff c =
      let v = validate_client_iff c in
      let t = build_transport_plan_iff c in
      elim (Result-cases (validate_client c)) [
        | inr (x, e) ↦ rw e (λ h. cc, λ h. cc (sym e ∙ v.1 h.0))
        | inl (tt, e) ↦
            let a = v.0 e in
            elim (Result-cases (build_transport_plan parse_ip c)) [
              | inl (q, f) ↦ let b = t.0 (q, f) in rw (e, f) (λ h. (a, (b.2, b.3)), λ h. refl)
              | inr (x, f) ↦
                  rw (e, f)
                    (
                      λ h. cc,
                      λ h.
                          let (q, g) = t.1 (a.1.1.1.1.0, a.1.1.1.1.1.1.0, h.1.0, h.1.1) in
                          cc (sym f ∙ g),
                    )
            ]
      ]

  peer_of :
      (c : ClientConfig)
      → IsCarried c
      → (normalize_adapter c.ingress ≡ adapter_udp)
        ⊎ ((if c.use_dtls then peer_mode_dtls else peer_mode_plain) ≡ peer_mode_dtls)
  peer_of c h = ground arith

  -- A plan that is built keeps the number of connections, waits and restarts by positive values
  -- only, runs an adapter that is supported, by its usual name, over the mode of TURN that the
  -- configuration means, and has DTLS peers unless its ingress is UDP.
  pub build_session_plan_lem :
      (c : ClientConfig) (deps : Dependencies) (p : SessionPlan Ip)
      → build_session_plan parse_ip c deps ≡ ok p
      → (p.connections ≡ c.connections)
        × (is_pos p.restart_backoff ≡ true)
        × (is_pos p.max_worker_restarts ≡ true)
        × IsSupported c.ingress
        × (p.transport.ingress ≡ normalize_adapter c.ingress)
        × (p.transport.turn_mode ≡ turn_of c.mode)
        × ((p.transport.ingress ≡ adapter_udp) ⊎ (p.transport.peer_mode ≡ peer_mode_dtls))
  unfolding build_session_plan
  build_session_plan_lem c deps p h = elim (Result-cases (build_transport_plan parse_ip c)) [
    | inr (x, f) ↦ cc (rw f at h)
    | inl (q, f) ↦
        let s = (build_transport_plan_iff c).0 (q, f) in
        let (b, g) = transport_of c q f in
        let e = ok-injective (rw f at h) in
        rw (← e, g)
          (
            refl,
            is_pos_or_default deps.restart_backoff _ refl,
            is_pos_or_default deps.max_worker_restarts _ refl,
            s.0,
            refl,
            refl,
            peer_of c s.2,
          )
  ]
